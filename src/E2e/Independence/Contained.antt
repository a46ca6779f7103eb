-- ===== src/E2e/Independence/Contained.antt =====
-- The scripts of the module above do nothing but what `Contained` allows.
use stir_main.Base.{String}
use stir_main.Json.{Json}
use stir_main.Host.Emits.{Emits}
use stir_main.E2e.Contained.{Contained, contained_rules}
use stir_main.E2e.EconomicExchange.Steps.Contained.{
  make_user-Contained, activate_economic-Contained,
}
use stir_main.E2e.References.Contained.{fixtures-Contained}
use stir_main.E2e.Uuid7.Contained.{uuid7-Contained}
use stir_main.E2e.Independence.Relate.{participant_id, confirm_related, agree_and_observe, relate}
use stir_main.E2e.Independence.{ask_before_and_after, main}

participant_id-Contained :
    (tenant : String) (user_id : Json) → Emits Contained (participant_id tenant user_id)
unfolding participant_id
participant_id-Contained tenant user_id = search contained_rules depth 200 fits 20000

confirm_related-Contained :
    (admin : Json) (tenant : String) (community : Json) (participant risk_subject reason : String)
    → Emits Contained (confirm_related admin tenant community participant risk_subject reason)
unfolding confirm_related
confirm_related-Contained admin tenant community participant risk_subject reason =
    search (contained_rules, uuid7-Contained) depth 200 fits 20000

agree_and_observe-Contained :
    (base : String) (pedro carlos bea pedro_user carlos_user a : Json) (other_base : String)
    → Emits Contained (agree_and_observe base pedro carlos bea pedro_user carlos_user a other_base)
unfolding agree_and_observe
agree_and_observe-Contained base pedro carlos bea pedro_user carlos_user a other_base =
    search contained_rules depth 200 fits 20000

relate-Contained :
    (tenant base : String) (pedro carlos bea admin community pedro_user carlos_user a : Json)
    (pedro_participant carlos_participant other_base : String)
    → Emits Contained (
        relate tenant base pedro carlos bea admin community pedro_user carlos_user a
          pedro_participant carlos_participant other_base)
unfolding relate
relate-Contained tenant base pedro carlos bea admin community pedro_user carlos_user a
      pedro_participant carlos_participant other_base =
    search
      (contained_rules, uuid7-Contained, confirm_related-Contained, agree_and_observe-Contained)
      depth 200 fits 20000

ask_before_and_after-Contained :
    (tenant base : String) (pedro carlos bea admin community pedro_user carlos_user a : Json)
    → Emits Contained
        (ask_before_and_after tenant base pedro carlos bea admin community pedro_user carlos_user a)
unfolding ask_before_and_after
ask_before_and_after-Contained tenant base pedro carlos bea admin community pedro_user carlos_user
      a =
    search
      (contained_rules, activate_economic-Contained, participant_id-Contained, relate-Contained)
      depth 200 fits 20000

pub main-Contained : Emits Contained main
unfolding main
main-Contained =
    search
      (contained_rules, make_user-Contained, fixtures-Contained, ask_before_and_after-Contained)
      depth 200 fits 20000
