-- ===== src/E2e/Audit/Contained.antt =====
-- The scripts of the module above do nothing but what `Contained` allows.
use stir_main.Base.{String}
use stir_main.Json.{Json}
use stir_main.Host.Emits.{Emits}
use stir_main.E2e.Contained.{Contained, contained_rules}
use stir_main.E2e.EconomicExchange.Steps.Contained.{
  new_keypair-Contained, sign_authorization-Contained,
}
use stir_main.E2e.Audit.OpenAndAccept.{make_user, open_and_accept, fault_once, test_host, accepted}
use stir_main.E2e.Audit.ActivateEconomic.{run_exchange, activate_economic}
use stir_main.E2e.Audit.TradeWanted.{refuse_over_floor, trade_wanted}
use stir_main.E2e.Audit.TradeOffer.{trade_again, trade_offer}
use stir_main.E2e.Audit.{main}
use stir_main.Host.{Reply, replied, unreachable}
use stir_main.Host.Emits.{Emits-query}
use stir_main.Py.Emits.{Emits-unless}
use stir_main.E2e.Contained.{asked_stack}

accepted-Contained : (reply : Reply) → Emits Contained (accepted reply)
unfolding accepted
accepted-Contained unreachable = search contained_rules
accepted-Contained (replied status text) = search (contained_rules, Emits-unless) depth 20

fault_once-Contained : (mode : String) → Emits Contained (fault_once mode)
unfolding fault_once
fault_once-Contained mode =
    search (contained_rules, accepted-Contained, Emits-query, asked_stack) depth 40

test_host-Contained : Emits Contained test_host
unfolding test_host
test_host-Contained = search contained_rules depth 40

make_user-Contained :
    (admin : Json) (tenant : String) (role_id : Json) (label suffix : String)
    → Emits Contained (make_user admin tenant role_id label suffix)
unfolding make_user
make_user-Contained admin tenant role_id label suffix = search contained_rules depth 200 fits 20000

open_and_accept-Contained :
    (base_a : String) (ana pedro : Json) (direction title category : String)
    (first_amount counter_amount : Json)
    → Emits Contained
        (open_and_accept base_a ana pedro direction title category first_amount counter_amount)
unfolding open_and_accept
open_and_accept-Contained base_a ana pedro direction title category first_amount counter_amount =
    search contained_rules depth 200 fits 20000

run_exchange-Contained :
    (base_a : String) (initiator_session owner_session agreement_id : Json)
    (initiator_key owner_key : String × String × Json) (fault_plan : Json)
    → Emits Contained (
        run_exchange base_a initiator_session owner_session agreement_id initiator_key owner_key
          fault_plan)
unfolding run_exchange
run_exchange-Contained base_a initiator_session owner_session agreement_id initiator_key owner_key
      fault_plan =
    search (contained_rules, sign_authorization-Contained, fault_once-Contained) depth 200 fits
      20000

activate_economic-Contained :
    (base_a : String) (session : Json) → Emits Contained (activate_economic base_a session)
unfolding activate_economic
activate_economic-Contained base_a session =
    search (contained_rules, new_keypair-Contained) depth 200 fits 20000

refuse_over_floor-Contained :
    (suffix tenant_a : String) (ana pedro : Json) (base_a : String)
    (ana_key pedro_key : String × String × Json) (ana_final pedro_final : Json)
    → Emits Contained
        (refuse_over_floor suffix tenant_a ana pedro base_a ana_key pedro_key ana_final pedro_final)
unfolding refuse_over_floor
refuse_over_floor-Contained suffix tenant_a ana pedro base_a ana_key pedro_key ana_final
      pedro_final =
    search (contained_rules, sign_authorization-Contained, open_and_accept-Contained) depth 200 fits
      20000

trade_wanted-Contained :
    (suffix tenant_a : String) (ana pedro : Json) (base_a : String)
    (ana_key pedro_key : String × String × Json) (ana_after pedro_after : Json)
    → Emits Contained
        (trade_wanted suffix tenant_a ana pedro base_a ana_key pedro_key ana_after pedro_after)
unfolding trade_wanted
trade_wanted-Contained suffix tenant_a ana pedro base_a ana_key pedro_key ana_after pedro_after =
    search
      (
        contained_rules, open_and_accept-Contained, run_exchange-Contained,
        refuse_over_floor-Contained,
      )
      depth 200 fits 20000

trade_again-Contained :
    (suffix tenant_a : String) (ana pedro : Json) (base_a : String)
    (ana_key pedro_key : String × String × Json)
    (agreement trade receipt_sequence receipt_digest ana_after pedro_after : Json)
    → Emits Contained (
        trade_again suffix tenant_a ana pedro base_a ana_key pedro_key agreement trade
          receipt_sequence receipt_digest ana_after pedro_after)
unfolding trade_again
trade_again-Contained suffix tenant_a ana pedro base_a ana_key pedro_key agreement trade
      receipt_sequence receipt_digest ana_after pedro_after =
    search (contained_rules, trade_wanted-Contained) depth 200 fits 20000

trade_offer-Contained :
    (suffix tenant_a : String) (ana pedro : Json) (base_a : String)
    (ana_key pedro_key : String × String × Json)
    → Emits Contained (trade_offer suffix tenant_a ana pedro base_a ana_key pedro_key)
unfolding trade_offer
trade_offer-Contained suffix tenant_a ana pedro base_a ana_key pedro_key =
    search
      (contained_rules, open_and_accept-Contained, run_exchange-Contained, trade_again-Contained)
      depth 200 fits 20000

pub main-Contained : Emits Contained main
unfolding main
main-Contained =
    search
      (
        contained_rules, test_host-Contained, make_user-Contained, activate_economic-Contained,
        trade_offer-Contained,
      )
      depth 200 fits 20000
