-- ===== src/E2e/EconomicExchange/Contained.antt =====
-- The scripts of the module above do nothing but what `Contained` allows.
use stir_main.Base.{String}
use stir_main.Json.{Json}
use stir_main.Host.Emits.{Emits}
use stir_main.E2e.Contained.{Contained, contained_rules}
use stir_main.E2e.EconomicExchange.Steps.Contained.{
  make_user-Contained, open_and_accept-Contained, run_exchange-Contained,
  activate_economic-Contained, sign_authorization-Contained,
}
use stir_main.E2e.EconomicExchange.TradeWanted.{refuse_over_floor, trade_wanted}
use stir_main.E2e.EconomicExchange.TradeOffer.{trade_again, trade_offer}
use stir_main.E2e.EconomicExchange.{main}

refuse_over_floor-Contained :
    (suffix tenant_a : String) (ana pedro : Json) (base_a : String)
    (ana_key pedro_key : String × String × Json) (ana_final pedro_final : Json)
    → Emits Contained
        (refuse_over_floor suffix tenant_a ana pedro base_a ana_key pedro_key ana_final pedro_final)
unfolding refuse_over_floor
refuse_over_floor-Contained suffix tenant_a ana pedro base_a ana_key pedro_key ana_final
      pedro_final =
    search (contained_rules, open_and_accept-Contained, sign_authorization-Contained) depth 200 fits
      20000

trade_wanted-Contained :
    (suffix tenant_a : String) (ana pedro : Json) (base_a : String)
    (ana_key pedro_key : String × String × Json) (ana_after pedro_after : Json)
    → Emits Contained
        (trade_wanted suffix tenant_a ana pedro base_a ana_key pedro_key ana_after pedro_after)
unfolding trade_wanted
trade_wanted-Contained suffix tenant_a ana pedro base_a ana_key pedro_key ana_after pedro_after =
    search
      (
        contained_rules, open_and_accept-Contained, run_exchange-Contained,
        refuse_over_floor-Contained,
      )
      depth 200 fits 20000

trade_again-Contained :
    (suffix tenant_a : String) (ana pedro : Json) (base_a : String)
    (ana_key pedro_key : String × String × Json)
    (agreement trade receipt_sequence receipt_digest ana_after pedro_after : Json)
    → Emits Contained (
        trade_again suffix tenant_a ana pedro base_a ana_key pedro_key agreement trade
          receipt_sequence receipt_digest ana_after pedro_after)
unfolding trade_again
trade_again-Contained suffix tenant_a ana pedro base_a ana_key pedro_key agreement trade
      receipt_sequence receipt_digest ana_after pedro_after =
    search (contained_rules, trade_wanted-Contained) depth 200 fits 20000

trade_offer-Contained :
    (suffix tenant_a : String) (ana pedro : Json) (base_a : String)
    (ana_key pedro_key : String × String × Json)
    → Emits Contained (trade_offer suffix tenant_a ana pedro base_a ana_key pedro_key)
unfolding trade_offer
trade_offer-Contained suffix tenant_a ana pedro base_a ana_key pedro_key =
    search
      (contained_rules, open_and_accept-Contained, run_exchange-Contained, trade_again-Contained)
      depth 200 fits 20000

pub main-Contained : Emits Contained main
unfolding main
main-Contained =
    search
      (contained_rules, make_user-Contained, activate_economic-Contained, trade_offer-Contained)
      depth 200 fits 20000
