-- ===== src/E2e/Ledger/Contained.antt =====
-- The scripts of the module above do nothing but what `Contained` allows.
use stir_main.Base.{String}
use stir_main.Json.{Json}
use stir_main.Host.Emits.{Emits}
use stir_main.E2e.Contained.{Contained, contained_rules}
use stir_main.E2e.EconomicExchange.Steps.Contained.{
  open_and_accept-Contained, run_exchange-Contained, activate_economic-Contained,
}
use stir_main.E2e.Ledger.{
  trade, provision, main, secret_text, report, secrets_or_default, print_found, print_each,
  print_if_there, print_if_telling, print_trade, print_keys, print_transaction,
}
use stir_main.Base.{Option, some, none}
use stir_main.Json.{Fields, null}

secrets_or_default-Contained :
    (root : String) (v : Json) → Emits Contained (secrets_or_default root v)
unfolding secrets_or_default
secrets_or_default-Contained root null = search contained_rules
secrets_or_default-Contained root v = search contained_rules

secret_text-Contained : (name : String) → Emits Contained (secret_text name)
unfolding secret_text
secret_text-Contained name = search (contained_rules, secrets_or_default-Contained) depth 40

print_found-Contained : (key : String) (o : Option Json) → Emits Contained (print_found key o)
unfolding print_found
print_found-Contained key none = search contained_rules
print_found-Contained key (some v) = search contained_rules depth 20

print_if_there-Contained : (fs : Fields) (key : String) → Emits Contained (print_if_there fs key)
unfolding print_if_there
print_if_there-Contained fs key = print_found-Contained key _

print_if_telling-Contained : (x : String × Json) → Emits Contained (print_if_telling x)
unfolding print_if_telling
print_if_telling-Contained (key, v) = search contained_rules depth 20

print_each-Contained : (o : Option Fields) → Emits Contained (print_each o)
unfolding print_each
print_each-Contained none = search contained_rules
print_each-Contained (some fs) = search (contained_rules, print_if_telling-Contained) depth 20

print_trade-Contained : (o : Option Json) → Emits Contained (print_trade o)
unfolding print_trade
print_trade-Contained none = search contained_rules
print_trade-Contained (some v) = print_each-Contained _

print_keys-Contained : (result : Json) (o : Option Fields) → Emits Contained (print_keys result o)
unfolding print_keys
print_keys-Contained result none = search contained_rules
print_keys-Contained result (some fs) = search contained_rules depth 20

print_transaction-Contained : (o : Option Fields) → Emits Contained (print_transaction o)
unfolding print_transaction
print_transaction-Contained none = search contained_rules
print_transaction-Contained (some fs) =
    search (contained_rules, print_if_there-Contained, print_trade-Contained) depth 20

report-Contained :
    (tenant amount agreement_id result : Json)
    → Emits Contained (report tenant amount agreement_id result)
unfolding report
report-Contained tenant amount agreement_id result =
    search (contained_rules, print_transaction-Contained, print_keys-Contained) depth 40

trade-Contained :
    (tenant : Json) (base suffix : String) (ana pedro : Json)
    → Emits Contained (trade tenant base suffix ana pedro)
unfolding trade
trade-Contained tenant base suffix ana pedro =
    search
      (
        contained_rules, open_and_accept-Contained, run_exchange-Contained,
        activate_economic-Contained, report-Contained,
      )
      depth 200 fits 20000

provision-Contained :
    (admin tenant : Json) (base suffix : String) (role : Json)
    → Emits Contained (provision admin tenant base suffix role)
unfolding provision
provision-Contained admin tenant base suffix role =
    search (contained_rules, trade-Contained) depth 200 fits 20000

pub main-Contained : Emits Contained main
unfolding main
main-Contained =
    search (contained_rules, secret_text-Contained, provision-Contained) depth 200 fits 20000
