-- ===== src/E2e/References/Contained.antt =====
-- The scripts of the module above do nothing but what `Contained` allows.
use stir_main.Base.{String, List}
use stir_main.Json.{Json}
use stir_main.Host.Emits.{Emits}
use stir_main.E2e.Contained.{Contained, contained_rules}
use stir_main.E2e.EconomicExchange.Steps.Contained.{make_user-Contained}
use stir_main.E2e.References.{
  role, fixtures, proposal, agree, keep_history, agreements_and_context, main,
}

role-Contained :
    (admin : Json) (suffix t key : String) (permissions : List Json)
    → Emits Contained (role admin suffix t key permissions)
unfolding role
role-Contained admin suffix t key permissions = search contained_rules depth 200 fits 20000

pub fixtures-Contained : Emits Contained fixtures
unfolding fixtures
fixtures-Contained =
    search (contained_rules, make_user-Contained, role-Contained) depth 200 fits 20000

proposal-Contained :
    (ref : String) (a : Json) (amount : String) → Emits Contained (proposal ref a amount)
unfolding proposal
proposal-Contained ref a amount = search contained_rules depth 200 fits 20000

agree-Contained :
    (a p : Json) (base : String) (definition listing : Json) (amount : String) (consent : Json)
    → Emits Contained (agree a p base definition listing amount consent)
unfolding agree
agree-Contained a p base definition listing amount consent =
    search contained_rules depth 200 fits 20000

keep_history-Contained :
    (tenant base : String) (carlos bea a p definition : Json) (ref : String)
    (listing historic : Json) (context_url : String) (context : Json)
    → Emits Contained (
        keep_history tenant base carlos bea a p definition ref listing historic context_url context)
unfolding keep_history
keep_history-Contained tenant base carlos bea a p definition ref listing historic context_url
      context =
    search (contained_rules, proposal-Contained, agree-Contained) depth 200 fits 20000

agreements_and_context-Contained :
    (tenant base : String) (carlos bea a p definition : Json) (ref : String)
    (evidence listing : Json)
    → Emits Contained
        (agreements_and_context tenant base carlos bea a p definition ref evidence listing)
unfolding agreements_and_context
agreements_and_context-Contained tenant base carlos bea a p definition ref evidence listing =
    search (contained_rules, agree-Contained, keep_history-Contained) depth 200 fits 20000

pub main-Contained : Emits Contained main
unfolding main
main-Contained =
    search
      (contained_rules, fixtures-Contained, proposal-Contained, agreements_and_context-Contained)
      depth 200 fits 20000
