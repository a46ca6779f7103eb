-- ===== src/E2e/MultiSource/Contained.antt =====
-- The scripts of the module above do nothing but what `Contained` allows.
use stir_main.Base.{String, List}
use stir_main.Json.{Json}
use stir_main.Host.Emits.{Emits}
use stir_main.E2e.Contained.{Contained, contained_rules}
use stir_main.E2e.EconomicExchange.Steps.Contained.{make_user-Contained}
use stir_main.E2e.MultiSource.EnableGovernance.{role, fixtures, vote_on_seed, enable_governance}
use stir_main.E2e.MultiSource.RecordListings.{keep_lineage, record_listings}
use stir_main.E2e.MultiSource.{main}

role-Contained :
    (admin : Json) (suffix t key : String) (permissions : List Json)
    → Emits Contained (role admin suffix t key permissions)
unfolding role
role-Contained admin suffix t key permissions = search contained_rules depth 200 fits 20000

fixtures-Contained : Emits Contained fixtures
unfolding fixtures
fixtures-Contained =
    search (contained_rules, make_user-Contained, role-Contained) depth 200 fits 20000

vote_on_seed-Contained :
    (admin a p definition_id : Json) (gov : String)
    → Emits Contained (vote_on_seed admin a p definition_id gov)
unfolding vote_on_seed
vote_on_seed-Contained admin a p definition_id gov = search contained_rules depth 200 fits 20000

enable_governance-Contained :
    (admin : Json) (base : String) (ana pedro carlos a p community definition_id : Json)
    → Emits Contained (enable_governance admin base ana pedro carlos a p community definition_id)
unfolding enable_governance
enable_governance-Contained admin base ana pedro carlos a p community definition_id =
    search (contained_rules, vote_on_seed-Contained) depth 200 fits 20000

keep_lineage-Contained :
    (admin : Json) (tenant base : String)
    (ana pedro carlos bea a p community definition definition_id listing : Json)
    → Emits Contained (
        keep_lineage admin tenant base ana pedro carlos bea a p community definition definition_id
          listing)
unfolding keep_lineage
keep_lineage-Contained admin tenant base ana pedro carlos bea a p community definition definition_id
      listing =
    search (contained_rules, enable_governance-Contained) depth 200 fits 20000

record_listings-Contained :
    (admin : Json) (tenant base : String)
    (ana pedro carlos bea a p community definition definition_id : Json) (ref : String)
    → Emits Contained (
        record_listings admin tenant base ana pedro carlos bea a p community definition
          definition_id ref)
unfolding record_listings
record_listings-Contained admin tenant base ana pedro carlos bea a p community definition
      definition_id ref =
    search (contained_rules, keep_lineage-Contained) depth 200 fits 20000

pub main-Contained : Emits Contained main
unfolding main
main-Contained =
    search (contained_rules, fixtures-Contained, record_listings-Contained) depth 200 fits 20000
