-- ===== src/E2e/Isolation/Contained.antt =====
-- The scripts of the module above do nothing but what `Contained` allows.
use stir_main.Base.{String, ℕ, List}
use stir_main.Json.{Json}
use stir_main.Host.Emits.{Emits}
use stir_main.E2e.Contained.{Contained, contained_rules}
use stir_main.E2e.Isolation.RejectOne.{find_own, refuse_changes, reject_one}
use stir_main.E2e.Isolation.RejectEachOther.{database_roles, reject_each_other}
use stir_main.E2e.Isolation.{main}

find_own-Contained :
    (listings : List Json) (i : ℕ) (token : Json) (base the_query : String)
    → Emits Contained (find_own listings i token base the_query)
unfolding find_own
find_own-Contained listings i token base the_query = search contained_rules depth 200 fits 20000

refuse_changes-Contained :
    (tenants : List String) (sessions listings : List Json) (other : ℕ) (token : Json)
    (base foreign : String)
    → Emits Contained (refuse_changes tenants sessions listings other token base foreign)
unfolding refuse_changes
refuse_changes-Contained tenants sessions listings other token base foreign =
    search contained_rules depth 200 fits 20000

reject_one-Contained :
    (suffix : String) (tenants : List String) (sessions : List Json) (i : ℕ) (listings : List Json)
    → Emits Contained (reject_one suffix tenants sessions i listings)
unfolding reject_one
reject_one-Contained suffix tenants sessions i listings =
    search (contained_rules, find_own-Contained, refuse_changes-Contained) depth 200 fits 20000

database_roles-Contained :
    (tenants : List String) (listings : List Json)
    → Emits Contained (database_roles tenants listings)
unfolding database_roles
database_roles-Contained tenants listings = search contained_rules depth 200 fits 20000

reject_each_other-Contained :
    (suffix : String) (tenants : List String) (sessions listings : List Json)
    → Emits Contained (reject_each_other suffix tenants sessions listings)
unfolding reject_each_other
reject_each_other-Contained suffix tenants sessions listings =
    search (contained_rules, reject_one-Contained, database_roles-Contained) depth 200 fits 20000

pub main-Contained : Emits Contained main
unfolding main
main-Contained = search (contained_rules, reject_each_other-Contained) depth 200 fits 20000
