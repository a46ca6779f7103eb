-- ===== src/E2e/Marketplace/Contained.antt =====
-- The scripts of the module above do nothing but what `Contained` allows.
use stir_main.Base.{String, List}
use stir_main.Json.{Json}
use stir_main.Host.Emits.{Emits}
use stir_main.E2e.Contained.{Contained, contained_rules}
use stir_main.E2e.Marketplace.{make_user, setup_tenant, deny, agree, counter, negotiate, main}

make_user-Contained :
    (admin : Json) (tenant : String) (role_id : Json) (label suffix : String)
    → Emits Contained (make_user admin tenant role_id label suffix)
unfolding make_user
make_user-Contained admin tenant role_id label suffix = search contained_rules depth 200 fits 20000

setup_tenant-Contained :
    (admin : Json) (tenant suffix : String) (labels : List String)
    → Emits Contained (setup_tenant admin tenant suffix labels)
unfolding setup_tenant
setup_tenant-Contained admin tenant suffix labels =
    search (contained_rules, make_user-Contained) depth 200 fits 20000

deny-Contained :
    (carlos bea : Json) (base_a : String)
    (listing negotiation agreement closed ana_agreement pedro_agreement : Json)
    → Emits Contained
        (deny carlos bea base_a listing negotiation agreement closed ana_agreement pedro_agreement)
unfolding deny
deny-Contained carlos bea base_a listing negotiation agreement closed ana_agreement
      pedro_agreement =
    search contained_rules depth 200 fits 20000

agree-Contained :
    (ana pedro carlos bea : Json) (base_a : String) (listing negotiation : Json)
    → Emits Contained (agree ana pedro carlos bea base_a listing negotiation)
unfolding agree
agree-Contained ana pedro carlos bea base_a listing negotiation =
    search (contained_rules, deny-Contained) depth 200 fits 20000

counter-Contained :
    (ana pedro carlos bea : Json) (base_a : String) (listing negotiation : Json)
    → Emits Contained (counter ana pedro carlos bea base_a listing negotiation)
unfolding counter
counter-Contained ana pedro carlos bea base_a listing negotiation =
    search (contained_rules, agree-Contained) depth 200 fits 20000

negotiate-Contained :
    (suffix : String) (ana pedro carlos bea : Json) (base_a : String)
    → Emits Contained (negotiate suffix ana pedro carlos bea base_a)
unfolding negotiate
negotiate-Contained suffix ana pedro carlos bea base_a =
    search (contained_rules, counter-Contained) depth 200 fits 20000

pub main-Contained : Emits Contained main
unfolding main
main-Contained =
    search (contained_rules, setup_tenant-Contained, negotiate-Contained) depth 200 fits 20000
