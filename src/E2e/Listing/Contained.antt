-- ===== src/E2e/Listing/Contained.antt =====
-- The scripts of the module above do nothing but what `Contained` allows.
use stir_main.Base.{String}
use stir_main.Json.{Json}
use stir_main.Host.Emits.{Emits}
use stir_main.E2e.Contained.{Contained, contained_rules}
use stir_main.E2e.EconomicExchange.Steps.Contained.{make_user-Contained}
use stir_main.E2e.Listing.{list_and_close, refuse_strangers, main}

list_and_close-Contained :
    (session tenant token : Json) (base : String)
    → Emits Contained (list_and_close session tenant token base)
unfolding list_and_close
list_and_close-Contained session tenant token base = search contained_rules depth 200 fits 20000

refuse_strangers-Contained :
    (session tenant token : Json) (base : String)
    → Emits Contained (refuse_strangers session tenant token base)
unfolding refuse_strangers
refuse_strangers-Contained session tenant token base =
    search (contained_rules, list_and_close-Contained) depth 200 fits 20000

pub main-Contained : Emits Contained main
unfolding main
main-Contained =
    search (contained_rules, make_user-Contained, refuse_strangers-Contained) depth 200 fits 20000
