-- ===== src/E2e/OrdinaryGovernance/Contained.antt =====
-- The scripts of the module above do nothing but what `Contained` allows.
use stir_main.Base.{String, List}
use stir_main.Json.{Json}
use stir_main.Host.Emits.{Emits}
use stir_main.E2e.Contained.{Contained, contained_rules}
use stir_main.E2e.References.Contained.{fixtures-Contained}
use stir_main.E2e.OrdinaryGovernance.StartDisabled.{vote, enable_and_block, start_disabled}
use stir_main.E2e.OrdinaryGovernance.{register_voters, main}

vote-Contained :
    (admin : Json) (gov : String) (m v1 v2 v3 definition_id proposal : Json)
    → Emits Contained (vote admin gov m v1 v2 v3 definition_id proposal)
unfolding vote
vote-Contained admin gov m v1 v2 v3 definition_id proposal =
    search contained_rules depth 200 fits 20000

enable_and_block-Contained :
    (base : String) (pedro bea admin community : Json) (gov : String) (m manager_id : Json)
    (voters : List Json) (v1 v2 v3 definition_id : Json)
    → Emits Contained (
        enable_and_block base pedro bea admin community gov m manager_id voters v1 v2 v3
          definition_id)
unfolding enable_and_block
enable_and_block-Contained base pedro bea admin community gov m manager_id voters v1 v2 v3
      definition_id =
    search (contained_rules, vote-Contained) depth 200 fits 20000

start_disabled-Contained :
    (base : String) (pedro bea admin community : Json) (gov : String) (m manager_id : Json)
    (voters : List Json) (v1 v2 v3 : Json)
    → Emits Contained
        (start_disabled base pedro bea admin community gov m manager_id voters v1 v2 v3)
unfolding start_disabled
start_disabled-Contained base pedro bea admin community gov m manager_id voters v1 v2 v3 =
    search (contained_rules, enable_and_block-Contained) depth 200 fits 20000

register_voters-Contained :
    (tenant base : String) (pedro bea admin community : Json) (shell gov : String)
    (m manager_id : Json)
    → Emits Contained (register_voters tenant base pedro bea admin community shell gov m manager_id)
unfolding register_voters
register_voters-Contained tenant base pedro bea admin community shell gov m manager_id =
    search (contained_rules, start_disabled-Contained) depth 200 fits 20000

pub main-Contained : Emits Contained main
unfolding main
main-Contained =
    search (contained_rules, fixtures-Contained, register_voters-Contained) depth 200 fits 20000
