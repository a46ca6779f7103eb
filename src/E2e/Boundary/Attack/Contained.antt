-- ===== src/E2e/Boundary/Attack/Contained.antt =====
-- The scripts of the module above do nothing but what `Contained` allows.
use stir_main.Base.{String, List}
use stir_main.Json.{Json}
use stir_main.Host.Emits.{Emits}
use stir_main.E2e.Contained.{Contained, contained_rules}
use stir_main.E2e.Boundary.Attack.{
  expect_rejected, effective_constitution, attack, compose, last_status, bearer,
}
use stir_main.Base.{[], ◌∷◌}
use stir_main.Host.{Input}
use stir_main.E2e.Contained.{composed}

last_status-Contained : (codes : List String) → Emits Contained (last_status codes)
unfolding last_status
last_status-Contained [] = search contained_rules
last_status-Contained (code ∷ codes) = search contained_rules depth 20

bearer-Contained : (token : Json) → Emits Contained (bearer token)
unfolding bearer
bearer-Contained token = search contained_rules depth 20

-- The project of every program that it runs is `stir-claude-mvp`.
pub compose-Contained : (args : List String) (given : Input) → Emits Contained (compose args given)
unfolding compose
compose-Contained args given = search (contained_rules, composed) depth 20

pub attack-Contained :
    (path : String) (body token : Json) → Emits Contained (attack path body token)
unfolding attack
attack-Contained path body token =
    search (contained_rules, last_status-Contained, bearer-Contained, compose-Contained) depth 40

pub expect_rejected-Contained :
    (name path : String) (the_body token expected : Json)
    → Emits Contained (expect_rejected name path the_body token expected)
unfolding expect_rejected
expect_rejected-Contained name path the_body token expected =
    search (contained_rules, attack-Contained) depth 200 fits 20000

pub effective_constitution-Contained :
    (tenant : String) → Emits Contained (effective_constitution tenant)
unfolding effective_constitution
effective_constitution-Contained tenant = search contained_rules depth 200 fits 20000
