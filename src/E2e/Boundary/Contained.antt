-- ===== src/E2e/Boundary/Contained.antt =====
-- The scripts of the module above do nothing but what `Contained` allows.
use stir_main.Base.{String, List}
use stir_main.Json.{Json}
use stir_main.Host.Emits.{Emits}
use stir_main.E2e.Contained.{Contained, contained_rules}
use stir_main.E2e.References.Contained.{fixtures-Contained}
use stir_main.E2e.Boundary.Attack.Contained.{
  expect_rejected-Contained, effective_constitution-Contained,
}
use stir_main.E2e.Boundary.Mutation.Contained.{constitutional_mutation_matrix-Contained}
use stir_main.E2e.SevenKeys.Signing.Contained.{digest-Contained, rawkey-Contained, sign-Contained}
use stir_main.E2e.Boundary.ForgeMore.{
  attack_database, forge_more, refuse_statement, credential_isolation,
}
use stir_main.E2e.Boundary.{bootstrap_and_forge, main}
use stir_main.E2e.Boundary.Attack.Contained.{compose-Contained}

pub refuse_statement-Contained : (statement : String) → Emits Contained (refuse_statement statement)
unfolding refuse_statement
refuse_statement-Contained statement = search (contained_rules, compose-Contained) depth 40

pub credential_isolation-Contained : Emits Contained credential_isolation
unfolding credential_isolation
credential_isolation-Contained = search (contained_rules, compose-Contained) depth 40

attack_database-Contained :
    (tenant : String) (ana community : Json) (api authority : String) (the_keys : List String)
    (guardian : String) (credentials : List String) (guardian_id : String) (constitution : Json)
    → Emits Contained (
        attack_database tenant ana community api authority the_keys guardian credentials guardian_id
          constitution)
unfolding attack_database
attack_database-Contained tenant ana community api authority the_keys guardian credentials
      guardian_id constitution =
    search
      (
        contained_rules, constitutional_mutation_matrix-Contained, refuse_statement-Contained,
        credential_isolation-Contained,
      )
      depth 200 fits 20000

forge_more-Contained :
    (tenant : String) (ana community : Json) (api authority : String) (the_keys : List String)
    (guardian : String) (credentials : List String) (guardian_id : String)
    (constitution creation : Json) (legit : String)
    → Emits Contained (
        forge_more tenant ana community api authority the_keys guardian credentials guardian_id
          constitution creation legit)
unfolding forge_more
forge_more-Contained tenant ana community api authority the_keys guardian credentials guardian_id
      constitution creation legit =
    search
      (
        contained_rules, expect_rejected-Contained, effective_constitution-Contained,
        attack_database-Contained,
      )
      depth 200 fits 20000

bootstrap_and_forge-Contained :
    (tenant : String) (ana pedro community : Json) (other_tenant api authority : String)
    (the_keys : List String) (guardian : String) (credentials : List String) (guardian_id : String)
    (constitution creation : Json)
    → Emits Contained (
        bootstrap_and_forge tenant ana pedro community other_tenant api authority the_keys guardian
          credentials guardian_id constitution creation)
unfolding bootstrap_and_forge
bootstrap_and_forge-Contained tenant ana pedro community other_tenant api authority the_keys
      guardian credentials guardian_id constitution creation =
    search
      (
        contained_rules, expect_rejected-Contained, effective_constitution-Contained,
        forge_more-Contained,
      )
      depth 200 fits 20000

pub main-Contained : Emits Contained main
unfolding main
main-Contained =
    search
      (
        contained_rules, fixtures-Contained, digest-Contained, rawkey-Contained, sign-Contained,
        bootstrap_and_forge-Contained,
      )
      depth 200 fits 20000
