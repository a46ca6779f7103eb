-- ===== src/E2e/Authority/Contained.antt =====
-- The scripts of the module above do nothing but what `Contained` allows.
use stir_main.Base.{String, ℕ, List}
use stir_main.Json.{Json}
use stir_main.Host.Emits.{Emits}
use stir_main.E2e.Contained.{Contained, contained_rules}
use stir_main.E2e.EconomicExchange.Steps.Contained.{make_user-Contained}
use stir_main.E2e.References.Contained.{fixtures-Contained}
use stir_main.E2e.Authority.{
  role, set_tenant_role, expect_publish, roster_authority, bootstrap_authority, main,
}

role-Contained :
    (admin : Json) (tenant key : String) (permissions : List Json) (suffix : String)
    → Emits Contained (role admin tenant key permissions suffix)
unfolding role
role-Contained admin tenant key permissions suffix = search contained_rules depth 200 fits 20000

set_tenant_role-Contained :
    (tenant : String) (user : Json) (the_value : String)
    → Emits Contained (set_tenant_role tenant user the_value)
unfolding set_tenant_role
set_tenant_role-Contained tenant user the_value = search contained_rules depth 200 fits 20000

expect_publish-Contained :
    (name base : String) (token : Json) (the_status : ℕ)
    → Emits Contained (expect_publish name base token the_status)
unfolding expect_publish
expect_publish-Contained name base token the_status = search contained_rules depth 200 fits 20000

roster_authority-Contained :
    (tenant base : String) (ana admin community : Json) (gov : String) (owner manager : Json)
    (foreign_community : String)
    → Emits Contained
        (roster_authority tenant base ana admin community gov owner manager foreign_community)
unfolding roster_authority
roster_authority-Contained tenant base ana admin community gov owner manager foreign_community =
    search (contained_rules, set_tenant_role-Contained, expect_publish-Contained) depth 200 fits
      20000

bootstrap_authority-Contained :
    (tenant base : String) (ana bea admin community other_tenant : Json) (gov : String)
    (owner readonly service plain manager : Json)
    → Emits Contained (
        bootstrap_authority tenant base ana bea admin community other_tenant gov owner readonly
          service plain manager)
unfolding bootstrap_authority
bootstrap_authority-Contained tenant base ana bea admin community other_tenant gov owner readonly
      service plain manager =
    search (contained_rules, expect_publish-Contained, roster_authority-Contained) depth 200 fits
      20000

pub main-Contained : Emits Contained main
unfolding main
main-Contained =
    search
      (
        contained_rules, make_user-Contained, fixtures-Contained, role-Contained,
        set_tenant_role-Contained, bootstrap_authority-Contained,
      )
      depth 200 fits 20000
