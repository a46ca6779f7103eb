-- ===== src/E2e/Authority.antt =====
-- scripts/community_authority_e2e.py: who may act for a community, with and without Ordinary Governance.
pub mod Contained
use stir_main.Base.{Bool, List, Option, String, [], ℕ, ◌++◌, ◌<>◌, ◌∷◌}
use stir_main.Base.Int.{ℤ}
use stir_main.Compose.{sql}
use stir_main.E2e.EconomicExchange.Steps.{make_user}
use stir_main.E2e.References.{fixtures, member_permissions}
use stir_main.Host.{uuid4}
use stir_main.Host.Exec.{Exec, pure, ◌>>=◌, ◌>>◌}
use stir_main.Json.{Json, bool, null, str}
use stir_main.Py.{
  dict, draws, entry, expect, is_false, is_true, item, list, print, shown, shown_item, strings,
  stripped_text, text_item, text_of, uuid4_hex,
}
use stir_main.Py.Texts.{show_nat}
use stir_main.Smoke.{fetch, ok_only, send}

abbrev pub publish_permissions : List Json
publish_permissions = member_permissions ++ strings ("stir.references.publish" ∷ [])

abbrev pub manage_permissions : List Json
manage_permissions =
    publish_permissions ++ strings ("stir.governance.manage" ∷ "stir.governance.vote" ∷ [])

unfoldable role : Json → String → String → List Json → String → Exec Json
role admin tenant key permissions suffix = do
  base ← pure ("/api/shell/v1/tenants/" <> tenant <> "/roles")
  row ←
      send base "POST"
        (dict (
          ("key", str (key <> suffix))
          ∷ ("name", str key)
          ∷ ("description", str "Community authority E2E")
          ∷ ("enabled", bool Bool.true)
          ∷ []))
        admin (200 ∷ 201 ∷ [])
  send (base <> "/" <> (← text_item row "id") <> "/permissions") "PUT" (list permissions) admin
      ok_only
  item row "id"

unfoldable set_tenant_role : String → Json → String → Exec Unit
set_tenant_role tenant user the_value = do
  sql
      ("update idax_core.tenant_user set role='"
        <> the_value
        <> "' where tenant_id='"
        <> tenant
        <> "' and user_id='"
        <> (← shown_item (← item user "user") "id")
        <> "';")
      Bool.false
  pure tt

unfoldable expect_publish : String → String → Json → ℕ → Exec Json
expect_publish name base token the_status = do
  got ←
      send (base <> "/references") "POST"
        (dict (
          ("name", str ("Authority " <> (← uuid4_hex 6)))
          ∷ ("scope", str "Authority matrix")
          ∷ ("attributes", dict [])
          ∷ ("quantityBasis", str "1")
          ∷ ("quantityUnit", str "unit")
          ∷ []))
        token (the_status ∷ [])
  print ("PASS: " <> name <> " -> " <> show_nat the_status)
  pure got

unfoldable roster_authority :
    String → String → Json → Json → Json → String → Json → Json → String → Exec Unit
roster_authority tenant base ana admin community gov owner manager foreign_community = do
  send
      (gov
        <> "/members/"
        <> (← text_of community)
        <> "/"
        <> (← text_item (← item manager "user") "id"))
      "POST" (dict []) (← item manager "accessToken") ok_only
  send (gov <> "/settings/" <> (← text_of community)) "PUT"
      (dict (("enabled", bool Bool.true) ∷ [])) (← item manager "accessToken") ok_only
  set_tenant_role tenant manager "user"
  expect (
      is_true
        (← item
          (← fetch (gov <> "/settings/" <> (← text_of community)) (← item ana "accessToken")
            ok_only)
          "ordinaryGovernanceEnabled"))
  expect_publish "governance enabled: active eligible member (tenant role user) allowed" base
      (← item manager "accessToken") 200
  expect_publish "governance enabled: tenant owner not in roster denied" base
      (← item owner "accessToken") 403
  expect_publish "governance enabled: tenant admin not in roster denied (no fallback)" base
      (← item ana "accessToken") 403
  expect_publish "governance enabled: SuperAdmin without roster membership denied" base admin 403
  send (gov <> "/settings/" <> foreign_community) "PUT" (dict (("enabled", bool Bool.false) ∷ []))
      (← item manager "accessToken") (403 ∷ [])
  print "PASS: governance enabled: cross-community with an eligible member -> 403"
  stored ←
      sql
        ("select count(*) from stir.reference_definition where tenant_id='" <> tenant
          <> "' and name like 'Authority %';")
        Bool.false
  print ("INFO: authority-created definitions in tenant: " <> stored)
  print "COMMUNITY AUTHORITY E2E: PASS"

unfoldable bootstrap_authority :
    String
    → String
    → Json
    → Json
    → Json
    → Json
    → Json
    → String
    → Json
    → Json
    → Json
    → Json
    → Json
    → Exec Unit
bootstrap_authority tenant base ana bea admin community other_tenant gov owner readonly service
      plain manager =
    do
      expect (
          is_false
            (← item
              (← fetch (gov <> "/settings/" <> (← text_of community)) (← item ana "accessToken")
                ok_only)
              "ordinaryGovernanceEnabled"))
      expect_publish "governance disabled: tenant owner allowed" base (← item owner "accessToken")
          200
      expect_publish "governance disabled: tenant admin allowed" base (← item ana "accessToken") 200
      expect_publish "governance disabled: tenant user denied (platform permission not authority)"
          base (← item plain "accessToken") 403
      expect_publish "governance disabled: readonly denied" base (← item readonly "accessToken") 403
      expect_publish "governance disabled: service denied" base (← item service "accessToken") 403
      expect_publish "governance disabled: SuperAdmin without tenant membership denied" base admin
          403
      expect_publish "cross-tenant: tenant A admin on tenant B path denied"
          ("/api/stir/tenants/" <> (← shown other_tenant)) (← item ana "accessToken") 403
      expect_publish "cross-tenant: tenant B member on tenant A path denied" base
          (← item bea "accessToken") 403
      foreign_community ← draws uuid4
      send (gov <> "/settings/" <> foreign_community) "PUT"
          (dict (("enabled", bool Bool.false) ∷ [])) (← item manager "accessToken") (403 ∷ [])
      print
          "PASS: cross-community: admin with manage permission cannot govern an unbound community -> 403"
      roster_authority tenant base ana admin community gov owner manager foreign_community

pub main : Exec Unit
main = do
  (tenant, base, ana, pedro, carlos, bea, binding) ← fixtures
  admin_token ←
      item
        (← send "/api/shell/v1/auth/login" "POST"
          (dict (
            ("email", str "admin@stir.test")
            ∷ ("password", str (← stripped_text ".local/secrets/login_password"))
            ∷ []))
          null ok_only)
        "accessToken"
  admin ← pure admin_token
  community ← item binding "communityId"
  other_tenant ← item (← entry (← item bea "tenants") 0) "id"
  shell ← pure ("/api/shell/v1/tenants/" <> tenant)
  gov ← pure (base <> "/references/governance/ordinary")
  suffix ← uuid4_hex 6
  rid ← role admin tenant "authority-publisher" publish_permissions suffix
  owner ← make_user admin tenant rid "owner" suffix
  readonly ← make_user admin tenant rid "readonly" suffix
  service ← make_user admin tenant rid "service" suffix
  plain ← make_user admin tenant rid "plain" suffix
  set_tenant_role tenant owner "owner"
  set_tenant_role tenant readonly "readonly"
  set_tenant_role tenant service "service"
  set_tenant_role tenant plain "user"
  manager ←
      make_user admin tenant (← role admin tenant "authority-manager" manage_permissions suffix)
        "manager" suffix
  set_tenant_role tenant manager "admin"
  print
      "PASS: fixture roles provisioned (owner, admin, user, readonly, service, governance manager)"
  bootstrap_authority tenant base ana bea admin community other_tenant gov owner readonly service
      plain manager
