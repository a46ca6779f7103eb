-- ===== src/E2e/OrdinaryGovernance.antt =====
-- scripts/ordinary_governance_e2e.py: a vote of the community, which a publisher cannot bypass.
pub mod Contained
pub mod StartDisabled
use stir_main.Base.{Bool, List, Option, String, [], ℕ, ◌++◌, ◌<>◌, ◌∷◌}
use stir_main.Base.Int.{pos, ℤ}
use stir_main.Base.Text.{first}
use stir_main.Compose.{sql}
use stir_main.E2e.OrdinaryGovernance.StartDisabled.{start_disabled}
use stir_main.E2e.References.{fixtures, member_permissions}
use stir_main.Host.{token_urlsafe}
use stir_main.Host.Exec.{Exec, for_each, pure, ◌>>=◌, ◌>>◌}
use stir_main.Json.{Json, bool, int, null, str}
use stir_main.Py.{
  dict, draws, entry, eq, expect, fold_each, is_false, item, list, map_each, no_values, pick, print,
  shown, shown_item, strings, stripped_text, text_item, text_of,
}
use stir_main.Smoke.{fetch, ok_only, send}

unfoldable register_voters :
    String → String → Json → Json → Json → Json → String → String → Json → Json → Exec Unit
register_voters tenant base pedro bea admin community shell gov m manager_id = do
  voter_role ←
      send (shell <> "/roles") "POST"
        (dict (
          ("key", str ("gov-voter-" <> first 8 tenant))
          ∷ ("name", str "Governance voter")
          ∷ ("description", str "E2E fixture")
          ∷ ("enabled", bool Bool.true)
          ∷ []))
        admin (200 ∷ 201 ∷ [])
  send (shell <> "/roles/" <> (← text_item voter_role "id") <> "/permissions") "PUT"
      (list (member_permissions ++ strings ("stir.governance.vote" ∷ []))) admin ok_only
  voters ← pure no_values
  voters ← fold_each ("v1" ∷ "v2" ∷ "v3" ∷ "v4" ∷ []) voters (λ label voters. do
    email ← pure (label <> "-" <> first 8 tenant <> "@stir.test")
    password ← draws (token_urlsafe 24)
    send (shell <> "/users") "POST"
        (dict (
          ("email", str email)
          ∷ ("displayName", str label)
          ∷ ("authProvider", str "local")
          ∷ ("subject", str email)
          ∷ ("password", str password)
          ∷ ("role", str "member")
          ∷ ("enabled", bool Bool.true)
          ∷ []))
        admin (200 ∷ 201 ∷ [])
    session ←
        send "/api/shell/v1/auth/login" "POST"
          (dict (("email", str email) ∷ ("password", str password) ∷ [])) null ok_only
    send (shell <> "/roles/users/" <> (← text_item (← item session "user") "id")) "PUT"
        (dict (("roleIds", list ((← item voter_role "id") ∷ [])) ∷ [])) admin (204 ∷ [])
    session ←
        send "/api/shell/v1/auth/login" "POST"
          (dict (("email", str email) ∷ ("password", str password) ∷ [])) null ok_only
    voters ← pure (voters ++ (session ∷ []))
    pure voters)
  v1 ← pick 0 voters
  v2 ← pick 1 voters
  v3 ← pick 2 voters
  v4 ← pick 3 voters
  start_disabled base pedro bea admin community gov m manager_id voters v1 v2 v3

pub main : Exec Unit
main = do
  (tenant, base, ana, pedro, carlos, bea, binding) ← fixtures
  admin ←
      item
        (← send "/api/shell/v1/auth/login" "POST"
          (dict (
            ("email", str "admin@stir.test")
            ∷ ("password", str (← stripped_text ".local/secrets/login_password"))
            ∷ []))
          null ok_only)
        "accessToken"
  community ← item binding "communityId"
  shell ← pure ("/api/shell/v1/tenants/" <> tenant)
  gov ← pure (base <> "/references/governance/ordinary")
  manager_role ←
      send (shell <> "/roles") "POST"
        (dict (
          ("key", str ("gov-manager-" <> first 8 tenant))
          ∷ ("name", str "Governance manager")
          ∷ ("description", str "E2E fixture")
          ∷ ("enabled", bool Bool.true)
          ∷ []))
        admin (200 ∷ 201 ∷ [])
  send (shell <> "/roles/" <> (← text_item manager_role "id") <> "/permissions") "PUT"
      (list (
        member_permissions
        ++ strings
            ("stir.references.publish" ∷ "stir.governance.manage" ∷ "stir.governance.vote" ∷ [])))
      admin ok_only
  manager_email ← pure ("manager-" <> first 8 tenant <> "@stir.test")
  manager_password ← draws (token_urlsafe 24)
  send (shell <> "/users") "POST"
      (dict (
        ("email", str manager_email)
        ∷ ("displayName", str "manager")
        ∷ ("authProvider", str "local")
        ∷ ("subject", str manager_email)
        ∷ ("password", str manager_password)
        ∷ ("role", str "member")
        ∷ ("enabled", bool Bool.true)
        ∷ []))
      admin (200 ∷ 201 ∷ [])
  manager_session ←
      send "/api/shell/v1/auth/login" "POST"
        (dict (("email", str manager_email) ∷ ("password", str manager_password) ∷ [])) null ok_only
  send (shell <> "/roles/users/" <> (← text_item (← item manager_session "user") "id")) "PUT"
      (dict (("roleIds", list ((← item manager_role "id") ∷ [])) ∷ [])) admin (204 ∷ [])
  manager_session ←
      send "/api/shell/v1/auth/login" "POST"
        (dict (("email", str manager_email) ∷ ("password", str manager_password) ∷ [])) null ok_only
  m ← item manager_session "accessToken"
  manager_id ← item (← item manager_session "user") "id"
  sql
      ("update idax_core.tenant_user set role='admin' where tenant_id='"
        <> tenant
        <> "' and user_id='"
        <> (← shown manager_id)
        <> "';")
      Bool.false
  register_voters tenant base pedro bea admin community shell gov m manager_id
