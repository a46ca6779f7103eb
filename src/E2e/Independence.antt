-- ===== src/E2e/Independence.antt =====
-- scripts/participant_independence_e2e.py: accounts of one person are told apart from independent ones.
pub mod Contained
pub mod Relate
use stir_main.Base.{Bool, List, Option, String, [], ℕ, ◌++◌, ◌<>◌, ◌∷◌}
use stir_main.Base.Int.{ℤ}
use stir_main.Base.Text.{first}
use stir_main.Compose.{sql}
use stir_main.E2e.EconomicExchange.Steps.{activate_economic, make_user}
use stir_main.E2e.Independence.Relate.{confirm_related, participant_id, relate}
use stir_main.E2e.References.{fixtures, member_permissions}
use stir_main.E2e.Uuid7.{uuid7}
use stir_main.Host.Exec.{Exec, pure, ◌>>=◌, ◌>>◌}
use stir_main.Json.{Json, bool, null, str}
use stir_main.Py.{
  dict, each_of, entry, eq, expect, expect_or, expect_showing, is, item, last_entry, list, next_of,
  print, same_set, shown, shown_item, strings, stripped_text, text_item, text_of,
}
use stir_main.Smoke.{fetch, ok_only, request, send}

unfoldable ask_before_and_after :
    String → String → Json → Json → Json → Json → Json → Json → Json → Json → Exec Unit
ask_before_and_after tenant base pedro carlos bea admin community pedro_user carlos_user a = do
  never_activated ←
      send
        (base <> "/references/participants/" <> (← text_of carlos_user) <> "/independence-refresh")
        "POST" (dict []) a ok_only
  expect (is (← item never_activated "status") "NO_OSTRIS_BINDING")
  expect (
      is
        (← item
          (← fetch
            (base <> "/references/participants/" <> (← text_of carlos_user) <> "/independence") a
            ok_only)
          "status")
        "NO_OSTRIS_BINDING")
  send (base <> "/participants/me") "PUT"
      (dict (
        ("displayName", str "Pedro")
        ∷ ("bio", str "E2E fixture")
        ∷ ("location", str "Girona")
        ∷ []))
      (← item pedro "accessToken") ok_only
  send (base <> "/participants/me") "PUT"
      (dict (
        ("displayName", str "Carlos")
        ∷ ("bio", str "E2E fixture")
        ∷ ("location", str "Girona")
        ∷ []))
      (← item carlos "accessToken") ok_only
  activate_economic base pedro
  activate_economic base carlos
  pedro_participant ← participant_id tenant pedro_user
  carlos_participant ← participant_id tenant carlos_user
  unknown ←
      send
        (base <> "/references/participants/" <> (← text_of pedro_user) <> "/independence-refresh")
        "POST" (dict []) a ok_only
  expect_showing unknown (is (← item unknown "status") "INDEPENDENCE_UNKNOWN")
  send (base <> "/references/participants/" <> (← text_of pedro_user) <> "/independence-refresh")
      "POST" (dict []) (← item pedro "accessToken") (403 ∷ [])
  other_base ← pure ("/api/stir/tenants/" <> (← shown_item (← entry (← item bea "tenants") 0) "id"))
  send
      (other_base
        <> "/references/participants/"
        <> (← text_of pedro_user)
        <> "/independence-refresh")
      "POST" (dict []) (← item bea "accessToken") (400 ∷ 403 ∷ 404 ∷ [])
  send (base <> "/references/participants/" <> (← text_of pedro_user) <> "/independence-refresh")
      "POST" (dict []) admin (401 ∷ 403 ∷ 404 ∷ [])
  relate tenant base pedro carlos bea admin community pedro_user carlos_user a pedro_participant
      carlos_participant other_base

pub main : Exec Unit
main = do
  (tenant, base, ana, pedro, carlos, bea, binding) ← fixtures
  admin ←
      item
        (← send "/api/shell/v1/auth/login" "POST"
          (dict (
            ("email", str "admin@stir.test")
            ∷ ("password", str (← stripped_text ".local/secrets/login_password"))
            ∷ []))
          null ok_only)
        "accessToken"
  community ← item binding "communityId"
  pedro_user ← item (← item pedro "user") "id"
  carlos_user ← item (← item carlos "user") "id"
  shell ← pure ("/api/shell/v1/tenants/" <> tenant)
  reviewer_role ←
      send (shell <> "/roles") "POST"
        (dict (
          ("key", str ("reviewer-" <> first 8 tenant))
          ∷ ("name", str "Independence reviewer")
          ∷ ("description", str "E2E fixture")
          ∷ ("enabled", bool Bool.true)
          ∷ []))
        admin (200 ∷ 201 ∷ [])
  send (shell <> "/roles/" <> (← text_item reviewer_role "id") <> "/permissions") "PUT"
      (list (
        member_permissions
        ++ strings ("stir.references.publish" ∷ "OSTRIS_IDENTITY_CONTINUITY_READ_PRIVATE" ∷ [])))
      admin ok_only
  reviewer ← make_user admin tenant (← item reviewer_role "id") "reviewer" (first 8 tenant)
  sql
      ("update idax_core.tenant_user set role='admin' where tenant_id='"
        <> tenant
        <> "' and user_id='"
        <> (← shown_item (← item reviewer "user") "id")
        <> "';")
      Bool.false
  a ← item reviewer "accessToken"
  ask_before_and_after tenant base pedro carlos bea admin community pedro_user carlos_user a
