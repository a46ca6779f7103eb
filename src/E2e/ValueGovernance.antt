-- ===== src/E2e/ValueGovernance.antt =====
-- scripts/community_value_governance_e2e.py: evidence, policy and integrity cases of a community value.
pub mod Contained
pub mod DecideCase
pub mod KeepDailyCut
use stir_main.Base.{Bool, List, Option, String, [], length, not, ℕ, ◌++◌, ◌<>◌, ◌==◌, ◌=s=◌, ◌∷◌}
use stir_main.Base.Int.{pos, ℤ}
use stir_main.Compose.{sql}
use stir_main.E2e.Login.{make_login}
use stir_main.E2e.References.{fixtures, member_permissions}
use stir_main.E2e.ValueGovernance.DecideCase.{agree}
use stir_main.E2e.ValueGovernance.KeepDailyCut.{keep_daily_cut}
use stir_main.Host.{uuid4}
use stir_main.Host.Exec.{Exec, for_each, pure, ◌>>=◌, ◌>>◌}
use stir_main.Json.{Json, bool, int, null, str}
use stir_main.Py.{
  all_of, and_also, any_of, dict, draws, each_of, entry, eq, expect, expect_or, filter_each, is,
  is_array, item, last_entry, length_of, list, map_each, pick, print, shown_item, strings,
  stripped_text, text_item, truthy, uuid4_hex, within,
}
use stir_main.Py.Texts.{show_nat}
use stir_main.Smoke.{fetch, ok_only, send}

unfoldable raw_history : String → String → Json → Json → Json → Json → Json → Exec Unit
raw_history tenant base bea a p admin diego = do
  definition ←
      send (base <> "/references") "POST"
        (dict (
          ("name", str "Flour 1kg")
          ∷ ("scope", str "One 1kg bag of flour")
          ∷ ("attributes", dict (("weight", str "1kg") ∷ []))
          ∷ ("quantityBasis", str "1")
          ∷ ("quantityUnit", str "bag")
          ∷ []))
        a ok_only
  ref ← pure (base <> "/references/" <> (← text_item definition "id"))
  listing ←
      send (base <> "/listings") "POST"
        (dict (
          ("direction", str "OFFER")
          ∷ ("title", str "Flour with a reference")
          ∷ ("description", str "Test bag")
          ∷ ("category", str "home")
          ∷ ("resourceKind", str "physical")
          ∷ ("referenceDefinitionId", (← item definition "id"))
          ∷ []))
        a (201 ∷ [])
  the_first ← agree a base definition listing "5" p (bool Bool.false)
  manifest ← fetch (ref <> "/evidence-manifest") a ok_only
  expect_or
      "today's own observations are outside snapshot()'s < cutoff window - invisible to any manifest today"
      (eq (← item manifest "included") (list []))
  expect_or
      "today's own observations are outside snapshot()'s < cutoff window - invisible to any manifest today"
      (eq (← item manifest "exclusions") (dict []))
  fetch (ref <> "/observations") p (403 ∷ [])
  fetch (ref <> "/evidence-manifest") p (403 ∷ [])
  keep_daily_cut tenant base bea a p admin diego definition ref listing the_first manifest

pub main : Exec Unit
main = do
  (tenant, base, ana, pedro, carlos, bea, binding) ← fixtures
  a ← item ana "accessToken"
  p ← item pedro "accessToken"
  admin ←
      item
        (← send "/api/shell/v1/auth/login" "POST"
          (dict (
            ("email", str "admin@stir.test")
            ∷ ("password", str (← stripped_text ".local/secrets/login_password"))
            ∷ []))
          null ok_only)
        "accessToken"
  suffix2 ← uuid4_hex 8
  publisher_role ←
      send ("/api/shell/v1/tenants/" <> tenant <> "/roles") "POST"
        (dict (
          ("key", str ("publisher2-" <> suffix2))
          ∷ ("name", str "Second publisher")
          ∷ ("description", str "Local governance test")
          ∷ ("enabled", bool Bool.true)
          ∷ []))
        admin (200 ∷ 201 ∷ [])
  send
      (("/api/shell/v1/tenants/" <> tenant <> "/roles/")
        <> (← text_item publisher_role "id")
        <> "/permissions")
      "PUT" (list (member_permissions ++ strings ("stir.references.publish" ∷ []))) admin ok_only
  diego_login ← make_login admin tenant (← item publisher_role "id") "diego" suffix2
  diego_session ←
      send "/api/shell/v1/auth/login" "POST"
        (dict (("email", str diego_login.0) ∷ ("password", str diego_login.1) ∷ [])) null ok_only
  diego ← item diego_session "accessToken"
  sql
      ("update idax_core.tenant_user set role='admin' where tenant_id='"
        <> tenant
        <> "' and user_id='"
        <> (← shown_item (← item diego_session "user") "id")
        <> "';")
      Bool.false
  raw_history tenant base bea a p admin diego
