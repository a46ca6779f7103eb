-- ===== src/E2e/Listing.antt =====
-- scripts/smoke.py: the life of one listing, and what is refused on the way.
pub mod Contained
use stir_main.Base.{Bool, List, Option, String, [], if◌then◌else◌, not, ℕ, ◌<>◌, ◌=s=◌, ◌∷◌}
use stir_main.Base.Int.{ℤ}
use stir_main.E2e.EconomicExchange.Steps.{make_user, permissions}
use stir_main.Host.{uuid4}
use stir_main.Host.Exec.{Exec, pure, ◌>>=◌, ◌>>◌}
use stir_main.Json.{Json, bool, null, str}
use stir_main.Py.{
  any_of, dict, draws, each_of, entry, env_or, eq, expect, is, item, list, merged, method_text,
  pick, print, replaced, shown, shown_item, stripped_text, text_item, uuid4_hex,
}
use stir_main.Py.Texts.{drop, join, letters, split_at}
use stir_main.Smoke.{fetch, ok_only, send}

unfoldable list_and_close : Json → Json → Json → String → Exec Unit
list_and_close session tenant token base = do
  payload ← pure (
      dict (
        ("direction", str "OFFER")
        ∷ ("title", str ("Smoke " <> (← draws uuid4)))
        ∷ ("description", str "Reusable chair")
        ∷ ("category", str "home")
        ∷ ("resourceKind", str "physical")
        ∷ ("location", str "Town centre")
        ∷ []))
  listing ← send base "POST" payload token (201 ∷ [])
  expect (eq (← item listing "tenantId") tenant)
  expect (eq (← item listing "ownerId") (← item (← item session "user") "id"))
  found ← fetch (base <> "?mine=true&direction=OFFER&category=home") token ok_only
  expect
      (← any_of (← each_of (← item found "content"))
        (λ row. do pure (eq (← item row "id") (← item listing "id"))))
  fetch (base <> "/" <> (← text_item listing "id")) token ok_only
  changed ←
      send (base <> "/" <> (← text_item listing "id")) "PUT"
        (← merged payload
          (("title", str "Updated smoke") ∷ ("version", (← item listing "version")) ∷ []))
        token ok_only
  send (base <> "/" <> (← text_item listing "id")) "PUT"
      (← merged payload (("version", (← item listing "version")) ∷ [])) token (409 ∷ [])
  closed ←
      send (base <> "/" <> (← text_item listing "id") <> "/close") "POST"
        (dict (("version", (← item changed "version")) ∷ [])) token ok_only
  expect (is (← item closed "status") "CLOSED")
  repeated ←
      send (base <> "/" <> (← text_item listing "id") <> "/close") "POST"
        (dict (("version", (← item closed "version")) ∷ [])) token ok_only
  expect (eq (← item repeated "version") (← item closed "version"))
  expect (is (← item repeated "status") "CLOSED")
  send (base <> "/" <> (← text_item listing "id")) "DELETE" null token (405 ∷ [])
  send (base <> "/" <> (← text_item listing "id")) "PUT"
      (← merged payload (("version", (← item closed "version")) ∷ [])) token (409 ∷ [])
  fetch (base <> "?size=1000") token (400 ∷ [])
  print
      "PASS: login, tenant, auth 401, catalogs, create/read/filter/edit, stale update 409, close, closed edit 409, bounded pagination."
  print "Created one closed smoke listing in the local development database."

unfoldable refuse_strangers : Json → Json → Json → String → Exec Unit
refuse_strangers session tenant token base = do
  fetch base null (401 ∷ [])
  fetch base (str "invalid") (401 ∷ [])
  parts ← pure (split_at 46 (← method_text token))
  parts ← pure (
      replaced 2
        ((if not ((← pick 0 (letters (← pick 2 parts))) =s= "A") then "A" else "B")
          <> drop 1 (← pick 2 parts))
        parts)
  fetch base (str (join "." parts)) (401 ∷ [])
  fetch (base <> "/catalogs") token ok_only
  list_and_close session tenant token base

pub main : Exec Unit
main = do
  login_email ← env_or "STIR_TEST_LOGIN_EMAIL" "admin@stir.test"
  fetch "/actuator/health/readiness" null ok_only
  session ←
      send "/api/shell/v1/auth/login" "POST"
        (dict (
          ("email", str login_email)
          ∷ ("password", str (← stripped_text ".local/secrets/login_password"))
          ∷ []))
        null ok_only
  admin ← item session "accessToken"
  tenant ← item (← entry (← item session "tenants") 0) "id"
  suffix ← uuid4_hex 8
  role_row ←
      send ("/api/shell/v1/tenants/" <> (← shown tenant) <> "/roles") "POST"
        (dict (
          ("key", str ("smoke-participant-" <> suffix))
          ∷ ("name", str "Smoke participant")
          ∷ ("description", str "Local smoke fixture")
          ∷ ("enabled", bool Bool.true)
          ∷ []))
        admin (200 ∷ 201 ∷ [])
  send
      ("/api/shell/v1/tenants/"
        <> (← shown tenant)
        <> "/roles/"
        <> (← shown_item role_row "id")
        <> "/permissions")
      "PUT" (list permissions) admin ok_only
  session ← make_user admin (← shown tenant) (← item role_row "id") "smoke" suffix
  token ← item session "accessToken"
  base ← pure ("/api/stir/tenants/" <> (← shown tenant) <> "/listings")
  refuse_strangers session tenant token base
