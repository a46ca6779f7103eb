-- ===== src/E2e/Isolation.antt =====
-- scripts/multitenant.py: two tenants that can see and change nothing of each other.
pub mod Contained
pub mod Refusals
pub mod RejectOne
pub mod RejectEachOther
use stir_main.Base.{
  Bool, List, Option, String, [], if◌then◌else◌, ℕ, ◌++◌, ◌-◌, ◌<>◌, ◌==◌, ◌=s=◌, ◌∷◌,
}
use stir_main.Base.Int.{pos, ℤ}
use stir_main.Base.Text.{splitlines}
use stir_main.Compose.{sql}
use stir_main.E2e.Isolation.RejectEachOther.{reject_each_other}
use stir_main.Host.{token_urlsafe, uuid4}
use stir_main.Host.Exec.{Exec, for_each, pure, ◌>>=◌, ◌>>◌}
use stir_main.Json.{Json, bool, int, null, str}
use stir_main.Py.{
  before_last, dict, draws, dumps, entry, eq, expect, expect_or, fold_each, is, item, length_of,
  list, map_each, merged, no_values, numbered, pick, plus_int, print, replaced, strings,
  stripped_text, subset, text_item, uuid4_hex, write_under_root,
}
use stir_main.Py.Texts.{join, show_nat, split_at}
use stir_main.Smoke.{fetch, ok_only, request, send}

pub main : Exec Unit
main = do
  admin ←
      item
        (← send "/api/shell/v1/auth/login" "POST"
          (dict (
            ("email", str "admin@stir.test")
            ∷ ("password", str (← stripped_text ".local/secrets/login_password"))
            ∷ []))
          null ok_only)
        "accessToken"
  suffix ← uuid4_hex 10
  tenants ← map_each ("a" ∷ "b" ∷ []) (λ name.
      sql
        ("select tenant_id from idax_core.tenant_create('stir-e2e-" <> name <> "-" <> suffix
          <> "', 'STIR E2E " <> name <> "', 'active', false);")
        Bool.false)
  sessions ← pure no_values
  listings ← pure no_values
  (listings, sessions) ←
      fold_each {A = ℕ × String} (numbered 0 tenants) (listings, sessions)
        (λ row so_far. do
          (i, tenant) ← pure row
          (listings, sessions) ← pure so_far
          base ← pure ("/api/shell/v1/tenants/" <> tenant)
          role ← pure ("stir_e2e_" <> suffix)
          created_role ←
              send (base <> "/roles") "POST"
                (dict (
                  ("key", str role)
                  ∷ ("name", str "STIR E2E participant")
                  ∷ ("description", str "Isolated development fixture")
                  ∷ ("enabled", bool Bool.true)
                  ∷ []))
                admin (200 ∷ 201 ∷ [])
          send (base <> "/roles/" <> (← text_item created_role "id") <> "/permissions") "PUT"
              (list (
                strings
                  ("stir.listings.read" ∷ "stir.listings.create" ∷ "stir.listings.update" ∷ [])))
              admin ok_only
          email ← pure ("participant-" <> show_nat i <> "-" <> suffix <> "@stir.test")
          password ← draws (token_urlsafe 32)
          send (base <> "/users") "POST"
              (dict (
                ("email", str email)
                ∷ ("displayName", str "STIR E2E participant")
                ∷ ("authProvider", str "local")
                ∷ ("subject", str email)
                ∷ ("password", str password)
                ∷ ("role", str "member")
                ∷ ("enabled", bool Bool.true)
                ∷ []))
              admin (200 ∷ 201 ∷ [])
          session ←
              send "/api/shell/v1/auth/login" "POST"
                (dict (("email", str email) ∷ ("password", str password) ∷ [])) null ok_only
          send (base <> "/roles/users/" <> (← text_item (← item session "user") "id")) "PUT"
              (dict (("roleIds", list ((← item created_role "id") ∷ [])) ∷ [])) admin (204 ∷ [])
          session ←
              send "/api/shell/v1/auth/login" "POST"
                (dict (("email", str email) ∷ ("password", str password) ∷ [])) null ok_only
          sessions ← pure (sessions ++ (session ∷ []))
          path ← pure ("/api/stir/tenants/" <> tenant <> "/listings")
          payload ← pure (
              dict (
                ("direction", str (if i == 0 then "OFFER" else "WANTED"))
                ∷ ("title", str ("Isolation " <> suffix))
                ∷ ("description", str "Test resource")
                ∷ ("category", str "general")
                ∷ ("resourceKind", str "service")
                ∷ []))
          listing ←
              request path "POST" payload (← item session "accessToken") (201 ∷ [])
                (("X-Owner-Id", (← draws uuid4)) ∷ [])
          expect (eq (← item listing "ownerId") (← item (← item session "user") "id"))
          expect (is (← item listing "tenantId") tenant)
          listings ← pure (listings ++ (listing ∷ []))
          pure (listings, sessions))
  reject_each_other suffix tenants sessions listings
