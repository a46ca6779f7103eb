-- ===== src/E2e/Login.antt =====
-- scripts/marketplace_browser_smoke.py: the account that other scripts share. The rest of the script drives a browser.
pub mod Contained
use stir_main.Base.{Bool, List, Option, String, [], ℕ, ◌<>◌, ◌∷◌}
use stir_main.Base.Int.{ℤ}
use stir_main.Host.{token_urlsafe}
use stir_main.Host.Exec.{Exec, pure, ◌>>=◌, ◌>>◌}
use stir_main.Json.{Json, bool, null, str}
use stir_main.Py.{dict, draws, item, list, text_item}
use stir_main.Smoke.{ok_only, send}

pub make_login : Json → String → Json → String → String → Exec (String × String)
make_login admin tenant role_id label suffix = do
  email ← pure (label <> "-" <> suffix <> "@stir.test")
  password ← draws (token_urlsafe 24)
  send ("/api/shell/v1/tenants/" <> tenant <> "/users") "POST"
      (dict (
        ("email", str email)
        ∷ ("displayName", str label)
        ∷ ("authProvider", str "local")
        ∷ ("subject", str email)
        ∷ ("password", str password)
        ∷ ("role", str "member")
        ∷ ("enabled", bool Bool.true)
        ∷ []))
      admin (200 ∷ 201 ∷ [])
  session ←
      send "/api/shell/v1/auth/login" "POST"
        (dict (("email", str email) ∷ ("password", str password) ∷ [])) null ok_only
  send
      (("/api/shell/v1/tenants/" <> tenant <> "/roles/users/")
        <> (← text_item (← item session "user") "id"))
      "PUT" (dict (("roleIds", list (role_id ∷ [])) ∷ [])) admin (204 ∷ [])
  pure (email, password)
