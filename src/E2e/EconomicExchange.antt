-- ===== src/E2e/EconomicExchange.antt =====
-- scripts/economic_exchange_e2e.py: the scenario of an exchange, whose parts follow each other.
pub mod Contained
pub mod Steps
pub mod TradeWanted
pub mod TradeOffer
use stir_main.Base.{Bool, List, Option, String, [], ℕ, ◌<>◌, ◌=s=◌, ◌∷◌}
use stir_main.Base.Int.{negsuc, pos, same, ℤ, ◌+ℤ◌}
use stir_main.Base.Text.{splitlines}
use stir_main.Compose.{sql}
use stir_main.E2e.EconomicExchange.Steps.{
  activate_economic, make_user, open_and_accept, permissions, run_exchange, sign_authorization,
}
use stir_main.E2e.EconomicExchange.TradeOffer.{trade_offer}
use stir_main.Host.Exec.{Exec, pure, ◌>>=◌, ◌>>◌}
use stir_main.Json.{Json, bool, int, null, str}
use stir_main.Py.{
  dict, eq, expect, expect_or, expect_showing, fold_each, int_from, is, item, list, pick_back,
  print, shown_item, stripped_text, text_item, uuid4_hex,
}
use stir_main.Smoke.{fetch, ok_only, send}

pub main : Exec Unit
main = do
  admin ←
      item
        (← send "/api/shell/v1/auth/login" "POST"
          (dict (
            ("email", str "admin@stir.test")
            ∷ ("password", str (← stripped_text ".local/secrets/login_password"))
            ∷ []))
          null ok_only)
        "accessToken"
  suffix ← uuid4_hex 8
  tenant_a ←
      sql
        ("select tenant_id from idax_core.tenant_create('stir-eco-a-" <> suffix
          <> "', 'STIR Economic A', 'active', false);")
        Bool.false
  role ←
      send ("/api/shell/v1/tenants/" <> tenant_a <> "/roles") "POST"
        (dict (
          ("key", str ("stir_eco_" <> suffix))
          ∷ ("name", str "STIR economic E2E")
          ∷ ("description", str "Isolated development fixture")
          ∷ ("enabled", bool Bool.true)
          ∷ []))
        admin (200 ∷ 201 ∷ [])
  send
      (("/api/shell/v1/tenants/" <> tenant_a <> "/roles/")
        <> (← text_item role "id")
        <> "/permissions")
      "PUT" (list permissions) admin ok_only
  ana ← make_user admin tenant_a (← item role "id") "ana" suffix
  pedro ← make_user admin tenant_a (← item role "id") "pedro" suffix
  base_a ← pure ("/api/stir/tenants/" <> tenant_a)
  send (base_a <> "/participants/me") "PUT"
      (dict (
        ("displayName", str ("Ana " <> suffix))
        ∷ ("bio", str "Grows tomatoes")
        ∷ ("location", str "Girona")
        ∷ []))
      (← item ana "accessToken") ok_only
  send (base_a <> "/participants/me") "PUT"
      (dict (
        ("displayName", str ("Pedro " <> suffix))
        ∷ ("bio", str "Fixes bicycles")
        ∷ ("location", str "Girona")
        ∷ []))
      (← item pedro "accessToken") ok_only
  marketplace ←
      send (base_a <> "/economic/marketplace/bootstrap") "POST"
        (dict (
          ("communityName", str ("STIR E2E Community " <> suffix))
          ∷ ("unitCode", str "CRD")
          ∷ ("unitScale", int (pos 0))
          ∷ []))
        (← item ana "accessToken") ok_only
  expect (eq (← item marketplace "unitScale") (int (pos 0)))
  ana_key ← activate_economic base_a ana
  pedro_key ← activate_economic base_a pedro
  trade_offer suffix tenant_a ana pedro base_a ana_key pedro_key
