-- ===== src/E2e/Ledger.antt =====
-- scripts/ledger_integration_e2e.py: one committed transaction of a deployment, for the ledger to record.
pub mod Contained
use stir_main.Backup.{sorted}
use stir_main.Base.{
  Bool, List, Option, String, [], if◌then◌else◌, length, none, not, some, ℕ, ◌<>◌, ◌==◌, ◌||◌, ◌∷◌,
}
use stir_main.Base.Int.{pos, ℤ}
use stir_main.Base.Text.{contains, strip}
use stir_main.E2e.EconomicExchange.Steps.{activate_economic, open_and_accept, run_exchange}
use stir_main.E2e.Marketplace.{permissions}
use stir_main.Host.{token_urlsafe, ◌/◌}
use stir_main.Host.Exec.{Exec, asks, for_each, pure, raise, read_text, system_exit, ◌>>=◌, ◌>>◌}
use stir_main.Json.{Fields, Json, array, bool, end, field, int, lookup, null, object, real, str}
use stir_main.Py.{
  dict, draws, each_of, entry, env_value, eq, filter_each, get, item, keys, list, lower_text,
  map_each, pick, print, shown, shown_repr, strings, text_item, text_of, truthy, upper_text,
  uuid4_hex,
}
use stir_main.Smoke.{fetch, ok_only, send}

-- `SECRETS`, under the directory that the environment may name.
secrets_or_default : String → Json → Exec String
secrets_or_default root null = pure (root / ".local/secrets")
secrets_or_default root path = text_of path

unfoldable secret_text : String → Exec String
secret_text name = do
  root ← asks (λ h. h.root)
  secrets ← secrets_or_default root (← env_value "STIR_LEDGER_SECRETS")
  found ← read_text (secrets / name)
  pure (strip found)

-- What the script tells of the committed transaction: `isinstance(v, dict)` and the rest.
fields_of : Json → Option Fields
fields_of (object fs) = some fs
fields_of _ = none

pairs : Fields → List (String × Json)
pairs end = []
pairs (field k v rest) = (k, v) ∷ pairs rest

type_name : Json → String
type_name null = "NoneType"
type_name (bool _) = "bool"
type_name (int _) = "int"
type_name (real _) = "float"
type_name (str _) = "str"
type_name (array _) = "list"
type_name (object _) = "dict"

print_found : String → Option Json → Exec Unit
print_found key none = pure tt
print_found key (some v) = do print ((← upper_text key) <> " " <> (← shown v))

print_if_there : Fields → String → Exec Unit
unfolding print_found
print_if_there fs key = print_found key (lookup key fs)

print_if_telling : String × Json → Exec Unit
print_if_telling (key, v) = do
  lower ← lower_text key
  if contains lower "id" || contains lower "state" || contains lower "status"
      then (do print ("TRADE_" <> (← upper_text key) <> " " <> (← shown v)))
      else pure tt

print_each : Option Fields → Exec Unit
unfolding pairs print_if_telling
print_each none = pure tt
print_each (some fs) = for_each (pairs fs) print_if_telling

print_trade : Option Json → Exec Unit
unfolding print_each fields_of
print_trade none = pure tt
print_trade (some v) = print_each (fields_of v)

print_keys : Json → Option Fields → Exec Unit
unfolding type_name
print_keys result none = print ("COMMIT_RESPONSE_KEYS " <> type_name result)
print_keys result (some fs) = do
  names ← map_each (keys fs) text_of
  print ("COMMIT_RESPONSE_KEYS " <> (← shown (list (strings (sorted names)))))

print_transaction : Option Fields → Exec Unit
unfolding print_trade print_if_there
print_transaction none = pure tt
print_transaction (some fs) = do
  for_each
      ("transactionId" ∷ "journalTransactionId" ∷ "trade" ∷ "executionState" ∷ "status"
        ∷ "communityId" ∷ "communitySequence" ∷ "protocolDigest" ∷ "osTrisTransactionId" ∷ [])
      (print_if_there fs)
  print_trade (lookup "trade" fs)

unfoldable report : Json → Json → Json → Json → Exec Unit
unfolding print_transaction print_keys
report tenant amount agreement_id result = do
  print ("STIR_AGREEMENT_ID " <> (← shown agreement_id))
  print ("AGREED_AMOUNT " <> (← shown amount))
  print ("TENANT_ID " <> (← shown tenant))
  print_transaction (fields_of result)
  print_keys result (fields_of result)
  print "LEDGER_E2E_CONTROLLED_TRANSACTION: COMMITTED"

unfoldable trade : Json → String → String → Json → Json → Exec Unit
trade tenant base suffix ana pedro = do
  send (base <> "/economic/marketplace/bootstrap") "POST"
      (dict (
        ("communityName", str ("Ledger E2E " <> suffix))
        ∷ ("unitCode", str "LED")
        ∷ ("unitScale", int (pos 0))
        ∷ []))
      (← item ana "accessToken") (200 ∷ 201 ∷ 409 ∷ [])
  ana_key ← activate_economic base ana
  pedro_key ← activate_economic base pedro
  (agreement, amount) ←
      open_and_accept base ana pedro "OFFER" ("Ledger E2E " <> suffix) "home" (int (pos 10)) null
  agreement_id ← item agreement "id"
  result ← run_exchange base pedro ana agreement_id pedro_key ana_key
  report tenant amount agreement_id result

unfoldable provision : Json → Json → String → String → Json → Exec Unit
provision admin tenant base suffix role = do
  ana_email ← pure ("ana-" <> suffix <> "@stir.test")
  ana_password ← draws (token_urlsafe 24)
  send ("/api/shell/v1/tenants/" <> (← shown tenant) <> "/users") "POST"
      (dict (
        ("email", str ana_email)
        ∷ ("displayName", str "ana")
        ∷ ("authProvider", str "local")
        ∷ ("subject", str ana_email)
        ∷ ("password", str ana_password)
        ∷ ("role", str "admin")
        ∷ ("enabled", bool Bool.true)
        ∷ []))
      admin (200 ∷ 201 ∷ [])
  ana_login ←
      send "/api/shell/v1/auth/login" "POST"
        (dict (("email", str ana_email) ∷ ("password", str ana_password) ∷ [])) null ok_only
  send
      (("/api/shell/v1/tenants/" <> (← shown tenant) <> "/roles/users/")
        <> (← text_item (← item ana_login "user") "id"))
      "PUT" (dict (("roleIds", list ((← item role "id") ∷ [])) ∷ [])) admin (204 ∷ [])
  ana ←
      send "/api/shell/v1/auth/login" "POST"
        (dict (("email", str ana_email) ∷ ("password", str ana_password) ∷ [])) null ok_only
  pedro_email ← pure ("pedro-" <> suffix <> "@stir.test")
  pedro_password ← draws (token_urlsafe 24)
  send ("/api/shell/v1/tenants/" <> (← shown tenant) <> "/users") "POST"
      (dict (
        ("email", str pedro_email)
        ∷ ("displayName", str "pedro")
        ∷ ("authProvider", str "local")
        ∷ ("subject", str pedro_email)
        ∷ ("password", str pedro_password)
        ∷ ("role", str "admin")
        ∷ ("enabled", bool Bool.true)
        ∷ []))
      admin (200 ∷ 201 ∷ [])
  pedro_login ←
      send "/api/shell/v1/auth/login" "POST"
        (dict (("email", str pedro_email) ∷ ("password", str pedro_password) ∷ [])) null ok_only
  send
      (("/api/shell/v1/tenants/" <> (← shown tenant) <> "/roles/users/")
        <> (← text_item (← item pedro_login "user") "id"))
      "PUT" (dict (("roleIds", list ((← item role "id") ∷ [])) ∷ [])) admin (204 ∷ [])
  pedro ←
      send "/api/shell/v1/auth/login" "POST"
        (dict (("email", str pedro_email) ∷ ("password", str pedro_password) ∷ [])) null ok_only
  send (base <> "/participants/me") "PUT"
      (dict (
        ("displayName", str ("Ana " <> suffix))
        ∷ ("bio", str "Ledger E2E")
        ∷ ("location", str "Girona")
        ∷ []))
      (← item ana "accessToken") ok_only
  send (base <> "/participants/me") "PUT"
      (dict (
        ("displayName", str ("Pedro " <> suffix))
        ∷ ("bio", str "Ledger E2E")
        ∷ ("location", str "Girona")
        ∷ []))
      (← item pedro "accessToken") ok_only
  trade tenant base suffix ana pedro

pub main : Exec Unit
main = do
  admin_session ←
      send "/api/shell/v1/auth/login" "POST"
        (dict (
          ("email", str "admin@stir.test")
          ∷ ("password", str (← secret_text "login_password"))
          ∷ []))
        null ok_only
  admin ← item admin_session "accessToken"
  tenant_code ← env_value "STIR_LEDGER_TENANT_CODE"
  tenant ←
      if truthy tenant_code
      then (do
        platform_tenants ← fetch "/api/shell/v1/platform/tenants" admin ok_only
        matches ←
            filter_each (← each_of platform_tenants)
              (λ t. do pure (eq (← get t "code") tenant_code))
        if not (not (length matches == 0))
            then (do
              raise (
                  system_exit (
                    "No platform tenant with code "
                    <> (← shown_repr tenant_code)
                    <> " - it must already exist (this script never creates the tenant itself, only an admin user inside it).")))
            else pure tt
        tenant ← item (← pick 0 matches) "id"
        pure tenant)
      else (do tenant ← item (← entry (← item admin_session "tenants") 0) "id"; pure tenant)
  base ← pure ("/api/stir/tenants/" <> (← shown tenant))
  suffix ← uuid4_hex 8
  role ←
      send ("/api/shell/v1/tenants/" <> (← shown tenant) <> "/roles") "POST"
        (dict (
          ("key", str ("ledger_e2e_" <> suffix))
          ∷ ("name", str "Ledger integration E2E")
          ∷ ("description", str "Release fixture")
          ∷ ("enabled", bool Bool.true)
          ∷ []))
        admin (200 ∷ 201 ∷ [])
  send
      (("/api/shell/v1/tenants/" <> (← shown tenant) <> "/roles/")
        <> (← text_item role "id")
        <> "/permissions")
      "PUT" (list permissions) admin ok_only
  provision admin tenant base suffix role
