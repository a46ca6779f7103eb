-- ===== src/E2e/Audit/OpenAndAccept.antt =====
-- scripts/audit_economic_commit_e2e.py: open and accept.
use stir_main.Base.{
  Bool, List, Option, String, [], if◌then◌else◌, leb, ltb, none, not, some, ◌&&◌, ◌<>◌, ◌==◌, ◌∷◌,
}
use stir_main.Host.{Reply, replied, requested, token_urlsafe, unreachable}
use stir_main.Host.Exec.{
  Exec, asks, assertion_error, os_error, pure, query, raise, unless, ◌>>=◌, ◌>>◌,
}
use stir_main.Json.{Json, bool, null, str}
use stir_main.Py.{
  dict, draws, env_or, is_null, item, last_entry, list, shown, shown_item, strings, text_item,
}
use stir_main.Smoke.{ok_only, send}

abbrev pub permissions : List Json
permissions = strings (
    "stir.listings.read" ∷ "stir.listings.create" ∷ "stir.listings.update"
    ∷ "stir.participants.read" ∷ "stir.participants.update" ∷ "stir.negotiations.read"
    ∷ "stir.negotiations.create" ∷ "stir.negotiations.update" ∷ "stir.agreements.read"
    ∷ "stir.economic.read" ∷ "stir.economic.manage" ∷ "OSTRIS_DISCOVERY_READ"
    ∷ "OSTRIS_COMMUNITY_MANAGE" ∷ "OSTRIS_PARTICIPANT_ACTIVATE" ∷ "OSTRIS_TRANSACTION_CREATE"
    ∷ "OSTRIS_TRANSACTION_READ" ∷ "OSTRIS_TRANSACTION_AUTHORIZE" ∷ "OSTRIS_TRANSACTION_COMMIT" ∷ [])

-- The mode of the fault proxy for its next exchange; the assertion wants the status 204.
unfoldable pub accepted : Reply → Exec Unit
accepted unreachable = raise os_error
accepted (replied status text) =
    if leb 200 status && ltb status 300
    then unless (status == 204) (assertion_error "")
    else raise os_error

unfoldable pub fault_once : String → Exec Unit
fault_once mode = do
  proxy ← env_or "STIR_AUDIT_FAULT_PROXY_URL" "http://localhost:18095"
  req ← pure (record {
    url = proxy <> "/__audit/mode/" <> mode;
    method = "POST";
    headers = [];
    body = null;
  })
  reply ← query (requested req) (λ h t. h.web.urlopen t req)
  accepted reply

unfoldable pub host_or_null : Option String → Json
host_or_null none = null
host_or_null (some name) = str name

-- The host name in the URL under test.
unfoldable pub test_host : Exec Json
test_host = do
  url ← env_or "STIR_TEST_URL" "http://localhost:8089"
  asks (λ h. host_or_null (h.web.hostname url))

unfoldable pub make_user : Json → String → Json → String → String → Exec Json
make_user admin tenant role_id label suffix = do
  email ← pure (label <> "-" <> suffix <> "@stir.test")
  password ← draws (token_urlsafe 32)
  base ← pure ("/api/shell/v1/tenants/" <> tenant)
  send (base <> "/users") "POST"
      (dict (
        ("email", str email)
        ∷ ("displayName", str label)
        ∷ ("authProvider", str "local")
        ∷ ("subject", str email)
        ∷ ("password", str password)
        ∷ ("role", str "member")
        ∷ ("enabled", bool Bool.true)
        ∷ []))
      admin (200 ∷ 201 ∷ [])
  session ←
      send "/api/shell/v1/auth/login" "POST"
        (dict (("email", str email) ∷ ("password", str password) ∷ [])) null ok_only
  send (base <> "/roles/users/" <> (← text_item (← item session "user") "id")) "PUT"
      (dict (("roleIds", list (role_id ∷ [])) ∷ [])) admin (204 ∷ [])
  send "/api/shell/v1/auth/login" "POST"
      (dict (("email", str email) ∷ ("password", str password) ∷ [])) null ok_only

unfoldable pub open_and_accept :
    String → Json → Json → String → String → String → Json → Json → Exec (Json × Json)
open_and_accept base_a ana pedro direction title category first_amount counter_amount = do
  listing ←
      send (base_a <> "/listings") "POST"
        (dict (
          ("direction", str direction)
          ∷ ("title", str title)
          ∷ ("description", str "E2E fixture")
          ∷ ("category", str category)
          ∷ ("resourceKind", str "physical")
          ∷ ("location", str "Girona")
          ∷ []))
        (← item ana "accessToken") (201 ∷ [])
  negotiation ←
      send (base_a <> ("/listings/" <> (← shown_item listing "id") <> "/offers")) "POST"
        (dict (
          ("message", str "proposal")
          ∷ ("quantity", null)
          ∷ ("unitLabel", null)
          ∷ ("proposedAmount", str (← shown first_amount))
          ∷ ("proposedUnitRef", null)
          ∷ ("terms", null)
          ∷ []))
        (← item pedro "accessToken") (201 ∷ [])
  (negotiation, final_amount, acceptor) ←
      if not (is_null counter_amount)
      then (do
        negotiation ←
            send (base_a <> ("/negotiations/" <> (← shown_item negotiation "id") <> "/offers"))
              "POST"
              (dict (
                ("message", str "counter")
                ∷ ("quantity", null)
                ∷ ("unitLabel", null)
                ∷ ("proposedAmount", str (← shown counter_amount))
                ∷ ("proposedUnitRef", null)
                ∷ ("terms", null)
                ∷ ("expectedVersion", (← item negotiation "version"))
                ∷ []))
              (← item ana "accessToken") ok_only
        final_amount ← pure counter_amount
        acceptor ← pure pedro
        pure (negotiation, final_amount, acceptor))
      else (do
        final_amount ← pure first_amount
        acceptor ← pure ana
        pure (negotiation, final_amount, acceptor))
  head ← last_entry (← item negotiation "offers")
  agreement ←
      send (base_a <> ("/negotiations/" <> (← shown_item negotiation "id") <> "/accept")) "POST"
        (dict (
          ("offerId", (← item head "id"))
          ∷ ("expectedVersion", (← item negotiation "version"))
          ∷ []))
        (← item acceptor "accessToken") ok_only
  pure (agreement, final_amount)
