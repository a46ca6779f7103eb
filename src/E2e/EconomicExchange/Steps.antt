-- ===== src/E2e/EconomicExchange/Steps.antt =====
-- scripts/economic_exchange_e2e.py: the steps that its scenario is made of, which other scripts share.
pub mod Contained
use stir_main.Base.{Bool, List, Option, String, [], if◌then◌else◌, not, ℕ, ◌<>◌, ◌∷◌}
use stir_main.Base.Int.{ℤ}
use stir_main.Host.{private_key, token_urlsafe}
use stir_main.Host.Exec.{Exec, for_each, pure, ◌>>=◌, ◌>>◌}
use stir_main.Json.{Json, bool, null, str}
use stir_main.Py.{
  dict, draws, expect, is, is_null, item, last_entry, list, method_text, public_text, shown,
  shown_item, signed, strings, text_item,
}
use stir_main.Smoke.{fetch, ok_only, send}

abbrev pub permissions : List Json
permissions = strings (
    "stir.listings.read" ∷ "stir.listings.create" ∷ "stir.listings.update"
    ∷ "stir.participants.read" ∷ "stir.participants.update" ∷ "stir.negotiations.read"
    ∷ "stir.negotiations.create" ∷ "stir.negotiations.update" ∷ "stir.agreements.read"
    ∷ "stir.economic.read" ∷ "stir.economic.manage" ∷ "OSTRIS_DISCOVERY_READ"
    ∷ "OSTRIS_COMMUNITY_MANAGE" ∷ "OSTRIS_PARTICIPANT_ACTIVATE" ∷ "OSTRIS_TRANSACTION_CREATE"
    ∷ "OSTRIS_TRANSACTION_READ" ∷ "OSTRIS_TRANSACTION_AUTHORIZE" ∷ "OSTRIS_TRANSACTION_COMMIT" ∷ [])

-- A key pair: the private key by its name, the public key in base64.
pub new_keypair : Exec (String × String)
new_keypair = do key ← draws private_key; public_key ← public_text key; pure (key, public_key)

pub sign_authorization : String → Json → Exec String
sign_authorization key payload_text = do
  said ← method_text payload_text
  signed key ("OSTRIS:TX:AUTH:V1\0" <> said)

pub make_user : Json → String → Json → String → String → Exec Json
make_user admin tenant role_id label suffix = do
  email ← pure (label <> "-" <> suffix <> "@stir.test")
  password ← draws (token_urlsafe 32)
  base ← pure ("/api/shell/v1/tenants/" <> tenant)
  send (base <> "/users") "POST"
      (dict (
        ("email", str email)
        ∷ ("displayName", str label)
        ∷ ("authProvider", str "local")
        ∷ ("subject", str email)
        ∷ ("password", str password)
        ∷ ("role", str "member")
        ∷ ("enabled", bool Bool.true)
        ∷ []))
      admin (200 ∷ 201 ∷ [])
  session ←
      send "/api/shell/v1/auth/login" "POST"
        (dict (("email", str email) ∷ ("password", str password) ∷ [])) null ok_only
  send (base <> "/roles/users/" <> (← text_item (← item session "user") "id")) "PUT"
      (dict (("roleIds", list (role_id ∷ [])) ∷ [])) admin (204 ∷ [])
  send "/api/shell/v1/auth/login" "POST"
      (dict (("email", str email) ∷ ("password", str password) ∷ [])) null ok_only

pub open_and_accept :
    String → Json → Json → String → String → String → Json → Json → Exec (Json × Json)
open_and_accept base_a ana pedro direction title category first_amount counter_amount = do
  listing ←
      send (base_a <> "/listings") "POST"
        (dict (
          ("direction", str direction)
          ∷ ("title", str title)
          ∷ ("description", str "E2E fixture")
          ∷ ("category", str category)
          ∷ ("resourceKind", str "physical")
          ∷ ("location", str "Girona")
          ∷ []))
        (← item ana "accessToken") (201 ∷ [])
  negotiation ←
      send (base_a <> ("/listings/" <> (← shown_item listing "id") <> "/offers")) "POST"
        (dict (
          ("message", str "proposal")
          ∷ ("quantity", null)
          ∷ ("unitLabel", null)
          ∷ ("proposedAmount", str (← shown first_amount))
          ∷ ("proposedUnitRef", null)
          ∷ ("terms", null)
          ∷ []))
        (← item pedro "accessToken") (201 ∷ [])
  (negotiation, final_amount, acceptor) ←
      if not (is_null counter_amount)
      then (do
        negotiation ←
            send (base_a <> ("/negotiations/" <> (← shown_item negotiation "id") <> "/offers"))
              "POST"
              (dict (
                ("message", str "counter")
                ∷ ("quantity", null)
                ∷ ("unitLabel", null)
                ∷ ("proposedAmount", str (← shown counter_amount))
                ∷ ("proposedUnitRef", null)
                ∷ ("terms", null)
                ∷ ("expectedVersion", (← item negotiation "version"))
                ∷ []))
              (← item ana "accessToken") ok_only
        final_amount ← pure counter_amount
        acceptor ← pure pedro
        pure (negotiation, final_amount, acceptor))
      else (do
        final_amount ← pure first_amount
        acceptor ← pure ana
        pure (negotiation, final_amount, acceptor))
  head ← last_entry (← item negotiation "offers")
  agreement ←
      send (base_a <> ("/negotiations/" <> (← shown_item negotiation "id") <> "/accept")) "POST"
        (dict (
          ("offerId", (← item head "id"))
          ∷ ("expectedVersion", (← item negotiation "version"))
          ∷ []))
        (← item acceptor "accessToken") ok_only
  pure (agreement, final_amount)

pub run_exchange :
    String → Json → Json → Json → String × String × Json → String × String × Json → Exec Json
run_exchange base_a initiator_session owner_session agreement_id initiator_key owner_key = do
  trade ←
      send (base_a <> ("/agreements/" <> (← shown agreement_id) <> "/trade/activate")) "POST"
        (dict []) (← item owner_session "accessToken") ok_only
  send (base_a <> ("/agreements/" <> (← shown agreement_id) <> "/trade/commit")) "POST" (dict [])
      (← item owner_session "accessToken") (409 ∷ [])
  expect (
      is
        (← item
          (← fetch (base_a <> ("/agreements/" <> (← shown agreement_id) <> "/trade"))
            (← item owner_session "accessToken") ok_only)
          "executionState")
        "AWAITING_SIGNATURES")
  for_each {A = Json × (String × String × Json)}
      ((initiator_session, initiator_key) ∷ (owner_session, owner_key) ∷ [])
      (λ row. do
        (session, key) ← pure row
        (the_private_key, _, credential_id) ← pure key
        payload ←
            fetch (base_a <> ("/agreements/" <> (← shown agreement_id) <> "/trade/signing-payload"))
              (← item session "accessToken") ok_only
        signature ← sign_authorization the_private_key (← item payload "authorizationPayload")
        trade ←
            send (base_a <> ("/agreements/" <> (← shown agreement_id) <> "/trade/authorizations"))
              "POST"
              (dict (("credentialId", credential_id) ∷ ("signatureBase64url", str signature) ∷ []))
              (← item session "accessToken") ok_only
        pure tt)
  send (base_a <> ("/agreements/" <> (← shown agreement_id) <> "/trade/commit")) "POST" (dict [])
      (← item owner_session "accessToken") ok_only

pub activate_economic : String → Json → Exec (String × String × Json)
activate_economic base_a session = do
  (the_private_key, public_key) ← new_keypair
  activation ←
      send (base_a <> "/economic/activate") "POST"
        (dict (("publicKeyBase64url", str public_key) ∷ [])) (← item session "accessToken") ok_only
  pure (the_private_key, public_key, (← item activation "credentialId"))
