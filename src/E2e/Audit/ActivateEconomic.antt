-- ===== src/E2e/Audit/ActivateEconomic.antt =====
-- scripts/audit_economic_commit_e2e.py: activate economic.
use stir_main.Base.{String, [], if◌then◌else◌, ◌<>◌, ◌∷◌}
use stir_main.E2e.Audit.OpenAndAccept.{fault_once}
use stir_main.E2e.EconomicExchange.Steps.{new_keypair, sign_authorization}
use stir_main.Host.Exec.{Exec, for_each, pure, ◌>>=◌, ◌>>◌}
use stir_main.Json.{Json, str}
use stir_main.Py.{dict, expect, is, item, shown}
use stir_main.Smoke.{fetch, ok_only, send}

unfoldable pub run_exchange :
    String → Json → Json → Json → String × String × Json → String × String × Json → Json → Exec Json
run_exchange base_a initiator_session owner_session agreement_id initiator_key owner_key
      fault_plan =
    do
      trade ←
          send (base_a <> ("/agreements/" <> (← shown agreement_id) <> "/trade/activate")) "POST"
            (dict []) (← item owner_session "accessToken") ok_only
      send (base_a <> ("/agreements/" <> (← shown agreement_id) <> "/trade/commit")) "POST"
          (dict []) (← item owner_session "accessToken") (409 ∷ [])
      expect (
          is
            (← item
              (← fetch (base_a <> ("/agreements/" <> (← shown agreement_id) <> "/trade"))
                (← item owner_session "accessToken") ok_only)
              "executionState")
            "AWAITING_SIGNATURES")
      for_each {A = Json × (String × String × Json)}
          ((initiator_session, initiator_key) ∷ (owner_session, owner_key) ∷ [])
          (λ row. do
            (session, key) ← pure row
            (the_private_key, _, credential_id) ← pure key
            payload ←
                fetch
                  (base_a <> ("/agreements/" <> (← shown agreement_id) <> "/trade/signing-payload"))
                  (← item session "accessToken") ok_only
            signature ← sign_authorization the_private_key (← item payload "authorizationPayload")
            trade ←
                send
                  (base_a <> ("/agreements/" <> (← shown agreement_id) <> "/trade/authorizations"))
                  "POST"
                  (dict
                    (("credentialId", credential_id) ∷ ("signatureBase64url", str signature) ∷ []))
                  (← item session "accessToken") ok_only
            pure tt)
      commit_path ← pure (base_a <> ("/agreements/" <> (← shown agreement_id) <> "/trade/commit"))
      if is fault_plan "precommit"
          then (do
            fault_once "unavailable_once"
            send commit_path "POST" (dict []) (← item owner_session "accessToken") (503 ∷ [])
            expect (
                is
                  (← item
                    (← fetch (base_a <> ("/agreements/" <> (← shown agreement_id) <> "/trade"))
                      (← item owner_session "accessToken") ok_only)
                    "executionState")
                  "AWAITING_SIGNATURES")
            fault_once "timeout_once"
            send commit_path "POST" (dict []) (← item owner_session "accessToken") (503 ∷ [])
            expect (
                is
                  (← item
                    (← fetch (base_a <> ("/agreements/" <> (← shown agreement_id) <> "/trade"))
                      (← item owner_session "accessToken") ok_only)
                    "executionState")
                  "AWAITING_SIGNATURES"))
          else pure tt
      if is fault_plan "aftercommit"
          then (do
            fault_once "drop_after_once"
            send commit_path "POST" (dict []) (← item owner_session "accessToken") (503 ∷ [])
            send (base_a <> ("/agreements/" <> (← shown agreement_id) <> "/trade/sync")) "POST"
                (dict []) (← item owner_session "accessToken") ok_only)
          else (do send commit_path "POST" (dict []) (← item owner_session "accessToken") ok_only)

unfoldable pub activate_economic : String → Json → Exec (String × String × Json)
activate_economic base_a session = do
  (the_private_key, public_key) ← new_keypair
  activation ←
      send (base_a <> "/economic/activate") "POST"
        (dict (("publicKeyBase64url", str public_key) ∷ [])) (← item session "accessToken") ok_only
  pure (the_private_key, public_key, (← item activation "credentialId"))
