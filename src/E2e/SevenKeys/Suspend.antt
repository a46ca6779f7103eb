-- ===== src/E2e/SevenKeys/Suspend.antt =====
-- scripts/market_integrity_e2e.py: suspend.
use stir_main.Base.{Bool, List, String, [], ℕ, ◌<>◌, ◌∷◌}
use stir_main.Base.Int.{pos}
use stir_main.E2e.SevenKeys.RemoveGuardian.{execute, propose, remove_guardian, sign_seat}
use stir_main.E2e.SevenKeys.Signing.{domain, guardian_domain, rawkey, sign}
use stir_main.Host.{private_key, uuid4}
use stir_main.Host.Exec.{Exec, for_each, pure, ◌>>=◌, ◌>>◌}
use stir_main.Json.{Json, bool, int, null, str}
use stir_main.Py.{
  any_of, dict, draws, each_of, entry, expect, is, item, list, loads, merged, now_iso, pick,
  strings, text_item, text_of,
}
use stir_main.Smoke.{fetch, ok_only, send}

unfoldable pub rotate :
    Json
    → Json
    → Json
    → Json
    → String
    → List String
    → String
    → List String
    → List String
    → String
    → Json
    → Json
    → Exec Unit
rotate pedro bea token community api the_keys guardian credentials controllers guardian_id the_body
      frozen =
    do
      replacement_key ← draws private_key
      replacement ←
          propose community api token "REPLACE_CONTROLLER"
            (dict (
              ("affectedSeat", int (pos 4))
              ∷ ("oldCredentialId", str (← pick 3 credentials))
              ∷ ("newCredentialId", str (← draws uuid4))
              ∷ ("newPublicKey", str (← rawkey replacement_key))
              ∷ ("controllerId", str (← draws uuid4))
              ∷ ("finalResolutionId", str (← draws uuid4))
              ∷ (
                "finalResolutionDigest",
                str "0000000000000000000000000000000000000000000000000000000000000000",
              )
              ∷ ("reason", str "Proposed controller replacement")
              ∷ []))
            ("controllerId" ∷ "credentialId" ∷ []) "Explicit community decision"
      execute api token replacement (str guardian) (str replacement_key) (409 ∷ [])
      newkey ← draws private_key
      newcred ← draws uuid4
      recovery ← pure (
          dict (
            ("affectedSeat", int (pos 4))
            ∷ ("oldCredentialId", str (← pick 3 credentials))
            ∷ ("newCredentialId", str newcred)
            ∷ ("newPublicKey", str (← rawkey newkey))
            ∷ ("controllerId", str (← pick 3 controllers))
            ∷ ("continuityEvidenceRefs", list (strings ("continuity-1" ∷ [])))
            ∷ ("reason", str "Same controller credential rotation")
            ∷ []))
      r ←
          propose community api token "ROTATE_CREDENTIAL" recovery ("credentialId" ∷ [])
            "Explicit community decision"
      for_each {A = ℕ} (1 ∷ 2 ∷ 3 ∷ 5 ∷ 6 ∷ [])
          (λ seat. do sign_seat credentials the_keys api token r seat null null; pure tt)
      execute api token r (str guardian) (str newkey) (409 ∷ [])
      sign_seat credentials the_keys api token r 7 null null
      execute api token r (str guardian) (str newkey) ok_only
      seats_after ← item (← fetch (api <> "/" <> (← text_of community)) token ok_only) "seats"
      expect (is (← item (← entry seats_after 3) "credential_id") newcred)
      expect (is (← item (← entry seats_after 3) "status") "ACTIVE")
      expect
          (← any_of
            (← each_of
              (← fetch (api <> "/" <> (← text_of community) <> "/credentials") token ok_only))
            (λ the_item. do pure (is (← item the_item "status") "REVOKED")))
      send (api <> "/proposals/" <> (← text_item frozen "id") <> "/signatures") "POST"
          (dict (
            ("seatOrdinal", int (pos 4))
            ∷ ("credentialId", str (← pick 3 credentials))
            ∷ (
              "signatureBase64url",
              str (← sign (← pick 3 the_keys) domain (← loads (← text_item frozen "payloadJson"))),
            )
            ∷ []))
          token (409 ∷ [])
      remove_guardian pedro bea token community api the_keys credentials guardian_id the_body

unfoldable pub suspend :
    String
    → Json
    → Json
    → Json
    → Json
    → String
    → String
    → List String
    → String
    → List String
    → List String
    → String
    → Json
    → Exec Unit
suspend tenant pedro bea token community authority api the_keys guardian credentials controllers
      guardian_id changed =
    do
      sequence ← item (← fetch (api <> "/" <> (← text_of community)) token ok_only) "nextSequence"
      declared ← now_iso
      suspension ← pure (
          dict (
            ("format", str "STIR-KEY-SUSPENSION-1")
            ∷ ("tenantId", str tenant)
            ∷ ("communityId", community)
            ∷ ("authorityId", str authority)
            ∷ ("seat", int (pos 4))
            ∷ ("credentialId", str (← pick 3 credentials))
            ∷ ("reasonCode", str "KEY_COMPROMISED")
            ∷ ("evidenceRefs", list (strings ("incident-1" ∷ [])))
            ∷ ("sequence", sequence)
            ∷ ("declaredAt", str declared)
            ∷ []))
      the_body ← pure (
          dict (
            ("seatOrdinal", int (pos 4))
            ∷ ("credentialId", str (← pick 3 credentials))
            ∷ ("expectedSequence", sequence)
            ∷ ("declaredAt", str declared)
            ∷ ("reasonCode", str "KEY_COMPROMISED")
            ∷ ("evidenceRefs", list (strings ("incident-1" ∷ [])))
            ∷ ("guardianSignature", str (← sign guardian guardian_domain suspension))
            ∷ []))
      send (api <> "/" <> (← text_of community) <> "/emergency-suspensions") "POST" the_body token
          ok_only
      send (api <> "/" <> (← text_of community) <> "/emergency-suspensions") "POST"
          (← merged the_body (("seatOrdinal", int (pos 5)) ∷ [])) token (409 ∷ [])
      frozen ←
          propose community api token "AMEND_CONSTITUTION"
            (← merged changed (("concentrationChecksRequired", bool Bool.false) ∷ []))
            ("concentrationChecksRequired" ∷ []) "Explicit community decision"
      execute api token frozen null null (409 ∷ [])
      rotate pedro bea token community api the_keys guardian credentials controllers guardian_id
          the_body frozen
