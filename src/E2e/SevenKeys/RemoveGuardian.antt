-- ===== src/E2e/SevenKeys/RemoveGuardian.antt =====
-- scripts/market_integrity_e2e.py: remove guardian.
use stir_main.Base.{List, String, [], if◌then◌else◌, not, ℕ, ◌-◌, ◌<>◌, ◌∷◌}
use stir_main.Base.Int.{pos}
use stir_main.E2e.SevenKeys.Signing.{domain, guardian_domain, possession_domain, sign}
use stir_main.Host.{uuid4}
use stir_main.Host.Exec.{Exec, for_each, pure, ◌>>=◌, ◌>>◌}
use stir_main.Json.{Json, int, null, str}
use stir_main.Py.{
  all_of, dict, draws, each_of, entry, expect, is, is_true, item, list, loads, pick, print,
  shown_item, strings, text_item, text_of, truthy, within,
}
use stir_main.Smoke.{fetch, ok_only, send}

unfoldable pub propose : Json → String → Json → String → Json → List String → String → Exec Json
propose community api token action after the_fields reason = do
  send (api <> "/" <> (← text_of community) <> "/proposals") "POST"
      (dict (
        ("proposalId", str (← draws uuid4))
        ∷ ("actionType", str action)
        ∷ ("after", after)
        ∷ ("affectedFields", list (strings the_fields))
        ∷ ("reason", str reason)
        ∷ ("evidenceRefs", list (strings ("assembly-record-1" ∷ [])))
        ∷ []))
      token ok_only

unfoldable pub sign_seat :
    List String → List String → String → Json → Json → ℕ → Json → Json → Exec Json
sign_seat credentials the_keys api token p seat key credential = do
  payload ← loads (← text_item p "payloadJson")
  i ← pure (seat - 1)
  send (api <> "/proposals/" <> (← text_item p "id") <> "/signatures") "POST"
      (dict (
        ("seatOrdinal", int (pos seat))
        ∷ (
          "credentialId",
          (← if truthy credential then pure credential else (do pure (str (← pick i credentials)))),
        )
        ∷ (
          "signatureBase64url",
          str
              (← sign
                (← text_of (← if truthy key then pure key else (do pure (str (← pick i the_keys)))))
                domain payload),
        )
        ∷ []))
      token ok_only

unfoldable pub execute : String → Json → Json → Json → Json → List ℕ → Exec Json
execute api token p guardian_key new_key expected = do
  payload ← loads (← text_item p "payloadJson")
  the_body ← pure (
      dict (
        (
          "guardianSignature",
          (← if truthy guardian_key
              then (do pure (str (← sign (← text_of guardian_key) guardian_domain payload)))
              else (pure null)),
        )
        ∷ (
          "newKeyPossessionSignature",
          (← if truthy new_key
              then (do pure (str (← sign (← text_of new_key) possession_domain payload)))
              else (pure null)),
        )
        ∷ []))
  send (api <> "/proposals/" <> (← text_item p "id") <> "/activate") "POST" the_body token expected

unfoldable pub remove_guardian :
    Json → Json → Json → Json → String → List String → List String → String → Json → Exec Unit
remove_guardian pedro bea token community api the_keys credentials guardian_id the_body = do
  removal ←
      propose community api token "REMOVE_GUARDIAN"
        (dict (("guardianCredentialId", str guardian_id) ∷ ("status", str "REMOVED") ∷ []))
        ("guardianStatus" ∷ []) "Explicit community decision"
  for_each {A = ℕ} (1 ∷ 2 ∷ 3 ∷ 5 ∷ 6 ∷ [])
      (λ seat. do sign_seat credentials the_keys api token removal seat null null; pure tt)
  execute api token removal null null ok_only
  expect (
      is (← item (← fetch (api <> "/" <> (← text_of community)) token ok_only) "guardianStatus")
        "REMOVED")
  send (api <> "/" <> (← text_of community) <> "/emergency-suspensions") "POST" the_body token
      (409 ∷ [])
  the_events ←
      fetch (api <> "/" <> (← text_of community) <> "/events") (← item pedro "accessToken") ok_only
  expect (truthy the_events)
  expect
      (← all_of (← each_of the_events)
        (λ event. do pure (not (← within (str "payload_json") event))))
  expect (
      is_true
        (← item
          (← fetch (api <> "/" <> (← text_of community) <> "/audit") (← item pedro "accessToken")
            ok_only)
          "valid"))
  other_base ← pure (
      "/api/stir/tenants/"
      <> (← shown_item (← entry (← item bea "tenants") 0) "id")
      <> "/references/governance")
  fetch (other_base <> "/" <> (← text_of community)) (← item bea "accessToken") (404 ∷ [])
  print
      "PASS HTTP SEVEN KEYS: 6/7 blocked, 7/7 activated, one guardian suspension, constitutional freeze, 6/6 recovery, old credential history, 5/7 guardian removal, tenant isolation and redaction."
