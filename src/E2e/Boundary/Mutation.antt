-- ===== src/E2e/Boundary/Mutation.antt =====
-- scripts/governed_boundary_e2e.py: what can and cannot change the constitution after the bootstrap.
pub mod Contained
pub mod Once
use stir_main.Base.{
  Bool, List, Option, String, [], if◌then◌else◌, length, ltb, not, ℕ, ◌+◌, ◌-◌, ◌<>◌, ◌==◌, ◌=s=◌,
  ◌||◌, ◌∷◌,
}
use stir_main.Base.Int.{pos, ℤ}
use stir_main.Base.Text.{starts_with}
use stir_main.E2e.Boundary.Attack.{effective_constitution, expect_rejected}
use stir_main.E2e.SevenKeys.Signing.{domain, guardian_domain, sign}
use stir_main.Host.{uuid4}
use stir_main.Host.Exec.{Exec, for_each, pure, ◌>>=◌, ◌>>◌}
use stir_main.Json.{Json, bool, int, null, str}
use stir_main.Py.{
  dict, draws, eq, expect, expect_or, is_null, is_true, item, length_of, list, loads, merged,
  minus_int, now_iso, pick, print, strings, text_item, text_of, truthy,
}
use stir_main.Py.Texts.{split_at}
use stir_main.Smoke.{fetch, ok_only, send}

unfoldable propose : String → Json → Json → Json → List String → Exec Json
propose api community token after the_fields = do
  send (api <> "/" <> (← text_of community) <> "/proposals") "POST"
      (dict (
        ("proposalId", str (← draws uuid4))
        ∷ ("actionType", str "AMEND_CONSTITUTION")
        ∷ ("after", after)
        ∷ ("affectedFields", list (strings the_fields))
        ∷ ("reason", str "Explicit community decision")
        ∷ ("evidenceRefs", list (strings ("assembly-record-1" ∷ [])))
        ∷ []))
      token ok_only

unfoldable sig : List String → Json → ℕ → String → String → Json → Json → Exec Json
sig credentials p seat key the_domain payload credential = do
  signed ←
      if not (is_null payload)
      then (pure payload)
      else (do pure (← loads (← text_item p "payloadJson")))
  pure (
      dict (
        ("seatOrdinal", int (pos seat))
        ∷ (
          "credentialId",
          (← if truthy credential
              then pure credential
              else (do pure (str (← pick (seat - 1) credentials)))),
        )
        ∷ ("signatureBase64url", str (← sign key the_domain signed))
        ∷ []))

unfoldable sign_path : String → Json → Exec String
sign_path api p = do pure (api <> "/proposals/" <> (← text_item p "id") <> "/signatures")

unfoldable activate_path : String → Json → Exec String
activate_path api p = do pure (api <> "/proposals/" <> (← text_item p "id") <> "/activate")

unfoldable refuse_stale :
    String → String → Json → String → Json → List String → String → List String → Json → Exec Unit
refuse_stale tenant api community authority token the_keys guardian credentials changed = do
  sequence ← item (← fetch (api <> "/" <> (← text_of community)) token ok_only) "nextSequence"
  declared ← now_iso
  suspension ← pure (
      dict (
        ("format", str "STIR-KEY-SUSPENSION-1")
        ∷ ("tenantId", str tenant)
        ∷ ("communityId", community)
        ∷ ("authorityId", str authority)
        ∷ ("seat", int (pos 4))
        ∷ ("credentialId", str (← pick 3 credentials))
        ∷ ("reasonCode", str "KEY_COMPROMISED")
        ∷ ("evidenceRefs", list (strings ("incident-1" ∷ [])))
        ∷ ("sequence", (← minus_int sequence 1))
        ∷ ("declaredAt", str declared)
        ∷ []))
  expect_rejected "stale sequence on a Guardian suspension"
      (api <> "/" <> (← text_of community) <> "/emergency-suspensions")
      (dict (
        ("seatOrdinal", int (pos 4))
        ∷ ("credentialId", str (← pick 3 credentials))
        ∷ ("expectedSequence", (← minus_int sequence 1))
        ∷ ("declaredAt", str declared)
        ∷ ("reasonCode", str "KEY_COMPROMISED")
        ∷ ("evidenceRefs", list (strings ("incident-1" ∷ [])))
        ∷ ("guardianSignature", str (← sign guardian guardian_domain suspension))
        ∷ []))
      token (int (pos 409))
  suspension ← merged suspension (("sequence", sequence) ∷ [])
  send (api <> "/" <> (← text_of community) <> "/emergency-suspensions") "POST"
      (dict (
        ("seatOrdinal", int (pos 4))
        ∷ ("credentialId", str (← pick 3 credentials))
        ∷ ("expectedSequence", sequence)
        ∷ ("declaredAt", str declared)
        ∷ ("reasonCode", str "KEY_COMPROMISED")
        ∷ ("evidenceRefs", list (strings ("incident-1" ∷ [])))
        ∷ ("guardianSignature", str (← sign guardian guardian_domain suspension))
        ∷ []))
      token ok_only
  later ←
      propose api community token
        (← merged changed (("concentrationChecksRequired", bool Bool.false) ∷ []))
        ("concentrationChecksRequired" ∷ [])
  expect_rejected "suspended credential of seat 4 cannot sign" (← sign_path api later)
      (← sig credentials later 4 (← pick 3 the_keys) domain null null) token (int (pos 409))
  print "COMPLETE: constitutional mutation matrix executed"

unfoldable refuse_replay :
    String
    → String
    → Json
    → String
    → Json
    → List String
    → String
    → List String
    → Json
    → Json
    → Json
    → ℕ
    → String
    → Exec Unit
refuse_replay tenant api community authority token the_keys guardian credentials empty changed p
      events_before after =
    do
      expect_rejected "replay of the executed mutation cannot change state again"
          (← activate_path api p) empty token (int (pos 409))
      expect_rejected "replay of a signature for the executed proposal" (← sign_path api p)
          (← sig credentials p 7 (← pick 6 the_keys) domain null null) token (int (pos 409))
      expect_or "replay changed effective constitutional state"
          ((← effective_constitution tenant) =s= after)
      events_after ← fetch (api <> "/" <> (← text_of community) <> "/events") token ok_only
      expect_or "the legitimate mutation must leave audit evidence"
          (ltb events_before (← length_of events_after))
      expect (
          is_true
            (← item (← fetch (api <> "/" <> (← text_of community) <> "/audit") token ok_only)
              "valid"))
      print "PASS: legitimate mutation produced governance events and the audit chain verifies"
      refuse_stale tenant api community authority token the_keys guardian credentials changed

pub change_once :
    String
    → String
    → Json
    → String
    → Json
    → List String
    → String
    → List String
    → Json
    → String
    → Json
    → Json
    → Exec Unit
change_once tenant api community authority token the_keys guardian credentials empty before changed
      p =
    do
      events_before ←
          length_of (← fetch (api <> "/" <> (← text_of community) <> "/events") token ok_only)
      send (← sign_path api p) "POST" (← sig credentials p 7 (← pick 6 the_keys) domain null null)
          token ok_only
      send (← activate_path api p) "POST" empty token ok_only
      after ← effective_constitution tenant
      expect_or "legitimate mutation must append exactly one version"
          ((before =s= "") || starts_with after (before <> ","))
      expect_or "effective constitution must change exactly once" (
          length (split_at 44 after)
          == ((if not (before =s= "") then length (split_at 44 before) else 0) + 1))
      expect (
          eq
            (← item (← fetch (api <> "/" <> (← text_of community)) token ok_only)
              "constitutionVersion")
            (int (pos 2)))
      print
          "PASS: legitimate 7-of-7 constitutional mutation after bootstrap, effective state changed exactly once"
      refuse_replay tenant api community authority token the_keys guardian credentials empty changed
          p events_before after

unfoldable refuse_all :
    String
    → String
    → Json
    → String
    → Json
    → List String
    → String
    → String
    → List String
    → Json
    → String
    → Json
    → Json
    → Json
    → Exec Unit
refuse_all tenant api community authority token the_keys guardian guardian_id credentials empty
      before changed p payload =
    do
      expect_rejected "exact 6-of-7 valid signatures cannot activate" (← activate_path api p) empty
          token (int (pos 409))
      expect_rejected "duplicate signature by an already-signed seat" (← sign_path api p)
          (← sig credentials p 1 (← pick 0 the_keys) domain null null) token (int (pos 409))
      expect_rejected "wrong community: seat 7 signs a payload naming another community"
          (← sign_path api p)
          (← sig credentials p 7 (← pick 6 the_keys) domain
            (← merged payload (("communityId", str (← draws uuid4)) ∷ [])) null)
          token (int (pos 400))
      expect_rejected "wrong domain: seat 7 signs under the Guardian domain" (← sign_path api p)
          (← sig credentials p 7 (← pick 6 the_keys) guardian_domain null null) token
          (int (pos 400))
      expect_rejected "modified payload: seat 7 signs a tampered reason" (← sign_path api p)
          (← sig credentials p 7 (← pick 6 the_keys) domain
            (← merged payload (("reason", str "tampered") ∷ [])) null)
          token (int (pos 400))
      expect_rejected "Guardian counted as constitutional seat 7" (← sign_path api p)
          (dict (
            ("seatOrdinal", int (pos 7))
            ∷ ("credentialId", str guardian_id)
            ∷ ("signatureBase64url", str (← sign guardian domain payload))
            ∷ []))
          token (int (pos 409))
      expect_rejected "unknown credential presented for seat 7" (← sign_path api p)
          (← sig credentials p 7 (← pick 6 the_keys) domain null (str (← draws uuid4))) token
          (int (pos 409))
      expect_or "a rejected constitutional attack changed effective state"
          ((← effective_constitution tenant) =s= before)
      change_once tenant api community authority token the_keys guardian credentials empty before
          changed p

pub constitutional_mutation_matrix :
    String
    → String
    → Json
    → String
    → Json
    → List String
    → String
    → String
    → List String
    → Json
    → Exec Unit
constitutional_mutation_matrix tenant api community authority token the_keys guardian guardian_id
      credentials constitution =
    do
      empty ← pure (dict (("guardianSignature", null) ∷ ("newKeyPossessionSignature", null) ∷ []))
      before ← effective_constitution tenant
      changed ← merged constitution (("independenceChecksRequired", bool Bool.false) ∷ [])
      p ← propose api community token changed ("independenceChecksRequired" ∷ [])
      payload ← loads (← text_item p "payloadJson")
      for_each {A = ℕ} (1 ∷ 2 ∷ 3 ∷ 4 ∷ 5 ∷ 6 ∷ []) (λ seat. do
        send (← sign_path api p) "POST"
            (← sig credentials p seat (← pick (seat - 1) the_keys) domain null null) token ok_only
        pure tt)
      refuse_all tenant api community authority token the_keys guardian guardian_id credentials
          empty before changed p payload
