-- ===== src/E2e/SevenKeys.antt =====
-- scripts/market_integrity_e2e.py: the constitution of a community under seven keys and a guardian.
pub mod Contained
pub mod Signing
pub mod RemoveGuardian
pub mod Suspend
use stir_main.Base.{
  Bool, List, Option, String, [], if◌then◌else◌, not, ℕ, ◌+◌, ◌-◌, ◌<>◌, ◌==◌, ◌∷◌,
}
use stir_main.Base.Int.{pos, ℤ}
use stir_main.E2e.References.{fixtures}
use stir_main.E2e.SevenKeys.RemoveGuardian.{execute, propose, sign_seat}
use stir_main.E2e.SevenKeys.Signing.{
  bootstrap_domain, digest, domain, guardian_domain, possession_domain, rawkey, sign,
}
use stir_main.E2e.SevenKeys.Suspend.{suspend}
use stir_main.Host.{private_key, uuid4}
use stir_main.Host.Exec.{Exec, for_each, pure, ◌>>=◌, ◌>>◌}
use stir_main.Json.{Json, bool, int, null, str}
use stir_main.Py.{
  all_of, any_of, dict, draws, each_of, entry, eq, expect, is, is_true, item, length_of, list,
  loads, map_each, merged, now_iso, numbered, pick, print, shown_item, strings, text_item, text_of,
  truthy, within,
}
use stir_main.Smoke.{fetch, ok_only, send}

unfoldable amend :
    String
    → Json
    → Json
    → Json
    → Json
    → String
    → String
    → List String
    → String
    → List String
    → List String
    → String
    → Json
    → Exec Unit
amend tenant pedro bea token community authority api the_keys guardian credentials controllers
      guardian_id constitution =
    do
      changed ← merged constitution (("independenceChecksRequired", bool Bool.false) ∷ [])
      p ←
          propose community api token "AMEND_CONSTITUTION" changed
            ("independenceChecksRequired" ∷ []) "Explicit community decision"
      for_each {A = ℕ} (1 ∷ 2 ∷ 3 ∷ 4 ∷ 5 ∷ 6 ∷ [])
          (λ seat. do sign_seat credentials the_keys api token p seat null null; pure tt)
      execute api token p null null (409 ∷ [])
      expect (
          eq
            (← item
              (← fetch (api <> "/proposals/" <> (← text_item p "id")) (← item pedro "accessToken")
                ok_only)
              "signatureCount")
            (int (pos 6)))
      sign_seat credentials the_keys api token p 7 null null
      execute api token p null null ok_only
      expect (
          eq
            (← item
              (← fetch (api <> "/" <> (← text_of community)) (← item pedro "accessToken") ok_only)
              "constitutionVersion")
            (int (pos 2)))
      suspend tenant pedro bea token community authority api the_keys guardian credentials
          controllers guardian_id changed

unfoldable adjust_policy :
    String
    → String
    → Json
    → Json
    → Json
    → Json
    → String
    → String
    → List String
    → String
    → List String
    → List String
    → String
    → Json
    → Json
    → Exec Unit
adjust_policy tenant base pedro bea token community authority api the_keys guardian credentials
      controllers guardian_id constitution view =
    do
      expect (eq (← item view "threshold") (int (pos 7)))
      expect ((← length_of (← item view "seats")) == 7)
      definition ←
          send (base <> "/references") "POST"
            (dict (
              ("name", str "Integrity service")
              ∷ ("scope", str "One hour of service")
              ∷ ("attributes", dict [])
              ∷ ("quantityBasis", str "1")
              ∷ ("quantityUnit", str "hour")
              ∷ []))
            token ok_only
      policy ← pure (
          dict (
            ("windowDays", int (pos 90))
            ∷ ("minimumObservations", int (pos 8))
            ∷ ("minimumParticipants", int (pos 6))
            ∷ ("maximumParticipantShare", str "0.40")
            ∷ ("freshnessDays", int (pos 30))
            ∷ ("explanation", str "Ordinary bounded adjustment")
            ∷ []))
      adjusted ←
          send (base <> "/references/" <> (← text_item definition "id") <> "/policies") "POST"
            policy token ok_only
      expect (eq (← item adjusted "version") (int (pos 2)))
      send (base <> "/references/" <> (← text_item definition "id") <> "/policies") "POST"
          (← merged policy (("independenceChecksRequired", bool Bool.false) ∷ [])) token (409 ∷ [])
      amend tenant pedro bea token community authority api the_keys guardian credentials controllers
          guardian_id constitution

pub main : Exec Unit
main = do
  (tenant, base, ana, pedro, carlos, bea, binding) ← fixtures
  token ← item ana "accessToken"
  community ← item binding "communityId"
  authority ← draws uuid4
  api ← pure (base <> "/references/governance")
  the_keys ← map_each {A = ℕ} (0 ∷ 1 ∷ 2 ∷ 3 ∷ 4 ∷ 5 ∷ 6 ∷ []) (λ _. draws private_key)
  guardian ← draws private_key
  credentials ← map_each the_keys (λ _. draws uuid4)
  controllers ← map_each the_keys (λ _. draws uuid4)
  guardian_id ← draws uuid4
  public_seats ← map_each {A = ℕ} (0 ∷ 1 ∷ 2 ∷ 3 ∷ 4 ∷ 5 ∷ 6 ∷ []) (λ i. do
    pure (
        dict (
          ("ordinal", int (pos (i + 1)))
          ∷ ("controllerId", str (← pick i controllers))
          ∷ ("credentialId", str (← pick i credentials))
          ∷ ("publicKey", str (← rawkey (← pick i the_keys)))
          ∷ [])))
  constitution ← pure (
      dict (
        ("schema", str "STIR-MARKET-CONSTITUTION-1")
        ∷ ("provenanceRequired", bool Bool.true)
        ∷ ("historyImmutable", bool Bool.true)
        ∷ ("independenceChecksRequired", bool Bool.true)
        ∷ ("concentrationChecksRequired", bool Bool.true)
        ∷ ("minimumObservationFloor", int (pos 5))
        ∷ ("minimumParticipantFloor", int (pos 6))
        ∷ ("maximumParticipantShareCeiling", str "0.50")
        ∷ ("guardianMayGovern", bool Bool.false)
        ∷ ("constitutionalThreshold", int (pos 7))
        ∷ []))
  bootstrap ← pure (
      dict (
        ("format", str "STIR-SEVEN-KEYS-BOOTSTRAP-1")
        ∷ ("tenantId", str tenant)
        ∷ ("communityId", community)
        ∷ ("authorityId", str authority)
        ∷ ("seats", list public_seats)
        ∷ ("guardianCredentialId", str guardian_id)
        ∷ ("guardianPublicKey", str (← rawkey guardian))
        ∷ ("constitutionDigest", str (← digest constitution))
        ∷ []))
  seats ← map_each {A = ℕ × Json} (numbered 0 public_seats) (λ row. do
    (i, seat) ← pure row
    pure
        (← merged seat (
          ("possessionSignature", str (← sign (← pick i the_keys) bootstrap_domain bootstrap))
          ∷ [])))
  creation ← pure (
      dict (
        ("authorityId", str authority)
        ∷ ("communityId", community)
        ∷ ("seats", list seats)
        ∷ ("guardianCredentialId", str guardian_id)
        ∷ ("guardianPublicKey", str (← rawkey guardian))
        ∷ ("guardianPossessionSignature", str (← sign guardian bootstrap_domain bootstrap))
        ∷ []))
  view ← send (api <> "/bootstrap") "POST" creation token ok_only
  adjust_policy tenant base pedro bea token community authority api the_keys guardian credentials
      controllers guardian_id constitution view
