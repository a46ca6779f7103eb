-- ===== src/E2e/Independence/Relate.antt =====
-- scripts/participant_independence_e2e.py: relate.
use stir_main.Base.{Bool, String, [], ◌<>◌, ◌∷◌}
use stir_main.Compose.{sql}
use stir_main.E2e.Uuid7.{uuid7}
use stir_main.Host.Exec.{Exec, pure, ◌>>=◌, ◌>>◌}
use stir_main.Json.{Json, bool, str}
use stir_main.Py.{
  dict, each_of, eq, expect, expect_or, is, item, last_entry, list, next_of, print, same_set, shown,
  strings, text_item, text_of,
}
use stir_main.Smoke.{fetch, ok_only, request, send}

unfoldable pub participant_id : String → Json → Exec String
participant_id tenant user_id = do
  sql
      ("select participant_id from stir.participant_economic_binding where tenant_id='"
        <> tenant
        <> "' and user_id='"
        <> (← shown user_id)
        <> "';")
      Bool.false

unfoldable pub confirm_related : Json → String → Json → String → String → String → Exec Json
confirm_related admin tenant community participant risk_subject reason = do
  request "/api/ostris/identity/continuity-decisions" "POST"
      (dict (
        ("decisionId", str (← uuid7))
        ∷ ("communityId", community)
        ∷ ("participantId", str participant)
        ∷ ("riskSubjectId", str risk_subject)
        ∷ ("status", str "CONFIRMED")
        ∷ ("evidenceRefs", list (strings ("e2e-fixture" ∷ [])))
        ∷ ("decisionAuthority", str "e2e-fixture")
        ∷ ("reason", str reason)
        ∷ []))
      admin (201 ∷ []) (("X-Tenant", tenant) ∷ [])

unfoldable pub agree_and_observe :
    String → Json → Json → Json → Json → Json → Json → String → Exec Unit
agree_and_observe base pedro carlos bea pedro_user carlos_user a other_base = do
  definition ←
      send (base <> "/references") "POST"
        (dict (
          ("name", str "Firewood 1 stere")
          ∷ ("scope", str "One stere of dry firewood")
          ∷ ("attributes", dict [])
          ∷ ("quantityBasis", str "1")
          ∷ ("quantityUnit", str "stere")
          ∷ []))
        a ok_only
  ref ← pure (base <> "/references/" <> (← text_item definition "id"))
  listing ←
      send (base <> "/listings") "POST"
        (dict (
          ("direction", str "OFFER")
          ∷ ("title", str "Firewood between related accounts")
          ∷ ("description", str "E2E fixture")
          ∷ ("category", str "home")
          ∷ ("resourceKind", str "physical")
          ∷ ("referenceDefinitionId", (← item definition "id"))
          ∷ []))
        (← item pedro "accessToken") (201 ∷ [])
  offer ←
      send (base <> "/listings/" <> (← text_item listing "id") <> "/offers") "POST"
        (dict (
          ("message", str "proposal")
          ∷ ("quantity", str "1")
          ∷ ("unitLabel", str "stere")
          ∷ ("proposedAmount", str "10")
          ∷ ("proposedUnitRef", (← item definition "unit_ref"))
          ∷ ("shareReferenceObservation", bool Bool.true)
          ∷ []))
        (← item carlos "accessToken") (201 ∷ [])
  send (base <> "/negotiations/" <> (← text_item offer "id") <> "/accept") "POST"
      (dict (
        ("offerId", (← item (← last_entry (← item offer "offers")) "id"))
        ∷ ("expectedVersion", (← item offer "version"))
        ∷ ("shareReferenceObservation", bool Bool.true)
        ∷ []))
      (← item pedro "accessToken") ok_only
  observations ← fetch (ref <> "/observations") a ok_only
  agreement_row ←
      next_of (← each_of observations) (λ o. do pure (is (← item o "source") "AGREEMENT"))
  expect (
      same_set
        ((← item agreement_row "participant_a") ∷ (← item agreement_row "participant_b") ∷ [])
        (pedro_user ∷ carlos_user ∷ []))
  manifest ← fetch (ref <> "/evidence-manifest") a ok_only
  expect_or
      "today's own Agreement is outside snapshot()'s < cutoff window - invisible to any manifest today, same as every other same-day scenario in this codebase"
      (eq (← item manifest "included") (list []))
  expect_or
      "today's own Agreement is outside snapshot()'s < cutoff window - invisible to any manifest today, same as every other same-day scenario in this codebase"
      (eq (← item manifest "exclusions") (dict []))
  expect (
      is
        (← item
          (← fetch
            (base <> "/references/participants/" <> (← text_of pedro_user) <> "/independence") a
            ok_only)
          "status")
        "RELATED_CONTINUITY")
  fetch (other_base <> "/references/participants/" <> (← text_of pedro_user) <> "/independence")
      (← item bea "accessToken") (400 ∷ 403 ∷ 404 ∷ [])
  print
      "PASS HTTP PARTICIPANT INDEPENDENCE: no-binding/unknown/related-continuity states all come from osTRIS's own real HTTP contract (not a mock), permission and tenant boundaries on the new refresh/read endpoints match every other mutation and every other private read, a real Agreement between two osTRIS-confirmed related accounts is captured with its real participants regardless of same-day evidence-manifest caching, and independence status itself is a live, always-current read unaffected by that same daily cutoff."

unfoldable pub relate :
    String
    → String
    → Json
    → Json
    → Json
    → Json
    → Json
    → Json
    → Json
    → Json
    → String
    → String
    → String
    → Exec Unit
relate tenant base pedro carlos bea admin community pedro_user carlos_user a pedro_participant
      carlos_participant other_base =
    do
      risk_subject ← uuid7
      sql
          ("insert into ostris.risk_subject(id,tenant_id,community_id) values ('"
            <> risk_subject
            <> "','"
            <> tenant
            <> "','"
            <> (← shown community)
            <> "');")
          Bool.false
      confirm_related admin tenant community pedro_participant risk_subject
          "Same continuity cluster (e2e fixture)"
      confirm_related admin tenant community carlos_participant risk_subject
          "Same continuity cluster (e2e fixture)"
      related_pedro ←
          send
            (base
              <> "/references/participants/"
              <> (← text_of pedro_user)
              <> "/independence-refresh")
            "POST" (dict []) a ok_only
      related_carlos ←
          send
            (base
              <> "/references/participants/"
              <> (← text_of carlos_user)
              <> "/independence-refresh")
            "POST" (dict []) a ok_only
      expect (eq (← item related_pedro "status") (← item related_carlos "status"))
      expect (is (← item related_carlos "status") "RELATED_CONTINUITY")
      agree_and_observe base pedro carlos bea pedro_user carlos_user a other_base
