-- ===== src/E2e/ValueGovernance/DecideCase.antt =====
-- scripts/community_value_governance_e2e.py: decide case.
use stir_main.Base.{Bool, List, String, [], not, ◌<>◌, ◌=s=◌, ◌∷◌}
use stir_main.Compose.{sql}
use stir_main.Host.Exec.{Exec, pure, ◌>>=◌, ◌>>◌}
use stir_main.Json.{Json, str}
use stir_main.Py.{
  and_also, any_of, dict, each_of, entry, eq, expect, expect_or, is, item, last_entry, length_of,
  list, map_each, pick, print, shown_item, strings, text_item, within,
}
use stir_main.Py.Texts.{show_nat}
use stir_main.Smoke.{fetch, ok_only, send}

unfoldable pub agree : Json → String → Json → Json → String → Json → Json → Exec Json
agree a base definition listing amount buyer_token consent = do
  n ←
      send (base <> "/listings/" <> (← text_item listing "id") <> "/offers") "POST"
        (dict (
          ("message", str "Free proposal")
          ∷ ("quantity", str "1")
          ∷ ("unitLabel", str "bag")
          ∷ ("proposedAmount", str amount)
          ∷ ("proposedUnitRef", (← item definition "unit_ref"))
          ∷ ("shareReferenceObservation", consent)
          ∷ []))
        buyer_token (201 ∷ [])
  send (base <> "/negotiations/" <> (← text_item n "id") <> "/accept") "POST"
      (dict (
        ("offerId", (← item (← last_entry (← item n "offers")) "id"))
        ∷ ("expectedVersion", (← item n "version"))
        ∷ ("shareReferenceObservation", consent)
        ∷ []))
      a ok_only

unfoldable pub isolate : String → Json → Json → String → Exec Unit
isolate base bea definition ref = do
  fetch (ref <> "/observations") (← item bea "accessToken") (400 ∷ 403 ∷ 404 ∷ [])
  fetch (ref <> "/evidence-manifest") (← item bea "accessToken") (400 ∷ 403 ∷ 404 ∷ [])
  fetch (base <> "/references/integrity/definitions/" <> (← text_item definition "id") <> "/cases")
      (← item bea "accessToken") (400 ∷ 403 ∷ 404 ∷ [])
  other_base ← pure ("/api/stir/tenants/" <> (← shown_item (← entry (← item bea "tenants") 0) "id"))
  fetch (other_base <> "/references/" <> (← text_item definition "id") <> "/observations")
      (← item bea "accessToken") (403 ∷ 404 ∷ [])
  print
      "PASS HTTP GOVERNANCE: raw observation history survives regardless of same-day evidence-manifest caching (anti-live-differencing proven directly; per-reason-code classification proven at the PostgreSQL level with backdated observations, not live same-day HTTP), platform SuperAdmin explicitly excluded from community governance, ordinary policy governance inside constitutional floors with floor(400)/protected-field(409) rejection, market integrity SIGNAL->UNDER_REVIEW->FINAL and ->DISMISSED by a genuinely different publisher, tenant isolation."

unfoldable pub dismiss_case :
    String → String → Json → Json → Json → Json → String → Json → Exec Unit
dismiss_case tenant base bea a diego definition ref dismissable = do
  dismiss_signal ←
      send (base <> "/references/integrity/signals") "POST"
        (dict (
          ("observationId", (← item dismissable "id"))
          ∷ ("signalCode", str "OUTLIER_PENDING_REVIEW")
          ∷ ("reason", str "Looks unusual but probably fine")
          ∷ ("evidenceRefs", list [])
          ∷ []))
        a ok_only
  send (base <> "/references/integrity/cases/" <> (← text_item dismiss_signal "id") <> "/decisions")
      "POST" (dict (("status", str "UNDER_REVIEW") ∷ ("reason", str "Checking") ∷ [])) a ok_only
  dismissed ←
      send
        (base
          <> "/references/integrity/cases/"
          <> (← text_item dismiss_signal "id")
          <> "/decisions")
        "POST"
        (dict
          (("status", str "DISMISSED") ∷ ("reason", str "Confirmed legitimate, no finding") ∷ []))
        diego ok_only
  expect (is (← item dismissed "status") "DISMISSED")
  still_cached ← fetch (ref <> "/evidence-manifest") a ok_only
  expect_or "a dismissed signal excludes nothing"
      (not (← within (← item dismissable "id") (← item still_cached "exclusions")))
  expect_or "no raw observation was ever deleted by any of the review decisions" (
      (← sql ("select count(*) from stir.reference_observation where tenant_id='" <> tenant <> "';")
        Bool.false)
      =s= show_nat (← length_of (← fetch (ref <> "/observations") a ok_only)))
  isolate base bea definition ref

unfoldable pub decide_case :
    String → String → Json → Json → Json → Json → String → List Json → Exec Unit
decide_case tenant base bea a diego definition ref agreement_rows = do
  suspect ← pick 0 agreement_rows
  signal ←
      send (base <> "/references/integrity/signals") "POST"
        (dict (
          ("observationId", (← item suspect "id"))
          ∷ ("signalCode", str "HIGH_COUNTERPARTY_CONCENTRATION")
          ∷ ("reason", str "Same counterparty for every recent deal")
          ∷ ("evidenceRefs", list (strings ("private-note-1" ∷ [])))
          ∷ []))
        a ok_only
  expect (is (← item signal "status") "SIGNAL")
  send (base <> "/references/integrity/cases/" <> (← text_item signal "id") <> "/decisions") "POST"
      (dict (("status", str "FINAL") ∷ ("reason", str "Skip review") ∷ [])) a (409 ∷ [])
  send (base <> "/references/integrity/cases/" <> (← text_item signal "id") <> "/decisions") "POST"
      (dict (("status", str "UNDER_REVIEW") ∷ ("reason", str "Looking into it") ∷ [])) a ok_only
  send (base <> "/references/integrity/cases/" <> (← text_item signal "id") <> "/decisions") "POST"
      (dict (("status", str "FINAL") ∷ ("reason", str "Self-approval attempt") ∷ [])) a (409 ∷ [])
  cases ←
      fetch
        (base <> "/references/integrity/definitions/" <> (← text_item definition "id") <> "/cases")
        a ok_only
  expect
      (← any_of (← each_of cases) (λ c. do
        pure
            (← and_also (do pure (eq (← item c "id") (← item signal "id")))
              (do pure (is (← item c "status") "UNDER_REVIEW")))))
  finalized ←
      send (base <> "/references/integrity/cases/" <> (← text_item signal "id") <> "/decisions")
        "POST"
        (dict (
          ("status", str "FINAL")
          ∷ ("reason", str "Confirmed: every deal was with the same counterparty")
          ∷ []))
        diego ok_only
  expect (is (← item finalized "status") "FINAL")
  expect (
      eq
        (list
          (← map_each
            (← each_of
              (← fetch
                (base <> "/references/integrity/cases/" <> (← text_item signal "id") <> "/history")
                a ok_only))
            (λ h. item h "status")))
        (list (strings ("SIGNAL" ∷ "UNDER_REVIEW" ∷ "FINAL" ∷ []))))
  dismissable ← pick 1 agreement_rows
  dismiss_case tenant base bea a diego definition ref dismissable
