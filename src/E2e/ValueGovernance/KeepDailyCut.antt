-- ===== src/E2e/ValueGovernance/KeepDailyCut.antt =====
-- scripts/community_value_governance_e2e.py: keep daily cut.
use stir_main.Base.{Bool, List, String, [], length, ◌<>◌, ◌==◌, ◌∷◌}
use stir_main.Base.Int.{pos}
use stir_main.E2e.ValueGovernance.DecideCase.{agree, decide_case}
use stir_main.Host.{uuid4}
use stir_main.Host.Exec.{Exec, for_each, pure, ◌>>=◌, ◌>>◌}
use stir_main.Json.{Json, bool, int, str}
use stir_main.Py.{
  all_of, and_also, dict, draws, each_of, eq, expect, expect_or, filter_each, is, is_array, item,
  length_of, list, map_each, truthy, within,
}
use stir_main.Smoke.{fetch, ok_only, send}

unfoldable pub tighten_policy :
    String → String → Json → Json → Json → Json → Json → String → List Json → Exec Unit
tighten_policy tenant base bea a p diego definition ref agreement_rows = do
  tightened ←
      send (ref <> "/policies") "POST"
        (dict (
          ("windowDays", int (pos 60))
          ∷ ("minimumObservations", int (pos 7))
          ∷ ("minimumParticipants", int (pos 6))
          ∷ ("maximumParticipantShare", str "0.30")
          ∷ ("freshnessDays", int (pos 20))
          ∷ ("explanation", str "Tighten after reviewing the sample")
          ∷ []))
        a ok_only
  expect (eq (← item tightened "minimum_observations") (int (pos 7)))
  expect (eq (← item (← item (← fetch ref p ok_only) "policy") "id") (← item tightened "id"))
  send (ref <> "/policies") "POST"
      (dict (
        ("windowDays", int (pos 60))
        ∷ ("minimumObservations", int (pos 7))
        ∷ ("minimumParticipants", int (pos 6))
        ∷ ("maximumParticipantShare", str "0.30")
        ∷ ("freshnessDays", int (pos 20))
        ∷ ("explanation", str "Sneak a protected field")
        ∷ ("independenceChecksRequired", bool Bool.false)
        ∷ []))
      a (409 ∷ [])
  decide_case tenant base bea a diego definition ref agreement_rows

unfoldable pub refuse_platform_admin :
    String → String → Json → Json → Json → Json → Json → Json → String → List Json → Exec Unit
refuse_platform_admin tenant base bea a p admin diego definition ref agreement_rows = do
  send (base <> "/references") "POST"
      (dict (
        ("name", str "SuperAdmin Definition")
        ∷ ("scope", str "Should never be created")
        ∷ ("attributes", dict [])
        ∷ ("quantityBasis", str "1")
        ∷ ("quantityUnit", str "unit")
        ∷ []))
      admin (401 ∷ 403 ∷ 404 ∷ [])
  send (ref <> "/proposals") "POST"
      (dict (
        ("kind", str "CONVENTION")
        ∷ ("lowerValue", str "1")
        ∷ ("upperValue", str "1")
        ∷ ("explanation", str "SuperAdmin attempt")
        ∷ ("origin", str "SuperAdmin")
        ∷ ("validDays", int (pos 30))
        ∷ []))
      admin (401 ∷ 403 ∷ 404 ∷ [])
  send (base <> "/references/proposals/" <> (← draws uuid4) <> "/publish") "POST"
      (dict (("decision", str "SuperAdmin attempt") ∷ [])) admin (401 ∷ 403 ∷ 404 ∷ [])
  send (base <> "/references/integrity/signals") "POST"
      (dict (
        ("observationId", str (← draws uuid4))
        ∷ ("signalCode", str "OUTLIER_PENDING_REVIEW")
        ∷ ("reason", str "SuperAdmin attempt")
        ∷ ("evidenceRefs", list [])
        ∷ []))
      admin (401 ∷ 403 ∷ 404 ∷ [])
  send (base <> "/references/integrity/cases/" <> (← draws uuid4) <> "/decisions") "POST"
      (dict (("status", str "UNDER_REVIEW") ∷ ("reason", str "SuperAdmin attempt") ∷ [])) admin
      (401 ∷ 403 ∷ 404 ∷ [])
  expect
      (eq (← item (← item (← fetch ref admin ok_only) "definition") "id") (← item definition "id"))
  expect (is_array (← fetch (ref <> "/observations") admin ok_only))
  tighten_policy tenant base bea a p diego definition ref agreement_rows

unfoldable pub keep_daily_cut :
    String
    → String
    → Json
    → Json
    → Json
    → Json
    → Json
    → Json
    → String
    → Json
    → Json
    → Json
    → Exec Unit
keep_daily_cut tenant base bea a p admin diego definition ref listing the_first manifest = do
  for_each ("10" ∷ "11" ∷ "12" ∷ "13" ∷ "14" ∷ [])
      (λ amount. do agree a base definition listing amount p (bool Bool.true); pure tt)
  observations ← fetch (ref <> "/observations") a ok_only
  expect_or "every proposal and every agreement stays in the raw list, 6 deals x 2 rows"
      ((← length_of observations) == 12)
  agreement_rows ←
      filter_each (← each_of observations) (λ o. do pure (is (← item o "source") "AGREEMENT"))
  proposal_rows ←
      filter_each (← each_of observations) (λ o. do pure (is (← item o "source") "PROPOSAL"))
  expect (length agreement_rows == 6)
  expect (length proposal_rows == 6)
  expect_or "publisher view includes real participants"
      (← all_of agreement_rows (λ o. do
        pure
            (← and_also (do pure (truthy (← item o "participant_a")))
              (do pure (truthy (← item o "participant_b"))))))
  expect_or "the very first Agreement is still in the raw list"
      (← within (← item the_first "id")
        (list (← map_each agreement_rows (λ o. item o "source_id"))))
  expect (eq (← fetch (ref <> "/evidence-manifest") a ok_only) manifest)
  evidence ← item (← fetch ref a ok_only) "evidence"
  expect (is (← item evidence "status") "INSUFFICIENT_DATA")
  send (ref <> "/policies") "POST"
      (dict (
        ("windowDays", int (pos 90))
        ∷ ("minimumObservations", int (pos 5))
        ∷ ("minimumParticipants", int (pos 6))
        ∷ ("maximumParticipantShare", str "0.40")
        ∷ ("freshnessDays", int (pos 30))
        ∷ ("explanation", str "SuperAdmin attempt")
        ∷ []))
      admin (401 ∷ 403 ∷ 404 ∷ [])
  refuse_platform_admin tenant base bea a p admin diego definition ref agreement_rows
