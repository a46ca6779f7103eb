-- ===== src/E2e/ConsentRetention/Withdraw.antt =====
-- scripts/consent_retention_e2e.py: withdraw.
use stir_main.Base.{Bool, String, [], not, ◌<>◌, ◌=s=◌, ◌∷◌}
use stir_main.Base.Int.{pos}
use stir_main.Compose.{sql}
use stir_main.E2e.ConsentRetention.Anonymize.{agree, anonymize, backdate}
use stir_main.Host.Exec.{Exec, pure, ◌>>=◌, ◌>>◌}
use stir_main.Json.{Json, bool, int, str}
use stir_main.Py.{
  dict, each_of, eq, expect, expect_or, is, is_true, item, list, map_each, next_of, shown_item,
  text_item, text_of, within,
}
use stir_main.Smoke.{fetch, ok_only, send}

unfoldable pub hold_one : String → String → Json → Json → Json → String → Json → Json → Exec Unit
hold_one tenant base a p definition ref listing old_a = do
  old_a_obs ←
      next_of (← each_of (← fetch (ref <> "/observations") a ok_only))
        (λ o. do pure (eq (← item o "source_id") (← item old_a "id")))
  old_b ← agree p a base definition listing "22" (bool Bool.true) (bool Bool.true)
  old_b_obs ←
      next_of (← each_of (← fetch (ref <> "/observations") a ok_only))
        (λ o. do pure (eq (← item o "source_id") (← item old_b "id")))
  backdate tenant (← item old_a_obs "id") 200
  backdate tenant (← item old_b_obs "id") 200
  signal ←
      send (base <> "/references/integrity/signals") "POST"
        (dict (
          ("observationId", (← item old_b_obs "id"))
          ∷ ("signalCode", str "OUTLIER_PENDING_REVIEW")
          ∷ ("reason", str "looks unusual")
          ∷ ("evidenceRefs", list [])
          ∷ []))
        a ok_only
  status_b ←
      fetch
        (base <> "/references/retention/observation/" <> (← text_item old_b_obs "id") <> "/status")
        a ok_only
  expect (is (← item status_b "status") "MUST_BE_RETAINED")
  expect (is_true (← item status_b "hold"))
  send
      (base <> "/references/retention/observation/" <> (← text_item old_b_obs "id") <> "/anonymize")
      "POST" (dict (("reason", str "trying anyway") ∷ [])) a (409 ∷ [])
  due ←
      fetch (base <> "/references/retention/definition/" <> (← text_item definition "id") <> "/due")
        a ok_only
  due_ids ← map_each (← each_of due) (λ d. item d "observationId")
  expect (← within (← item old_a_obs "id") (list due_ids))
  expect (not (← within (← item old_b_obs "id") (list due_ids)))
  anonymize tenant base a old_a_obs

unfoldable pub set_retention :
    Json → String → String → Json → Json → Json → Json → String → Json → Exec Unit
set_retention admin tenant base a p community definition ref listing = do
  send (base <> "/references/retention/policy/" <> (← text_of community)) "POST"
      (dict (("retentionPeriodDays", int (pos 10)) ∷ ("explanation", str "too short") ∷ [])) a
      (400 ∷ [])
  send (base <> "/references/retention/policy/" <> (← text_of community)) "POST"
      (dict
        (("retentionPeriodDays", int (pos 120)) ∷ ("explanation", str "superadmin attempt") ∷ []))
      admin (401 ∷ 403 ∷ 404 ∷ [])
  policy ←
      send (base <> "/references/retention/policy/" <> (← text_of community)) "POST"
        (dict (
          ("retentionPeriodDays", int (pos 120))
          ∷ ("explanation", str "Community decision: 120 days")
          ∷ []))
        a ok_only
  expect (eq (← item policy "retention_period_days") (int (pos 120)))
  old_a ← agree p a base definition listing "20" (bool Bool.true) (bool Bool.true)
  hold_one tenant base a p definition ref listing old_a

unfoldable pub withdraw :
    Json
    → String
    → String
    → Json
    → Json
    → Json
    → Json
    → Json
    → Json
    → String
    → Json
    → Json
    → Json
    → Json
    → Exec Unit
withdraw admin tenant base carlos bea a p community definition ref listing bilateral_obs
      pedro_consent ana_consent =
    do
      send (base <> "/references/consent/" <> (← text_item pedro_consent "id") <> "/withdraw")
          "POST" (dict (("reason", str "not mine") ∷ [])) (← item carlos "accessToken") (403 ∷ [])
      withdrawn ←
          send (base <> "/references/consent/" <> (← text_item pedro_consent "id") <> "/withdraw")
            "POST" (dict (("reason", str "changed my mind") ∷ [])) p ok_only
      expect (is (← item withdrawn "status") "WITHDRAW")
      replayed ←
          send (base <> "/references/consent/" <> (← text_item pedro_consent "id") <> "/withdraw")
            "POST" (dict (("reason", str "replayed") ∷ [])) p ok_only
      expect (is (← item replayed "status") "WITHDRAW")
      the_events ←
          sql
            ("select count(*) from stir.reference_consent_event where tenant_id='"
              <> tenant
              <> "' and consent_id='"
              <> (← shown_item pedro_consent "id")
              <> "';")
            Bool.false
      expect_or "GRANT + exactly one WITHDRAW, never a duplicate from the replay"
          (the_events =s= "2")
      expect_or "aggregate_consent as originally captured is never rewritten by a later withdrawal"
          ((← sql
              ("select aggregate_consent from stir.reference_observation where tenant_id='"
                <> tenant
                <> "' and id='"
                <> (← shown_item bilateral_obs "id")
                <> "';")
              Bool.false)
            =s= "t")
      fetch (base <> "/references/consent/" <> (← text_item ana_consent "id"))
          (← item bea "accessToken") (403 ∷ 404 ∷ [])
      send (base <> "/references/consent/" <> (← text_item ana_consent "id") <> "/withdraw") "POST"
          (dict (("reason", str "cross tenant") ∷ [])) (← item bea "accessToken") (403 ∷ 404 ∷ [])
      set_retention admin tenant base a p community definition ref listing
