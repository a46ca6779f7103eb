-- ===== src/E2e/MultiSource/RecordListings.antt =====
-- scripts/multi_source_value_evidence_e2e.py: record listings.
use stir_main.Base.{Bool, String, [], ◌<>◌, ◌=s=◌, ◌∷◌}
use stir_main.Compose.{sql}
use stir_main.E2e.MultiSource.EnableGovernance.{enable_governance}
use stir_main.Host.Exec.{Exec, pure, ◌>>=◌, ◌>>◌}
use stir_main.Json.{Json, bool, str}
use stir_main.Py.{
  dict, each_of, eq, expect, expect_or, is, is_true, item, last_entry, list, next_of, shown,
  shown_item, strings, text_item,
}
use stir_main.Py.Texts.{split_at}
use stir_main.Smoke.{fetch, ok_only, send}

unfoldable pub keep_lineage :
    Json
    → String
    → String
    → Json
    → Json
    → Json
    → Json
    → Json
    → Json
    → Json
    → Json
    → Json
    → Json
    → Exec Unit
keep_lineage admin tenant base ana pedro carlos bea a p community definition definition_id listing =
    do
      rows ←
          sql
            ("select amount from stir.reference_observation where tenant_id='"
              <> tenant
              <> "' and economic_lineage_id='"
              <> (← shown_item listing "id")
              <> "' order by observed_at;")
            Bool.false
      expect_or "the edit created a NEW observation; the first one was never rewritten"
          (eq (list (strings (split_at 10 rows))) (list (strings ("40.00" ∷ "55.00" ∷ []))))
      listing2 ←
          send (base <> "/listings") "POST"
            (dict (
              ("direction", str "OFFER")
              ∷ ("title", str "Wool bundle 2")
              ∷ ("description", str "Test")
              ∷ ("category", str "home")
              ∷ ("resourceKind", str "physical")
              ∷ ("referenceDefinitionId", definition_id)
              ∷ []))
            a (201 ∷ [])
      offer ←
          send (base <> "/listings/" <> (← text_item listing2 "id") <> "/offers") "POST"
            (dict (
              ("message", str "Interested")
              ∷ ("quantity", str "1")
              ∷ ("unitLabel", str "kg")
              ∷ ("proposedAmount", str "39")
              ∷ ("proposedUnitRef", (← item definition "unit_ref"))
              ∷ ("shareReferenceObservation", bool Bool.true)
              ∷ []))
            p (201 ∷ [])
      send (base <> "/negotiations/" <> (← text_item offer "id") <> "/accept") "POST"
          (dict (
            ("offerId", (← item (← last_entry (← item offer "offers")) "id"))
            ∷ ("expectedVersion", (← item offer "version"))
            ∷ ("shareReferenceObservation", bool Bool.true)
            ∷ []))
          a ok_only
      lineages ←
          sql
            ("select distinct economic_lineage_id from stir.reference_observation where tenant_id='"
              <> tenant
              <> "' and definition_id='"
              <> (← shown definition_id)
              <> "' and economic_lineage_id='"
              <> (← shown_item listing2 "id")
              <> "';")
            Bool.false
      expect (eq (str lineages) (← item listing2 "id"))
      fetch (base <> "/listings/" <> (← text_item listing "id")) (← item bea "accessToken")
          (403 ∷ 404 ∷ [])
      expect (
          (← sql
            ("select count(*) from stir.reference_observation where economic_lineage_id='"
              <> (← shown_item listing "id")
              <> "';")
            Bool.false)
          =s= "2")
      enable_governance admin base ana pedro carlos a p community definition_id

unfoldable pub record_listings :
    Json
    → String
    → String
    → Json
    → Json
    → Json
    → Json
    → Json
    → Json
    → Json
    → Json
    → Json
    → String
    → Exec Unit
record_listings admin tenant base ana pedro carlos bea a p community definition definition_id ref =
    do
      listing ←
          send (base <> "/listings") "POST"
            (dict (
              ("direction", str "OFFER")
              ∷ ("title", str "Wool bundle")
              ∷ ("description", str "Test")
              ∷ ("category", str "home")
              ∷ ("resourceKind", str "physical")
              ∷ ("referenceDefinitionId", definition_id)
              ∷ ("indicativeAmount", str "40")
              ∷ ("indicativeQuantity", str "1")
              ∷ ("indicativeUnitLabel", str "kg")
              ∷ ("indicativeUnitRef", (← item definition "unit_ref"))
              ∷ ("shareReferenceObservation", bool Bool.true)
              ∷ []))
            a (201 ∷ [])
      observations ← fetch (ref <> "/observations") a ok_only
      listing_obs ←
          next_of (← each_of observations)
            (λ o. do pure (eq (← item o "economic_lineage_id") (← item listing "id")))
      expect (is (← item listing_obs "source") "LISTING")
      expect (is_true (← item listing_obs "aggregate_consent"))
      wanted ←
          send (base <> "/listings") "POST"
            (dict (
              ("direction", str "WANTED")
              ∷ ("title", str "Looking for wool")
              ∷ ("description", str "Test")
              ∷ ("category", str "home")
              ∷ ("resourceKind", str "physical")
              ∷ ("referenceDefinitionId", definition_id)
              ∷ ("indicativeAmount", str "38")
              ∷ ("indicativeQuantity", str "1")
              ∷ ("indicativeUnitLabel", str "kg")
              ∷ ("indicativeUnitRef", (← item definition "unit_ref"))
              ∷ ("shareReferenceObservation", bool Bool.true)
              ∷ []))
            p (201 ∷ [])
      wanted_obs ←
          next_of (← each_of (← fetch (ref <> "/observations") a ok_only))
            (λ o. do pure (eq (← item o "economic_lineage_id") (← item wanted "id")))
      expect (is (← item wanted_obs "source") "WANTED")
      send (base <> "/listings/" <> (← text_item listing "id")) "PUT"
          (dict (
            ("direction", str "OFFER")
            ∷ ("title", str "Wool bundle")
            ∷ ("description", str "Updated")
            ∷ ("category", str "home")
            ∷ ("resourceKind", str "physical")
            ∷ ("referenceDefinitionId", definition_id)
            ∷ ("version", (← item listing "version"))
            ∷ ("indicativeAmount", str "55")
            ∷ ("indicativeQuantity", str "1")
            ∷ ("indicativeUnitLabel", str "kg")
            ∷ ("indicativeUnitRef", (← item definition "unit_ref"))
            ∷ ("shareReferenceObservation", bool Bool.true)
            ∷ []))
          a ok_only
      keep_lineage admin tenant base ana pedro carlos bea a p community definition definition_id
          listing
