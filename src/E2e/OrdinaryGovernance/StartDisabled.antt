-- ===== src/E2e/OrdinaryGovernance/StartDisabled.antt =====
-- scripts/ordinary_governance_e2e.py: start disabled.
use stir_main.Base.{Bool, List, String, [], ◌++◌, ◌<>◌, ◌∷◌}
use stir_main.Base.Int.{pos}
use stir_main.Host.Exec.{Exec, for_each, pure, ◌>>=◌, ◌>>◌}
use stir_main.Json.{Json, bool, int, str}
use stir_main.Py.{
  dict, entry, eq, expect, is_false, item, map_each, print, shown_item, text_item, text_of,
}
use stir_main.Smoke.{fetch, ok_only, send}

unfoldable pub vote : Json → String → Json → Json → Json → Json → Json → Json → Exec Unit
vote admin gov m v1 v2 v3 definition_id proposal = do
  ordinary ←
      send
        (gov
          <> "/proposals/"
          <> (← text_of definition_id)
          <> "/reference/"
          <> (← text_item proposal "id"))
        "POST" (dict []) m ok_only
  proposal_id ← item ordinary "id"
  expect (eq (← item ordinary "electorateSize") (int (pos 5)))
  send (gov <> "/proposal/" <> (← text_of proposal_id) <> "/vote") "POST"
      (dict (("choice", str "APPROVE") ∷ [])) admin (401 ∷ 403 ∷ 404 ∷ [])
  send (gov <> "/proposal/" <> (← text_of proposal_id) <> "/vote") "POST"
      (dict (("choice", str "APPROVE") ∷ [])) (← item v1 "accessToken") ok_only
  send (gov <> "/proposal/" <> (← text_of proposal_id) <> "/vote") "POST"
      (dict (("choice", str "REJECT") ∷ [])) (← item v1 "accessToken") (409 ∷ [])
  send (gov <> "/proposal/" <> (← text_of proposal_id) <> "/vote") "POST"
      (dict (("choice", str "APPROVE") ∷ [])) (← item v2 "accessToken") ok_only
  send (gov <> "/proposal/" <> (← text_of proposal_id) <> "/vote") "POST"
      (dict (("choice", str "APPROVE") ∷ [])) (← item v3 "accessToken") ok_only
  tally ← fetch (gov <> "/proposal/" <> (← text_of proposal_id)) m ok_only
  expect (eq (← item tally "votesAPPROVE") (int (pos 3)))
  expect (eq (← item tally "electorateSize") (int (pos 5)))
  print
      "PASS HTTP ORDINARY GOVERNANCE: disabled-by-default direct publish unaffected, publisher bypass blocked once enabled, permission/tenant boundaries on every new endpoint, SuperAdmin cannot vote, double vote rejected, a real vote reaches quorum and majority over the real electorate roll."

unfoldable pub enable_and_block :
    String
    → Json
    → Json
    → Json
    → Json
    → String
    → Json
    → Json
    → List Json
    → Json
    → Json
    → Json
    → Json
    → Exec Unit
enable_and_block base pedro bea admin community gov m manager_id voters v1 v2 v3 definition_id = do
  for_each ((manager_id ∷ []) ++ (← map_each voters (λ v. do pure (← item (← item v "user") "id"))))
      (λ voter. do
        send (gov <> "/members/" <> (← text_of community) <> "/" <> (← text_of voter)) "POST"
            (dict []) m ok_only
        pure tt)
  send (gov <> "/settings/" <> (← text_of community)) "PUT"
      (dict (("enabled", bool Bool.true) ∷ [])) m ok_only
  send (gov <> "/policy/" <> (← text_of community)) "POST"
      (dict (
        ("quorumNumerator", int (pos 1))
        ∷ ("quorumDenominator", int (pos 2))
        ∷ ("approvalNumerator", int (pos 2))
        ∷ ("approvalDenominator", int (pos 3))
        ∷ ("votingWindowHours", int (pos 1))
        ∷ ("abstentionRule", str "COUNTS_TOWARD_QUORUM_NOT_APPROVAL")
        ∷ ("explanation", str "v0.1 initial policy")
        ∷ []))
      m ok_only
  proposal ←
      send (base <> "/references/" <> (← text_of definition_id) <> "/proposals") "POST"
        (dict (
          ("kind", str "CONVENTION")
          ∷ ("lowerValue", str "20")
          ∷ ("upperValue", str "20")
          ∷ ("explanation", str "Second convention")
          ∷ ("origin", str "Assembly")
          ∷ ("validDays", int (pos 90))
          ∷ []))
        m ok_only
  send (base <> "/references/proposals/" <> (← text_item proposal "id") <> "/publish") "POST"
      (dict (("decision", str "Bypass attempt") ∷ [])) m (409 ∷ [])
  send
      (gov
        <> "/proposals/"
        <> (← text_of definition_id)
        <> "/reference/"
        <> (← text_item proposal "id"))
      "POST" (dict []) (← item pedro "accessToken") (403 ∷ [])
  other_base ← pure ("/api/stir/tenants/" <> (← shown_item (← entry (← item bea "tenants") 0) "id"))
  send
      (other_base
        <> "/references/governance/ordinary/proposals/"
        <> (← text_of definition_id)
        <> "/reference/"
        <> (← text_item proposal "id"))
      "POST" (dict []) (← item bea "accessToken") (400 ∷ 403 ∷ 404 ∷ [])
  send (gov <> "/proposal/" <> (← text_of definition_id) <> "/vote") "POST"
      (dict (("choice", str "APPROVE") ∷ [])) admin (401 ∷ 403 ∷ 404 ∷ [])
  vote admin gov m v1 v2 v3 definition_id proposal

unfoldable pub start_disabled :
    String
    → Json
    → Json
    → Json
    → Json
    → String
    → Json
    → Json
    → List Json
    → Json
    → Json
    → Json
    → Exec Unit
start_disabled base pedro bea admin community gov m manager_id voters v1 v2 v3 = do
  expect (
      is_false
        (← item (← fetch (gov <> "/settings/" <> (← text_of community)) m ok_only)
          "ordinaryGovernanceEnabled"))
  definition ←
      send (base <> "/references") "POST"
        (dict (
          ("name", str "Honey 1kg")
          ∷ ("scope", str "One kilogram of raw honey")
          ∷ ("attributes", dict [])
          ∷ ("quantityBasis", str "1")
          ∷ ("quantityUnit", str "kg")
          ∷ []))
        m ok_only
  definition_id ← item definition "id"
  legacy_proposal ←
      send (base <> "/references/" <> (← text_of definition_id) <> "/proposals") "POST"
        (dict (
          ("kind", str "CONVENTION")
          ∷ ("lowerValue", str "10")
          ∷ ("upperValue", str "10")
          ∷ ("explanation", str "Community convention, not statistics")
          ∷ ("origin", str "Assembly")
          ∷ ("validDays", int (pos 90))
          ∷ []))
        m ok_only
  send (base <> "/references/proposals/" <> (← text_item legacy_proposal "id") <> "/publish") "POST"
      (dict (("decision", str "Legacy delegated publish") ∷ [])) m ok_only
  enable_and_block base pedro bea admin community gov m manager_id voters v1 v2 v3 definition_id
