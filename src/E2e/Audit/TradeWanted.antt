-- ===== src/E2e/Audit/TradeWanted.antt =====
-- scripts/audit_economic_commit_e2e.py: trade wanted.
use stir_main.Base.{Bool, String, [], ◌<>◌, ◌=s=◌, ◌∷◌}
use stir_main.Base.Int.{negsuc, pos, same, ◌+ℤ◌}
use stir_main.Base.Text.{splitlines}
use stir_main.Compose.{sql}
use stir_main.E2e.Audit.ActivateEconomic.{run_exchange}
use stir_main.E2e.Audit.OpenAndAccept.{open_and_accept}
use stir_main.E2e.EconomicExchange.Steps.{sign_authorization}
use stir_main.Host.Exec.{Exec, pure, ◌>>=◌, ◌>>◌}
use stir_main.Json.{Json, int, null, str}
use stir_main.Py.{
  dict, eq, expect, expect_or, expect_showing, fold_each, int_from, is, item, pick_back, print,
  shown_item,
}
use stir_main.Smoke.{fetch, ok_only, send}

unfoldable pub refuse_over_floor :
    String
    → String
    → Json
    → Json
    → String
    → String × String × Json
    → String × String × Json
    → Json
    → Json
    → Exec Unit
refuse_over_floor suffix tenant_a ana pedro base_a ana_key pedro_key ana_final pedro_final = do
  (reject_agreement, reject_amount) ←
      open_and_accept base_a ana pedro "OFFER" ("Large batch " <> suffix) "home" (int (pos 500000))
        null
  reject_trade ←
      send (base_a <> ("/agreements/" <> (← shown_item reject_agreement "id") <> "/trade/activate"))
        "POST" (dict []) (← item pedro "accessToken") ok_only
  reject_trade ←
      fold_each {A = Json × (String × String × Json)} ((pedro, pedro_key) ∷ (ana, ana_key) ∷ [])
        reject_trade
        (λ row reject_trade. do
          (session, key) ← pure row
          payload ←
              fetch
                (base_a
                  <> ("/agreements/"
                      <> (← shown_item reject_agreement "id")
                      <> "/trade/signing-payload"))
                (← item session "accessToken") ok_only
          signature ← sign_authorization key.0 (← item payload "authorizationPayload")
          reject_trade ←
              send
                (base_a
                  <> ("/agreements/"
                      <> (← shown_item reject_agreement "id")
                      <> "/trade/authorizations"))
                "POST" (dict (("credentialId", key.2) ∷ ("signatureBase64url", str signature) ∷ []))
                (← item session "accessToken") ok_only
          pure reject_trade)
  send (base_a <> ("/agreements/" <> (← shown_item reject_agreement "id") <> "/trade/commit"))
      "POST" (dict []) (← item ana "accessToken") (422 ∷ [])
  rejected ←
      fetch (base_a <> ("/agreements/" <> (← shown_item reject_agreement "id") <> "/trade"))
        (← item ana "accessToken") ok_only
  expect_showing rejected (is (← item rejected "executionState") "AWAITING_SIGNATURES")
  still_agreement ←
      fetch (base_a <> ("/agreements/" <> (← shown_item reject_agreement "id")))
        (← item ana "accessToken") ok_only
  expect (is (← item still_agreement "economicPhase") "AWAITING_SIGNATURES")
  ana_unaffected ← fetch (base_a <> "/economic/me") (← item ana "accessToken") ok_only
  pedro_unaffected ← fetch (base_a <> "/economic/me") (← item pedro "accessToken") ok_only
  expect_or "a rejected commit must never move a balance"
      (eq (← item ana_unaffected "balanceProjection") (← item ana_final "balanceProjection"))
  expect_or "a rejected commit must never move a balance"
      (eq (← item pedro_unaffected "balanceProjection") (← item pedro_final "balanceProjection"))
  expect (
      (← pick_back 2 (
        splitlines
          (← sql
            ("begin; set local role idax_app; select set_config('app.tenant_id','"
              <> tenant_a
              <> "',true); select count(*) from ostris.journal_transaction where tenant_id='"
              <> tenant_a
              <> "' and id='"
              <> (← shown_item reject_trade "transactionId")
              <> "'; rollback;")
            Bool.true)))
      =s= "0")
  print
      "PASS: credit-floor attempt was denied without a journal entry; Agreement remains accepted and execution stays retryable."
  print "STIR 0.3 ECONOMIC EXCHANGE HTTP E2E: PASS"

unfoldable pub trade_wanted :
    String
    → String
    → Json
    → Json
    → String
    → String × String × Json
    → String × String × Json
    → Json
    → Json
    → Exec Unit
trade_wanted suffix tenant_a ana pedro base_a ana_key pedro_key ana_after pedro_after = do
  (wanted_agreement, wanted_amount) ←
      open_and_accept base_a ana pedro "WANTED" ("Need bicycle repair " <> suffix) "general"
        (int (pos 500)) null
  expect (is (← item wanted_agreement "economicPhase") "AWAITING_ECONOMIC_EXECUTION")
  wanted_trade ←
      run_exchange base_a pedro ana (← item wanted_agreement "id") pedro_key ana_key
        (str "aftercommit")
  expect (is (← item wanted_trade "executionState") "COMMITTED")
  expect (eq (← item wanted_trade "payerUserId") (← item (← item ana "user") "id"))
  expect (eq (← item wanted_trade "payeeUserId") (← item (← item pedro "user") "id"))
  expect (
      eq
        (← item
          (← send
            (base_a <> ("/agreements/" <> (← shown_item wanted_agreement "id") <> "/trade/commit"))
            "POST" (dict []) (← item ana "accessToken") ok_only)
          "committedSequence")
        (← item wanted_trade "committedSequence"))
  wanted_journal_rows ← pick_back 2 (
      splitlines
        (← sql
          ("begin; set local role idax_app; select set_config('app.tenant_id','"
            <> tenant_a
            <> "',true); select count(*) from ostris.journal_transaction where tenant_id='"
            <> tenant_a
            <> "' and id='"
            <> (← shown_item wanted_trade "transactionId")
            <> "'; rollback;")
          Bool.true))
  expect_or wanted_journal_rows (wanted_journal_rows =s= "1")
  ana_final ← fetch (base_a <> "/economic/me") (← item ana "accessToken") ok_only
  pedro_final ← fetch (base_a <> "/economic/me") (← item pedro "accessToken") ok_only
  expect_showing ana_final (
      same (← int_from (← item ana_final "balanceProjection"))
        ((← int_from (← item ana_after "balanceProjection")) +ℤ negsuc 499))
  expect_showing pedro_final (
      same (← int_from (← item pedro_final "balanceProjection"))
        ((← int_from (← item pedro_after "balanceProjection")) +ℤ pos 500))
  print
      "PASS: WANTED direction - Ana (the requester) paid Pedro (the provider), confirming economic direction is not hardcoded to OFFER."
  refuse_over_floor suffix tenant_a ana pedro base_a ana_key pedro_key ana_final pedro_final
