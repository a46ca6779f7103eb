-- ===== src/E2e/Audit/TradeOffer.antt =====
-- scripts/audit_economic_commit_e2e.py: trade offer.
use stir_main.Base.{Bool, String, [], ◌<>◌, ◌=s=◌}
use stir_main.Base.Int.{pos}
use stir_main.Base.Text.{splitlines}
use stir_main.Compose.{sql}
use stir_main.E2e.Audit.ActivateEconomic.{run_exchange}
use stir_main.E2e.Audit.OpenAndAccept.{open_and_accept}
use stir_main.E2e.Audit.TradeWanted.{trade_wanted}
use stir_main.Host.Exec.{Exec, ◌>>=◌, ◌>>◌}
use stir_main.Json.{Json, int, str}
use stir_main.Py.{
  dict, eq, expect, expect_or, expect_showing, is, item, pick_back, print, shown_item,
}
use stir_main.Smoke.{fetch, ok_only, send}

unfoldable pub trade_again :
    String
    → String
    → Json
    → Json
    → String
    → String × String × Json
    → String × String × Json
    → Json
    → Json
    → Json
    → Json
    → Json
    → Json
    → Exec Unit
trade_again suffix tenant_a ana pedro base_a ana_key pedro_key agreement trade receipt_sequence
      receipt_digest ana_after pedro_after =
    do
      resynced ←
          send (base_a <> ("/agreements/" <> (← shown_item agreement "id") <> "/trade/sync")) "POST"
            (dict []) (← item ana "accessToken") ok_only
      expect (is (← item resynced "executionState") "COMMITTED")
      expect (eq (← item resynced "committedSequence") receipt_sequence)
      expect (eq (← item resynced "protocolDigest") receipt_digest)
      print
          "PASS: reconciliation - sync() re-reads osTRIS authoritative status and reports the same committedSequence/protocolDigest as the original commit receipt."
      reactivated ←
          send (base_a <> ("/agreements/" <> (← shown_item agreement "id") <> "/trade/activate"))
            "POST" (dict []) (← item ana "accessToken") ok_only
      expect (eq (← item reactivated "id") (← item trade "id"))
      recommitted ←
          send (base_a <> ("/agreements/" <> (← shown_item agreement "id") <> "/trade/commit"))
            "POST" (dict []) (← item pedro "accessToken") ok_only
      expect (eq (← item recommitted "committedSequence") receipt_sequence)
      trade_rows ← pick_back 2 (
          splitlines
            (← sql
              ("begin; set local role idax_app; select set_config('app.tenant_id','"
                <> tenant_a
                <> "',true); select count(*) from stir.trade where tenant_id='"
                <> tenant_a
                <> "' and agreement_id='"
                <> (← shown_item agreement "id")
                <> "'; rollback;")
              Bool.true))
      expect_or trade_rows (trade_rows =s= "1")
      journal_rows ← pick_back 2 (
          splitlines
            (← sql
              ("begin; set local role idax_app; select set_config('app.tenant_id','"
                <> tenant_a
                <> "',true); select count(*) from ostris.journal_transaction where tenant_id='"
                <> tenant_a
                <> "' and id='"
                <> (← shown_item trade "transactionId")
                <> "'; rollback;")
              Bool.true))
      expect_or journal_rows (journal_rows =s= "1")
      print
          "PASS: idempotency - repeated activate/commit calls do not create a second Trade or a second osTRIS journal entry."
      trade_wanted suffix tenant_a ana pedro base_a ana_key pedro_key ana_after pedro_after

unfoldable pub trade_offer :
    String
    → String
    → Json
    → Json
    → String
    → String × String × Json
    → String × String × Json
    → Exec Unit
trade_offer suffix tenant_a ana pedro base_a ana_key pedro_key = do
  ana_start ← fetch (base_a <> "/economic/me") (← item ana "accessToken") ok_only
  pedro_start ← fetch (base_a <> "/economic/me") (← item pedro "accessToken") ok_only
  expect (is (← item ana_start "balanceProjection") "0")
  expect (is (← item pedro_start "balanceProjection") "0")
  (agreement, amount) ←
      open_and_accept base_a ana pedro "OFFER" ("20kg tomatoes " <> suffix) "home" (int (pos 1000))
        (int (pos 900))
  expect (is (← item agreement "economicPhase") "AWAITING_ECONOMIC_EXECUTION")
  expect (eq amount (int (pos 900)))
  trade ← run_exchange base_a pedro ana (← item agreement "id") pedro_key ana_key (str "precommit")
  expect_showing trade (is (← item trade "executionState") "COMMITTED")
  expect (is (← item trade "amount") "900")
  expect (eq (← item trade "payerUserId") (← item (← item pedro "user") "id"))
  expect (eq (← item trade "payeeUserId") (← item (← item ana "user") "id"))
  receipt_sequence ← item trade "committedSequence"
  receipt_digest ← item trade "protocolDigest"
  ana_after ← fetch (base_a <> "/economic/me") (← item ana "accessToken") ok_only
  pedro_after ← fetch (base_a <> "/economic/me") (← item pedro "accessToken") ok_only
  expect_showing ana_after (is (← item ana_after "balanceProjection") "900")
  expect_showing pedro_after (is (← item pedro_after "balanceProjection") "-900")
  print
      "PASS: OFFER exchange - Ana offered, Pedro proposed, Ana countered, Pedro accepted; both signed with real Ed25519 keys; osTRIS committed; balances moved exactly as agreed."
  trade_again suffix tenant_a ana pedro base_a ana_key pedro_key agreement trade receipt_sequence
      receipt_digest ana_after pedro_after
