-- ===== src/Xrpl/Tests.antt =====
-- A network of which one validator has lost its peers.
use stir_main.Base.{ℕ, String, ◌=s=◌, ◌≡◌, refl, ◌↔◌, Bool, false, Option, some, All, if◌then◌else◌}
use stir_main.Base.Int.{pos}
use stir_main.Base.Text.{starts_with}
use stir_main.Json.{int, str, object, Fields, end, field, lookup}
use stir_main.Xrpl.{
  nodes, has_seq, enough_peers, both, then_both, conjoin, node_ok, ask, all_ok, exit_of, exit_code,
}
use stir_main.Xrpl.Health.{Answers, exit_zero_iff}

abbrev info : String → ℕ → Fields
info state peers = field "server_state" (str state) (
    field "peers" (int (pos peers))
      (field "validated_ledger" (object (field "seq" (int (pos 7)) end)) end))

abbrev network : ℕ → String → Option Fields
network peers url = some (
    if url =s= "http://127.0.0.1:5010"
    then info "full" 0
    else if url =s= "http://127.0.0.1:5007"
    then info "proposing" peers
    else info "proposing" 2)

abbrev never : String → Bool
never s = false

healthy : exit_code never never (network 2) ≡ 0
unfolding exit_code exit_of all_ok ask conjoin node_ok has_seq enough_peers then_both both lookup
    starts_with
healthy = refl

alone : exit_code never never (network 1) ≡ 1
unfolding exit_code exit_of all_ok ask conjoin node_ok has_seq enough_peers then_both both lookup
    starts_with
alone = refl

exit_zero_iff_example :
    (exit_code never never (network 2) ≡ 0) ↔ All (Answers never never (network 2)) nodes
exit_zero_iff_example = exit_zero_iff never never (network 2)
