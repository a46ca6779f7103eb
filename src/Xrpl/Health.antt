-- ===== src/Xrpl/Health.antt =====
-- When the report exits with 0.
use stir_main.Base.{
  ℕ, suc, String, ◌≡◌, refl, sym, ap, ◌∙◌, ◌↔◌, ◌⊎◌, inl, inr, Bool, true, false, ◌&&◌, not, Option,
  none, some, List, [], ◌∷◌, All, arith, eq_iff, eq_refl, Bool-cases,
}
use stir_main.Base.Int.{ℤ, pos, negsuc, lt_ℕ}
use stir_main.Base.Text.{starts_with}
use stir_main.Json.{Json, null, bool, int, real, str, array, object, nil, cons, Fields, end, field}
use stir_main.Xrpl.{
  Node, nodes, get, says, is_none, has_seq, enough_peers, both, then_both, conjoin, ask, node_ok,
  all_ok, exit_of, exit_code,
}

says-str : (j : Json) (t : String) → says j t ≡ true → j ≡ str t
says-str (str s) t e = ap str ((eq_iff s t).0 e)
says-str null t e = absurd (ground arith)
says-str (bool b) t e = absurd (ground arith)
says-str (int i) t e = absurd (ground arith)
says-str (real s) t e = absurd (ground arith)
says-str (array xs) t e = absurd (ground arith)
says-str (object d) t e = absurd (ground arith)

-- The node has a validated ledger with a number.
abbrev pub HasLedger : Json → Type 0
HasLedger j = (d : Fields) × (j ≡ object d) × (is_none (get "seq" d) ≡ false)

conjoin-true : (a b : Option Bool) → conjoin a b ≡ some true → (a ≡ some true) × (b ≡ some true)
unfolding conjoin
conjoin-true none b e = absurd (ground arith)
conjoin-true (some p) none e = absurd (ground arith)
conjoin-true (some true) (some q) e = (refl, e)
conjoin-true (some false) (some q) e = absurd (ground arith)

exit_of_zero : (o : Option Bool) → exit_of o ≡ 0 → o ≡ some true
unfolding exit_of
exit_of_zero none e = absurd (ground arith)
exit_of_zero (some true) e = refl
exit_of_zero (some false) e = absurd (ground arith)

exit_of-true : exit_of (some true) ≡ 0
unfolding exit_of
exit_of-true = refl

module _ (is_zero at_least_two : String → Bool) where
  -- A number of peers that is at least 2.
  abbrev pub IsEnough : Json → Type 0
  IsEnough j =
      ((i : ℤ) × (j ≡ int i) × (lt_ℕ i 2 ≡ false))
      ⊎ ((s : String) × (j ≡ real s) × ((not (is_zero s) && at_least_two s) ≡ true))

  pub record IsSound (node : Node) (info : Fields) : Type 0 where
    pub state : get "server_state" info ≡ str node.expected
    pub ledger : HasLedger (get "validated_ledger" info)
    pub peers : starts_with node.name "validator" ≡ true → IsEnough (get "peers" info)

  has_seq-HasLedger : (j : Json) → has_seq is_zero at_least_two j ≡ some true → HasLedger j
  unfolding has_seq
  has_seq-HasLedger (object d) e = (d, refl, ground arith)
  has_seq-HasLedger null e = absurd (ground arith)
  has_seq-HasLedger (bool true) e = absurd (ground arith)
  has_seq-HasLedger (bool false) e = absurd (ground arith)
  has_seq-HasLedger (int (pos ℕ.zero)) e = absurd (ground arith)
  has_seq-HasLedger (int (pos (suc n))) e = absurd (ground arith)
  has_seq-HasLedger (int (negsuc n)) e = absurd (ground arith)
  has_seq-HasLedger (real s) e = absurd (ground arith)
  has_seq-HasLedger (str s) e = absurd (ground arith)
  has_seq-HasLedger (array nil) e = absurd (ground arith)
  has_seq-HasLedger (array (cons x xs)) e = absurd (ground arith)

  HasLedger-has_seq : (j : Json) → HasLedger j → has_seq is_zero at_least_two j ≡ some true
  unfolding has_seq
  HasLedger-has_seq j (d, same, there) = rw (same, there) refl

  enough_peers-IsEnough : (j : Json) → enough_peers is_zero at_least_two j ≡ some true → IsEnough j
  unfolding enough_peers
  enough_peers-IsEnough (int i) e = inl (i, refl, ground arith)
  enough_peers-IsEnough (real s) e = inr (s, refl, ground arith)
  enough_peers-IsEnough null e = absurd (ground arith)
  enough_peers-IsEnough (bool b) e = absurd (ground arith)
  enough_peers-IsEnough (str s) e = absurd (ground arith)
  enough_peers-IsEnough (array nil) e = absurd (ground arith)
  enough_peers-IsEnough (array (cons x xs)) e = absurd (ground arith)
  enough_peers-IsEnough (object end) e = absurd (ground arith)
  enough_peers-IsEnough (object (field k v d)) e = absurd (ground arith)

  IsEnough-enough : (j : Json) → IsEnough j → enough_peers is_zero at_least_two j ≡ some true
  unfolding enough_peers
  IsEnough-enough j (inl (i, same, two)) = rw (same, two) refl
  IsEnough-enough j (inr (s, same, two)) = rw (same, two) refl

  then_both-true :
      (a b : Option Bool) → then_both a b ≡ some true → (a ≡ some true) × (b ≡ some true)
  unfolding then_both both
  then_both-true none b e = absurd (ground arith)
  then_both-true (some true) b e = (refl, e)
  then_both-true (some false) b e = absurd (ground arith)

  node_ok-IsSound :
      (node : Node) (info : Fields)
      → node_ok is_zero at_least_two node info ≡ some true
      → IsSound node info
  unfolding node_ok
  node_ok-IsSound node info e =
      let j = get "validated_ledger" info in
      let state = says (get "server_state" info) node.expected in
      let ledger = then_both (has_seq is_zero at_least_two j) (some state) in
      elim (Bool-cases (starts_with node.name "validator")) [
        | inl yes_ ↦
            let same : node_ok is_zero at_least_two node info
                ≡ then_both ledger (enough_peers is_zero at_least_two (get "peers" info)) =
              rw yes_ refl in
            let (l, p) = then_both-true ledger _ (sym same ∙ e) in
            let (q, s) = then_both-true (has_seq is_zero at_least_two j) (some state) l in
            record {
              state = says-str _ _ (ground arith);
              ledger = has_seq-HasLedger j q;
              peers = λ _. enough_peers-IsEnough (get "peers" info) p;
            }
        | inr no_ ↦
            let same : node_ok is_zero at_least_two node info ≡ ledger = rw no_ refl in
            let (q, s) =
              then_both-true (has_seq is_zero at_least_two j) (some state) (sym same ∙ e) in
            record {
              state = says-str _ _ (ground arith);
              ledger = has_seq-HasLedger j q;
              peers = λ named. absurd (ground arith);
            }
      ]

  IsSound-node_ok :
      (node : Node) (info : Fields)
      → IsSound node info
      → node_ok is_zero at_least_two node info ≡ some true
  unfolding node_ok then_both both
  IsSound-node_ok node info s = elim (Bool-cases (starts_with node.name "validator")) [
    | inl yes_ ↦
        rw
          (
            yes_,
            HasLedger-has_seq (get "validated_ledger" info) s.ledger,
            s.state,
            eq_refl node.expected,
            IsEnough-enough (get "peers" info) (s.peers yes_),
          )
          refl
    | inr no_ ↦
        rw
          (
            no_,
            HasLedger-has_seq (get "validated_ledger" info) s.ledger,
            s.state,
            eq_refl node.expected,
          )
          refl
  ]

  -- A node has answered, and its answer is sound.
  abbrev pub Answers : (String → Option Fields) → Node → Type 0
  Answers server_info node =
      (info : Fields) × (server_info node.url ≡ some info) × IsSound node info

  ask-IsSound :
      (o : Option Fields) (node : Node)
      → ask is_zero at_least_two o node ≡ some true
      → (info : Fields) × (o ≡ some info) × IsSound node info
  unfolding ask
  ask-IsSound none node e = absurd (ground arith)
  ask-IsSound (some info) node e = (info, refl, node_ok-IsSound node info e)

  all_ok-Answers :
      (server_info : String → Option Fields) (ns : List Node)
      → all_ok is_zero at_least_two server_info ns ≡ some true
      → All (Answers server_info) ns
  unfolding all_ok
  all_ok-Answers server_info [] e = tt
  all_ok-Answers server_info (node ∷ ns) e =
      let (one, rest) = conjoin-true _ _ e in
      (ask-IsSound (server_info node.url) node one, all_ok-Answers server_info ns rest)

  Answers-all_ok :
      (server_info : String → Option Fields) (ns : List Node)
      → All (Answers server_info) ns
      → all_ok is_zero at_least_two server_info ns ≡ some true
  unfolding all_ok ask conjoin
  Answers-all_ok server_info [] all = refl
  Answers-all_ok server_info (node ∷ ns) ((info, answered, sound), all) =
      rw (answered, IsSound-node_ok node info sound, Answers-all_ok server_info ns all) refl

  -- The report exits with 0 exactly when every node answers in the state that is expected of it and with
  -- a validated ledger, and every validator has at least two peers.
  pub exit_zero_iff :
      (server_info : String → Option Fields)
      → (exit_code is_zero at_least_two server_info ≡ 0) ↔ All (Answers server_info) nodes
  unfolding exit_code
  exit_zero_iff server_info = (
    λ e.
        all_ok-Answers server_info nodes
          (exit_of_zero (all_ok is_zero at_least_two server_info nodes) e),
    λ all. ap exit_of (Answers-all_ok server_info nodes all) ∙ exit_of-true,
  )
