-- ===== src/Xrpl.antt =====
-- deploy/idax-ledger/xrpl_health.py: the exit status by which the operator judges the XRPL network.
-- `server_info` is a parameter: the answer of a node, or that getting it raised.
pub mod Health
mod Tests
use stir_main.Base.{
  ℕ, String, ◌=s=◌, Bool, true, false, ◌&&◌, not, Option, none, some, List, [], ◌∷◌, if◌then◌else◌,
}
use stir_main.Base.Int.{ℤ, pos, lt_ℕ}
use stir_main.Base.Text.{starts_with}
use stir_main.Json.{
  Json, null, bool, int, real, str, array, object, nil, cons, Fields, end, field, lookup,
}

pub record Node : Type 0 where
  pub name : String
  pub url : String
  pub expected : String

abbrev pub nodes : List Node
nodes =
    record { name = "validator-01"; url = "http://127.0.0.1:5006"; expected = "proposing" }
    ∷ record { name = "validator-02"; url = "http://127.0.0.1:5007"; expected = "proposing" }
    ∷ record { name = "validator-03"; url = "http://127.0.0.1:5008"; expected = "proposing" }
    ∷ record { name = "api-01"; url = "http://127.0.0.1:5010"; expected = "full" }
    ∷ []

-- `d.get(k)`.
abbrev or_null : Option Json → Json
or_null none = null
or_null (some j) = j

abbrev pub get : String → Fields → Json
get k d = or_null (lookup k d)

abbrev pub says : Json → String → Bool
says (str s) t = s =s= t
says _ t = false

abbrev pub is_none : Json → Bool
is_none null = true
is_none _ = false

-- `ok and …`: what follows is not evaluated once a test has failed; `none` stands for an exception.
both : Bool → Option Bool → Option Bool
both true o = o
both false o = some false

then_both : Option Bool → Option Bool → Option Bool
unfolding both
then_both none o = none
then_both (some b) o = both b o

conjoin : Option Bool → Option Bool → Option Bool
conjoin none rest = none
conjoin (some ok) none = none
conjoin (some ok) (some more) = some (ok && more)

-- The exit status, 1 on an exception.
exit_of : Option Bool → ℕ
exit_of (some true) = 0
exit_of _ = 1

-- Floats: whether one is zero, and whether it is at least 2.
module _ (is_zero at_least_two : String → Bool) where
  -- `(… or {}).get("seq") is not None`; only a dict, or what counts as false, has a `get`.
  pub has_seq : Json → Option Bool
  has_seq (object d) = some (not (is_none (get "seq" d)))
  has_seq null = some false
  has_seq (bool false) = some false
  has_seq (int (pos ℕ.zero)) = some false
  has_seq (real s) = if is_zero s then some false else none
  has_seq (str s) = if s =s= "" then some false else none
  has_seq (array nil) = some false
  has_seq _ = none

  -- `(… or 0) >= 2`; a text or a container that is not empty cannot be compared.
  pub enough_peers : Json → Option Bool
  enough_peers null = some false
  enough_peers (bool _) = some false
  enough_peers (int i) = some (not (lt_ℕ i 2))
  enough_peers (real s) = some (not (is_zero s) && at_least_two s)
  enough_peers (str s) = if s =s= "" then some false else none
  enough_peers (array nil) = some false
  enough_peers (object end) = some false
  enough_peers _ = none

  -- The tests of one node; the ledger is looked at before the first of them.
  pub node_ok : Node → Fields → Option Bool
  unfolding has_seq enough_peers then_both
  node_ok node info =
      let state = says (get "server_state" info) node.expected in
      let ledger = then_both (has_seq (get "validated_ledger" info)) (some state) in
      if starts_with node.name "validator"
      then then_both ledger (enough_peers (get "peers" info))
      else ledger

  ask : Option Fields → Node → Option Bool
  ask none node = none
  ask (some info) node = node_ok node info

  -- The loop: every node is asked, also after one that is not healthy.
  pub all_ok : (String → Option Fields) → List Node → Option Bool
  unfolding ask conjoin
  all_ok server_info [] = some true
  all_ok server_info (node ∷ rest) =
      conjoin (ask (server_info node.url) node) (all_ok server_info rest)

  pub exit_code : (String → Option Fields) → ℕ
  unfolding all_ok exit_of
  exit_code server_info = exit_of (all_ok server_info nodes)
