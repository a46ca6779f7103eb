-- ===== src/Py/Emits.antt =====
-- The operations of `Py` leave no event, but for those that draw, print, read and write.
use stir_main.Base.{ℕ, String, Bool, true, false, Option, none, some, List, [], ◌∷◌}
use stir_main.Json.{
  Json, Loaded, value, decode_error, other_error, null, bool, int, real, str, array, object,
}
use stir_main.Base.Text.{cut}
use stir_main.Py.Library.{loaded_or_raise}
use stir_main.Py.Numbers.{whole_part}
use stir_main.Host.{Event, Draw, drew, uuid4, printed, read, timed, wrote, ◌/◌}
use stir_main.Host.Exec.{Exec, Failure, unless, assertion_error}
use stir_main.Host.Emits.{
  Emits, Grown-refl, Emits-pure, Emits-raise, Emits-bind, Emits-if, Emits-asks, Emits-emit,
  Emits-getenv, Emits-query, Emits-some_or_raise, Emits-read_text, emits_rules,
}
use stir_main.Py.{
  item, get, entry, last_entry, text_of, text_item, shown, shown_item, length_of, each_of, within,
  merged, int_from, float_from, map_each, fold_each, filter_each, any_of, all_of, next_of, pick,
  pick_back, and_also, or_else, plus_int, minus_int, at_least, expect, expect_or, expect_showing,
  print, loads, draws, uuid4_hex, stripped_text, method_text, sha256, canonical, public_text,
  signed, signed_rsa, dumps, now_iso, env_value, env_or, shown_repr, lower_text, upper_text,
  head_of, write_under_root,
}

module _ {Q : Event → Type 0} where
  pub Emits-unless : (b : Bool) (e : Failure) → Emits Q (unless b e)
  unfolding unless
  Emits-unless b e = record { grown = λ h t. Grown-refl t }

  pub Emits-item : (v : Json) (k : String) → Emits Q (item v k)
  unfolding item
  Emits-item (object fs) k = Emits-some_or_raise _ _
  Emits-item _ k = Emits-raise _

  pub Emits-get : (v : Json) (k : String) → Emits Q (get v k)
  unfolding get
  Emits-get (object fs) k = Emits-pure _
  Emits-get _ k = Emits-raise _

  pub Emits-entry : (v : Json) (n : ℕ) → Emits Q (entry v n)
  unfolding entry
  Emits-entry (array vs) n = Emits-some_or_raise _ _
  Emits-entry (str s) n = Emits-some_or_raise _ _
  Emits-entry _ n = Emits-raise _

  pub Emits-last_entry : (v : Json) → Emits Q (last_entry v)
  unfolding last_entry
  Emits-last_entry (array vs) = Emits-some_or_raise _ _
  Emits-last_entry (str s) = Emits-some_or_raise _ _
  Emits-last_entry _ = Emits-raise _

  pub Emits-text_of : (v : Json) → Emits Q (text_of v)
  unfolding text_of
  Emits-text_of (str s) = Emits-pure s
  Emits-text_of _ = Emits-raise _

  pub Emits-method_text : (v : Json) → Emits Q (method_text v)
  unfolding method_text
  Emits-method_text (str s) = Emits-pure s
  Emits-method_text _ = Emits-raise _

  pub Emits-shown : (v : Json) → Emits Q (shown v)
  unfolding shown
  Emits-shown (str s) = Emits-pure _
  Emits-shown (int i) = Emits-pure _
  Emits-shown (bool b) = Emits-pure _
  Emits-shown null = Emits-pure _
  Emits-shown _ = Emits-asks _

  pub Emits-text_item : (v : Json) (k : String) → Emits Q (text_item v k)
  unfolding text_item
  Emits-text_item v k = Emits-bind _ _ (Emits-item v k) (λ x. Emits-text_of x)

  pub Emits-shown_item : (v : Json) (k : String) → Emits Q (shown_item v k)
  unfolding shown_item
  Emits-shown_item v k = Emits-bind _ _ (Emits-item v k) (λ x. Emits-shown x)

  pub Emits-length_of : (v : Json) → Emits Q (length_of v)
  unfolding length_of
  Emits-length_of (array vs) = Emits-pure _
  Emits-length_of (str s) = Emits-pure _
  Emits-length_of (object fs) = Emits-pure _
  Emits-length_of _ = Emits-raise _

  pub Emits-each_of : (v : Json) → Emits Q (each_of v)
  unfolding each_of
  Emits-each_of (array vs) = Emits-pure _
  Emits-each_of (str s) = Emits-pure _
  Emits-each_of (object fs) = Emits-pure _
  Emits-each_of _ = Emits-raise _

  pub Emits-within : (v w : Json) → Emits Q (within v w)
  unfolding within
  Emits-within v (array ws) = Emits-pure _
  Emits-within v (object fs) = Emits-pure _
  Emits-within (str s) (str t) = Emits-pure _
  Emits-within _ _ = Emits-raise _

  pub Emits-merged : (v : Json) (kvs : List (String × Json)) → Emits Q (merged v kvs)
  unfolding merged
  Emits-merged (object fs) kvs = Emits-pure _
  Emits-merged _ kvs = Emits-raise _

  pub Emits-head_of : (v : Json) (n : ℕ) → Emits Q (head_of v n)
  unfolding head_of
  Emits-head_of (array vs) n = Emits-pure _
  Emits-head_of (str s) n = Emits-pure _
  Emits-head_of _ n = Emits-raise _

  pub Emits-plus_int : (v : Json) (n : ℕ) → Emits Q (plus_int v n)
  unfolding plus_int
  Emits-plus_int (int i) n = Emits-pure _
  Emits-plus_int (bool b) n = Emits-pure _
  Emits-plus_int _ n = Emits-raise _

  pub Emits-minus_int : (v : Json) (n : ℕ) → Emits Q (minus_int v n)
  unfolding minus_int
  Emits-minus_int (int i) n = Emits-pure _
  Emits-minus_int (bool b) n = Emits-pure _
  Emits-minus_int _ n = Emits-raise _

  pub Emits-at_least : (v : Json) (n : ℕ) → Emits Q (at_least v n)
  unfolding at_least
  Emits-at_least (int i) n = Emits-pure _
  Emits-at_least (bool b) n = Emits-pure _
  Emits-at_least _ n = Emits-raise _

  pub Emits-expect : (b : Bool) → Emits Q (expect b)
  unfolding expect
  Emits-expect b = Emits-unless b _

  pub Emits-expect_or : (said : String) (b : Bool) → Emits Q (expect_or said b)
  unfolding expect_or
  Emits-expect_or said b = Emits-unless b _

  pub Emits-expect_showing : (v : Json) (b : Bool) → Emits Q (expect_showing v b)
  unfolding expect_showing
  Emits-expect_showing v b =
      Emits-if b _ _ (Emits-pure tt)
        (Emits-bind _ _ (Emits-shown v) (λ said. Emits-raise (assertion_error said)))

  Emits-whole_part : (o : Option (String × String)) → Emits Q (whole_part o)
  unfolding whole_part
  Emits-whole_part none = Emits-raise _
  Emits-whole_part (some (whole, _)) = Emits-some_or_raise _ _

  pub Emits-int_from : (v : Json) → Emits Q (int_from v)
  unfolding int_from
  Emits-int_from (int i) = Emits-pure _
  Emits-int_from (bool b) = Emits-pure _
  Emits-int_from (str s) = Emits-some_or_raise _ _
  Emits-int_from (real s) = Emits-whole_part (cut 46 s)
  Emits-int_from _ = Emits-raise _

  pub Emits-float_from : (v : Json) → Emits Q (float_from v)
  unfolding float_from
  Emits-float_from (int i) = Emits-pure _
  Emits-float_from (bool b) = Emits-pure _
  Emits-float_from (real s) = Emits-pure _
  Emits-float_from (str s) =
      Emits-bind _ _ (Emits-asks _)
        (λ found. Emits-bind _ _ (Emits-some_or_raise _ _) (λ x. Emits-pure _))
  Emits-float_from _ = Emits-raise _

  Emits-loaded : (l : Loaded) → Emits Q (loaded_or_raise l)
  unfolding loaded_or_raise
  Emits-loaded (value v) = Emits-pure v
  Emits-loaded decode_error = Emits-raise _
  Emits-loaded other_error = Emits-raise _

  pub Emits-loads : (s : String) → Emits Q (loads s)
  unfolding loads
  Emits-loads s = Emits-bind _ _ (Emits-asks _) (λ l. Emits-loaded l)

  pub Emits-and_also : (a b : Exec Bool) → Emits Q a → Emits Q b → Emits Q (and_also a b)
  unfolding and_also
  Emits-and_also a b ea eb = Emits-bind _ _ ea (λ x. Emits-if x _ _ eb (Emits-pure false))

  pub Emits-or_else : (a b : Exec Bool) → Emits Q a → Emits Q b → Emits Q (or_else a b)
  unfolding or_else
  Emits-or_else a b ea eb = Emits-bind _ _ ea (λ x. Emits-if x _ _ (Emits-pure true) eb)

  -- What only reads the host.
  pub Emits-sha256 : (s : String) → Emits Q (sha256 s)
  unfolding sha256
  Emits-sha256 s = Emits-asks _

  pub Emits-canonical : (v : Json) → Emits Q (canonical v)
  unfolding canonical
  Emits-canonical v = Emits-asks _

  pub Emits-public_text : (key : String) → Emits Q (public_text key)
  unfolding public_text
  Emits-public_text key = Emits-asks _

  pub Emits-signed : (key said : String) → Emits Q (signed key said)
  unfolding signed
  Emits-signed key said = Emits-asks _

  pub Emits-signed_rsa : (key said : String) → Emits Q (signed_rsa key said)
  unfolding signed_rsa
  Emits-signed_rsa key said = Emits-asks _

  pub Emits-dumps : (v : Json) → Emits Q (dumps v)
  unfolding dumps
  Emits-dumps v = Emits-asks _

  pub Emits-shown_repr : (v : Json) → Emits Q (shown_repr v)
  unfolding shown_repr
  Emits-shown_repr v = Emits-asks _

  pub Emits-lower_text : (s : String) → Emits Q (lower_text s)
  unfolding lower_text
  Emits-lower_text s = Emits-asks _

  pub Emits-upper_text : (s : String) → Emits Q (upper_text s)
  unfolding upper_text
  Emits-upper_text s = Emits-asks _

  pub Emits-env_value : (k : String) → Emits Q (env_value k)
  unfolding env_value
  Emits-env_value k = Emits-bind _ _ (Emits-getenv k) (λ found. Emits-pure _)

  pub Emits-env_or : (k d : String) → Emits Q (env_or k d)
  unfolding env_or
  Emits-env_or k d = Emits-bind _ _ (Emits-getenv k) (λ found. Emits-pure _)

  -- What leaves one event.
  pub Emits-draws : (d : Draw) → Q (drew d) → Emits Q (draws d)
  unfolding draws
  Emits-draws d q = Emits-query (drew d) _ q

  pub Emits-uuid4_hex : (n : ℕ) → Q (drew uuid4) → Emits Q (uuid4_hex n)
  unfolding uuid4_hex
  Emits-uuid4_hex n q = Emits-bind _ _ (Emits-draws uuid4 q) (λ u. Emits-pure _)

  pub Emits-now_iso : Q timed → Emits Q now_iso
  unfolding now_iso
  Emits-now_iso q = Emits-query timed _ q

  pub Emits-print : (s : String) → Q (printed s) → Emits Q (print s)
  unfolding print
  Emits-print s q = Emits-emit (printed s) q

  pub Emits-stripped_text :
      (path : String) → ((root : String) → Q (read (root / path))) → Emits Q (stripped_text path)
  unfolding stripped_text
  Emits-stripped_text path q =
      Emits-bind _ _ (Emits-asks _)
        (λ root. Emits-bind _ _ (Emits-read_text (root / path) (q root)) (λ found. Emits-pure _))

  pub Emits-write_under_root :
      (path said : String)
      → ((root : String) → Q (wrote (root / path) said))
      → Emits Q (write_under_root path said)
  unfolding write_under_root
  Emits-write_under_root path said q =
      Emits-bind _ _ (Emits-asks _) (λ root. Emits-emit (wrote (root / path) said) (q root))

module _ {Q : Event → Type 0} {A B : Type 0} where
  pub Emits-map_each :
      (xs : List A) (f : A → Exec B) → ((x : A) → Emits Q (f x)) → Emits Q (map_each xs f)
  unfolding map_each
  Emits-map_each [] f ef = Emits-pure []
  Emits-map_each (x ∷ xs) f ef =
      Emits-bind _ _ (ef x) (λ y. Emits-bind _ _ (Emits-map_each xs f ef) (λ ys. Emits-pure _))

  pub Emits-fold_each :
      (xs : List A) (b : B) (f : A → B → Exec B)
      → ((x : A) (c : B) → Emits Q (f x c))
      → Emits Q (fold_each xs b f)
  unfolding fold_each
  Emits-fold_each [] b f ef = Emits-pure b
  Emits-fold_each (x ∷ xs) b f ef = Emits-bind _ _ (ef x b) (λ c. Emits-fold_each xs c f ef)

module _ {Q : Event → Type 0} {A : Type 0} where
  pub Emits-any_of :
      (xs : List A) (test : A → Exec Bool) → ((x : A) → Emits Q (test x)) → Emits Q (any_of xs test)
  unfolding any_of
  Emits-any_of [] test et = Emits-pure false
  Emits-any_of (x ∷ xs) test et =
      Emits-bind _ _ (et x) (λ b. Emits-if b _ _ (Emits-pure true) (Emits-any_of xs test et))

  pub Emits-all_of :
      (xs : List A) (test : A → Exec Bool) → ((x : A) → Emits Q (test x)) → Emits Q (all_of xs test)
  unfolding all_of
  Emits-all_of [] test et = Emits-pure true
  Emits-all_of (x ∷ xs) test et =
      Emits-bind _ _ (et x) (λ b. Emits-if b _ _ (Emits-all_of xs test et) (Emits-pure false))

  pub Emits-next_of :
      (xs : List A) (test : A → Exec Bool)
      → ((x : A) → Emits Q (test x))
      → Emits Q (next_of xs test)
  unfolding next_of
  Emits-next_of [] test et = Emits-raise _
  Emits-next_of (x ∷ xs) test et =
      Emits-bind _ _ (et x) (λ b. Emits-if b _ _ (Emits-pure x) (Emits-next_of xs test et))

  pub Emits-filter_each :
      (xs : List A) (test : A → Exec Bool)
      → ((x : A) → Emits Q (test x))
      → Emits Q (filter_each xs test)
  unfolding filter_each
  Emits-filter_each [] test et = Emits-pure []
  Emits-filter_each (x ∷ xs) test et =
      Emits-bind _ _ (et x)
        (λ b. Emits-bind _ _ (Emits-filter_each xs test et) (λ ys. Emits-pure _))

  pub Emits-pick : (n : ℕ) (xs : List A) → Emits Q (pick n xs)
  unfolding pick
  Emits-pick n xs = Emits-some_or_raise _ _

  pub Emits-pick_back : (n : ℕ) (xs : List A) → Emits Q (pick_back n xs)
  unfolding pick_back
  Emits-pick_back n xs = Emits-some_or_raise _ _

pub ruleset py_rules = (
  emits_rules, Emits-item, Emits-get, Emits-entry, Emits-last_entry, Emits-text_of,
  Emits-method_text, Emits-shown, Emits-text_item, Emits-shown_item, Emits-length_of, Emits-each_of,
  Emits-within, Emits-merged, Emits-head_of, Emits-plus_int, Emits-minus_int, Emits-at_least,
  Emits-expect, Emits-expect_or, Emits-expect_showing, Emits-int_from, Emits-float_from,
  Emits-loads, Emits-and_also, Emits-or_else, Emits-sha256, Emits-canonical, Emits-public_text,
  Emits-signed, Emits-signed_rsa, Emits-dumps, Emits-shown_repr, Emits-lower_text, Emits-upper_text,
  Emits-env_value, Emits-env_or, Emits-draws, Emits-uuid4_hex, Emits-now_iso, Emits-print,
  Emits-stripped_text, Emits-write_under_root, Emits-map_each, Emits-fold_each, Emits-any_of,
  Emits-all_of, Emits-next_of, Emits-filter_each, Emits-pick, Emits-pick_back,
)
