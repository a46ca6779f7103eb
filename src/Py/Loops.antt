-- ===== src/Py/Loops.antt =====
-- Comprehensions, `any`, `all` and the loops of the scripts over lists.
use stir_main.Base.{
  ℕ, zero, suc, ◌-◌, take, Bool, true, false, List, [], ◌∷◌, reverse, if◌then◌else◌,
}
use stir_main.Host.Exec.{Exec, pure, raise, some_or_raise, ◌>>=◌, index_error, stop_iteration}
use stir_main.Py.Values.{nth}

-- The comprehensions, `any` and `all`, which stop at the first answer.
module _ {A B : Type 0} where
  unfoldable pub map_each : List A → (A → Exec B) → Exec (List B)
  map_each [] f = pure []
  map_each (x ∷ xs) f = do y ← f x; ys ← map_each xs f; pure (y ∷ ys)

  unfoldable pub fold_each : List A → B → (A → B → Exec B) → Exec B
  fold_each [] b f = pure b
  fold_each (x ∷ xs) b f = do c ← f x b; fold_each xs c f

module _ {A : Type 0} where
  abbrev tail : List A → List A
  tail [] = []
  tail (x ∷ xs) = xs

  unfoldable pub any_of : List A → (A → Exec Bool) → Exec Bool
  any_of [] test = pure false
  any_of (x ∷ xs) test = do b ← test x; if b then pure true else any_of xs test

  unfoldable pub all_of : List A → (A → Exec Bool) → Exec Bool
  all_of [] test = pure true
  all_of (x ∷ xs) test = do b ← test x; if b then all_of xs test else pure false

  unfoldable pub filter_each : List A → (A → Exec Bool) → Exec (List A)
  filter_each [] test = pure []
  filter_each (x ∷ xs) test = do
    b ← test x
    ys ← filter_each xs test
    pure (if b then x ∷ ys else ys)

  -- `xs[n]` of a list of the script's own.
  unfoldable pub pick : ℕ → List A → Exec A
  pick n xs = some_or_raise index_error (nth n xs)

  -- `xs[-n]`, and `xs[-1 - n:-1]`.
  unfoldable pub pick_back : ℕ → List A → Exec A
  pick_back n xs = some_or_raise index_error (nth (n - 1) (reverse xs))

  unfoldable pub before_last : ℕ → List A → List A
  before_last n xs = reverse (take n (tail (reverse xs)))

  -- `next(x for x in xs if test(x))`.
  unfoldable pub next_of : List A → (A → Exec Bool) → Exec A
  next_of [] test = raise stop_iteration
  next_of (x ∷ xs) test = do b ← test x; if b then pure x else next_of xs test

  -- `enumerate(xs)`, from `n` on, and `xs[n] = y`.
  unfoldable pub numbered : ℕ → List A → List (ℕ × A)
  numbered n [] = []
  numbered n (x ∷ xs) = (n, x) ∷ numbered (suc n) xs

  unfoldable pub replaced : ℕ → A → List A → List A
  replaced n y [] = []
  replaced zero y (x ∷ xs) = y ∷ xs
  replaced (suc n) y (x ∷ xs) = x ∷ replaced n y xs

-- `a and b`, `a or b`.
unfoldable pub and_also : Exec Bool → Exec Bool → Exec Bool
and_also a b = do x ← a; if x then b else pure false

unfoldable pub or_else : Exec Bool → Exec Bool → Exec Bool
or_else a b = do x ← a; if x then pure true else b
