-- ===== src/Host/Returns.antt =====
-- What holds when an action returns, with a rule for each way to build an action.
use stir_main.Base.{inl, inr, refl, ◌≡◌, Bool, true, false, if◌then◌else◌, arith}
use stir_main.Host.Raises.{result_cases}
use stir_main.Host.{Host, Trace}
use stir_main.Host.Exec.{Exec, Result, ok, fail, Failure, raise, next, ◌>>=◌}

-- Whenever `m` returns, `P` holds of the value and of the history then.
pub record Returns {A : Type 0} (h : Host) (P : A → Trace → Type 0) (m : Exec A) : Type 0 where
  pub holds : (t : Trace) (a : A) → (m h t).0 ≡ ok a → P a (m h t).1

module _ {h : Host} where
  pub Returns-raise : {A : Type 0} {P : A → Trace → Type 0} (e : Failure) → Returns h P (raise e)
  unfolding raise
  Returns-raise e = record { holds = λ t a eq. absurd (ground arith) }

  next_holds :
      {A B : Type 0} {P : B → Trace → Type 0} (f : A → Exec B) (r : Result A) (u : Trace) (b : B)
      → ((a : A) → Returns h P (f a))
      → (next r f h u).0 ≡ ok b
      → P b (next r f h u).1
  next_holds f (ok a) u b each eq = (each a).holds u b eq
  next_holds f (fail e) u b each eq = absurd (ground arith)

  pub Returns-bind :
      {A B : Type 0} {P : B → Trace → Type 0} (m : Exec A) (f : A → Exec B)
      → ((a : A) → Returns h P (f a))
      → Returns h P (m >>= f)
  unfolding ◌>>=◌
  Returns-bind m f each = record { holds = λ t b. next_holds f (m h t).0 (m h t).1 b each }

  pub Returns-if :
      {A : Type 0} {P : A → Trace → Type 0} (b : Bool) (m n : Exec A)
      → Returns h P m
      → Returns h P n
      → Returns h P (if b then m else n)
  Returns-if true m n rm rn = rm
  Returns-if false m n rm rn = rn

-- An action that has returned had a first part that returned.
pub returned_first :
    {A B : Type 0} (m : Exec A) (f : A → Exec B) (h : Host) (t : Trace) (b : B)
    → ((m >>= f) h t).0 ≡ ok b
    → (a : A) × ((m h t).0 ≡ ok a) × ((m >>= f) h t ≡ f a h (m h t).1)
unfolding ◌>>=◌
returned_first m f h t b e = elim (result_cases (m h t).0) [
  | inl (a, went) ↦ (a, went, rw went refl)
  | inr (d, broken) ↦ absurd (ground arith)
]
