-- ===== src/Host/Raises.antt =====
-- What an action may raise, with a rule for each way to build an action.
use stir_main.Base.{
  String, ◌⊎◌, ◌==◌, ◌≡◌, refl, Bool, true, false, Bool-cases, inl, inr, List, [], ◌∷◌, arith,
  if◌then◌else◌,
}
use stir_main.Host.{Host, Trace, Event, Proc}
use stir_main.Host.Exec.{
  Exec, Result, ok, fail, Failure, called_process_error, pure, raise, asks, query, emit, next, call,
  check, ok_or_raise, time, exists, for_each, ◌>>=◌,
}

-- Whatever `m` raises is in `E`.
pub record Raises {A : Type 0} (E : Failure → Type 0) (m : Exec A) : Type 0 where
  pub raised : (h : Host) (t : Trace) (e : Failure) → (m h t).0 ≡ fail e → E e

same_failure :
    {A : Type 0} (E : Failure → Type 0) (r : Result A) (e d : Failure)
    → r ≡ fail e
    → r ≡ fail d
    → E e
    → E d
same_failure E r e d first second x = let same : e ≡ d = ground arith in rw (← same) x

module _ {E : Failure → Type 0} where
  pub Raises-pure : {A : Type 0} (a : A) → Raises E (pure a)
  unfolding pure
  Raises-pure a = record { raised = λ h t e eq. absurd (ground arith) }

  pub Raises-raise : {A : Type 0} (e : Failure) → E e → Raises E (raise {A = A} e)
  unfolding raise
  Raises-raise e x = record { raised = λ h t d eq. same_failure E (raise e h t).0 e d refl eq x }

  pub Raises-asks : {A : Type 0} (f : Host → A) → Raises E (asks f)
  unfolding asks
  Raises-asks f = record { raised = λ h t e eq. absurd (ground arith) }

  pub Raises-emit : (e : Event) → Raises E (emit e)
  unfolding emit
  Raises-emit e = record { raised = λ h t d eq. absurd (ground arith) }

  pub Raises-call : (p : Proc) → Raises E (call p)
  unfolding call query
  Raises-call p = record { raised = λ h t d eq. absurd (ground arith) }

  pub Raises-exists : (path : String) → Raises E (exists path)
  unfolding exists query
  Raises-exists path = record { raised = λ h t d eq. absurd (ground arith) }

  pub Raises-time : Raises E time
  unfolding time query
  Raises-time = record { raised = λ h t d eq. absurd (ground arith) }

  next_raised :
      {A B : Type 0} (f : A → Exec B) (r : Result A) (h : Host) (u : Trace) (e : Failure)
      → ((d : Failure) → r ≡ fail d → E d)
      → ((a : A) → Raises E (f a))
      → (next r f h u).0 ≡ fail e
      → E e
  next_raised f (ok a) h u e first each eq = (each a).raised h u e eq
  next_raised f (fail d) h u e first each eq =
      same_failure E (next (fail d) f h u).0 d e refl eq (first d refl)

  pub Raises-bind :
      {A B : Type 0} (m : Exec A) (f : A → Exec B)
      → Raises E m
      → ((a : A) → Raises E (f a))
      → Raises E (m >>= f)
  unfolding ◌>>=◌
  Raises-bind m f rm each = record {
    raised = λ h t e. next_raised f (m h t).0 h (m h t).1 e (rm.raised h t) each;
  }

  pub Raises-if :
      {A : Type 0} (b : Bool) (m n : Exec A)
      → Raises E m
      → Raises E n
      → Raises E (if b then m else n)
  Raises-if true m n rm rn = rm
  Raises-if false m n rm rn = rn

  pub Raises-check : (p : Proc) → E (called_process_error p.argv) → Raises E (check p)
  unfolding check call query ok_or_raise ◌>>=◌
  Raises-check p x = record {
    raised = λ h t e eq. elim (Bool-cases ((h.run t p).returncode == 0)) [
      | inl passed ↦ absurd (ground arith)
      | inr failed ↦ same_failure E (check p h t).0 _ e (rw failed refl) eq x
    ];
  }

  pub Raises-for_each :
      {A : Type 0} (xs : List A) (body : A → Exec Unit)
      → ((x : A) → Raises E (body x))
      → Raises E (for_each xs body)
  unfolding for_each
  Raises-for_each [] body each = Raises-pure tt
  Raises-for_each (x ∷ xs) body each =
      Raises-bind (body x) _ (each x) (λ _. Raises-for_each xs body each)

pub ruleset raises_rules = (
  Raises-pure, Raises-raise, Raises-asks, Raises-emit, Raises-call, Raises-exists, Raises-time,
  Raises-bind, Raises-if, Raises-check, Raises-for_each,
)

pub result_cases :
    {A : Type 0} (r : Result A) → ((a : A) × (r ≡ ok a)) ⊎ ((e : Failure) × (r ≡ fail e))
result_cases (ok a) = inl (a, refl)
result_cases (fail e) = inr (e, refl)

-- An action that may raise nothing returns.
pub Raises-returns :
    {A : Type 0} (m : Exec A) (h : Host) (t : Trace)
    → Raises (λ _. ⊥) m
    → (a : A) × ((m h t).0 ≡ ok a)
Raises-returns m h t never = elim (result_cases (m h t).0) [
  | inl returned ↦ returned
  | inr (e, broken) ↦ absurd (never.raised h t e broken)
]
