-- ===== src/Host/Passing.antt =====
-- What a script that passes has seen: either it fails, or what its assertions say holds.
use stir_main.Base.{ap, sym, ◌∙◌, arith, ◌≡◌, ◌⊎◌, inl, inr, Bool, true, refl, Bool-cases}
use stir_main.Host.{Host, Trace}
use stir_main.Host.Raises.{result_cases}
use stir_main.Host.Exec.{pure, next, Exec, Result, ok, fail, Failure, unless, ◌>>=◌}

-- The result is a failure, or `C` holds.
abbrev pub FailsOr : {A : Type 0} → Type 0 → Result A × Trace → Type 0
FailsOr C r = ((e : Failure) × (r.0 ≡ fail e)) ⊎ C

module _ {C : Type 0} {A B : Type 0} where
  pub after_bind :
      (m : Exec A) (f : A → Exec B) (h : Host) (t : Trace)
      → ((a : A) → (m h t).0 ≡ ok a → FailsOr C (f a h (m h t).1))
      → FailsOr C ((m >>= f) h t)
  unfolding ◌>>=◌
  after_bind m f h t each = elim (result_cases (m h t).0) [
    | inl (a, went) ↦ rw went (each a went)
    | inr (e, broken) ↦ inl (e, rw broken refl)
  ]

-- A step that returns a known value and leaves nothing.
pub after_pure :
    {C A B : Type 0} (m : Exec A) (a : A) (f : A → Exec B) (h : Host) (t : Trace)
    → m ≡ pure a
    → FailsOr C (f a h t)
    → FailsOr C ((m >>= f) h t)
unfolding ◌>>=◌ pure
after_pure m a f h t is_pure then_ = rw is_pure then_

pub after_unless :
    {C B : Type 0} (b : Bool) (e : Failure) (f : Unit → Exec B) (h : Host) (t : Trace)
    → (b ≡ true → FailsOr C (f tt h t))
    → FailsOr C ((unless b e >>= f) h t)
unfolding ◌>>=◌ unless
after_unless b e f h t then_ = elim (Bool-cases b) [
  | inl holds ↦ rw holds (then_ holds)
  | inr broken ↦ inl (e, rw broken refl)
]

pub failed_passes : {B : Type 0} (e : Failure) (b : B) → fail e ≡ ok b → ⊥
failed_passes e b same = ground arith

-- What a passing sequence went through.
pub bind_passes :
    {A B : Type 0} (m : Exec A) (f : A → Exec B) (h : Host) (t : Trace) (b : B)
    → ((m >>= f) h t).0 ≡ ok b
    → (a : A) × ((m h t).0 ≡ ok a) × ((f a h (m h t).1).0 ≡ ok b)
unfolding ◌>>=◌
bind_passes m f h t b passed = elim (result_cases (m h t).0) [
  | inl (a, went) ↦ (a, went, rw (← ap (λ r. (next r f h (m h t).1).0) went) passed)
  | inr (e, broken) ↦
      absurd (failed_passes e b (sym (ap (λ r. (next r f h (m h t).1).0) broken) ∙ passed))
]

pub bind_keeps :
    {A B : Type 0} (m : Exec A) (f : A → Exec B) (h : Host) (t : Trace)
    → (m h t).1 ≡ t
    → ((a : A) → (f a h t).1 ≡ t)
    → ((m >>= f) h t).1 ≡ t
unfolding ◌>>=◌
bind_keeps m f h t kept each = elim (result_cases (m h t).0) [
  | inl (a, went) ↦ rw (went, kept) (each a)
  | inr (e, broken) ↦ rw broken kept
]

pub bind_goes :
    {A B : Type 0} (m : Exec A) (f : A → Exec B) (h : Host) (t : Trace) (a : A)
    → (m h t).0 ≡ ok a
    → ((m >>= f) h t).1 ≡ (f a h (m h t).1).1
unfolding ◌>>=◌
bind_goes m f h t a went = ap (λ r. (next r f h (m h t).1).1) went

pub bind_went :
    {A B : Type 0} (m : Exec A) (f : A → Exec B) (h : Host) (t : Trace) (a : A)
    → (m h t).0 ≡ ok a
    → (m >>= f) h t ≡ f a h (m h t).1
unfolding ◌>>=◌
bind_went m f h t a went = ap (λ r. next r f h (m h t).1) went
