-- ===== src/Host/Upholds.antt =====
-- Invariants of the history, with a rule for each way to build an action.
use stir_main.Base.{
  ◌≡◌, refl, ◌==◌, inl, inr, Bool-cases, sym, subst, Bool, true, false, List, [], ◌∷◌, ◌++◌, All,
  if◌then◌else◌,
}
use stir_main.Host.{ran, Proc, Host, Trace, Event}
use stir_main.Host.Exec.{steps, check, Exec, Result, ok, fail, next, pure, for_each, ◌>>=◌}
use stir_main.Host.Emits.{Emits}

-- `m` keeps the invariant `I` of the history.
pub record Upholds {A : Type 0} (h : Host) (I : Trace → Type 0) (m : Exec A) : Type 0 where
  pub keeps : (u : Trace) → I u → I (m h u).1

module _ {h : Host} {I : Trace → Type 0} where
  next_upholds :
      {A B : Type 0} (f : A → Exec B) (r : Result A) (u : Trace)
      → ((a : A) → Upholds h I (f a))
      → I u
      → I (next r f h u).1
  next_upholds f (ok a) u each i = (each a).keeps u i
  next_upholds f (fail e) u each i = i

  pub Upholds-bind :
      {A B : Type 0} (m : Exec A) (f : A → Exec B)
      → Upholds h I m
      → ((a : A) → Upholds h I (f a))
      → Upholds h I (m >>= f)
  unfolding ◌>>=◌
  Upholds-bind m f um each = record {
    keeps = λ u i. next_upholds f (m h u).0 (m h u).1 each (um.keeps u i);
  }

  pub Upholds-if :
      {A : Type 0} (b : Bool) (m n : Exec A)
      → Upholds h I m
      → Upholds h I n
      → Upholds h I (if b then m else n)
  Upholds-if true m n um un = um
  Upholds-if false m n um un = un

  Upholds-pure : {A : Type 0} (a : A) → Upholds h I (pure a)
  unfolding pure
  Upholds-pure a = record { keeps = λ u i. i }

  pub Upholds-for_each :
      {A : Type 0} (xs : List A) (body : A → Exec Unit)
      → ((x : A) → Upholds h I (body x))
      → Upholds h I (for_each xs body)
  unfolding for_each
  Upholds-for_each [] body each = Upholds-pure tt
  Upholds-for_each (x ∷ xs) body each =
      Upholds-bind (body x) _ (each x) (λ _. Upholds-for_each xs body each)

module _ {I : Trace → Type 0} (Q : Event → Type 0) where
  over :
      ((e : Event) (u : Trace) → Q e → I u → I (e ∷ u))
      → (u es : Trace) → I u
      → All Q es
      → I (es ++ u)
  over closed u [] i all = i
  over closed u (e ∷ es) i (q, all) = closed e (es ++ u) q (over closed u es i all)

  -- An action that adds only events under which the invariant is closed.
  pub Upholds-of :
      {A : Type 0} {h : Host} (m : Exec A)
      → ((e : Event) (u : Trace) → Q e → I u → I (e ∷ u))
      → Emits Q m
      → Upholds h I m
  Upholds-of {h = h} m closed em = record {
    keeps = λ u i.
        let grown = em.grown h u in
        subst I (sym grown.whole) (over closed u grown.since i grown.each);
  }

-- A checked program is in the history whether it succeeds or not.
pub trace-check : (p : Proc) (h : Host) (u : Trace) → ((check p >>= λ _. pure tt) h u).1 ≡ ran p ∷ u
unfolding steps
trace-check p h u = elim (Bool-cases ((h.run u p).returncode == 0)) [
  | inl good ↦ rw good refl
  | inr bad ↦ rw bad refl
]
