-- ===== src/Host/Emits.antt =====
-- What an action adds to the history, with a rule for each way to build an action.
use stir_main.Base.{
  Bool-cases, inl, inr, ◌==◌, String, ◌≡◌, refl, sym, ap, ◌∙◌, Bool, true, false, Option, none,
  some, List, [], ◌∷◌, ◌++◌, All, All-append, if◌then◌else◌,
}
use mathlib.Core.List.{append_assoc}
use stir_main.Host.{Host, Trace, Event, Proc, Completed, ran, looked, read, asked, timed, listed}
use stir_main.Host.Exec.{
  Exec, Result, ok, fail, Failure, pure, raise, asks, query, emit, next, some_or_raise, for_each,
  ok_or_raise, call, check, exists, is_dir, read_text, input, time, list_dirs, getenv, os_error,
  eof_error, ◌>>=◌,
}

-- `u` is the history `t` and since then only events of `Q`.
pub record Grown (Q : Event → Type 0) (t u : Trace) : Type 0 where
  pub since : Trace
  pub whole : u ≡ since ++ t
  pub each : All Q since

-- Whether it returns or raises, `m` adds only events of `Q`.
pub record Emits {A : Type 0} (Q : Event → Type 0) (m : Exec A) : Type 0 where
  pub grown : (h : Host) (t : Trace) → Grown Q t (m h t).1

module _ {Q : Event → Type 0} where
  pub Grown-refl : (t : Trace) → Grown Q t t
  Grown-refl t = record { since = []; whole = refl; each = tt }

  pub Grown-event : (t : Trace) (e : Event) → Q e → Grown Q t (e ∷ t)
  Grown-event t e q = record { since = e ∷ []; whole = refl; each = (q, tt) }

  pub Grown-trans : (t u v : Trace) → Grown Q t u → Grown Q u v → Grown Q t v
  Grown-trans t u v a b = record {
    since = b.since ++ a.since;
    whole = b.whole ∙ ap (λ w. b.since ++ w) a.whole ∙ sym (append_assoc b.since a.since t);
    each = All-append Q b.since a.since b.each a.each;
  }

  pub Emits-pure : {A : Type 0} (a : A) → Emits Q (pure a)
  unfolding pure
  Emits-pure a = record { grown = λ h t. Grown-refl t }

  pub Emits-raise : {A : Type 0} (e : Failure) → Emits Q (raise {A = A} e)
  unfolding raise
  Emits-raise e = record { grown = λ h t. Grown-refl t }

  pub Emits-asks : {A : Type 0} (f : Host → A) → Emits Q (asks f)
  unfolding asks
  Emits-asks f = record { grown = λ h t. Grown-refl t }

  pub Emits-getenv : (k : String) → Emits Q (getenv k)
  unfolding getenv
  Emits-getenv k = record { grown = λ h t. Grown-refl t }

  pub Emits-emit : (e : Event) → Q e → Emits Q (emit e)
  unfolding emit
  Emits-emit e q = record { grown = λ h t. Grown-event t e q }

  pub Emits-query : {A : Type 0} (e : Event) (f : Host → Trace → A) → Q e → Emits Q (query e f)
  unfolding query
  Emits-query e f q = record { grown = λ h t. Grown-event t e q }

  pub Emits-call : (p : Proc) → Q (ran p) → Emits Q (call p)
  unfolding call
  Emits-call p q = Emits-query (ran p) _ q

  pub Emits-exists : (path : String) → Q (looked path) → Emits Q (exists path)
  unfolding exists
  Emits-exists path q = Emits-query (looked path) _ q

  pub Emits-is_dir : (path : String) → Q (looked path) → Emits Q (is_dir path)
  unfolding is_dir
  Emits-is_dir path q = Emits-query (looked path) _ q

  pub Emits-list_dirs : (path : String) → Q (listed path) → Emits Q (list_dirs path)
  unfolding list_dirs
  Emits-list_dirs path q = Emits-query (listed path) _ q

  pub Emits-time : Q timed → Emits Q time
  unfolding time
  Emits-time q = Emits-query timed _ q

  next-Grown :
      {A B : Type 0} (f : A → Exec B) (t : Trace) (r : Result A) (h : Host) (u : Trace)
      → ((a : A) → Emits Q (f a))
      → Grown Q t u
      → Grown Q t (next r f h u).1
  next-Grown f t (ok a) h u ef g = Grown-trans t u _ g ((ef a).grown h u)
  next-Grown f t (fail e) h u ef g = g

  pub Emits-bind :
      {A B : Type 0} (m : Exec A) (f : A → Exec B)
      → Emits Q m
      → ((a : A) → Emits Q (f a))
      → Emits Q (m >>= f)
  unfolding ◌>>=◌
  Emits-bind m f em ef = record {
    grown = λ h t. next-Grown f t (m h t).0 h (m h t).1 ef (em.grown h t);
  }

  pub Emits-if :
      {A : Type 0} (b : Bool) (m n : Exec A) → Emits Q m → Emits Q n → Emits Q (if b then m else n)
  Emits-if true m n em en = em
  Emits-if false m n em en = en

  Emits-ok_or_raise : (p : Proc) (c : Completed) → Emits Q (ok_or_raise p c)
  unfolding ok_or_raise
  Emits-ok_or_raise p c = record { grown = λ h t. Grown-refl t }

  pub Emits-check : (p : Proc) → Q (ran p) → Emits Q (check p)
  unfolding check
  Emits-check p q = Emits-bind (call p) _ (Emits-call p q) (λ c. Emits-ok_or_raise p c)

  pub Emits-some_or_raise : {A : Type 0} (e : Failure) (o : Option A) → Emits Q (some_or_raise e o)
  unfolding some_or_raise
  Emits-some_or_raise e none = Emits-raise e
  Emits-some_or_raise e (some a) = Emits-pure a

  pub Emits-input : (prompt : String) → Q (asked prompt) → Emits Q (input prompt)
  unfolding input
  Emits-input prompt q =
      Emits-bind _ _ (Emits-query (asked prompt) _ q) (λ line. Emits-some_or_raise eof_error line)

  pub Emits-read_text : (path : String) → Q (read path) → Emits Q (read_text path)
  unfolding read_text
  Emits-read_text path q =
      Emits-bind _ _ (Emits-query (read path) _ q) (λ found. Emits-some_or_raise os_error found)

  pub Emits-for_each :
      {A : Type 0} (xs : List A) (body : A → Exec Unit)
      → ((x : A) → Emits Q (body x))
      → Emits Q (for_each xs body)
  unfolding for_each
  Emits-for_each [] body eb = Emits-pure tt
  Emits-for_each (x ∷ xs) body eb = Emits-bind (body x) _ (eb x) (λ _. Emits-for_each xs body eb)

pub ruleset emits_rules = (
  Emits-pure, Emits-raise, Emits-asks, Emits-getenv, Emits-emit, Emits-call, Emits-exists,
  Emits-is_dir, Emits-list_dirs, Emits-input, Emits-time, Emits-bind, Emits-if, Emits-check,
  Emits-read_text, Emits-for_each,
)

module _ {Q : Event → Type 0} where
  -- What follows a checked call comes after the call in the history, if it comes at all.
  pub check_then :
      {B : Type 0} (p : Proc) (k : Completed → Exec B) (h : Host) (t : Trace)
      → ((c : Completed) → Emits Q (k c))
      → Grown Q (ran p ∷ t) ((check p >>= k) h t).1
  unfolding check call query ok_or_raise ◌>>=◌
  check_then p k h t ek = elim (Bool-cases ((h.run t p).returncode == 0)) [
    | inl passed ↦ rw passed ((ek (h.run t p)).grown h (ran p ∷ t))
    | inr failed ↦ rw failed (Grown-refl (ran p ∷ t))
  ]

All-map : {Q R : Event → Type 0} (es : Trace) → ((e : Event) → Q e → R e) → All Q es → All R es
All-map [] f all = tt
All-map (e ∷ es) f (q, all) = (f e q, All-map es f all)

pub Grown-map :
    {Q R : Event → Type 0} (t u : Trace) → ((e : Event) → Q e → R e) → Grown Q t u → Grown R t u
Grown-map t u f g = record { since = g.since; whole = g.whole; each = All-map g.since f g.each }

-- Any event at all.
pub data Any : Event → Type 0 where
  any : (e : Event) → Any e
