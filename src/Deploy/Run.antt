-- ===== src/Deploy/Run.antt =====
-- `main`: what a deploy that passes has seen, what one that fails has undone, and where it stops.
use stir_main.Base.{
  String, ◌==◌, ◌≡◌, refl, inl, inr, ap, ◌∙◌, sym, subst, Bool, true, List, [], ◌∷◌, arith,
  Bool-cases,
}
use stir_main.Host.{Host, Trace, Event, Proc, ran, printed}
use stir_main.Host.Exec.{
  steps, Exec, Result, ok, fail, Failure, system_exit, at, emit, raise, ◌>>=◌, ◌>>◌, answer_cases,
  next,
}
use stir_main.Host.Emits.{Grown, Emits, emits_rules, Any}
use stir_main.Host.Returns.{Returns, Returns-bind, Returns-raise}
use stir_main.Host.Raises.{result_cases}
use stir_main.Deploy.Health.{IsWellAt, ps_call, wait_healthy_sound}
use stir_main.Deploy.Raising.{wait_healthy-Raises, recreate-Raises, tags_saved}
use stir_main.Deploy.Rollback.{restored, rollback_restores}
use stir_main.Deploy.{
  compose, run, tag_current_as_previous, rollback, wait_healthy, smoke_call, smoke_and_finish,
  recreate, finish, greeting, main,
}

-- At the end of a deploy that passed.
pub record IsPassed (prod : Bool) (h : Host) (t : Trace) : Type 0 where
  pub before : Trace
  pub listed : IsWellAt prod h before
  pub told : Trace
  pub told_after :
      told
      ≡ printed "Healthy. Running a non-destructive smoke check..." ∷ ran (ps_call prod h) ∷ before
  pub whole :
      t
      ≡ printed "Deploy PASSED: services healthy, smoke check green."
        ∷ ran (at h.root (smoke_call h.executable))
        ∷ told
  pub smoke : ((h.run told (at h.root (smoke_call h.executable))).returncode == 0) ≡ true

next_trace :
    (r : Result Unit) (e : Failure) (h : Host) (t : Trace)
    → (next r (λ _. raise {A = Unit} e) h t).1 ≡ t
unfolding raise
next_trace (ok a) e h t = refl
next_trace (fail d) e h t = refl

trace-then_raise :
    (m : Exec Unit) (e : Failure) (h : Host) (t : Trace)
    → ((m >> raise {A = Unit} e) h t).1 ≡ (m h t).1
unfolding ◌>>=◌
trace-then_raise m e h t = next_trace (m h t).0 e h (m h t).1

-- The events of building and starting the new images.
pub data Forward : Event → Type 0 where
  told : (s : String) → Forward (printed s)
  built : (root : String) (prod : Bool) → Forward (ran (at root (compose prod ("build" ∷ []))))
  upped : (root : String) (prod : Bool) → Forward (ran (at root (compose prod ("up" ∷ "-d" ∷ []))))

ruleset forward_rules = (emits_rules, told, built, upped)

module _ (prod : Bool) where
  gives_up :
      (h : Host) (tags : List (String × String)) (e : Failure)
      → Returns h (λ (_ : Unit) _. ⊥) (rollback prod tags >> raise e)
  gives_up h tags e = Returns-bind (rollback prod tags) _ (λ _. Returns-raise e)

  smoke-IsPassed :
      (h : Host) (tags : List (String × String)) (v : Trace)
      → IsWellAt prod h v
      → (smoke_and_finish prod tags h (ran (ps_call prod h) ∷ v)).0 ≡ ok tt
      → IsPassed prod h (smoke_and_finish prod tags h (ran (ps_call prod h) ∷ v)).1
  unfolding steps smoke_and_finish
  smoke-IsPassed h tags v good e =
      let told : Trace =
        printed "Healthy. Running a non-destructive smoke check..." ∷ ran (ps_call prod h) ∷ v in
      elim (Bool-cases ((h.run told (at h.root (smoke_call h.executable))).returncode == 0)) [
        | inl passed ↦ rw passed (record {
          before = v;
          listed = good;
          told = told;
          told_after = refl;
          whole = refl;
          smoke = passed;
        })
        | inr broken ↦ absurd (ground arith)
      ]

  finish-IsPassed :
      (tags : List (String × String)) (h : Host) (t : Trace)
      → (finish prod tags h t).0 ≡ ok tt
      → IsPassed prod h (finish prod tags h t).1
  unfolding finish emit ◌>>=◌
  finish-IsPassed tags h t e =
      let u : Trace = printed "Waiting for health..." ∷ t in
      elim (answer_cases (wait_healthy prod h u).0) [
        | inl good ↦
            let (v, last, well_at) = wait_healthy_sound prod h u good in
            let same : finish prod tags h t
                ≡ smoke_and_finish prod tags h (ran (ps_call prod h) ∷ v) =
              rw (good, last) refl in
            subst (λ r. IsPassed prod h r.1) (sym same)
              (smoke-IsPassed h tags v well_at (ap (λ r. r.0) (sym same) ∙ e))
        | inr (inl bad) ↦ absurd (ground arith)
        | inr (inr (x, broken)) ↦ absurd (ground arith)
      ]

  undone :
      (tags : List (String × String)) (e : Failure) (h : Host) (t : Trace)
      → Grown Any (restored prod h tags t) ((rollback prod tags >> raise {A = Unit} e) h t).1
  undone tags e h t =
      rw (trace-then_raise (rollback prod tags) e h t) (rollback_restores prod tags h t)

  smoke-undone :
      (tags : List (String × String)) (h : Host) (t : Trace) (s : String)
      → (smoke_and_finish prod tags h t).0 ≡ fail (system_exit s)
      → (v : Trace) × Grown Any (restored prod h tags v) (smoke_and_finish prod tags h t).1
  unfolding steps smoke_and_finish
  smoke-undone tags h t s e =
      let smoke : Proc = at h.root (smoke_call h.executable) in
      let told : Trace = printed "Healthy. Running a non-destructive smoke check..." ∷ t in
      elim (Bool-cases ((h.run told smoke).returncode == 0)) [
        | inl passed ↦ absurd (ground arith)
        | inr broken ↦ (ran smoke ∷ told, rw broken (undone tags _ h (ran smoke ∷ told)))
      ]

  finish-undone :
      (tags : List (String × String)) (h : Host) (t : Trace) (s : String)
      → (finish prod tags h t).0 ≡ fail (system_exit s)
      → (v : Trace) × Grown Any (restored prod h tags v) (finish prod tags h t).1
  unfolding finish emit ◌>>=◌
  finish-undone tags h t s e =
      let u : Trace = printed "Waiting for health..." ∷ t in
      let w : Trace = (wait_healthy prod h u).1 in
      elim (answer_cases (wait_healthy prod h u).0) [
        | inl good ↦
            let same : finish prod tags h t ≡ smoke_and_finish prod tags h w = rw good refl in
            let (v, g) = smoke-undone tags h w s (ap (λ r. r.0) (sym same) ∙ e) in (v, rw same g)
        | inr (inl bad) ↦ (w, rw bad (undone tags _ h w))
        | inr (inr (x, broken)) ↦
            absurd ((wait_healthy-Raises prod).raised h u x broken s (ground arith))
      ]

  recreate-Emits : Emits Forward (recreate prod)
  unfolding recreate run
  recreate-Emits = search forward_rules depth 20

  -- The history once the images of the running stack are tagged.
  abbrev pub saved : Host → Trace → Trace
  saved h t = (tag_current_as_previous prod h (greeting prod ∷ t)).1

  after_saved :
      (h : Host) (t : Trace) (tags : List (String × String))
      → (tag_current_as_previous prod h (greeting prod ∷ t)).0 ≡ ok tags
      → main prod h t ≡ (recreate prod >> finish prod tags) h (saved h t)
  unfolding main emit ◌>>=◌
  after_saved h t tags same = rw same refl

  after_recreate :
      (h : Host) (t : Trace) (tags : List (String × String))
      → (tag_current_as_previous prod h (greeting prod ∷ t)).0 ≡ ok tags
      → (recreate prod h (saved h t)).0 ≡ ok tt
      → main prod h t ≡ finish prod tags h (recreate prod h (saved h t)).1
  unfolding ◌>>=◌
  after_recreate h t tags same went = after_saved h t tags same ∙ rw went refl

  stopped :
      (h : Host) (t : Trace) (tags : List (String × String)) (e : Failure)
      → (tag_current_as_previous prod h (greeting prod ∷ t)).0 ≡ ok tags
      → (recreate prod h (saved h t)).0 ≡ fail e
      → main prod h t ≡ (fail e, (recreate prod h (saved h t)).1)
  unfolding ◌>>=◌
  stopped h t tags e same went = after_saved h t tags same ∙ rw went refl

  -- A deploy that returns ended with a look at the containers, at which compose listed at least one and
  -- said of none that it is starting, unhealthy or has exited, and with a smoke check that passed.
  pub main-IsPassed :
      (h : Host) (t : Trace) → (main prod h t).0 ≡ ok tt → IsPassed prod h (main prod h t).1
  main-IsPassed h t e =
      let (tags, same) = tags_saved prod h (greeting prod ∷ t) in
      elim (result_cases (recreate prod h (saved h t)).0) [
        | inl (_, went) ↦
            let whole = after_recreate h t tags same went in
            subst (λ r. IsPassed prod h r.1) (sym whole)
              (finish-IsPassed tags h _ (ap (λ r. r.0) (sym whole) ∙ e))
        | inr (d, broken) ↦ absurd (ground (arith, stopped h t tags d same broken))
      ]

  -- A deploy that ends with its own message (the health check or the smoke check failed) has tagged the
  -- images back that it had saved, in their order, and restarted the stack without building.
  pub main_undoes :
      (h : Host) (t : Trace) (s : String)
      → (main prod h t).0 ≡ fail (system_exit s)
      → (tags : List (String × String)) × (v : Trace) × ((tag_current_as_previous prod h
            (greeting prod ∷ t)).0
          ≡ ok tags)
        × Grown Any (restored prod h tags v) (main prod h t).1
  main_undoes h t s e =
      let (tags, same) = tags_saved prod h (greeting prod ∷ t) in
      elim (result_cases (recreate prod h (saved h t)).0) [
        | inl (_, went) ↦
            let whole = after_recreate h t tags same went in
            let (v, g) = finish-undone tags h _ s (ap (λ r. r.0) (sym whole) ∙ e) in
            (tags, v, same, rw whole g)
        | inr (d, broken) ↦ absurd (
            (recreate-Raises prod).raised h (saved h t) d broken s
              (ground (arith, stopped h t tags d same broken)))
      ]

  -- When the build or the start of the new images fails, the deploy raises what it raised, and from the
  -- tagging on it has done nothing but build, start and print: it does not roll back.
  pub main_stops :
      (h : Host) (t : Trace) (e : Failure)
      → (recreate prod h (saved h t)).0 ≡ fail e
      → ((main prod h t).0 ≡ fail e) × Grown Forward (saved h t) (main prod h t).1
  main_stops h t e broken =
      let (tags, same) = tags_saved prod h (greeting prod ∷ t) in
      rw (stopped h t tags e same broken) (refl, recreate-Emits.grown h (saved h t))
