-- ===== src/Deploy/Rollback.antt =====
-- `rollback`: what it tags, and before what.
use stir_main.Base.{
  String, ◌==◌, ◌≡◌, refl, inl, inr, Bool, List, [], ◌∷◌, if◌then◌else◌, Bool-cases,
}
use stir_main.Host.{Host, Trace, Event, Proc, ran, printed}
use stir_main.Host.Exec.{steps, ok, at, emit, Exec, ◌>>=◌, ◌>>◌}
use stir_main.Host.Emits.{Grown, Grown-refl, Grown-map, Emits, Emits-bind, Emits-emit, Any, any}
use stir_main.Deploy.Effects.{wait_healthy-Emits}
use stir_main.Host.Loops.{logged, for_each-logged}
use stir_main.Deploy.{compose, run, run_unchecked, image_of, retag, rollback, wait_healthy}

abbrev pub retag_call : Bool → Host → String × String → Event
retag_call prod h (service, tag) =
    ran (at h.root ("docker" ∷ "tag" ∷ tag ∷ image_of prod service ∷ []))

abbrev pub notice : Event
notice = printed "!!! Deploy unhealthy - rolling back to the previous images."

abbrev pub restart_call : Bool → Host → Proc
restart_call prod h = at h.root (compose prod ("up" ∷ "-d" ∷ "--no-build" ∷ []))

-- The notice, a tag for each saved image, and the restart.
abbrev pub restored : Bool → Host → List (String × String) → Trace → Trace
restored prod h tags t = ran (restart_call prod h) ∷ logged (retag_call prod h) tags (notice ∷ t)

retag-logged :
    (prod : Bool) (h : Host) (x : String × String) (t : Trace)
    → retag prod x h t ≡ (ok tt, retag_call prod h x ∷ t)
unfolding steps retag run_unchecked
retag-logged prod h (service, tag) t = refl

-- What `rollback` does after the restart.
abbrev report : Bool → Exec Unit
report prod = do
  well_again ← wait_healthy prod
  emit (
      printed (
        if well_again
        then "Rollback complete - previous version is healthy again."
        else "Rollback did not reach healthy either - manual intervention required. See `python scripts/status.py`."))

report-Emits : (prod : Bool) → Emits Any (report prod)
report-Emits prod =
    Emits-bind (wait_healthy prod) _
      (record { grown = λ h t. Grown-map t _ (λ e _. any e) ((wait_healthy-Emits prod).grown h t) })
      (λ b. Emits-emit _ (any _))

restart_then :
    (prod : Bool) (h : Host) (t : Trace)
    → Grown Any
        (ran (restart_call prod h) ∷ t)
        ((run (compose prod ("up" ∷ "-d" ∷ "--no-build" ∷ [])) >> report prod) h t).1
unfolding steps run
restart_then prod h t = elim (Bool-cases ((h.run t (restart_call prod h)).returncode == 0)) [
  | inl passed ↦ rw passed ((report-Emits prod).grown h (ran (restart_call prod h) ∷ t))
  | inr failed ↦ rw failed (Grown-refl _)
]

-- Whatever docker answers, a rollback tags back each of the images that were saved, in their order, and
-- then restarts the stack without building; all else that it does comes after.
pub rollback_restores :
    (prod : Bool) (tags : List (String × String)) (h : Host) (t : Trace)
    → Grown Any (restored prod h tags t) (rollback prod tags h t).1
unfolding ◌>>=◌ emit rollback
rollback_restores prod tags h t =
    rw (for_each-logged (retag_call prod h) (retag prod) h tags (notice ∷ t) (retag-logged prod h))
      (restart_then prod h (logged (retag_call prod h) tags (notice ∷ t)))
