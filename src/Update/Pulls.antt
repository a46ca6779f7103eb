-- ===== src/Update/Pulls.antt =====
-- `pull` and `update`: what a pull follows.
use stir_main.Base.{
  String, ◌<>◌, ◌=s=◌, ◌==◌, ◌≡◌, sym, subst, inl, inr, Bool, true, false, Option, none, some, List,
  [], ◌∷◌, Bool-cases,
}
use stir_main.Base.Text.{strip, after_last}
use stir_main.Host.{Host, Trace, Event, Proc, ran, printed, looked, read, ◌/◌}
use stir_main.Host.Exec.{steps, Exec, at, member, pure, is_dir}
use stir_main.Host.Emits.{Emits, emits_rules}
use stir_main.Host.Upholds.{
  trace-check, Upholds, Upholds-bind, Upholds-if, Upholds-for_each, Upholds-of,
}
use stir_main.Update.{
  status_argv, branch_argv, pull_argv, dirty_of, refuse_dirty, refuse_branch, inspect, capture, run,
  pull, pull_if_dir, deploy_call, deploy_env, read_env, production_env, redeploy, guard_production,
  siblings, update,
}

abbrev pub status_call : Host → String → Proc
status_call h dir = at h.root (status_argv dir)

abbrev pub branch_call : Host → String → Proc
branch_call h dir = at h.root (branch_argv dir)

-- At `t` git says that no tracked file of the repository is changed, and that it is on main.
pub record IsPullable (h : Host) (dir : String) (t : Trace) : Type 0 where
  pub status_given : ((h.run t (status_call h dir)).returncode == 0) ≡ true
  pub clean : (dirty_of (strip (h.run t (status_call h dir)).stdout) =s= "") ≡ true
  pub branch_given :
      ((h.run (ran (status_call h dir) ∷ t) (branch_call h dir)).returncode == 0) ≡ true
  pub on_main :
      (strip (h.run (ran (status_call h dir) ∷ t) (branch_call h dir)).stdout =s= "main") ≡ true

-- All that an update does but pull.
pub data Other : Event → Type 0 where
  told : (s : String) → Other (printed s)
  saw : (path : String) → Other (looked path)
  opened : (path : String) → Other (read path)
  asked_status : (root dir : String) → Other (ran (at root (status_argv dir)))
  asked_branch : (root dir : String) → Other (ran (at root (branch_argv dir)))
  pinned : (root python : String) → Other (ran (at root (python ∷ "scripts/initialize.py" ∷ [])))
  deployed :
      (root python : String) (prod : Bool) (env : List (String × String))
      → Other (ran (deploy_call root python prod env))

ruleset other_rules = (emits_rules, told, saw, opened, asked_status, asked_branch, pinned, deployed)

-- From `t` to `u` every pull came right after git had said that the repository is clean and on main.
pub data Guarded (h : Host) (t : Trace) : Trace → Type 0 where
  start : Guarded h t t
  other : {u : Trace} {e : Event} → Other e → Guarded h t u → Guarded h t (e ∷ u)
  pulled :
      {u : Trace} (dir s : String)
      → IsPullable h dir u
      → Guarded h t u
      → Guarded h t (
          ran (at h.root (pull_argv dir))
          ∷ printed s
          ∷ ran (branch_call h dir)
          ∷ ran (status_call h dir)
          ∷ u)

abbrev inspected : Host → String → Trace → Trace
inspected h dir t = ran (branch_call h dir) ∷ ran (status_call h dir) ∷ t

abbrev banner : String → String
banner dir = "--- git pull: " <> after_last b'/' dir <> " ---"

module _ (h : Host) (t : Trace) (dir : String) where
  looked_on : (u : Trace) → Guarded h t u → Guarded h t (inspected h dir u)
  looked_on u g = other (asked_branch _ _) (other (asked_status _ _) g)

  pull-Upholds : Upholds h (Guarded h t) (pull dir)
  unfolding steps pull inspect capture refuse_dirty refuse_branch run
  pull-Upholds = record {
    keeps = λ u g. elim (Bool-cases ((h.run u (status_call h dir)).returncode == 0)) [
      | inr no_status ↦ rw no_status (other (asked_status _ _) g)
      | inl status_given ↦
          elim (Bool-cases (dirty_of (strip (h.run u (status_call h dir)).stdout) =s= "")) [
            | inr dirty ↦ rw (status_given, dirty) (other (asked_status _ _) g)
            | inl clean ↦
                elim (Bool-cases
                  ((h.run (ran (status_call h dir) ∷ u) (branch_call h dir)).returncode == 0)) [
                    | inr no_branch ↦ rw (status_given, clean, no_branch) (looked_on u g)
                    | inl branch_given ↦
                        elim (Bool-cases (
                          strip (h.run (ran (status_call h dir) ∷ u) (branch_call h dir)).stdout
                          =s= "main")) [
                            | inr elsewhere ↦
                                rw (status_given, clean, branch_given, elsewhere) (looked_on u g)
                            | inl on_main ↦
                                rw (status_given, clean, branch_given, on_main)
                                  (subst (Guarded h t)
                                    (sym (
                                      trace-check (at h.root (pull_argv dir)) h
                                        (printed (banner dir) ∷ inspected h dir u)))
                                    (pulled dir (banner dir)
                                      (record {
                                        status_given = status_given;
                                        clean = clean;
                                        branch_given = branch_given;
                                        on_main = on_main;
                                      })
                                      g))
                          ]
                  ]
          ]
    ];
  }

module _ (h : Host) (t : Trace) where
  others-Upholds : {A : Type 0} (m : Exec A) → Emits Other m → Upholds h (Guarded h t) m
  others-Upholds m em = Upholds-of Other m (λ e u q g. other q g) em

  pull_if_dir-Upholds : (dir : String) → Upholds h (Guarded h t) (pull_if_dir dir)
  unfolding pull_if_dir
  pull_if_dir-Upholds dir =
      Upholds-bind (is_dir dir) _ (others-Upholds (is_dir dir) (search other_rules)) (λ there.
        Upholds-if there (pull dir) (pure tt) (pull-Upholds h t dir)
          (others-Upholds (pure tt) (search other_rules)))

production_env-Emits : (a b : Option String) → Emits Other (production_env a b)
unfolding production_env
production_env-Emits none b = search other_rules
production_env-Emits (some a) none = search other_rules
production_env-Emits (some a) (some b) = search other_rules

read_env-Emits : (key : String) → Emits Other (read_env key)
unfolding read_env
read_env-Emits key = search other_rules depth 20

deploy_env-Emits : (prod : Bool) → Emits Other (deploy_env prod)
unfolding deploy_env
deploy_env-Emits false = search other_rules
deploy_env-Emits true = search (other_rules, read_env-Emits, production_env-Emits) depth 9

redeploy-Emits : (prod : Bool) → Emits Other (redeploy prod)
unfolding redeploy run
redeploy-Emits prod = search (other_rules, deploy_env-Emits) depth 30

guard-Emits : (prod : Bool) → Emits Other (guard_production prod)
unfolding guard_production
guard-Emits false = search other_rules
guard-Emits true = search other_rules depth 20

update-Upholds : (parent : String) (h : Host) (t : Trace) → Upholds h (Guarded h t) (update parent)
unfolding update
update-Upholds parent h t = Upholds-bind _ _ (others-Upholds h t _ (search other_rules)) (λ args.
    Upholds-bind _ _ (others-Upholds h t _ (guard-Emits (member "--prod" args))) (λ _.
      Upholds-bind _ _ (others-Upholds h t _ (search other_rules)) (λ root.
        Upholds-bind _ _ (pull-Upholds h t root) (λ _.
          Upholds-bind _ _
            (Upholds-for_each siblings _ (λ name. pull_if_dir-Upholds h t (parent / name)))
            (λ _. others-Upholds h t _ (redeploy-Emits (member "--prod" args)))))))

-- Whatever git answers, an update pulls a repository only right after git has said, successfully, that no
-- tracked file of it is changed and that it is on the branch main.
pub update-Guarded : (parent : String) (h : Host) (t : Trace) → Guarded h t (update parent h t).1
update-Guarded parent h t = (update-Upholds parent h t).keeps t start
