-- ===== src/Deploy/Effects.antt =====
-- What `deploy.py` may do: the commands that it runs are those below.
use stir_main.Base.{ℕ, zero, suc, ltb, String, Bool, true, false, List, [], ◌∷◌}
use stir_main.Host.{Host, Trace, Event, ran, printed, slept, timed, looked, ◌/◌}
use stir_main.Host.Exec.{pure, emit, at, time}
use stir_main.Host.Emits.{Grown, Grown-refl, Emits, Emits-bind, Emits-if, emits_rules}
use stir_main.Deploy.Health.{trace-judge_rows}
use stir_main.Deploy.{
  compose, run, run_unchecked, capture, tag_one, tag_each, tag_current_as_previous, image_name,
  retag, rollback, healthy, wait_healthy, wait_until, judge_rows, smoke_call, smoke_and_finish,
  main, recreate, finish, guard_production, deploy,
}

pub data Permitted : Event → Type 0 where
  told : (s : String) → Permitted (printed s)
  waited : (n : ℕ) → Permitted (slept n)
  clock : Permitted timed
  marker : (root : String) → Permitted (looked (root / ".local/production"))
  images :
      (root : String) (prod : Bool) (s : String)
      → Permitted (ran (at root (compose prod ("images" ∷ "-q" ∷ s ∷ []))))
  tagged : (root a b : String) → Permitted (ran (at root ("docker" ∷ "tag" ∷ a ∷ b ∷ [])))
  built : (root : String) (prod : Bool) → Permitted (ran (at root (compose prod ("build" ∷ []))))
  upped :
      (root : String) (prod : Bool) → Permitted (ran (at root (compose prod ("up" ∷ "-d" ∷ []))))
  restarted :
      (root : String) (prod : Bool)
      → Permitted (ran (at root (compose prod ("up" ∷ "-d" ∷ "--no-build" ∷ []))))
  listed :
      (root : String) (prod : Bool)
      → Permitted (ran (at root (compose prod ("ps" ∷ "--format" ∷ "{{.Name}}\t{{.Status}}" ∷ []))))
  smoked : (root python : String) → Permitted (ran (at root (smoke_call python)))

ruleset permitted_rules = (
  emits_rules, told, waited, clock, marker, images, tagged, built, upped, restarted, listed, smoked,
)

judge_rows-Emits : (rows : List String) → Emits Permitted (judge_rows rows)
judge_rows-Emits rows = record { grown = λ h t. rw (trace-judge_rows rows h t) (Grown-refl t) }

module _ (prod : Bool) where
  healthy-Emits : Emits Permitted (healthy prod)
  unfolding healthy
  healthy-Emits = search (permitted_rules, judge_rows-Emits)

  wait_until-Emits : (rounds deadline : ℕ) → Emits Permitted (wait_until prod rounds deadline)
  unfolding wait_until
  wait_until-Emits zero deadline = search permitted_rules
  wait_until-Emits (suc rounds) deadline = Emits-bind time _ (search permitted_rules) (λ now.
      Emits-if (ltb now deadline) _ (pure false)
        (Emits-bind (healthy prod) _ healthy-Emits (λ b.
          Emits-if b (pure true) _ (search permitted_rules) (
            Emits-bind (emit (slept 5)) _ (search permitted_rules)
              (λ _. wait_until-Emits rounds deadline))))
        (search permitted_rules))

  pub wait_healthy-Emits : Emits Permitted (wait_healthy prod)
  unfolding wait_healthy
  wait_healthy-Emits = search (permitted_rules, wait_until-Emits) depth 9

  tag_one-Emits : (service image_id : String) → Emits Permitted (tag_one service image_id)
  unfolding tag_one run_unchecked
  tag_one-Emits service image_id = search permitted_rules depth 9

  image_name-Emits : (service : String) → Emits Permitted (image_name prod service)
  unfolding image_name capture
  image_name-Emits service = search permitted_rules depth 9

  tag_each-Emits : (services : List String) → Emits Permitted (tag_each prod services)
  unfolding tag_each
  tag_each-Emits [] = search permitted_rules
  tag_each-Emits (service ∷ services) =
      Emits-bind (image_name prod service) _ (image_name-Emits service) (λ image_id.
        Emits-bind (tag_one service image_id) _ (tag_one-Emits service image_id) (λ tagged.
          Emits-bind (tag_each prod services) _ (tag_each-Emits services)
            (λ rest. search permitted_rules)))

  retag-Emits : (x : String × String) → Emits Permitted (retag prod x)
  unfolding retag run_unchecked
  retag-Emits (service, tag) = search permitted_rules depth 9

  pub rollback-Emits : (tags : List (String × String)) → Emits Permitted (rollback prod tags)
  unfolding rollback run
  rollback-Emits tags = search (permitted_rules, retag-Emits, wait_healthy-Emits) depth 14

  smoke_and_finish-Emits :
      (tags : List (String × String)) → Emits Permitted (smoke_and_finish prod tags)
  unfolding smoke_and_finish
  smoke_and_finish-Emits tags = search (permitted_rules, rollback-Emits) depth 14

  recreate-Emits : Emits Permitted (recreate prod)
  unfolding recreate run
  recreate-Emits = search permitted_rules depth 20

  finish-Emits : (tags : List (String × String)) → Emits Permitted (finish prod tags)
  unfolding finish
  finish-Emits tags =
      search (permitted_rules, wait_healthy-Emits, rollback-Emits, smoke_and_finish-Emits) depth 20

  main-Emits : Emits Permitted (main prod)
  unfolding main tag_current_as_previous
  main-Emits = search (permitted_rules, tag_each-Emits, recreate-Emits, finish-Emits) depth 20

guard_production-Emits : (prod : Bool) → Emits Permitted (guard_production prod)
unfolding guard_production
guard_production-Emits false = search permitted_rules
guard_production-Emits true = search permitted_rules depth 20

deploy-Emits : Emits Permitted deploy
unfolding deploy
deploy-Emits = search (permitted_rules, guard_production-Emits, main-Emits) depth 20

-- Whatever docker answers, a deploy does nothing but print, look for the production marker, look at
-- the clock, sleep, and list images, tag an image, build, start, list containers and smoke-test.
pub deploy-Permitted : (h : Host) (t : Trace) → Grown Permitted t (deploy h t).1
deploy-Permitted = deploy-Emits.grown
