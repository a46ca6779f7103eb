-- ===== src/Deploy.antt =====
-- scripts/deploy.py: build, recreate, wait for health, smoke check, and roll back if either fails.
-- `prod` says that `--prod` was given.
pub mod Health
pub mod Effects
pub mod Rollback
pub mod Raising
pub mod Run
mod Tests
use stir_main.Base.{
  ℕ, zero, suc, ◌+◌, ◌*◌, ltb, String, ◌<>◌, ◌=s=◌, ◌==◌, Bool, true, false, ◌&&◌, not, Option,
  none, some, List, [], ◌∷◌, ◌++◌, if◌then◌else◌,
}
use stir_main.Base.Text.{strip, splitlines, cut, contains}
use stir_main.Host.{Proc, Completed, Event, printed, slept, ◌/◌}
use stir_main.Host.Exec.{
  Exec, pure, raise, asks, emit, call, check, at, exists, time, for_each, member, ◌>>=◌, ◌>>◌,
  system_exit, value_error, out_of_rounds,
}

-- `COMPOSE`, the beginning of every compose command.
abbrev pub compose : Bool → List String → List String
compose prod rest =
    "docker"
    ∷ "compose"
    ∷ (if prod then "-f" ∷ "compose.yml" ∷ "-f" ∷ "compose.production.yml" ∷ rest else rest)

abbrev pub built_services : List String
built_services = "shell" ∷ "stir" ∷ "stir-ui" ∷ "ostris" ∷ "ostris-ui" ∷ "ledger" ∷ "ledger-ui" ∷ []

-- `run(…, check=False)` and `run(…)` at the root.
run_unchecked : List String → Exec Unit
run_unchecked argv = do root ← asks (λ h. h.root); _ ← call (at root argv); pure tt

run : List String → Exec Unit
run argv = do root ← asks (λ h. h.root); _ ← check (at root argv); pure tt

capture : List String → Exec String
capture argv = do root ← asks (λ h. h.root); done ← call (at root argv); pure (strip done.stdout)

-- The check that `--prod` makes when the script starts.
pub guard_production : Bool → Exec Unit
guard_production false = pure tt
guard_production true = do
  root ← asks (λ h. h.root)
  marked ← exists (root / ".local/production")
  if marked
      then pure tt
      else raise (
          system_exit
            "--prod was passed but .local/production does not exist on this host - refusing.")

abbrev pub previous_tag : String → String
previous_tag service = "stir-rollback/" <> service <> ":previous"

abbrev pub well : String → Bool
well status =
    not (contains status "starting")
    && (not (contains status "unhealthy") && not (contains status "Exit"))

-- `all(…)` over the rows: it stops at the first that fails; a row without a tab cannot be unpacked.
pub all_well : List String → Exec Bool
all_well [] = pure true
all_well (line ∷ rows) = elim (cut 9 line) [
  | none ↦ raise value_error
  | some (name, status) ↦ if well status then all_well rows else pure false
]

unfoldable pub rows_of : List String → List String
rows_of [] = []
rows_of (line ∷ lines) = let rest = rows_of lines in if strip line =s= "" then rest else line ∷ rest

pub judge_rows : List String → Exec Bool
judge_rows [] = pure false
judge_rows (row ∷ rows) = all_well (row ∷ rows)

abbrev pub smoke_call : String → List String
smoke_call python = python ∷ "scripts/smoke.py" ∷ []

-- One round of the loop, in front of the tags of the later services.
tag_one : String → String → Exec (List (String × String))
tag_one service image_id = if image_id =s= "" then pure [] else do
  run_unchecked ("docker" ∷ "tag" ∷ image_id ∷ previous_tag service ∷ [])
  pure ((service, previous_tag service) ∷ [])

module _ (prod : Bool) where
  pub image_name : String → Exec String
  unfolding capture
  image_name service = capture (compose prod ("images" ∷ "-q" ∷ service ∷ []))

  tag_each : List String → Exec (List (String × String))
  tag_each [] = pure []
  tag_each (service ∷ services) = do
    image_id ← image_name service
    tagged ← tag_one service image_id
    rest ← tag_each services
    pure (tagged ++ rest)

  pub tag_current_as_previous : Exec (List (String × String))
  unfolding tag_each
  tag_current_as_previous = tag_each built_services

  pub healthy : Exec Bool
  unfolding capture
  healthy = do
    ps ← capture (compose prod ("ps" ∷ "--format" ∷ "{{.Name}}\t{{.Status}}" ∷ []))
    judge_rows (rows_of (splitlines ps))

  -- The loop of `wait_healthy`, with the rounds that it is given.
  pub wait_until : ℕ → ℕ → Exec Bool
  wait_until zero deadline = raise out_of_rounds
  wait_until (suc rounds) deadline = do
    now ← time
    if ltb now deadline
        then (do
          well_now ← healthy
          if well_now then pure true else (do emit (slept 5); wait_until rounds deadline))
        else pure false

  -- The default timeout is 300 seconds, and a round sleeps for 5: 61 rounds see the deadline pass.
  pub wait_healthy : Exec Bool
  unfolding wait_until
  wait_healthy = do
    start ← time
    second ← asks (λ h. h.second)
    wait_until 61 (start + 300 * second)

  abbrev pub image_of : String → String
  image_of service = if prod then "stir-prod-" <> service else "stir-main-" <> service

  pub retag : String × String → Exec Unit
  retag (service, tag) = run_unchecked ("docker" ∷ "tag" ∷ tag ∷ image_of service ∷ [])

  pub rollback : List (String × String) → Exec Unit
  rollback previous_tags = do
    emit (printed "!!! Deploy unhealthy - rolling back to the previous images.")
    for_each previous_tags retag
    run (compose prod ("up" ∷ "-d" ∷ "--no-build" ∷ []))
    well_again ← wait_healthy
    emit (
        printed (
          if well_again
          then "Rollback complete - previous version is healthy again."
          else "Rollback did not reach healthy either - manual intervention required. See `python scripts/status.py`."))

  pub smoke_and_finish : List (String × String) → Exec Unit
  smoke_and_finish previous_tags = do
    emit (printed "Healthy. Running a non-destructive smoke check...")
    root ← asks (λ h. h.root)
    python ← asks (λ h. h.executable)
    smoke ← call (at root (smoke_call python))
    if smoke.returncode == 0
        then emit (printed "Deploy PASSED: services healthy, smoke check green.")
        else do
          rollback previous_tags
          raise (
              system_exit
                "Deploy FAILED: post-deploy smoke check failed. Rolled back where possible.")

  -- What `main` does after the tags, up to `up -d`, and from the wait on.
  pub recreate : Exec Unit
  recreate = do
    emit (printed "Building...")
    run (compose prod ("build" ∷ []))
    emit (
        printed
          "Recreating services (migrations run automatically as part of the dependency chain)...")
    run (compose prod ("up" ∷ "-d" ∷ []))

  pub finish : List (String × String) → Exec Unit
  finish previous_tags = do
    emit (printed "Waiting for health...")
    well_now ← wait_healthy
    if well_now then smoke_and_finish previous_tags else do
      rollback previous_tags
      raise
          (system_exit "Deploy FAILED: services did not reach healthy. Rolled back where possible.")

  abbrev pub greeting : Event
  greeting = printed ("Deploying to " <> (if prod then "PRODUCTION" else "development") <> "...")

  pub main : Exec Unit
  main = do emit greeting; previous_tags ← tag_current_as_previous; recreate; finish previous_tags

-- The script, from its command line on.
pub deploy : Exec Unit
deploy = do
  args ← asks (λ h. h.argv)
  guard_production (member "--prod" args)
  main (member "--prod" args)
