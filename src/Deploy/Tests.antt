-- ===== src/Deploy/Tests.antt =====
-- Deploys over a docker whose containers are well, one whose smoke check fails and one whose build does.
use stir_main.Base.{◌+◌, ◌≤◌, String, ◌≡◌, refl, ◌≢◌, true, false, List, [], ◌∷◌, if◌then◌else◌}
use stir_main.Base.Text.{strip, splitlines, cut, contains}
use stir_main.Host.{Host, Trace, Proc, Completed}
use stir_main.Host.Exec.{
  steps, ok, fail, Failure, system_exit, called_process_error, out_of_rounds, member,
}
use stir_main.Host.Emits.{Grown, Any}
use stir_main.Host.Samples.{idle, ticks, idle-ClockRuns, done, failed}
use stir_main.Deploy.{
  compose, deploy, main, greeting, recreate, finish, smoke_and_finish, rollback, retag, run,
  run_unchecked, capture, image_name, tag_one, tag_each, tag_current_as_previous, healthy, rows_of,
  judge_rows, all_well, wait_until, wait_healthy,
}
use stir_main.Deploy.Effects.{Permitted, deploy-Permitted}
use stir_main.Deploy.Health.{pauses, wait_healthy_ends}
use stir_main.Deploy.Rollback.{restored, rollback_restores}
use stir_main.Deploy.Run.{IsPassed, Forward, saved, main-IsPassed, main_undoes, main_stops}

abbrev docker : String → Trace → Proc → Completed
docker broken t p =
    if member broken p.argv
    then failed
    else done (
        if member "-q" p.argv
        then "sha256:1\n"
        else if member "ps" p.argv
        then "stir-1\tUp 2 minutes (healthy)\n"
        else "")

abbrev sound : Host
sound = record idle { run = docker "nothing" }

abbrev smokeless : Host
smokeless = record idle { run = docker "scripts/smoke.py" }

abbrev unbuilt : Host
unbuilt = record idle { run = docker "build" }

unfoldable all_steps : Unit {0}
unfolding steps main recreate finish smoke_and_finish rollback retag run run_unchecked capture
    image_name tag_one tag_each tag_current_as_previous healthy rows_of judge_rows all_well
    wait_until wait_healthy member strip splitlines cut contains ticks
all_steps = tt

passes : (main false sound []).0 ≡ ok tt
unfolding all_steps
passes = refl

main-IsPassed_example : IsPassed false sound (main false sound []).1
main-IsPassed_example = main-IsPassed false sound [] passes

abbrev smoke_message : String
smoke_message = "Deploy FAILED: post-deploy smoke check failed. Rolled back where possible."

smoke_fails : (main false smokeless []).0 ≡ fail (system_exit smoke_message)
unfolding all_steps
smoke_fails = refl

main_undoes_example :
    (tags : List (String × String)) × (v : Trace) × ((tag_current_as_previous false smokeless
        (greeting false ∷ [])).0
      ≡ ok tags)
    × Grown Any (restored false smokeless tags v) (main false smokeless []).1
main_undoes_example = main_undoes false smokeless [] smoke_message smoke_fails

abbrev build_error : Failure
build_error = called_process_error (compose false ("build" ∷ []))

build_fails : (recreate false unbuilt (saved false unbuilt [])).0 ≡ fail build_error
unfolding all_steps
build_fails = refl

main_stops_example :
    ((main false unbuilt []).0 ≡ fail build_error)
    × Grown Forward (saved false unbuilt []) (main false unbuilt []).1
main_stops_example = main_stops false unbuilt [] build_error build_fails

wait_healthy_ends_example :
    ((wait_healthy false sound []).0 ≢ fail out_of_rounds)
    × (pauses (wait_healthy false sound []).1 ≤ pauses [] + 300)
wait_healthy_ends_example = wait_healthy_ends false sound (idle-ClockRuns sound refl refl) []

is_well : (wait_healthy false sound []).0 ≡ ok true
unfolding all_steps
is_well = refl

rollback_restores_example :
    Grown Any
      (restored true sound (("stir", "stir-rollback/stir:previous") ∷ []) [])
      (rollback true (("stir", "stir-rollback/stir:previous") ∷ []) sound []).1
rollback_restores_example =
    rollback_restores true (("stir", "stir-rollback/stir:previous") ∷ []) sound []

deploy-Permitted_example : Grown Permitted [] (deploy sound []).1
deploy-Permitted_example = deploy-Permitted sound []
