-- ===== src/Initialize/Tests.antt =====
-- A clone on the pinned commit, and a first initialization.
use stir_main.Base.{◌≡◌, refl, [], ◌∷◌, false, if◌then◌else◌}
use stir_main.Base.Text.{strip}
use stir_main.Host.{Host, Trace, Proc, Completed}
use stir_main.Host.Exec.{steps, ok, member}
use stir_main.Host.Samples.{idle, done}
use stir_main.Initialize.{Pin, clone_if_missing, output, require, heal, run, ensure, initialize}
use stir_main.Initialize.Pins.{IsPinned, ensure-IsPinned}
use stir_main.Initialize.Secrets.{Preserved, initialize-Preserved}

abbrev shell_pin : Pin
shell_pin = record { name = "shell"; url = "https://a.test/shell.git"; commit = "c0ffee" }

abbrev git_answers : Trace → Proc → Completed
git_answers t p = done (
    if member "rev-parse" p.argv
    then "c0ffee\n"
    else if member "get-url" p.argv
    then "https://a.test/shell.git\n"
    else "")

abbrev cloned : Host
cloned = record idle { run = git_answers }

ensures : (ensure shell_pin "vendor/shell" cloned []).0 ≡ ok tt
unfolding steps ensure clone_if_missing output require heal run strip member
ensures = refl

ensure-IsPinned_example :
    IsPinned shell_pin "vendor/shell" cloned [] (ensure shell_pin "vendor/shell" cloned []).1
ensure-IsPinned_example = ensure-IsPinned shell_pin "vendor/shell" cloned [] ensures

initialize-Preserved_example :
    Preserved cloned [] (initialize (λ lock. shell_pin ∷ []) false (λ t. "token") cloned []).1
initialize-Preserved_example =
    initialize-Preserved (λ lock. shell_pin ∷ []) false (λ t. "token") cloned []
