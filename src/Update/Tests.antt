-- ===== src/Update/Tests.antt =====
-- An update over a git that finds the repositories clean and on main, and a file that assigns twice.
use stir_main.Base.{String, ◌≡◌, refl, ◌↔◌, true, some, List, [], ◌∷◌, if◌then◌else◌}
use stir_main.Base.Text.{strip, cut, starts_with, splitlines, after_last}
use stir_main.Host.{Host, Trace, Proc, Completed}
use stir_main.Host.Exec.{steps, ok, member}
use stir_main.Host.Samples.{idle, done}
use stir_main.Update.{
  run, capture, inspect, pull, pull_if_dir, guard_production, redeploy, refuse_dirty, refuse_branch,
  tracked, join_lines, update, env_value, chosen, read_env, deploy_env, production_env,
}
use stir_main.Update.Env.{IsFirst, env_value_iff}
use stir_main.Update.Supplied.{IsDeployed, update-IsDeployed}
use stir_main.Update.Pulls.{Guarded, update-Guarded}

abbrev git : Trace → Proc → Completed
git t p = done (if member "branch" p.argv then "main\n" else "?? notes.txt\n")

abbrev clean : Host
clean = record idle { run = git; is_dir = λ t path. true }

update-Guarded_example : Guarded clean [] (update "/srv" clean []).1
update-Guarded_example = update-Guarded "/srv" clean []

abbrev env_lines : List String
env_lines =
    "# STIR_ADMIN_EMAIL=old@stir.test" ∷ " STIR_ADMIN_EMAIL = a@stir.test" ∷ "STIR_ADMIN_EMAIL=b"
    ∷ []

reads : env_value "STIR_ADMIN_EMAIL" env_lines ≡ some "a@stir.test"
unfolding env_value chosen strip cut starts_with
reads = refl

env_value_iff_example :
    (env_value "STIR_ADMIN_EMAIL" env_lines ≡ some "a@stir.test")
    ↔ IsFirst "STIR_ADMIN_EMAIL" "a@stir.test" env_lines
env_value_iff_example = env_value_iff "STIR_ADMIN_EMAIL" "a@stir.test" env_lines

abbrev configured : Host
configured = record idle {
  argv = "--prod" ∷ [];
  run = git;
  exists = λ t path. true;
  read_text =
      λ t path. some "STIR_PUBLIC_BASE_URL=https://stir.test\nSTIR_ADMIN_EMAIL=a@stir.test\n";
}

returns : (update "/srv" configured []).0 ≡ ok tt
unfolding steps update run capture inspect pull pull_if_dir guard_production redeploy refuse_dirty
    refuse_branch deploy_env read_env production_env env_value chosen strip cut starts_with
    splitlines tracked join_lines after_last member
returns = refl

update-IsDeployed_example : IsDeployed configured (update "/srv" configured []).1
unfolding member
update-IsDeployed_example = update-IsDeployed "/srv" configured [] refl returns
