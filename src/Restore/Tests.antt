-- ===== src/Restore/Tests.antt =====
-- A restore in production at which the operator answers as a runbook for development would, and one in
-- development with `--yes`.
use stir_main.Base.{◌≡◌, refl, ap, ◌∙◌, ne_of_test, inl, true, false, some, [], ◌∷◌, arith}
use stir_main.Base.Text.{strip, starts_with}
use stir_main.Host.{Host}
use stir_main.Host.Exec.{member}
use stir_main.Host.Course.{Course}
use stir_main.Host.Samples.{idle}
use stir_main.Restore.{confirm, restore, replace}
use stir_main.Restore.Consent.{
  IsCleared, IsRefused, in_production, files_seen, restore-IsRefused, restore-begins,
}
use stir_main.Restore.Order.{plan, password_at, replace-Course}

abbrev hasty : Host
hasty = record idle {
  argv = "scripts/restore.py" ∷ "backups/old" ∷ "--yes" ∷ [];
  exists = λ t path. true;
  answer = λ t prompt. some "yes";
}

not-IsCleared : ¬ IsCleared hasty []
unfolding strip
not-IsCleared c =
    let (answer, said, same) = c.confirmed in
    let typed_yes : "yes" ≡ answer = ground arith in
    ne_of_test "yes" "stir-prod" refl (ap strip typed_yes ∙ same)

restore-IsRefused_example : IsRefused [] (restore hasty [])
restore-IsRefused_example = restore-IsRefused hasty [] not-IsCleared

abbrev at_home : Host
at_home = record idle {
  argv = "scripts/restore.py" ∷ "backups/old" ∷ "--yes" ∷ [];
  exists = λ t path. starts_with path "/srv/stir-main/backups/";
}

cleared : IsCleared at_home []
unfolding starts_with member
cleared = record {
  dir = "/srv/stir-main/backups/old";
  named = refl;
  dump = refl;
  archive = refl;
  confirmed = inl refl;
}

restore-begins_example :
    restore at_home []
    ≡ replace
        (in_production at_home [])
        cleared.dir
        at_home
        (confirm
          (in_production at_home [])
          at_home.argv
          cleared.dir
          at_home
          (files_seen at_home cleared.dir [])).1
restore-begins_example = restore-begins at_home [] cleared

replace-Course_example :
    Course at_home
      (plan false "/backups/old" at_home (password_at false at_home []))
      []
      (replace false "/backups/old" at_home [])
replace-Course_example = replace-Course false "/backups/old" at_home []
