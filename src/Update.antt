-- ===== src/Update.antt =====
-- scripts/update.py: pull this repository and its siblings, pin the vendor sources again, and deploy.
pub mod Assignments
pub mod Env
pub mod Pulls
pub mod Supplied
mod Tests
use stir_main.Base.{
  String, ◌<>◌, ◌=s=◌, ◌==◌, Bool, true, false, ◌||◌, not, Option, none, some, List, [], ◌∷◌, ◌++◌,
  if◌then◌else◌,
}
use stir_main.Base.Text.{strip, splitlines, starts_with, cut, after_last}
use stir_main.Host.{Proc, printed, inherited, ◌/◌}
use stir_main.Host.Exec.{
  Exec, pure, raise, asks, emit, check, at, exists, is_dir, read_text, for_each, member, ◌>>=◌,
  ◌>>◌, system_exit,
}

abbrev pub siblings : List String
siblings = "stir-frontend" ∷ "stir-backend" ∷ "stir-doc" ∷ []

run : List String → Exec Unit
run argv = do root ← asks (λ h. h.root); _ ← check (at root argv); pure tt

capture : List String → Exec String
capture argv = do root ← asks (λ h. h.root); done ← check (at root argv); pure (strip done.stdout)

abbrev pub status_argv : String → List String
status_argv dir = "git" ∷ "-C" ∷ dir ∷ "status" ∷ "--porcelain" ∷ []

abbrev pub branch_argv : String → List String
branch_argv dir = "git" ∷ "-C" ∷ dir ∷ "branch" ∷ "--show-current" ∷ []

abbrev pub pull_argv : String → List String
pull_argv dir = "git" ∷ "-C" ∷ dir ∷ "pull" ∷ "--ff-only" ∷ "origin" ∷ "main" ∷ []

-- The lines of `git status` on tracked files, joined.
unfoldable pub tracked : List String → List String
tracked [] = []
tracked (line ∷ lines) =
    let rest = tracked lines in if starts_with line "??" then rest else line ∷ rest

unfoldable pub join_lines : List String → String
join_lines [] = ""
join_lines (line ∷ []) = line
join_lines (line ∷ next ∷ lines) = line <> "\n" <> join_lines (next ∷ lines)

abbrev pub dirty_of : String → String
dirty_of status = join_lines (tracked (splitlines status))

refuse_dirty : String → String → Exec Unit
refuse_dirty name dirty =
    if dirty =s= ""
    then pure tt
    else raise (
        system_exit (
          name <> " has uncommitted local changes - refusing to pull over them:\n" <> dirty
          <> "\nCommit, stash, or discard them yourself first (this script never does either)."))

refuse_branch : String → String → Exec Unit
refuse_branch name branch =
    if branch =s= "main"
    then pure tt
    else raise (
        system_exit (
          name <> " is on branch \"" <> branch
          <> "\", not \"main\" - refusing to guess. Check it out yourself first."))

-- The tests of `pull`, and `pull`.
inspect : String → String → Exec Unit
unfolding capture refuse_dirty refuse_branch
inspect name dir = do
  status ← capture (status_argv dir)
  refuse_dirty name (dirty_of status)
  branch ← capture (branch_argv dir)
  refuse_branch name branch

pub pull : String → Exec Unit
unfolding run inspect
pull dir = do
  inspect (after_last b'/' dir) dir
  emit (printed ("--- git pull: " <> after_last b'/' dir <> " ---"))
  run (pull_argv dir)

-- One line of `.env`: the key and the value of an assignment.
abbrev pub assignment : String → Option (String × String)
assignment line =
    if starts_with line "#"
    then none
    else elim (cut 61 line) [ none ↦ none | some (k, v) ↦ some (strip k, strip v) ]

-- What the assignment of one line means for the key, in front of what the later lines say.
unfoldable pub chosen : Option (String × String) → String → Option String → Option String
chosen none key rest = rest
chosen (some (k, v)) key rest = if k =s= key then some v else rest

unfoldable pub env_value : String → List String → Option String
unfolding chosen
env_value key [] = none
env_value key (line ∷ lines) = chosen (assignment (strip line)) key (env_value key lines)

pub read_env : String → Exec (Option String)
read_env key = do
  root ← asks (λ h. h.root)
  there ← exists (root / ".env")
  if there
      then (do text ← read_text (root / ".env"); pure (env_value key (splitlines text)))
      else pure none

pull_if_dir : String → Exec Unit
unfolding pull
pull_if_dir dir = do there ← is_dir dir; if there then pull dir else pure tt

abbrev pub deploy_call : String → String → Bool → List (String × String) → Proc
deploy_call root python prod env = record {
  argv = python ∷ "scripts/deploy.py" ∷ (if prod then "--prod" ∷ [] else []);
  cwd = root;
  input = inherited;
  stdout = none;
  env = env;
}

-- The two variables that a production deploy gets, if both are set and not blank.
production_env : Option String → Option String → Exec (List (String × String))
production_env (some base_url) (some admin_email) =
    if base_url =s= "" || admin_email =s= ""
    then raise (
        system_exit
          "--prod needs STIR_PUBLIC_BASE_URL and STIR_ADMIN_EMAIL set in .env for the post-deploy smoke check.")
    else pure (("STIR_TEST_URL", base_url) ∷ ("STIR_TEST_LOGIN_EMAIL", admin_email) ∷ [])
production_env _ _ = raise (
    system_exit
      "--prod needs STIR_PUBLIC_BASE_URL and STIR_ADMIN_EMAIL set in .env for the post-deploy smoke check.")

pub deploy_env : Bool → Exec (List (String × String))
unfolding read_env production_env
deploy_env false = pure []
deploy_env true = do
  base_url ← read_env "STIR_PUBLIC_BASE_URL"
  admin_email ← read_env "STIR_ADMIN_EMAIL"
  production_env base_url admin_email

-- What `main` does after the pulls.
redeploy : Bool → Exec Unit
unfolding run deploy_env
redeploy prod = do
  emit (printed "--- initialize.py: re-pinning public vendor sources ---")
  root ← asks (λ h. h.root)
  python ← asks (λ h. h.executable)
  run (python ∷ "scripts/initialize.py" ∷ [])
  emit (
      printed (
        "--- deploy.py"
        <> (if prod then " --prod" else "")
        <> ": build, recreate, health check, smoke check ---"))
  env ← deploy_env prod
  _ ← check (deploy_call root python prod env)
  emit (printed "Update complete.")

guard_production : Bool → Exec Unit
guard_production false = pure tt
guard_production true = do
  root ← asks (λ h. h.root)
  marked ← exists (root / ".local/production")
  if marked
      then pure tt
      else raise (
          system_exit
            "--prod was passed but .local/production does not exist on this host - refusing.")

-- `parent` is the directory that holds the repository, `ROOT.parent`.
module _ (parent : String) where
  pub update : Exec Unit
  unfolding guard_production pull pull_if_dir redeploy
  update = do
    args ← asks (λ h. h.argv)
    guard_production (member "--prod" args)
    root ← asks (λ h. h.root)
    pull root
    for_each siblings (λ name. pull_if_dir (parent / name))
    redeploy (member "--prod" args)
