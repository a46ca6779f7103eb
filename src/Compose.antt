-- ===== src/Compose.antt =====
-- scripts/multitenant.py: the guards in front of every SQL statement of the fixture helpers. They
-- require an explicit compose project that is not the live `stir-dev`, and check the label of the
-- container that the statement would reach.
pub mod Guards
pub mod Routing
pub mod Sending
mod Tests
use stir_main.Base.{
  ℕ, String, ◌<>◌, ◌=s=◌, ◌==◌, Bool, true, false, ◌||◌, not, Option, none, some, List, [], ◌∷◌,
  ◌++◌, if◌then◌else◌,
}
use stir_main.Base.Text.{strip, contains, first}
use stir_main.Host.{Proc, Completed, Event, typed, inherited, exported, ran, ◌/◌}
use stir_main.Host.Exec.{
  Exec, pure, raise, asks, emit, call, at, getenv, read_text, unless, ◌>>=◌, ◌>>◌, safety_error,
  assertion_error, project_not_set, project_is_stir_dev, not_one_container, label_differs,
  label_is_stir_dev, exported_in,
}

abbrev pub stir_dev : String
stir_dev = "stir-dev"

-- `os.environ.get(…, '')`.
abbrev or_blank : Option String → String
or_blank none = ""
or_blank (some v) = v

-- Routes this process, and what it starts, to the project.
accept_project : String → Exec String
accept_project project =
    if project =s= ""
    then raise (safety_error project_not_set)
    else if project =s= stir_dev
    then raise (safety_error project_is_stir_dev)
    else do emit (exported "COMPOSE_PROJECT_NAME" project); pure project

pub compose_project : Exec String
unfolding accept_project exported_in
compose_project = do found ← getenv "STIR_COMPOSE_PROJECT"; accept_project (strip (or_blank found))

abbrev pub ps_call : String → String → String → Proc
ps_call root project service =
    at root ("docker" ∷ "compose" ∷ "-p" ∷ project ∷ "ps" ∷ "-q" ∷ service ∷ [])

abbrev pub inspect_call : String → Proc
inspect_call container = at "" (
    "docker" ∷ "inspect" ∷ container ∷ "--format"
    ∷ "{{index .Config.Labels \"com.docker.compose.project\"}}" ∷ [])

-- The label that the container carries, against the project that was asked for.
check_label : String → String → String → Exec String
check_label project container label =
    if not (label =s= project)
    then raise (safety_error (label_differs project label))
    else if label =s= stir_dev
    then raise (safety_error (label_is_stir_dev container))
    else pure container

-- One line of `ps -q`, or a refusal.
inspect_one : String → String → String → Exec String
inspect_one project service container =
    if container =s= "" || contains container "\n"
    then raise (safety_error (not_one_container project service))
    else do
      inspected ← call (inspect_call container)
      check_label project container (strip inspected.stdout)

pub verify_isolated_container : String → String → Exec String
unfolding inspect_one check_label
verify_isolated_container project service = do
  root ← asks (λ h. h.root)
  ps ← call (ps_call root project service)
  inspect_one project service (strip ps.stdout)

-- The password that the runtime login takes from the secrets.
pub runtime_args : String → Bool → Exec (List String)
runtime_args root false = pure []
runtime_args root true = do
  password ← read_text (root / ".local/secrets/runtime_password")
  pure ("-e" ∷ ("PGPASSWORD=" <> strip password) ∷ [])

abbrev pub psql_call : String → String → List String → Bool → String → Proc
psql_call root project extra runtime statement = record {
  argv =
      "docker"
      ∷ "compose"
      ∷ "-p"
      ∷ project
      ∷ "exec"
      ∷ "-T"
      ∷ (extra
          ++ ("postgres"
              ∷ "psql"
              ∷ "-X"
              ∷ "-At"
              ∷ "-v"
              ∷ "ON_ERROR_STOP=1"
              ∷ "-U"
              ∷ (if runtime then "idax_backend" else "postgres")
              ∷ "-d"
              ∷ "idax"
              ∷ (if runtime then "-h" ∷ "postgres" ∷ [] else [])));
  cwd = root;
  input = typed statement;
  stdout = none;
  env = [];
}

psql_result : Completed → Exec String
psql_result done =
    if done.returncode == 0
    then pure (strip done.stdout)
    else raise (assertion_error ("SQL fixture/proof failed: " <> first 400 done.stderr))

pub sql : String → Bool → Exec String
unfolding psql_result
sql statement runtime = do
  project ← compose_project
  _ ← verify_isolated_container project "postgres"
  root ← asks (λ h. h.root)
  extra ← runtime_args root runtime
  done ← call (psql_call root project extra runtime statement)
  psql_result done
