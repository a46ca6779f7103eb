-- ===== src/Restore.antt =====
-- scripts/restore.py: put a backup in the place of the data. Paths are taken as they are written
-- (`Path` would also drop a trailing slash).
pub mod Consent
pub mod Order
mod Tests
use stir_main.Base.{
  String, ◌<>◌, ◌=s=◌, Bool, true, false, ◌&&◌, not, Option, none, some, List, [], ◌∷◌,
  if◌then◌else◌,
}
use stir_main.Base.Text.{strip, starts_with}
use stir_main.Host.{Proc, Event, printed, from_file, ◌/◌}
use stir_main.Host.Exec.{
  Exec, pure, raise, asks, emit, check, at, exists, read_text, input, member, ◌>>=◌, ◌>>◌,
  system_exit,
}

abbrev pub compose : Bool → List String → List String
compose production rest =
    "docker"
    ∷ "compose"
    ∷ (if production then "-f" ∷ "compose.yml" ∷ "-f" ∷ "compose.production.yml" ∷ rest else rest)

abbrev pub volume_prefix : Bool → String
volume_prefix production = if production then "stir-prod" else "stir-dev"

run : List String → Exec Unit
run argv = do root ← asks (λ h. h.root); _ ← check (at root argv); pure tt

abbrev pub dump_of : String → String
dump_of backup_dir = backup_dir / "postgres.sql"

abbrev pub archive_of : String → String
archive_of backup_dir = backup_dir / "minio_data.tar.gz"

abbrev pub production_prompt : String → String
production_prompt backup_dir =
    "This REPLACES ALL LIVE PRODUCTION DATA with the backup at " <> backup_dir
    <> ".\nType the compose project name (stir-prod) to continue: "

abbrev pub prompt : String → String
prompt backup_dir =
    "This REPLACES all current data with the backup at " <> backup_dir
    <> ". Type \"yes\" to continue: "

abbrev pub warning : Event
warning = printed "*** THIS IS THE PRODUCTION DEPLOYMENT (.local/production marker present). ***"

ask_for : String → String → Exec Unit
ask_for question word = do
  answer ← input question
  if strip answer =s= word then pure tt else raise (system_exit "Aborted.")

pub confirm : Bool → List String → String → Exec Unit
unfolding ask_for
confirm production args backup_dir =
    if production
    then (do emit warning; ask_for (production_prompt backup_dir) "stir-prod")
    else if member "--yes" args
    then pure tt
    else ask_for (prompt backup_dir) "yes"

-- `dump.exists() and archive.exists()`: the second is looked at only if the first is there.
has_both : String → Exec Bool
has_both backup_dir = do
  dump ← exists (dump_of backup_dir)
  if dump then exists (archive_of backup_dir) else pure false

abbrev pub stop_argv : Bool → List String
stop_argv production = compose production (
    "stop" ∷ "stir" ∷ "ostris" ∷ "ledger" ∷ "shell" ∷ "stir-ui" ∷ "ostris-ui" ∷ "ledger-ui"
    ∷ "proxy" ∷ [])

abbrev pub psql : Bool → String → List String → List String
psql production password rest = compose production (
    "exec"
    ∷ "-T"
    ∷ "-e"
    ∷ ("PGPASSWORD=" <> password)
    ∷ "postgres"
    ∷ "psql"
    ∷ "-U"
    ∷ "postgres"
    ∷ "-d"
    ∷ "idax"
    ∷ rest)

abbrev pub drop_argv : Bool → String → List String
drop_argv production password =
    psql production password (
      "-c" ∷ "drop schema if exists idax_core, idax_shell, stir, ostris, idax_ledger cascade;" ∷ [])

abbrev pub load_call : String → Bool → String → String → Proc
load_call root production password backup_dir = record {
  argv = psql production password [];
  cwd = root;
  input = from_file (dump_of backup_dir);
  stdout = none;
  env = [];
}

abbrev pub storage_argv : Bool → String → List String
storage_argv production backup_dir =
    "docker"
    ∷ "run"
    ∷ "--rm"
    ∷ "-v"
    ∷ (volume_prefix production <> "_minio_data:/data")
    ∷ "-v"
    ∷ (backup_dir <> ":/backup")
    ∷ "alpine"
    ∷ "sh"
    ∷ "-c"
    ∷ "rm -rf /data/* /data/..?* /data/.[!.]* 2>/dev/null; tar xzf /backup/minio_data.tar.gz -C /data"
    ∷ []

-- All that follows the confirmation, and its part after the dump is loaded.
reload : Bool → String → Exec Unit
unfolding run
reload production backup_dir = do
  emit (printed "PostgreSQL restored.")
  run (storage_argv production backup_dir)
  emit (printed "Object storage restored.")
  run (compose production ("up" ∷ "-d" ∷ []))
  run (compose production ("restart" ∷ "minio" ∷ []))
  emit (printed "Restarted. Wait for health checks, then verify.")

pub replace : Bool → String → Exec Unit
unfolding run reload
replace production backup_dir = do
  run (stop_argv production)
  root ← asks (λ h. h.root)
  secret ← read_text (root / ".local/secrets/postgres_password")
  run (drop_argv production (strip secret))
  _ ← check (load_call root production (strip secret) backup_dir)
  reload production backup_dir

-- The second word of the command line, which is the directory; the first is the script.
abbrev pub directory : String → List String → Option String
directory root (_ ∷ dir ∷ _) = some (if starts_with dir "/" then dir else root / dir)
directory root _ = none

restore_from : Bool → List String → Option String → Exec Unit
unfolding has_both
restore_from production args none =
    raise (system_exit "Usage: python scripts/restore.py <backup-directory> [--yes]")
restore_from production args (some backup_dir) = do
  both ← has_both backup_dir
  if both
      then (do confirm production args backup_dir; replace production backup_dir)
      else raise (system_exit (backup_dir <> " is missing postgres.sql or minio_data.tar.gz"))

pub restore : Exec Unit
unfolding restore_from
restore = do
  root ← asks (λ h. h.root)
  production ← exists (root / ".local/production")
  args ← asks (λ h. h.argv)
  restore_from production args (directory root args)
