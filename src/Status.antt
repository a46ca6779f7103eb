-- ===== src/Status.antt =====
-- scripts/status.py: what the operator is told of the stack. The line on the disk, which the script
-- computes in floating point, is a parameter.
pub mod Flags
pub mod ReadOnly
mod Tests
use stir_main.Base.{
  ℕ, zero, suc, String, ◌<>◌, ◌=s=◌, ◌==◌, Bool, true, false, ◌&&◌, ◌||◌, not, Option, none, some,
  List, [], ◌∷◌, if◌then◌else◌,
}
use stir_main.Base.Text.{strip, splitlines, cut, contains, pad}
use stir_main.Deploy.{rows_of}
use stir_main.Backup.{compose, sorted}
use stir_main.Host.{Proc, Completed, printed, ◌/◌}
use stir_main.Host.Exec.{
  Exec, pure, raise, asks, emit, call, at, exists, read_text, list_dirs, for_each, ◌>>=◌, ◌>>◌,
  value_error,
}

unfoldable pub is_fine : String → Bool
is_fine status =
    contains status "healthy"
    || (contains status "Up"
        && (not (contains status "starting") && not (contains status "unhealthy")))

abbrev pub flag : String → String
flag status = if is_fine status then "OK " else "!! "

-- A row without a tab cannot be unpacked.
show_parts : Option (String × String) → Exec Unit
show_parts none = raise value_error
show_parts (some (name, status)) = emit (printed (flag status <> pad 28 name <> " " <> status))

show_row : String → Exec Unit
unfolding show_parts
show_row row = show_parts (cut 9 row)

tell_if_none : List String → Exec Unit
tell_if_none [] = emit (printed "No containers are running for this compose project.")
tell_if_none (row ∷ rows) = pure tt

run : List String → Exec Completed
run argv = do root ← asks (λ h. h.root); call (at root argv)

show_rows : List String → Exec Unit
unfolding show_row tell_if_none
show_rows rows = do tell_if_none rows; for_each rows show_row

show_containers : String → Exec Unit
unfolding show_rows
show_containers listing = show_rows (rows_of (splitlines (strip listing)))

show_docker_disk : Exec Unit
unfolding run
show_docker_disk = do
  df ← run ("docker" ∷ "system" ∷ "df" ∷ [])
  if df.returncode == 0
      then (do
        emit (printed "Docker disk usage:")
        for_each (splitlines (strip df.stdout)) (λ line. emit (printed ("  " <> line))))
      else pure tt

abbrev pub pg_argv : Bool → String → List String
pg_argv production password = compose production (
    "exec"
    ∷ "-T"
    ∷ "-e"
    ∷ ("PGPASSWORD=" <> password)
    ∷ "postgres"
    ∷ "pg_isready"
    ∷ "-U"
    ∷ "postgres"
    ∷ "-d"
    ∷ "idax"
    ∷ [])

show_postgres : Bool → String → Exec Unit
unfolding run
show_postgres production password =
    if password =s= ""
    then emit (printed "PostgreSQL: skipped (no .local/secrets/postgres_password on this host)")
    else do
      pg ← run (pg_argv production password)
      emit (
          printed (
            "PostgreSQL: "
            <> (if pg.returncode == 0
                then "OK reachable and accepting connections"
                else "NOT reachable: " <> strip pg.stdout <> strip pg.stderr)))

-- The password, blank if there is none.
password_if_any : Exec String
password_if_any = do
  root ← asks (λ h. h.root)
  there ← exists (root / ".local/secrets/postgres_password")
  if there
      then (do secret ← read_text (root / ".local/secrets/postgres_password"); pure (strip secret))
      else pure ""

abbrev pub storage_argv : Bool → List String
storage_argv production =
    compose production
      ("exec" ∷ "-T" ∷ "minio" ∷ "curl" ∷ "-fsS" ∷ "http://localhost:9000/minio/health/live" ∷ [])

show_storage : Bool → Exec Unit
unfolding run
show_storage production = do
  storage ← run (storage_argv production)
  emit (
      printed (
        "Object storage: "
        <> (if storage.returncode == 0 then "OK reachable" else "NOT reachable")))

unfoldable last_or : String → List String → String
last_or none_yet [] = none_yet
last_or none_yet (x ∷ xs) = last_or x xs

unfoldable count : List String → ℕ
count [] = zero
count (x ∷ xs) = suc (count xs)

module _ (disk_line : String) (decimal : ℕ → String) where
  show_backups : Exec Unit
  unfolding last_or count
  show_backups = do
    root ← asks (λ h. h.root)
    there ← exists (root / ".local/backups")
    if there
        then (do
          names ← list_dirs (root / ".local/backups")
          emit (printed "")
          emit (
              printed (
                "Backups: "
                <> decimal (count names)
                <> " retained, most recent: "
                <> last_or "none" (sorted names))))
        else (do
          emit (printed "")
          emit (printed "Backups: none taken yet (.local/backups does not exist)"))

  show_rest : Bool → String → Exec Unit
  unfolding show_containers show_docker_disk password_if_any show_postgres show_storage show_backups
  show_rest production listing = do
    show_containers listing
    emit (printed "")
    emit (printed "Disk (host filesystem):")
    emit (printed disk_line)
    show_docker_disk
    emit (printed "")
    password ← password_if_any
    show_postgres production password
    show_storage production
    show_backups

  pub status : Exec Unit
  unfolding run show_rest
  status = do
    root ← asks (λ h. h.root)
    production ← exists (root / ".local/production")
    emit (
        printed (
          "STIR status - "
          <> (if production then "PRODUCTION" else "development")
          <> " compose project"))
    emit (printed "============================================================")
    ps ← run (compose production ("ps" ∷ "--format" ∷ "{{.Name}}\t{{.Status}}" ∷ []))
    if ps.returncode == 0
        then show_rest production ps.stdout
        else emit
            (printed ("Could not reach the Docker daemon or compose project: " <> strip ps.stderr))
