-- ===== src/Backup.antt =====
-- scripts/backup.py: dump the database, archive the object storage, and prune the old backups.
mod Sorting
pub mod Retention
pub mod Order
mod Tests
use stir_main.Base.{
  ℕ, zero, suc, ◌-◌, ltb, String, ◌<>◌, Bool, true, false, Option, none, some, List, [], ◌∷◌,
  length, take, if◌then◌else◌,
}
use stir_main.Base.Int.{ℤ, pos, negsuc}
use stir_main.Base.Text.{strip, text_leb}
use stir_main.Host.{Proc, printed, wrote, made_dir, removed, inherited, ◌/◌}
use stir_main.Host.Exec.{
  Exec, pure, asks, emit, check, at, exists, read_text, list_dirs, for_each, query, unless,
  os_error, ◌>>=◌, ◌>>◌,
}

abbrev pub compose : Bool → List String → List String
compose production rest =
    "docker"
    ∷ "compose"
    ∷ (if production then "-f" ∷ "compose.yml" ∷ "-f" ∷ "compose.production.yml" ∷ rest else rest)

-- `sorted(…)` of names, by code points.
unfoldable insert : String → List String → List String
insert x [] = x ∷ []
insert x (y ∷ ys) = let rest = insert x ys in if text_leb x y then x ∷ y ∷ ys else y ∷ rest

unfoldable pub sorted : List String → List String
unfolding insert
sorted [] = []
sorted (x ∷ xs) = insert x (sorted xs)

-- `runs[:-keep] if keep > 0 else []`.
abbrev pub stale_of : ℤ → List String → List String
stale_of (pos zero) runs = []
stale_of (pos (suc k)) runs = take (length runs - suc k) runs
stale_of (negsuc k) runs = []

-- `shutil.rmtree`, which may raise after it has removed a part of the directory.
remove_run : String → String → Exec Unit
remove_run dir name = do
  gone ← query (removed (dir / name)) (λ h t. h.removes t (dir / name))
  unless gone os_error
  emit (printed ("Pruned old backup: " <> (dir / name)))

pub prune : ℤ → Exec Unit
unfolding remove_run
prune keep = do
  root ← asks (λ h. h.root)
  names ← list_dirs (root / ".local/backups")
  for_each (stale_of keep (sorted names)) (remove_run (root / ".local/backups"))

abbrev pub volume_prefix : Bool → String
volume_prefix production = if production then "stir-prod" else "stir-dev"

abbrev pub dump_call : String → Bool → String → String → Proc
dump_call root production password out = record {
  argv = compose production (
      "exec"
      ∷ "-T"
      ∷ "-e"
      ∷ ("PGPASSWORD=" <> password)
      ∷ "postgres"
      ∷ "pg_dump"
      ∷ "-U"
      ∷ "postgres"
      ∷ "-d"
      ∷ "idax"
      ∷ []);
  cwd = root;
  input = inherited;
  stdout = some (out / "postgres.sql");
  env = [];
}

abbrev pub archive_argv : Bool → String → List String
archive_argv production out =
    "docker"
    ∷ "run"
    ∷ "--rm"
    ∷ "-v"
    ∷ (volume_prefix production <> "_minio_data:/data:ro")
    ∷ "-v"
    ∷ (out <> ":/backup")
    ∷ "alpine"
    ∷ "tar"
    ∷ "czf"
    ∷ "/backup/minio_data.tar.gz"
    ∷ "-C"
    ∷ "/data"
    ∷ "."
    ∷ []

-- `main` before the pruning, with the time stamp of the run. The dump file is opened, and so emptied,
-- before `pg_dump` runs.
abbrev pub out_of : String → String → String
out_of root stamp = root / ".local/backups" / stamp

pub write_backup : String → Exec Unit
write_backup stamp = do
  root ← asks (λ h. h.root)
  production ← exists (root / ".local/production")
  emit (made_dir (out_of root stamp))
  secret ← read_text (root / ".local/secrets/postgres_password")
  emit (wrote (out_of root stamp / "postgres.sql") "")
  _ ← check (dump_call root production (strip secret) (out_of root stamp))
  emit (printed ("PostgreSQL dump: " <> (out_of root stamp / "postgres.sql")))
  _ ← check (at root (archive_argv production (out_of root stamp)))
  emit (printed ("Object storage archive: " <> (out_of root stamp / "minio_data.tar.gz")))
  emit (printed ("Backup complete: " <> out_of root stamp))

-- `main`, with the value of `--keep`.
pub backup : ℤ → String → Exec Unit
backup keep stamp = do write_backup stamp; prune keep
