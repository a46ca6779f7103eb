-- ===== src/Status/ReadOnly.antt =====
-- `status.py` changes nothing.
use stir_main.Base.{ℕ, String, Bool, Option, none, some, List, [], ◌∷◌}
use stir_main.Base.Text.{cut}
use stir_main.Host.{Host, Trace, Event, printed, looked, listed, read, ran}
use stir_main.Host.Exec.{at}
use stir_main.Host.Emits.{Grown, Emits, emits_rules}
use stir_main.Backup.{compose}
use stir_main.Status.{
  show_parts, tell_if_none, show_rows, pg_argv, storage_argv, show_row, run, show_containers,
  show_docker_disk, password_if_any, show_postgres, show_storage, show_backups, show_rest, status,
}

-- What the summary does: it prints, reads, and runs the four programs that ask how the stack is.
pub data Reads : Event → Type 0 where
  told : (s : String) → Reads (printed s)
  saw : (s : String) → Reads (looked s)
  opened : (s : String) → Reads (read s)
  names : (s : String) → Reads (listed s)
  containers :
      (root : String) (production : Bool)
      → Reads
          (ran (at root (compose production ("ps" ∷ "--format" ∷ "{{.Name}}\t{{.Status}}" ∷ []))))
  usage : (root : String) → Reads (ran (at root ("docker" ∷ "system" ∷ "df" ∷ [])))
  database :
      (root : String) (production : Bool) (password : String)
      → Reads (ran (at root (pg_argv production password)))
  storage : (root : String) (production : Bool) → Reads (ran (at root (storage_argv production)))

ruleset reads_rules = (emits_rules, told, saw, opened, names, containers, usage, database, storage)

show_parts-Emits : (parts : Option (String × String)) → Emits Reads (show_parts parts)
unfolding show_parts
show_parts-Emits none = search reads_rules
show_parts-Emits (some (name, status)) = search reads_rules

show_row-Emits : (row : String) → Emits Reads (show_row row)
unfolding show_row
show_row-Emits row = show_parts-Emits (cut 9 row)

tell_if_none-Emits : (rows : List String) → Emits Reads (tell_if_none rows)
unfolding tell_if_none
tell_if_none-Emits [] = search reads_rules
tell_if_none-Emits (row ∷ rows) = search reads_rules

show_containers-Emits : (listing : String) → Emits Reads (show_containers listing)
unfolding show_containers show_rows
show_containers-Emits listing = search (reads_rules, show_row-Emits, tell_if_none-Emits) depth 9

show_docker_disk-Emits : Emits Reads show_docker_disk
unfolding show_docker_disk run
show_docker_disk-Emits = search reads_rules depth 20

password-Emits : Emits Reads password_if_any
unfolding password_if_any
password-Emits = search reads_rules depth 20

show_postgres-Emits :
    (production : Bool) (password : String) → Emits Reads (show_postgres production password)
unfolding show_postgres run
show_postgres-Emits production password = search reads_rules depth 20

show_storage-Emits : (production : Bool) → Emits Reads (show_storage production)
unfolding show_storage run
show_storage-Emits production = search reads_rules depth 20

module _ (disk_line : String) (decimal : ℕ → String) where
  show_backups-Emits : Emits Reads (show_backups disk_line decimal)
  unfolding show_backups
  show_backups-Emits = search reads_rules depth 20

  show_rest-Emits :
      (production : Bool) (listing : String)
      → Emits Reads (show_rest disk_line decimal production listing)
  unfolding show_rest
  show_rest-Emits production listing =
      search
        (
          reads_rules, show_containers-Emits, show_docker_disk-Emits, password-Emits,
          show_postgres-Emits, show_storage-Emits, show_backups-Emits,
        )
        depth 30

  status-Emits : Emits Reads (status disk_line decimal)
  unfolding status run
  status-Emits = search (reads_rules, show_rest-Emits) depth 30

  -- The summary changes nothing: it prints, looks at files, and runs no programs but those that list the
  -- containers, ask docker for its disk usage, and ask whether the database and the storage answer.
  pub status-Reads : (h : Host) (t : Trace) → Grown Reads t (status disk_line decimal h t).1
  status-Reads = status-Emits.grown
