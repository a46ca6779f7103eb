-- ===== src/Backup/Tests.antt =====
-- Three backups of which two are kept, and a backup on a machine without a password file.
use stir_main.Base.{false, String, ◌≡◌, refl, none, List, [], ◌∷◌}
use stir_main.Base.Int.{pos}
use stir_main.Base.Text.{text_leb}
use stir_main.Host.{Host}
use stir_main.Host.Exec.{steps, fail, os_error}
use stir_main.Host.Samples.{idle}
use stir_main.Backup.{insert, sorted, stale_of, prune, write_backup, backup}
use stir_main.Backup.Retention.{IsPruned, backups, prune-IsPruned}

abbrev three : List String
three = "20260103T031500Z" ∷ "20260101T031500Z" ∷ "20260102T031500Z" ∷ []

oldest_goes : stale_of (pos 2) (sorted three) ≡ "20260101T031500Z" ∷ []
unfolding sorted insert text_leb
oldest_goes = refl

abbrev stocked : Host
stocked = record idle { list_dirs = λ t dir. three }

prune-IsPruned_example :
    IsPruned (pos 2) (stocked.list_dirs [] (backups stocked)) stocked [] (prune (pos 2) stocked [])
prune-IsPruned_example = prune-IsPruned (pos 2) stocked []

abbrev bare : Host
bare = record stocked { read_text = λ t path. none }

fails : (backup (pos 2) "20260104T031500Z" bare []).0 ≡ fail os_error
unfolding steps backup write_backup
fails = refl

abbrev stuck_run : Host
stuck_run = record stocked { removes = λ t path. false }
