-- ===== src/Backup/Order.antt =====
-- `write_backup` and `backup`: the two programs of a backup, and that the pruning comes last.
use stir_main.Base.{String, ◌≡◌, refl, true, Option, none, some, List, [], ◌∷◌}
use stir_main.Base.Text.{strip}
use stir_main.Host.{Host, Trace, Proc, Event, made_dir, looked, read, ran, printed, wrote, ◌/◌}
use stir_main.Host.Exec.{at, asks, emit, exists, query, ◌>>=◌}
use stir_main.Host.Course.{Course, finished, noted, Course-check, Course-read, is_note}
use stir_main.Host.Emits.{Emits, emits_rules}
use stir_main.Backup.{dump_call, archive_argv, out_of, write_backup}

abbrev stripped : Option String → String
stripped none = ""
stripped (some text) = strip text

abbrev pub plan : String → Host → Trace → List Proc
plan stamp h t =
    let production = h.exists t (h.root / ".local/production") in
    let u = made_dir (out_of h.root stamp) ∷ looked (h.root / ".local/production") ∷ t in
    let password = stripped (h.read_text u (h.root / ".local/secrets/postgres_password")) in
    dump_call h.root production password (out_of h.root stamp)
    ∷ at h.root (archive_argv production (out_of h.root stamp))
    ∷ []

-- A backup dumps the database with the password that it has read, and then, if that succeeded, archives
-- the object storage; it returns only if both have succeeded.
write-Course :
    (stamp : String) (h : Host) (t : Trace) → Course h (plan stamp h t) t (write_backup stamp h t)
unfolding ◌>>=◌ asks emit exists query write_backup
write-Course stamp h t = noted refl (
    noted refl (
      Course-read _ _ _ (λ secret found. rw found (
        noted refl (
          Course-check _ _ _
            (λ _. noted refl (Course-check _ _ _ (λ _. noted refl (noted refl finished)))))))))

-- Events that remove nothing.
pub data Keeps : Event → Type 0 where
  note : (e : Event) → is_note e ≡ true → Keeps e
  program : (p : Proc) → Keeps (ran p)

told : (s : String) → Keeps (printed s)
told s = note _ refl

made : (s : String) → Keeps (made_dir s)
made s = note _ refl

saw : (s : String) → Keeps (looked s)
saw s = note _ refl

opened : (s : String) → Keeps (read s)
opened s = note _ refl

emptied : (s text : String) → Keeps (wrote s text)
emptied s text = note _ refl

ruleset keeps_rules = (emits_rules, program, told, made, saw, opened, emptied)
