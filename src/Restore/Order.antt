-- ===== src/Restore/Order.antt =====
-- `replace`: the six programs of a restore, in their order.
use stir_main.Base.{
  String, refl, Bool, Option, none, some, List, [], ◌∷◌, Bool-cases, ◌==◌, inl, inr,
}
use stir_main.Base.Text.{strip}
use stir_main.Host.{Host, Trace, Proc, ran, ◌/◌}
use stir_main.Host.Exec.{steps, Exec, at, asks, ◌>>=◌, ◌>>◌}
use stir_main.Host.Course.{Course, finished, passed, broke, noted, Course-check, Course-read}
use stir_main.Restore.{compose, stop_argv, drop_argv, load_call, storage_argv, run, reload, replace}

-- The password of the database, as it is read once the services are stopped.
abbrev stripped : Option String → String
stripped none = ""
stripped (some text) = strip text

abbrev pub secret_path : Host → String
secret_path h = h.root / ".local/secrets/postgres_password"

abbrev pub password_at : Bool → Host → Trace → String
password_at production h t =
    stripped (h.read_text (ran (at h.root (stop_argv production)) ∷ t) (secret_path h))

abbrev pub plan : Bool → String → Host → String → List Proc
plan production dir h password =
    at h.root (stop_argv production)
    ∷ at h.root (drop_argv production password)
    ∷ load_call h.root production password dir
    ∷ at h.root (storage_argv production dir)
    ∷ at h.root (compose production ("up" ∷ "-d" ∷ []))
    ∷ at h.root (compose production ("restart" ∷ "minio" ∷ []))
    ∷ []

run-Course :
    (h : Host) (argv : List String) (ps : List Proc) (k : Exec Unit) (t : Trace)
    → Course h ps (ran (at h.root argv) ∷ t) (k h (ran (at h.root argv) ∷ t))
    → Course h (at h.root argv ∷ ps) t ((run argv >> k) h t)
unfolding steps run
run-Course h argv ps k t rest = elim (Bool-cases ((h.run t (at h.root argv)).returncode == 0)) [
  | inl good ↦ rw good (passed good rest)
  | inr bad ↦ rw bad (broke bad)
]

-- What follows once the dump is loaded, and once the password is read.
load-Course :
    (production : Bool) (dir : String) (h : Host) (t : Trace)
    → Course h
        (at h.root (storage_argv production dir)
          ∷ at h.root (compose production ("up" ∷ "-d" ∷ []))
          ∷ at h.root (compose production ("restart" ∷ "minio" ∷ []))
          ∷ [])
        t
        (reload production dir h t)
unfolding steps reload
load-Course production dir h t = noted refl (
    run-Course h (storage_argv production dir) _ _ _ (
      noted refl (
        run-Course h (compose production ("up" ∷ "-d" ∷ [])) _ _ _ (
          run-Course h (compose production ("restart" ∷ "minio" ∷ [])) _ _ _
            (noted refl finished)))))

-- A restore that has begun stops the services, drops the schemas, loads the dump, restores the object
-- storage, starts the stack and restarts the storage service, in this order and each only if all before
-- it has succeeded; it returns only if all six have.
pub replace-Course :
    (production : Bool) (dir : String) (h : Host) (t : Trace)
    → Course h (plan production dir h (password_at production h t)) t (replace production dir h t)
unfolding ◌>>=◌ asks replace
replace-Course production dir h t = run-Course h (stop_argv production) _ _ t (
    Course-read (secret_path h) _ _ (λ secret found. rw found (
      run-Course h (drop_argv production (strip secret)) _ _ _ (
        Course-check (load_call h.root production (strip secret) dir) _ _
          (λ _. load-Course production dir h _)))))
