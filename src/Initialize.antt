-- ===== src/Initialize.antt =====
-- scripts/initialize.py and scripts/prepare_shell.py: pin the vendor clones, apply the reviewed patches,
-- and make the local secrets that are missing.
pub mod Pins
pub mod Secrets
mod Tests
use stir_main.Base.{
  ℕ, String, ◌<>◌, ◌=s=◌, ◌==◌, Bool, true, false, ◌&&◌, not, Option, none, some, List, [], ◌∷◌,
  ◌++◌, if◌then◌else◌,
}
use stir_main.Base.Text.{strip}
use stir_main.Host.{Host, Trace, Event, wrote, made_dir, set_mode, printed, ◌/◌}
use stir_main.Host.Exec.{
  Exec, pure, raise, asks, emit, call, check, at, exists, read_text, getenv, for_each, ok, ◌>>=◌,
  ◌>>◌, system_exit, runtime_error,
}

run : List String → Exec Unit
run argv = do root ← asks (λ h. h.root); _ ← check (at root argv); pure tt

-- `subprocess.check_output(…).strip()`, which runs where the script was started.
output : List String → Exec String
output argv = do done ← check (at "" argv); pure (strip done.stdout)

abbrev pub git : String → List String → List String
git dir rest = "git" ∷ "-C" ∷ dir ∷ rest

abbrev pub head_argv : String → List String
head_argv dir = git dir ("rev-parse" ∷ "HEAD" ∷ [])

abbrev pub origin_argv : String → List String
origin_argv dir = git dir ("remote" ∷ "get-url" ∷ "origin" ∷ [])

-- An entry of upstream.lock.json.
pub record Pin : Type 0 where
  pub name : String
  pub url : String
  pub commit : String

clone_if_missing : Pin → String → Exec Unit
unfolding run
clone_if_missing pin target = do
  there ← exists target
  if there then pure tt else do
    run ("git" ∷ "-c" ∷ "credential.helper=" ∷ "clone" ∷ "--no-checkout" ∷ pin.url ∷ target ∷ [])
    run (git target ("checkout" ∷ "--detach" ∷ pin.commit ∷ []))

-- The commit that the clone stands on in the end: a clone on another commit is moved to the pinned one.
heal : Pin → String → String → Exec String
unfolding run output
heal pin target actual = if actual =s= pin.commit then pure actual else do
  run (git target ("checkout" ∷ "--force" ∷ actual ∷ []))
  run (git target ("clean" ∷ "-fd" ∷ []))
  run (git target ("fetch" ∷ "origin" ∷ pin.commit ∷ []))
  run (git target ("checkout" ∷ "--detach" ∷ pin.commit ∷ []))
  output (head_argv target)

require : Bool → String → Exec Unit
require holds message = if holds then pure tt else raise (system_exit message)

pub ensure : Pin → String → Exec Unit
unfolding clone_if_missing output require heal
ensure pin target = do
  clone_if_missing pin target
  actual ← output (head_argv target)
  origin ← output (origin_argv target)
  require (origin =s= pin.url) (pin.name <> ": unexpected origin")
  landed ← heal pin target actual
  require (landed =s= pin.commit) (
      pin.name
      <> ": wrong upstream commit even after re-fetching; the pinned commit may not exist on "
      <> pin.url)

-- `prepare` of prepare_shell.py.
abbrev pub apply_argv : String → List String → String → List String
apply_argv repo options patch = git repo ("apply" ∷ (options ++ (patch ∷ [])))

apply_patch : String → String → String → Exec Unit
apply_patch name repo filename = do
  root ← asks (λ h. h.root)
  reverse ←
      call (at "" (apply_argv repo ("--check" ∷ "--reverse" ∷ []) (root / "patches" / filename)))
  if reverse.returncode == 0 then pure tt else do
    clean ←
        call (at "" (apply_argv repo ("--check" ∷ "--index" ∷ []) (root / "patches" / filename)))
    if clean.returncode == 0
        then (do
          _ ← check (at "" (apply_argv repo ("--index" ∷ []) (root / "patches" / filename)))
          pure tt)
        else raise (
            runtime_error (
              "Unexpected modified vendor source: " <> name <> " (patch " <> filename
              <> " does not apply cleanly): " <> clean.stderr))

patch_repo : String × List String → Exec Unit
unfolding output apply_patch
patch_repo (name, patches) = do
  root ← asks (λ h. h.root)
  untracked ←
      output (git (root / "vendor" / name) ("ls-files" ∷ "--others" ∷ "--exclude-standard" ∷ []))
  if untracked =s= ""
      then for_each patches (apply_patch name (root / "vendor" / name))
      else raise (runtime_error ("Unexpected untracked vendor source: " <> name))

abbrev pub patches : List (String × List String)
patches =
    ("idax-ledger", "idax-ledger-0.3-migration-switch.patch" ∷ [])
    ∷ (
      "ostris",
      "ostris-0.3-migration-switch.patch" ∷ "ostris-0.4-public-application-surface.patch" ∷ [],
    )
    ∷ []

pub prepare : Exec Unit
unfolding patch_repo
prepare = for_each patches patch_repo

abbrev pub secret_names : List String
secret_names =
    "postgres_password" ∷ "bootstrap_token" ∷ "login_password" ∷ "runtime_password"
    ∷ "storage_access_key" ∷ "storage_secret_key" ∷ "stir_auditor_password"
    ∷ "governed_verifier_password" ∷ []

-- `p.chmod(mode)` where the system has modes.
chmod : Bool → String → ℕ → Exec Unit
chmod windows path mode = if windows then pure tt else emit (set_mode path mode)

-- `token` is `secrets.token_urlsafe(36)`.
draw : (Trace → String) → Exec String
draw token h t = (ok (token t), t)

write_if_missing : (Trace → String) → String → Exec Unit
unfolding draw
write_if_missing token path = do
  there ← exists path
  if there then pure tt else do value ← draw token; emit (wrote path value)

make_secret : Bool → (Trace → String) → String → String → Exec Unit
unfolding write_if_missing chmod
make_secret windows token dir name = do
  write_if_missing token (dir / name)
  chmod windows (dir / name) 0o644

abbrev candidate_in : Option String → String
candidate_in none = "Git/usr/bin/openssl.exe"
candidate_in (some dir) = dir / "Git/usr/bin/openssl.exe"

-- `shutil.which('openssl')`, or the one that comes with git on Windows.
or_candidate : Bool → Option String → Exec String
or_candidate windows (some path) = pure path
or_candidate windows none =
    if windows
    then (do
      programs ← getenv "ProgramFiles"
      there ← exists (candidate_in programs)
      if there
          then pure (candidate_in programs)
          else raise (system_exit "OpenSSL is required for local RSA keys"))
    else raise (system_exit "OpenSSL is required for local RSA keys")

find_openssl : Bool → Exec String
unfolding or_candidate
find_openssl windows = do found ← asks (λ h. h.which "openssl"); or_candidate windows found

abbrev pub genpkey_argv : String → String → List String
genpkey_argv openssl path =
    openssl ∷ "genpkey" ∷ "-algorithm" ∷ "RSA" ∷ "-pkeyopt" ∷ "rsa_keygen_bits:3072" ∷ "-out" ∷ path
    ∷ []

abbrev pub pubout_argv : String → String → String → List String
pubout_argv openssl private public =
    openssl ∷ "pkey" ∷ "-in" ∷ private ∷ "-pubout" ∷ "-out" ∷ public ∷ []

-- `if not path.exists(): run(…)`.
run_if_missing : String → List String → Exec Unit
unfolding run
run_if_missing path argv = do there ← exists path; if there then pure tt else run argv

make_keys : Bool → String → Exec Unit
unfolding find_openssl run_if_missing chmod
make_keys windows dir = do
  openssl ← find_openssl windows
  run_if_missing (dir / "jwt_private_key") (genpkey_argv openssl (dir / "jwt_private_key"))
  run_if_missing (dir / "jwt_public_key")
      (pubout_argv openssl (dir / "jwt_private_key") (dir / "jwt_public_key"))
  chmod windows (dir / "jwt_private_key") 0o644
  chmod windows (dir / "jwt_public_key") 0o644

pub make_secrets : Bool → (Trace → String) → String → Exec Unit
unfolding make_secret make_keys chmod
make_secrets windows token dir = do
  emit (made_dir dir)
  chmod windows dir 0o700
  for_each secret_names (make_secret windows token dir)
  make_keys windows dir

-- `json.loads` of upstream.lock.json is a parameter.
pub initialize : (String → List Pin) → Bool → (Trace → String) → Exec Unit
unfolding ensure prepare output require make_secrets
initialize pins windows token = do
  root ← asks (λ h. h.root)
  emit (made_dir (root / "vendor"))
  lock ← read_text (root / "upstream.lock.json")
  for_each (pins lock) (λ pin. ensure pin (root / "vendor" / pin.name))
  prepare
  modified ← output (git (root / "vendor" / "idax-core-runtime") ("status" ∷ "--porcelain" ∷ []))
  require (modified =s= "") "Unexpected Core vendor modifications"
  make_secrets windows token (root / ".local/secrets")
  emit (
      printed
        "Public inputs pinned; secrets preserved/generated. Login: admin@stir.test; password in .local/secrets/login_password")
