-- ===== src/Initialize/Secrets.antt =====
-- The secrets: what is there is never written again.
use stir_main.Base.{
  ℕ, String, ◌≡◌, Bool, false, Option, none, some, List, ◌∷◌, inl, inr, Bool-cases,
}
use stir_main.Host.{Host, Trace, Event, printed, looked, read, made_dir, set_mode, wrote, ran, ◌/◌}
use stir_main.Host.Exec.{steps, Exec, at}
use stir_main.Host.Emits.{Emits, emits_rules}
use stir_main.Host.Upholds.{trace-check, Upholds, Upholds-bind, Upholds-for_each, Upholds-of}
use stir_main.Initialize.{
  Pin, run, output, clone_if_missing, heal, require, ensure, apply_patch, patch_repo, prepare,
  chmod, draw, write_if_missing, or_candidate, make_secret, find_openssl, genpkey_argv, pubout_argv,
  run_if_missing, make_keys, make_secrets, secret_names, initialize, git,
}

-- All that the script does but write secrets and make keys; of programs it runs git.
pub data Other : Event → Type 0 where
  told : (s : String) → Other (printed s)
  saw : (path : String) → Other (looked path)
  opened : (path : String) → Other (read path)
  made : (path : String) → Other (made_dir path)
  moded : (path : String) (mode : ℕ) → Other (set_mode path mode)
  by_git : (root : String) (rest : List String) → Other (ran (at root ("git" ∷ rest)))

ruleset other_rules = (emits_rules, told, saw, opened, made, moded, by_git)

-- From `t` to `u` a file was written, or a key made in it, only right after a look that found it missing.
pub data Preserved (h : Host) (t : Trace) : Trace → Type 0 where
  start : Preserved h t t
  other : {u : Trace} {e : Event} → Other e → Preserved h t u → Preserved h t (e ∷ u)
  written :
      {u : Trace} (path value : String)
      → h.exists u path ≡ false
      → Preserved h t u
      → Preserved h t (wrote path value ∷ looked path ∷ u)
  private_key :
      {u : Trace} (openssl path : String)
      → h.exists u path ≡ false
      → Preserved h t u
      → Preserved h t (ran (at h.root (genpkey_argv openssl path)) ∷ looked path ∷ u)
  public_key :
      {u : Trace} (openssl from path : String)
      → h.exists u path ≡ false
      → Preserved h t u
      → Preserved h t (ran (at h.root (pubout_argv openssl from path)) ∷ looked path ∷ u)

require-Emits : (b : Bool) (message : String) → Emits Other (require b message)
unfolding require
require-Emits b message = search other_rules

output-Emits : (dir : String) (rest : List String) → Emits Other (output (git dir rest))
unfolding output
output-Emits dir rest = search other_rules depth 9

ensure-Emits : (pin : Pin) (target : String) → Emits Other (ensure pin target)
unfolding ensure clone_if_missing heal require run
ensure-Emits pin target = search (other_rules, output-Emits) depth 60

apply-Emits : (name repo filename : String) → Emits Other (apply_patch name repo filename)
unfolding apply_patch
apply-Emits name repo filename = search other_rules depth 30

patch_repo-Emits : (entry : String × List String) → Emits Other (patch_repo entry)
unfolding patch_repo
patch_repo-Emits (name, files) = search (other_rules, output-Emits, apply-Emits) depth 14

prepare-Emits : Emits Other prepare
unfolding prepare
prepare-Emits = search (other_rules, patch_repo-Emits)

chmod-Emits : (windows : Bool) (path : String) (mode : ℕ) → Emits Other (chmod windows path mode)
unfolding chmod
chmod-Emits windows path mode = search other_rules

or_candidate-Emits :
    (windows : Bool) (found : Option String) → Emits Other (or_candidate windows found)
unfolding or_candidate
or_candidate-Emits windows none = search other_rules depth 20
or_candidate-Emits windows (some path) = search other_rules

find_openssl-Emits : (windows : Bool) → Emits Other (find_openssl windows)
unfolding find_openssl
find_openssl-Emits windows = search (other_rules, or_candidate-Emits)

module _ (h : Host) (t : Trace) where
  others-Upholds : {A : Type 0} (m : Exec A) → Emits Other m → Upholds h (Preserved h t) m
  others-Upholds m em = Upholds-of Other m (λ e u q g. other q g) em

  write-Upholds :
      (token : Trace → String) (path : String)
      → Upholds h (Preserved h t) (write_if_missing token path)
  unfolding steps write_if_missing draw
  write-Upholds token path = record {
    keeps = λ u g. elim (Bool-cases (h.exists u path)) [
      | inl there ↦ rw there (other (saw _) g)
      | inr missing ↦ rw missing (written path _ missing g)
    ];
  }

  private-Upholds :
      (openssl path : String)
      → Upholds h (Preserved h t) (run_if_missing path (genpkey_argv openssl path))
  unfolding steps run_if_missing run
  private-Upholds openssl path = record {
    keeps = λ u g. elim (Bool-cases (h.exists u path)) [
      | inl there ↦ rw there (other (saw _) g)
      | inr missing ↦
          rw (missing, trace-check (at h.root (genpkey_argv openssl path)) h (looked path ∷ u))
            (private_key openssl path missing g)
    ];
  }

  public-Upholds :
      (openssl from path : String)
      → Upholds h (Preserved h t) (run_if_missing path (pubout_argv openssl from path))
  unfolding steps run_if_missing run
  public-Upholds openssl from path = record {
    keeps = λ u g. elim (Bool-cases (h.exists u path)) [
      | inl there ↦ rw there (other (saw _) g)
      | inr missing ↦
          rw (missing, trace-check (at h.root (pubout_argv openssl from path)) h (looked path ∷ u))
            (public_key openssl from path missing g)
    ];
  }

  make_secret-Upholds :
      (windows : Bool) (token : Trace → String) (dir name : String)
      → Upholds h (Preserved h t) (make_secret windows token dir name)
  unfolding make_secret
  make_secret-Upholds windows token dir name =
      Upholds-bind _ _ (write-Upholds token (dir / name))
        (λ _. others-Upholds _ (chmod-Emits windows (dir / name) 0o644))

  make_keys-Upholds :
      (windows : Bool) (dir : String) → Upholds h (Preserved h t) (make_keys windows dir)
  unfolding make_keys
  make_keys-Upholds windows dir =
      Upholds-bind _ _ (others-Upholds _ (find_openssl-Emits windows)) (λ openssl.
        Upholds-bind _ _ (private-Upholds openssl (dir / "jwt_private_key")) (λ _.
          Upholds-bind _ _
            (public-Upholds openssl (dir / "jwt_private_key") (dir / "jwt_public_key"))
            (λ _. others-Upholds _ (search (other_rules, chmod-Emits)))))

  make_secrets-Upholds :
      (windows : Bool) (token : Trace → String) (dir : String)
      → Upholds h (Preserved h t) (make_secrets windows token dir)
  unfolding make_secrets
  make_secrets-Upholds windows token dir =
      Upholds-bind _ _ (others-Upholds _ (search other_rules)) (λ _.
        Upholds-bind _ _ (others-Upholds _ (chmod-Emits windows dir 0o700)) (λ _.
          Upholds-bind _ _ (Upholds-for_each secret_names _ (make_secret-Upholds windows token dir))
            (λ _. make_keys-Upholds windows dir)))

  initialize-Upholds :
      (pins : String → List Pin) (windows : Bool) (token : Trace → String)
      → Upholds h (Preserved h t) (initialize pins windows token)
  unfolding initialize
  initialize-Upholds pins windows token =
      Upholds-bind _ _ (others-Upholds _ (search other_rules)) (λ root.
        Upholds-bind _ _ (others-Upholds _ (search other_rules)) (λ _.
          Upholds-bind _ _ (others-Upholds _ (search other_rules)) (λ lock.
            Upholds-bind _ _ (others-Upholds _ (search (other_rules, ensure-Emits))) (λ _.
              Upholds-bind _ _ (others-Upholds _ prepare-Emits) (λ _.
                Upholds-bind _ _ (others-Upholds _ (output-Emits _ _)) (λ modified.
                  Upholds-bind _ _ (others-Upholds _ (require-Emits _ _)) (λ _.
                    Upholds-bind _ _ (make_secrets-Upholds windows token (root / ".local/secrets"))
                      (λ _. others-Upholds _ (search other_rules)))))))))

-- Whatever git and openssl answer, an initialization writes a file, or makes a key in it, only right after
-- a look that found it missing: a secret that is there is kept.
pub initialize-Preserved :
    (pins : String → List Pin) (windows : Bool) (token : Trace → String) (h : Host) (t : Trace)
    → Preserved h t (initialize pins windows token h t).1
initialize-Preserved pins windows token h t =
    (initialize-Upholds h t pins windows token).keeps t start
