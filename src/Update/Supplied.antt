-- ===== src/Update/Supplied.antt =====
-- What the deploy of an update in production is given, and that it comes last.
use stir_main.Base.{
  String, ◌||◌, ◌=s=◌, ◌≡◌, refl, true, sym, ap, ◌∙◌, ◌≢◌, inl, inr, Option, none, some, List, [],
  ◌∷◌, arith, Bool-cases, Option-cases, ne_of_test,
}
use stir_main.Base.Text.{splitlines}
use stir_main.Host.{Host, Trace, Proc, looked, read, ran, printed, ◌/◌}
use stir_main.Host.Exec.{steps, Exec, ok, pure, raise, asks, emit, check, member, ◌>>=◌}
use stir_main.Host.Passing.{bind_passes, bind_goes}
use stir_main.Host.Returns.{Returns, Returns-bind}
use stir_main.Update.Env.{IsFirst, env_value_iff}
use stir_main.Update.{
  env_value, read_env, production_env, deploy_env, deploy_call, redeploy, update,
}

abbrev pub env_file : Host → String
env_file h = h.root / ".env"

-- After this history `.env` is there, and its first assignment to the key gives it this value.
pub record Sets (h : Host) (t : Trace) (key v : String) : Type 0 where
  pub there : h.exists t (env_file h) ≡ true
  pub text : String
  pub reads : h.read_text (looked (env_file h) ∷ t) (env_file h) ≡ some text
  pub first : IsFirst key v (splitlines text)

-- The history after `.env` has been read once.
abbrev pub read_once : Host → Trace → Trace
read_once h t = read (env_file h) ∷ looked (env_file h) ∷ t

read_env-Sets :
    (key v : String) (h : Host) (t : Trace)
    → (read_env key h t).0 ≡ ok (some v)
    → Sets h t key v × ((read_env key h t).1 ≡ read_once h t)
unfolding steps read_env
read_env-Sets key v h t e = elim (Bool-cases (h.exists t (env_file h))) [
  | inr missing ↦ absurd (ground arith)
  | inl there ↦ elim (Option-cases (h.read_text (looked (env_file h) ∷ t) (env_file h))) [
    | inl unread ↦ absurd (ground arith)
    | inr (text, reads) ↦
        let valued : env_value key (splitlines text) ≡ some v = ground arith in
        (
          record {
            there = there;
            text = text;
            reads = reads;
            first = (env_value_iff key v (splitlines text)).0 valued;
          },
          rw (there, reads) refl,
        )
  ]
]

-- The two variables, as `.env` sets them after the history `t`.
pub record IsSupplied (h : Host) (t : Trace) (env : List (String × String)) : Type 0 where
  pub base_url : String
  pub admin_email : String
  pub url_set : Sets h t "STIR_PUBLIC_BASE_URL" base_url
  pub email_set : Sets h (read_once h t) "STIR_ADMIN_EMAIL" admin_email
  pub url_given : base_url ≢ ""
  pub email_given : admin_email ≢ ""
  pub whole : env ≡ ("STIR_TEST_URL", base_url) ∷ ("STIR_TEST_LOGIN_EMAIL", admin_email) ∷ []

supplied :
    (a b : Option String) (h : Host) (t u : Trace) (env : List (String × String))
    → (read_env "STIR_PUBLIC_BASE_URL" h t).0 ≡ ok a
    → (read_env "STIR_ADMIN_EMAIL" h (read_env "STIR_PUBLIC_BASE_URL" h t).1).0 ≡ ok b
    → (production_env a b h u).0 ≡ ok env
    → IsSupplied h t env
      × ((read_env "STIR_ADMIN_EMAIL" h (read_env "STIR_PUBLIC_BASE_URL" h t).1).1
          ≡ read_once h (read_once h t))
      × ((production_env a b h u).1 ≡ u)
unfolding production_env pure raise
supplied none b h t u env ea eb e = absurd (ground arith)
supplied (some a) none h t u env ea eb e = absurd (ground arith)
supplied (some a) (some b) h t u env ea eb e = elim (Bool-cases (a =s= "" || b =s= "")) [
  | inl blank ↦ absurd (ground arith)
  | inr given ↦
      let (url_set, once) = read_env-Sets "STIR_PUBLIC_BASE_URL" a h t ea in
      let eb2 : (read_env "STIR_ADMIN_EMAIL" h (read_once h t)).0 ≡ ok (some b) =
        ap (λ w. (read_env "STIR_ADMIN_EMAIL" h w).0) (sym once) ∙ eb in
      let (email_set, twice) = read_env-Sets "STIR_ADMIN_EMAIL" b h (read_once h t) eb2 in
      (
        record {
          base_url = a;
          admin_email = b;
          url_set = url_set;
          email_set = email_set;
          url_given = ne_of_test a "" (ground arith);
          email_given = ne_of_test b "" (ground arith);
          whole = ground arith;
        },
        ap (λ w. (read_env "STIR_ADMIN_EMAIL" h w).1) once ∙ twice,
        rw given refl,
      )
]

deploy_env-IsSupplied :
    (h : Host) (t : Trace) (env : List (String × String))
    → (deploy_env true h t).0 ≡ ok env
    → IsSupplied h t env × ((deploy_env true h t).1 ≡ read_once h (read_once h t))
unfolding deploy_env
deploy_env-IsSupplied h t env e =
    let (a, url, rest) = bind_passes (read_env "STIR_PUBLIC_BASE_URL") _ h t env e in
    let (b, email, made) = bind_passes (read_env "STIR_ADMIN_EMAIL") _ h _ env rest in
    let (s, twice, kept) = supplied a b h t _ env url email made in
    (
      s,
      bind_goes (read_env "STIR_PUBLIC_BASE_URL") _ h t a url
          ∙ bind_goes (read_env "STIR_ADMIN_EMAIL") _ h _ b email
          ∙ kept
          ∙ twice,
    )

-- The last thing done before the closing message was a deploy of production by this interpreter, right
-- after `.env` was read twice, and it was given the two variables as `.env` sets them, neither blank.
pub record IsDeployed (h : Host) (u : Trace) : Type 0 where
  pub before : Trace
  pub deploy : Proc
  pub argv : deploy.argv ≡ h.executable ∷ "scripts/deploy.py" ∷ "--prod" ∷ []
  pub at_root : deploy.cwd ≡ h.root
  pub given : IsSupplied h before deploy.env
  pub whole : u ≡ printed "Update complete." ∷ ran deploy ∷ read_once h (read_once h before)

-- From the reading of the variables on.
abbrev finishing : String → String → Exec Unit
finishing root python = do
  env ← deploy_env true
  _ ← check (deploy_call root python true env)
  emit (printed "Update complete.")

check-trace : (p : Proc) (h : Host) (t : Trace) → (check p h t).1 ≡ ran p ∷ t
unfolding steps
check-trace p h t = refl

finishing-IsDeployed :
    (h : Host) → Returns h (λ _ u. IsDeployed h u) (finishing h.root h.executable)
unfolding emit
finishing-IsDeployed h = record {
  holds = λ t a e.
      let (env, got, rest) = bind_passes (deploy_env true) _ h t a e in
      let (s, twice) = deploy_env-IsSupplied h t env got in
      let p = deploy_call h.root h.executable true env in
      let (c, passed, _) =
        bind_passes (check p) (λ _. emit (printed "Update complete.")) h _ a rest in
      record {
        before = t;
        deploy = p;
        argv = refl;
        at_root = refl;
        given = s;
        whole =
            bind_goes (deploy_env true) _ h t env got
            ∙ bind_goes (check p) (λ _. emit (printed "Update complete.")) h _ c passed
            ∙ ap (λ w. printed "Update complete." ∷ w) (check-trace p h (deploy_env true h t).1)
            ∙ ap (λ w. printed "Update complete." ∷ ran p ∷ w) twice;
      };
}

after_asks :
    {A B : Type 0} {P : B → Trace → Type 0} (h : Host) (f : Host → A) (k : A → Exec B)
    → Returns h P (k (f h))
    → Returns h P (asks f >>= k)
unfolding steps
after_asks h f k r = record { holds = λ t b e. r.holds t b e }

redeploy-IsDeployed : (h : Host) → Returns h (λ _ u. IsDeployed h u) (redeploy true)
unfolding redeploy
redeploy-IsDeployed h = Returns-bind _ _ (λ _.
    after_asks h _ _
      (after_asks h _ _ (Returns-bind _ _ (λ _. Returns-bind _ _ (λ _. finishing-IsDeployed h)))))

-- When an update with --prod returns, the last thing that it did before the closing message was a deploy
-- of production, right after it read `.env` twice, and it gave it the base URL and the login that the
-- first assignments of `.env` to the two keys set, neither of them blank.
pub update-IsDeployed :
    (parent : String) (h : Host) (t : Trace)
    → member "--prod" h.argv ≡ true
    → (update parent h t).0 ≡ ok tt
    → IsDeployed h (update parent h t).1
unfolding update
update-IsDeployed parent h t production e =
    let last : Returns h (λ _ u. IsDeployed h u) (redeploy (member "--prod" h.argv)) =
      rw production (redeploy-IsDeployed h) in
    let all_ : Returns h (λ _ u. IsDeployed h u) (update parent) = after_asks h _ _ (
      Returns-bind _ _
        (λ _. after_asks h _ _ (Returns-bind _ _ (λ _. Returns-bind _ _ (λ _. last))))) in
    all_.holds t tt e
