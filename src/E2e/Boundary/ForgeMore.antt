-- ===== src/E2e/Boundary/ForgeMore.antt =====
-- scripts/governed_boundary_e2e.py: forge more.
use stir_main.Base.{Bool, List, String, [], not, ◌&&◌, ◌++◌, ◌<>◌, ◌==◌, ◌=s=◌, ◌∷◌}
use stir_main.Base.Int.{pos}
use stir_main.Base.Text.{contains, first}
use stir_main.E2e.Boundary.Attack.{compose, effective_constitution, expect_rejected}
use stir_main.E2e.Boundary.Mutation.{constitutional_mutation_matrix}
use stir_main.Host.{inherited, rsa_key, typed}
use stir_main.Host.Exec.{Exec, for_each, pure, ◌>>=◌, ◌>>◌}
use stir_main.Json.{Json, bool, int, str}
use stir_main.Py.{
  dict, draws, dumps, entry, expect_or, head_of, item, list, lower_text, merged, print, shown,
  shown_item, signed_rsa, strings, stripped_text,
}
use stir_main.Py.Texts.{b64url}

unfoldable pub refuse_statement : String → Exec Unit
refuse_statement statement = do
  password ← stripped_text ".local/secrets/runtime_password"
  out ←
      compose
        ("exec"
          ∷ "-T"
          ∷ "-e"
          ∷ ("PGPASSWORD=" <> password)
          ∷ "postgres"
          ∷ "psql"
          ∷ "-X"
          ∷ "-v"
          ∷ "ON_ERROR_STOP=1"
          ∷ "-h"
          ∷ "postgres"
          ∷ "-U"
          ∷ "idax_backend"
          ∷ "-d"
          ∷ "idax"
          ∷ [])
        (typed statement)
  expect_or
      ("idax_backend was not denied: " <> first 70 statement <> " :: " <> first 200 out.stderr)
      (not (out.returncode == 0) && contains out.stderr "permission denied")
  print ("PASS: idax_backend denied: " <> first 70 statement)

unfoldable pub credential_isolation : Exec Unit
credential_isolation = do
  secrets ← compose ("exec" ∷ "-T" ∷ "stir" ∷ "sh" ∷ "-c" ∷ "ls /run/secrets" ∷ []) inherited
  expect_or "verifier password is mounted into the ordinary runtime"
      (not (contains secrets.stdout "governed_verifier_password"))
  env ← compose ("exec" ∷ "-T" ∷ "stir" ∷ "sh" ∷ "-c" ∷ "env" ∷ []) inherited
  lower ← lower_text env.stdout
  expect_or "verifier configuration leaked into the ordinary runtime environment"
      (not (contains lower "governed"))
  print "PASS: ordinary runtime container has no verifier secret and no verifier environment"
  print "GOVERNED BOUNDARY E2E: PASS"

unfoldable pub attack_database :
    String
    → Json
    → Json
    → String
    → String
    → List String
    → String
    → List String
    → String
    → Json
    → Exec Unit
attack_database tenant ana community api authority the_keys guardian credentials guardian_id
      constitution =
    do
      attacks ← pure (
          ("update stir.constitutional_seat set public_key = repeat('Z',43) where tenant_id='"
            <> tenant <> "';")
          ∷ ("insert into stir.market_constitution values (gen_random_uuid(),'"
              <> tenant
              <> "','"
              <> (← shown community)
              <> "','"
              <> authority
              <> "',9,'{}','"
              <> "aaaaaaaaaaaaaaaaaaaaaaaaaaaaaaaaaaaaaaaaaaaaaaaaaaaaaaaaaaaaaaaa"
              <> "',now());")
          ∷ "set role idax_governed_verifier;"
          ∷ [])
      for_each attacks refuse_statement
      constitutional_mutation_matrix tenant api community authority (← item ana "accessToken")
          the_keys guardian guardian_id credentials constitution
      credential_isolation
      pure tt

unfoldable pub forge_more :
    String
    → Json
    → Json
    → String
    → String
    → List String
    → String
    → List String
    → String
    → Json
    → Json
    → String
    → Exec Unit
forge_more tenant ana community api authority the_keys guardian credentials guardian_id constitution
      creation legit =
    do
      rogue ← draws rsa_key
      header ← pure (b64url (← dumps (dict (("alg", str "RS256") ∷ ("typ", str "JWT") ∷ []))))
      claims ← pure (
          b64url
            (← dumps (
              dict (
                ("sub", str "ana")
                ∷ ("userId", str (← shown_item (← item ana "user") "id"))
                ∷ ("tenantId", str tenant)
                ∷ ("roles", list (strings ("admin" ∷ [])))
                ∷ ("iss", str "idax-local")
                ∷ []))))
      forged_sig ← signed_rsa rogue (header <> "." <> claims)
      expect_rejected "JWT signed with a key the verifier does not trust" (api <> "/bootstrap")
          creation (str (header <> "." <> claims <> "." <> forged_sig)) (int (pos 401))
      expect_rejected "fabricated verification flags (sevenKeysVerified, authorized, final)"
          (api <> "/bootstrap")
          (← merged creation (
            ("sevenKeysVerified", bool Bool.true)
            ∷ ("authorized", bool Bool.true)
            ∷ ("final", bool Bool.true)
            ∷ []))
          (← item ana "accessToken") (int (pos 400))
      expect_rejected "six seats instead of seven" (api <> "/bootstrap")
          (← merged creation (("seats", list (← head_of (← item creation "seats") 6)) ∷ []))
          (← item ana "accessToken") (int (pos 400))
      expect_rejected "duplicate seat ordinal" (api <> "/bootstrap")
          (← merged creation (
            (
              "seats",
              list (
                  (← head_of (← item creation "seats") 6)
                  ++ ((← entry (← item creation "seats") 0) ∷ [])),
            )
            ∷ []))
          (← item ana "accessToken") (int (pos 409))
      expect_rejected "replay of a completed bootstrap (no replacement path)" (api <> "/bootstrap")
          creation (← item ana "accessToken") (int (pos 409))
      expect_or "a forged request changed the effective constitution"
          ((← effective_constitution tenant) =s= legit)
      print "PASS: no forged request created, replaced or altered effective constitutional state"
      attack_database tenant ana community api authority the_keys guardian credentials guardian_id
          constitution
