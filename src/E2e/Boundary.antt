-- ===== src/E2e/Boundary.antt =====
-- scripts/governed_boundary_e2e.py: forged requests against the governed verifier.
pub mod Contained
pub mod Attack
pub mod Mutation
pub mod ForgeMore
use stir_main.Base.{Bool, List, Option, String, [], not, ℕ, ◌&&◌, ◌++◌, ◌+◌, ◌<>◌, ◌==◌, ◌=s=◌, ◌∷◌}
use stir_main.Base.Int.{pos, ℤ}
use stir_main.Base.Text.{contains, first}
use stir_main.Compose.{sql}
use stir_main.E2e.Boundary.Attack.{compose, effective_constitution, expect_rejected}
use stir_main.E2e.Boundary.ForgeMore.{credential_isolation, forge_more, refuse_statement}
use stir_main.E2e.Boundary.Mutation.{constitutional_mutation_matrix}
use stir_main.E2e.References.{fixtures}
use stir_main.E2e.SevenKeys.Signing.{bootstrap_domain, digest, rawkey, sign}
use stir_main.Host.{inherited, private_key, rsa_key, typed, uuid4}
use stir_main.Host.Exec.{Exec, for_each, pure, ◌>>=◌, ◌>>◌}
use stir_main.Json.{Json, bool, int, str}
use stir_main.Py.{
  dict, draws, dumps, entry, eq, expect, expect_or, head_of, item, length_of, list, lower_text,
  map_each, merged, numbered, pick, print, shown, shown_item, signed_rsa, strings, stripped_text,
}
use stir_main.Py.Texts.{b64url}
use stir_main.Smoke.{ok_only, send}

unfoldable bootstrap_and_forge :
    String
    → Json
    → Json
    → Json
    → String
    → String
    → String
    → List String
    → String
    → List String
    → String
    → Json
    → Json
    → Exec Unit
bootstrap_and_forge tenant ana pedro community other_tenant api authority the_keys guardian
      credentials guardian_id constitution creation =
    do
      expect_or "fresh tenant must start with no constitution"
          ((← effective_constitution tenant) =s= "")
      view ← send (api <> "/bootstrap") "POST" creation (← item ana "accessToken") ok_only
      expect (eq (← item view "threshold") (int (pos 7)))
      expect ((← length_of (← item view "seats")) == 7)
      legit ← effective_constitution tenant
      expect_or "legitimate bootstrap must persist an effective constitution" (not (legit =s= ""))
      print "PASS: legitimate 7/7 bootstrap by tenant administrator, persisted through the verifier"
      expect_rejected "forged actorId: a plain user asserts the administrator as actor"
          (api <> "/bootstrap")
          (← merged creation (("actorId", str (← shown_item (← item ana "user") "id")) ∷ []))
          (← item pedro "accessToken") (int (pos 400))
      expect_rejected "valid JWT of a plain tenant user without bootstrap authority"
          (api <> "/bootstrap") creation (← item pedro "accessToken") (int (pos 403))
      expect_rejected "forged tenant: administrator token used on another tenant path"
          ("/api/stir/tenants/" <> other_tenant <> "/references/governance/bootstrap") creation
          (← item ana "accessToken") (int (pos 403))
      expect_rejected "unsigned token (alg none)" (api <> "/bootstrap") creation
          (str (
            b64url (← dumps (dict (("alg", str "none") ∷ [])))
            <> "."
            <> b64url (← dumps (dict (("sub", str "ana") ∷ [])))
            <> "."))
          (int (pos 401))
      forge_more tenant ana community api authority the_keys guardian credentials guardian_id
          constitution creation legit

pub main : Exec Unit
main = do
  (tenant, base, ana, pedro, carlos, bea, binding) ← fixtures
  community ← item binding "communityId"
  other_tenant ←
      sql
        "select tenant_id from idax_core.tenant where code like 'stir-ref-b-%' order by created_at desc limit 1;"
        Bool.false
  api ← pure ("/api/stir/tenants/" <> tenant <> "/references/governance")
  authority ← draws uuid4
  the_keys ← map_each {A = ℕ} (0 ∷ 1 ∷ 2 ∷ 3 ∷ 4 ∷ 5 ∷ 6 ∷ []) (λ _. draws private_key)
  guardian ← draws private_key
  credentials ← map_each the_keys (λ _. draws uuid4)
  controllers ← map_each the_keys (λ _. draws uuid4)
  guardian_id ← draws uuid4
  seats ← map_each {A = ℕ} (0 ∷ 1 ∷ 2 ∷ 3 ∷ 4 ∷ 5 ∷ 6 ∷ []) (λ i. do
    pure (
        dict (
          ("ordinal", int (pos (i + 1)))
          ∷ ("controllerId", str (← pick i controllers))
          ∷ ("credentialId", str (← pick i credentials))
          ∷ ("publicKey", str (← rawkey (← pick i the_keys)))
          ∷ [])))
  constitution ← pure (
      dict (
        ("schema", str "STIR-MARKET-CONSTITUTION-1")
        ∷ ("provenanceRequired", bool Bool.true)
        ∷ ("historyImmutable", bool Bool.true)
        ∷ ("independenceChecksRequired", bool Bool.true)
        ∷ ("concentrationChecksRequired", bool Bool.true)
        ∷ ("minimumObservationFloor", int (pos 5))
        ∷ ("minimumParticipantFloor", int (pos 6))
        ∷ ("maximumParticipantShareCeiling", str "0.50")
        ∷ ("guardianMayGovern", bool Bool.false)
        ∷ ("constitutionalThreshold", int (pos 7))
        ∷ []))
  bootstrap ← pure (
      dict (
        ("format", str "STIR-SEVEN-KEYS-BOOTSTRAP-1")
        ∷ ("tenantId", str tenant)
        ∷ ("communityId", community)
        ∷ ("authorityId", str authority)
        ∷ ("seats", list seats)
        ∷ ("guardianCredentialId", str guardian_id)
        ∷ ("guardianPublicKey", str (← rawkey guardian))
        ∷ ("constitutionDigest", str (← digest constitution))
        ∷ []))
  creation ← pure (
      dict (
        ("authorityId", str authority)
        ∷ ("communityId", community)
        ∷ (
          "seats",
          list
              (← map_each {A = ℕ × Json} (numbered 0 seats) (λ row. do
                (i, s) ← pure row
                pure
                    (← merged s (
                      (
                        "possessionSignature",
                        str (← sign (← pick i the_keys) bootstrap_domain bootstrap),
                      )
                      ∷ [])))),
        )
        ∷ ("guardianCredentialId", str guardian_id)
        ∷ ("guardianPublicKey", str (← rawkey guardian))
        ∷ ("guardianPossessionSignature", str (← sign guardian bootstrap_domain bootstrap))
        ∷ []))
  bootstrap_and_forge tenant ana pedro community other_tenant api authority the_keys guardian
      credentials guardian_id constitution creation
