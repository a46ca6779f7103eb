-- ===== src/E2e/References.antt =====
-- scripts/community_references_e2e.py: the tenants that other scripts share, and the life of a community reference.
pub mod Contained
use stir_main.Base.{Bool, List, Option, String, [], ℕ, ◌++◌, ◌<>◌, ◌==◌, ◌=s=◌, ◌∷◌}
use stir_main.Base.Int.{pos, ℤ}
use stir_main.Compose.{sql}
use stir_main.E2e.EconomicExchange.Steps.{make_user, permissions}
use stir_main.Host.Exec.{Exec, pure, ◌>>=◌, ◌>>◌}
use stir_main.Json.{Json, bool, int, null, str}
use stir_main.Py.{
  all_of, dict, entry, eq, expect, expect_or, is, is_false, is_null, item, last_entry, length_of,
  list, loads, map_each, method_text, pick, print, sha256, shown_item, strings, stripped_text,
  text_item, uuid4_hex,
}
use stir_main.Smoke.{fetch, ok_only, send}

abbrev pub member_permissions : List Json
member_permissions =
    permissions ++ strings ("stir.references.read" ∷ "stir.references.propose" ∷ [])

unfoldable role : Json → String → String → String → List Json → Exec Json
role admin suffix t key permissions = do
  base ← pure ("/api/shell/v1/tenants/" <> t <> "/roles")
  row ←
      send base "POST"
        (dict (
          ("key", str (key <> suffix))
          ∷ ("name", str key)
          ∷ ("description", str "Local reference test")
          ∷ ("enabled", bool Bool.true)
          ∷ []))
        admin (200 ∷ 201 ∷ [])
  send (base <> "/" <> (← text_item row "id") <> "/permissions") "PUT" (list permissions) admin
      ok_only
  item row "id"

pub fixtures : Exec (String × String × Json × Json × Json × Json × Json)
fixtures = do
  admin ←
      item
        (← send "/api/shell/v1/auth/login" "POST"
          (dict (
            ("email", str "admin@stir.test")
            ∷ ("password", str (← stripped_text ".local/secrets/login_password"))
            ∷ []))
          null ok_only)
        "accessToken"
  suffix ← uuid4_hex 8
  tenant ←
      sql
        ("select tenant_id from idax_core.tenant_create('stir-ref-" <> suffix
          <> "','STIR References " <> suffix <> "','active',false);")
        Bool.false
  other ←
      sql
        ("select tenant_id from idax_core.tenant_create('stir-ref-b-" <> suffix
          <> "','STIR Reference B','active',false);")
        Bool.false
  member ← role admin suffix tenant "member" member_permissions
  publisher ←
      role admin suffix tenant "publisher"
        (member_permissions ++ strings ("stir.references.publish" ∷ []))
  b_role ← role admin suffix other "other" member_permissions
  ana ← make_user admin tenant publisher "ana" suffix
  sql
      ("update idax_core.tenant_user set role='admin' where tenant_id='"
        <> tenant
        <> "' and user_id='"
        <> (← shown_item (← item ana "user") "id")
        <> "';")
      Bool.false
  pedro ← make_user admin tenant member "pedro" suffix
  carlos ← make_user admin tenant member "carlos" suffix
  bea ← make_user admin other b_role "bea" suffix
  base ← pure ("/api/stir/tenants/" <> tenant)
  binding ←
      send (base <> "/economic/marketplace/bootstrap") "POST"
        (dict (
          ("communityName", str ("References " <> suffix))
          ∷ ("unitCode", str "REF")
          ∷ ("unitScale", int (pos 2))
          ∷ []))
        (← item ana "accessToken") ok_only
  pure (tenant, base, ana, pedro, carlos, bea, binding)

unfoldable proposal : String → Json → String → Exec Json
proposal ref a amount = do
  send (ref <> "/proposals") "POST"
      (dict (
        ("kind", str "CONVENTION")
        ∷ ("lowerValue", str amount)
        ∷ ("upperValue", str amount)
        ∷ ("explanation", str "Assembly convention, not an observed price")
        ∷ ("origin", str "Community assembly")
        ∷ ("validDays", int (pos 90))
        ∷ []))
      a ok_only

unfoldable agree : Json → Json → String → Json → Json → String → Json → Exec Json
agree a p base definition listing amount consent = do
  n ←
      send (base <> "/listings/" <> (← text_item listing "id") <> "/offers") "POST"
        (dict (
          ("message", str "Free proposal")
          ∷ ("quantity", str "1")
          ∷ ("unitLabel", str "loaf")
          ∷ ("proposedAmount", str amount)
          ∷ ("proposedUnitRef", (← item definition "unit_ref"))
          ∷ ("shareReferenceObservation", consent)
          ∷ []))
        p (201 ∷ [])
  send (base <> "/negotiations/" <> (← text_item n "id") <> "/accept") "POST"
      (dict (
        ("offerId", (← item (← last_entry (← item n "offers")) "id"))
        ∷ ("expectedVersion", (← item n "version"))
        ∷ ("shareReferenceObservation", consent)
        ∷ []))
      a ok_only

unfoldable keep_history :
    String
    → String
    → Json
    → Json
    → Json
    → Json
    → Json
    → String
    → Json
    → Json
    → String
    → Json
    → Exec Unit
keep_history tenant base carlos bea a p definition ref listing historic context_url context = do
  the_second ← proposal ref a "25"
  send (base <> "/references/proposals/" <> (← text_item the_second "id") <> "/publish") "POST"
      (dict (("decision", str "Deliberate revised convention") ∷ [])) a ok_only
  expect (eq (← item (← item (← fetch ref p ok_only) "reference") "version") (int (pos 2)))
  expect ((← length_of (← fetch (ref <> "/history") p ok_only)) == 2)
  expect (eq (← fetch context_url a ok_only) context)
  reloaded ←
      item (← fetch (base <> "/agreements/" <> (← text_item historic "id")) p ok_only) "snapshot"
  expect
      (← all_of ("canonicalJson" ∷ "digestSha256" ∷ "schemaVersion" ∷ [])
        (λ k. do pure (eq (← item reloaded k) (← item (← item historic "snapshot") k))))
  the_no ← agree a p base definition listing "30" (bool Bool.false)
  expect (
      (← sql
        ("select aggregate_consent from stir.reference_observation where tenant_id='"
          <> tenant
          <> "' and source_id='"
          <> (← shown_item the_no "id")
          <> "' and source='AGREEMENT';")
        Bool.false)
      =s= "f")
  fetch context_url (← item carlos "accessToken") (404 ∷ [])
  fetch (base <> "/agreements/" <> (← text_item historic "id")) (← item carlos "accessToken")
      (404 ∷ [])
  fetch ref (← item bea "accessToken") (400 ∷ 403 ∷ 404 ∷ [])
  fetch context_url (← item bea "accessToken") (400 ∷ 403 ∷ 404 ∷ [])
  other_base ← pure ("/api/stir/tenants/" <> (← shown_item (← entry (← item bea "tenants") 0) "id"))
  fetch (other_base <> "/references/" <> (← text_item definition "id")) (← item bea "accessToken")
      (404 ∷ [])
  fetch (other_base <> "/references/agreements/" <> (← text_item historic "id") <> "/context")
      (← item bea "accessToken") (404 ∷ [])
  fetch ref null (401 ∷ [])
  print
      "PASS HTTP: versions, convention with insufficient evidence, below/within/above agreements, bilateral opt-in, immutable historical context and hashes, permissions, tenant A/B, daily reconstruction."

unfoldable agreements_and_context :
    String → String → Json → Json → Json → Json → Json → String → Json → Json → Exec Unit
agreements_and_context tenant base carlos bea a p definition ref evidence listing = do
  agreements ←
      map_each ("1" ∷ "10" ∷ "100" ∷ [])
        (λ amount. agree a p base definition listing amount (bool Bool.true))
  historic ← pick 0 agreements
  context_url ←
      pure (base <> "/references/agreements/" <> (← text_item historic "id") <> "/context")
  context ← fetch context_url p ok_only
  the_data ← loads (← text_item context "canonicalJson")
  expect (eq (← item (← item the_data "reference") "version") (int (pos 1)))
  expect (is_false (← item the_data "contractual"))
  expect (
      eq (← item the_data "contractualDigestSha256")
        (← item (← item historic "snapshot") "digestSha256"))
  expect (
      eq (str (← sha256 (← method_text (← item context "canonicalJson"))))
        (← item context "digestSha256"))
  expect (
      (← sql
        ("select count(*) from stir.reference_observation where tenant_id='" <> tenant
          <> "' and source='AGREEMENT' and aggregate_consent;")
        Bool.false)
      =s= "3")
  expect_or "Daily cut must resist live differencing"
      (eq (← item (← fetch ref p ok_only) "evidence") evidence)
  keep_history tenant base carlos bea a p definition ref listing historic context_url context

pub main : Exec Unit
main = do
  (tenant, base, ana, pedro, carlos, bea, binding) ← fixtures
  a ← item ana "accessToken"
  p ← item pedro "accessToken"
  definition ←
      send (base <> "/references") "POST"
        (dict (
          ("name", str "Bread 500g")
          ∷ ("scope", str "One plain 500g loaf")
          ∷ ("attributes", dict (("weight", str "500g") ∷ []))
          ∷ ("quantityBasis", str "1")
          ∷ ("quantityUnit", str "loaf")
          ∷ []))
        a ok_only
  ref ← pure (base <> "/references/" <> (← text_item definition "id"))
  expect (eq (← item definition "unit_id") (← item binding "unitId"))
  evidence ← item (← fetch ref p ok_only) "evidence"
  expect (is (← item evidence "status") "INSUFFICIENT_DATA")
  expect (is_null (← item evidence "median"))
  the_first ← proposal ref a "10"
  send (base <> "/references/proposals/" <> (← text_item the_first "id") <> "/publish") "POST"
      (dict (("decision", str "Unauthorized") ∷ [])) p (403 ∷ [])
  v1 ←
      send (base <> "/references/proposals/" <> (← text_item the_first "id") <> "/publish") "POST"
        (dict (("decision", str "Initial assembly decision") ∷ [])) a ok_only
  expect (eq (← item v1 "version") (int (pos 1)))
  listing ←
      send (base <> "/listings") "POST"
        (dict (
          ("direction", str "OFFER")
          ∷ ("title", str "Bread with a reference")
          ∷ ("description", str "Test loaf")
          ∷ ("category", str "home")
          ∷ ("resourceKind", str "physical")
          ∷ ("referenceDefinitionId", (← item definition "id"))
          ∷ []))
        a (201 ∷ [])
  expect (
      eq
        (← item (← fetch (base <> "/listings/" <> (← text_item listing "id")) p ok_only)
          "referenceDefinitionId")
        (← item definition "id"))
  agreements_and_context tenant base carlos bea a p definition ref evidence listing
