-- ===== src/E2e/MultiSource/EnableGovernance.antt =====
-- scripts/multi_source_value_evidence_e2e.py: enable governance.
use stir_main.Base.{Bool, List, String, [], ◌++◌, ◌<>◌, ◌∷◌}
use stir_main.Base.Int.{pos}
use stir_main.Compose.{sql}
use stir_main.E2e.EconomicExchange.Steps.{make_user, permissions}
use stir_main.Host.Exec.{Exec, for_each, pure, ◌>>=◌, ◌>>◌}
use stir_main.Json.{Json, bool, int, null, str}
use stir_main.Py.{
  dict, eq, expect, item, list, print, shown_item, strings, stripped_text, text_item, text_of,
  uuid4_hex,
}
use stir_main.Smoke.{fetch, ok_only, send}

abbrev pub member_permissions : List Json
member_permissions =
    permissions
    ++ strings (
        "stir.references.read" ∷ "stir.references.propose" ∷ "stir.consent.manage"
        ∷ "stir.governance.vote" ∷ [])

abbrev pub publisher_permissions : List Json
publisher_permissions =
    member_permissions
    ++ strings ("stir.references.publish" ∷ "stir.retention.manage" ∷ "stir.governance.manage" ∷ [])

unfoldable pub role : Json → String → String → String → List Json → Exec Json
role admin suffix t key permissions = do
  base ← pure ("/api/shell/v1/tenants/" <> t <> "/roles")
  row ←
      send base "POST"
        (dict (
          ("key", str (key <> suffix))
          ∷ ("name", str key)
          ∷ ("description", str "Local multi-source test")
          ∷ ("enabled", bool Bool.true)
          ∷ []))
        admin (200 ∷ 201 ∷ [])
  send (base <> "/" <> (← text_item row "id") <> "/permissions") "PUT" (list permissions) admin
      ok_only
  item row "id"

unfoldable pub fixtures : Exec (Json × String × String × Json × Json × Json × Json × Json)
fixtures = do
  admin ←
      item
        (← send "/api/shell/v1/auth/login" "POST"
          (dict (
            ("email", str "admin@stir.test")
            ∷ ("password", str (← stripped_text ".local/secrets/login_password"))
            ∷ []))
          null ok_only)
        "accessToken"
  suffix ← uuid4_hex 8
  tenant ←
      sql
        ("select tenant_id from idax_core.tenant_create('stir-mvse-" <> suffix
          <> "','STIR MultiSource " <> suffix <> "','active',false);")
        Bool.false
  other ←
      sql
        ("select tenant_id from idax_core.tenant_create('stir-mvse-b-" <> suffix
          <> "','STIR MultiSource B','active',false);")
        Bool.false
  publisher_role ← role admin suffix tenant "publisher" publisher_permissions
  member_role ← role admin suffix tenant "member" member_permissions
  b_role ← role admin suffix other "other" member_permissions
  ana ← make_user admin tenant publisher_role "ana" suffix
  sql
      ("update idax_core.tenant_user set role='admin' where tenant_id='"
        <> tenant
        <> "' and user_id='"
        <> (← shown_item (← item ana "user") "id")
        <> "';")
      Bool.false
  pedro ← make_user admin tenant member_role "pedro" suffix
  carlos ← make_user admin tenant member_role "carlos" suffix
  bea ← make_user admin other b_role "bea" suffix
  base ← pure ("/api/stir/tenants/" <> tenant)
  binding ←
      send (base <> "/economic/marketplace/bootstrap") "POST"
        (dict (
          ("communityName", str ("MultiSource " <> suffix))
          ∷ ("unitCode", str "MS")
          ∷ ("unitScale", int (pos 2))
          ∷ []))
        (← item ana "accessToken") ok_only
  pure (admin, tenant, base, ana, pedro, carlos, bea, binding)

unfoldable pub vote_on_seed : Json → Json → Json → Json → String → Exec Unit
vote_on_seed admin a p definition_id gov = do
  proposal ←
      send (gov <> "/proposals/" <> (← text_of definition_id) <> "/seed") "POST"
        (dict (
          ("kind", str "VALUE")
          ∷ ("lowerValue", str "30")
          ∷ ("upperValue", str "30")
          ∷ ("rationale", str "Initial orientation pending real evidence")
          ∷ ("basis", str "Founding assembly")
          ∷ ("validDays", int (pos 90))
          ∷ []))
        a ok_only
  proposal_id ← item proposal "id"
  send (gov <> "/proposal/" <> (← text_of proposal_id) <> "/vote") "POST"
      (dict (("choice", str "APPROVE") ∷ [])) admin (401 ∷ 403 ∷ 404 ∷ [])
  send (gov <> "/proposal/" <> (← text_of proposal_id) <> "/vote") "POST"
      (dict (("choice", str "APPROVE") ∷ [])) a ok_only
  send (gov <> "/proposal/" <> (← text_of proposal_id) <> "/vote") "POST"
      (dict (("choice", str "APPROVE") ∷ [])) p ok_only
  send (gov <> "/proposal/" <> (← text_of proposal_id) <> "/vote") "POST"
      (dict (("choice", str "APPROVE") ∷ [])) a (409 ∷ [])
  tally ← fetch (gov <> "/proposal/" <> (← text_of proposal_id)) a ok_only
  expect (eq (← item tally "votesAPPROVE") (int (pos 2)))
  expect (eq (← item tally "electorateSize") (int (pos 3)))
  print
      "PASS: LISTING and WANTED recorded with real indicative prices and per-party consent; editing a listing preserves its earlier observation untouched; a listing->proposal->agreement chain shares one economic lineage; tenant isolation holds; SuperAdmin cannot propose or vote on a community seed; double voting is rejected; a real vote over the real electorate reaches quorum and majority"

unfoldable pub enable_governance :
    Json → String → Json → Json → Json → Json → Json → Json → Json → Exec Unit
enable_governance admin base ana pedro carlos a p community definition_id = do
  gov ← pure (base <> "/references/governance/ordinary")
  for_each (ana ∷ pedro ∷ carlos ∷ []) (λ member. do
    send
        (gov
          <> "/members/"
          <> (← text_of community)
          <> "/"
          <> (← text_item (← item member "user") "id"))
        "POST" (dict []) a ok_only
    pure tt)
  send (gov <> "/settings/" <> (← text_of community)) "PUT"
      (dict (("enabled", bool Bool.true) ∷ [])) a ok_only
  send (gov <> "/policy/" <> (← text_of community)) "POST"
      (dict (
        ("quorumNumerator", int (pos 1))
        ∷ ("quorumDenominator", int (pos 2))
        ∷ ("approvalNumerator", int (pos 2))
        ∷ ("approvalDenominator", int (pos 3))
        ∷ ("votingWindowHours", int (pos 1))
        ∷ ("abstentionRule", str "COUNTS_TOWARD_QUORUM_NOT_APPROVAL")
        ∷ ("explanation", str "v0.1")
        ∷ []))
      a ok_only
  send (gov <> "/proposals/" <> (← text_of definition_id) <> "/seed") "POST"
      (dict (
        ("kind", str "VALUE")
        ∷ ("lowerValue", str "30")
        ∷ ("upperValue", str "30")
        ∷ ("rationale", str "x")
        ∷ ("basis", str "x")
        ∷ ("validDays", int (pos 90))
        ∷ []))
      admin (401 ∷ 403 ∷ 404 ∷ [])
  vote_on_seed admin a p definition_id gov
