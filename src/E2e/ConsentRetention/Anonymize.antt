-- ===== src/E2e/ConsentRetention/Anonymize.antt =====
-- scripts/consent_retention_e2e.py: anonymize.
use stir_main.Base.{Bool, List, String, [], ℕ, ◌++◌, ◌<>◌, ◌=s=◌, ◌∷◌}
use stir_main.Base.Int.{pos}
use stir_main.Compose.{sql}
use stir_main.E2e.EconomicExchange.Steps.{make_user, permissions}
use stir_main.Host.Exec.{Exec, pure, ◌>>=◌, ◌>>◌}
use stir_main.Json.{Json, bool, int, null, str}
use stir_main.Py.{
  dict, eq, expect, expect_or, float_from, get, is_null, item, last_entry, list, print, shown,
  shown_item, strings, stripped_text, text_item, uuid4_hex,
}
use stir_main.Py.Texts.{show_nat}
use stir_main.Smoke.{ok_only, send}

abbrev pub member_permissions : List Json
member_permissions =
    permissions
    ++ strings ("stir.references.read" ∷ "stir.references.propose" ∷ "stir.consent.manage" ∷ [])

abbrev pub publisher_permissions : List Json
publisher_permissions =
    member_permissions ++ strings ("stir.references.publish" ∷ "stir.retention.manage" ∷ [])

unfoldable pub role : Json → String → String → String → List Json → Exec Json
role admin suffix t key permissions = do
  base ← pure ("/api/shell/v1/tenants/" <> t <> "/roles")
  row ←
      send base "POST"
        (dict (
          ("key", str (key <> suffix))
          ∷ ("name", str key)
          ∷ ("description", str "Local consent/retention test")
          ∷ ("enabled", bool Bool.true)
          ∷ []))
        admin (200 ∷ 201 ∷ [])
  send (base <> "/" <> (← text_item row "id") <> "/permissions") "PUT" (list permissions) admin
      ok_only
  item row "id"

unfoldable pub fixtures : Exec (Json × String × String × Json × Json × Json × Json × Json)
fixtures = do
  admin ←
      item
        (← send "/api/shell/v1/auth/login" "POST"
          (dict (
            ("email", str "admin@stir.test")
            ∷ ("password", str (← stripped_text ".local/secrets/login_password"))
            ∷ []))
          null ok_only)
        "accessToken"
  suffix ← uuid4_hex 8
  tenant ←
      sql
        ("select tenant_id from idax_core.tenant_create('stir-cr-" <> suffix
          <> "','STIR ConsentRetention " <> suffix <> "','active',false);")
        Bool.false
  other ←
      sql
        ("select tenant_id from idax_core.tenant_create('stir-cr-b-" <> suffix
          <> "','STIR ConsentRetention B','active',false);")
        Bool.false
  publisher_role ← role admin suffix tenant "publisher" publisher_permissions
  member_role ← role admin suffix tenant "member" member_permissions
  b_role ← role admin suffix other "other" member_permissions
  ana ← make_user admin tenant publisher_role "ana" suffix
  sql
      ("update idax_core.tenant_user set role='admin' where tenant_id='"
        <> tenant
        <> "' and user_id='"
        <> (← shown_item (← item ana "user") "id")
        <> "';")
      Bool.false
  pedro ← make_user admin tenant member_role "pedro" suffix
  carlos ← make_user admin tenant member_role "carlos" suffix
  bea ← make_user admin other b_role "bea" suffix
  base ← pure ("/api/stir/tenants/" <> tenant)
  binding ←
      send (base <> "/economic/marketplace/bootstrap") "POST"
        (dict (
          ("communityName", str ("ConsentRetention " <> suffix))
          ∷ ("unitCode", str "CR")
          ∷ ("unitScale", int (pos 2))
          ∷ []))
        (← item ana "accessToken") ok_only
  pure (admin, tenant, base, ana, pedro, carlos, bea, binding)

unfoldable pub agree : Json → Json → String → Json → Json → String → Json → Json → Exec Json
agree p a base definition listing amount offeror_consent acceptor_consent = do
  n ←
      send (base <> "/listings/" <> (← text_item listing "id") <> "/offers") "POST"
        (dict (
          ("message", str "Offer")
          ∷ ("quantity", str "1")
          ∷ ("unitLabel", str "bundle")
          ∷ ("proposedAmount", str amount)
          ∷ ("proposedUnitRef", (← item definition "unit_ref"))
          ∷ ("shareReferenceObservation", offeror_consent)
          ∷ []))
        p (201 ∷ [])
  send (base <> "/negotiations/" <> (← text_item n "id") <> "/accept") "POST"
      (dict (
        ("offerId", (← item (← last_entry (← item n "offers")) "id"))
        ∷ ("expectedVersion", (← item n "version"))
        ∷ ("shareReferenceObservation", acceptor_consent)
        ∷ []))
      a ok_only

unfoldable pub backdate : String → Json → ℕ → Exec Unit
backdate tenant observation_id days = do
  sql
      ("set session_replication_role='replica'; update stir.reference_observation set observed_at=now()-interval '"
        <> show_nat days
        <> " days' where tenant_id='"
        <> tenant
        <> "' and id='"
        <> (← shown observation_id)
        <> "'; set session_replication_role='origin';")
      Bool.false
  pure tt

unfoldable pub anonymize : String → String → Json → Json → Exec Unit
anonymize tenant base a old_a_obs = do
  anonymized ←
      send
        (base
          <> "/references/retention/observation/"
          <> (← text_item old_a_obs "id")
          <> "/anonymize")
        "POST" (dict (("reason", str "retention window elapsed, no case ever opened") ∷ [])) a
        ok_only
  expect (is_null (← get anonymized "participant_a"))
  expect (is_null (← get anonymized "participant_b"))
  expect_or "amount/history preserved - only identifiers are removed"
      (eq (← float_from (← item anonymized "amount")) (int (pos 20)))
  send
      (base <> "/references/retention/observation/" <> (← text_item old_a_obs "id") <> "/anonymize")
      "POST" (dict (("reason", str "again") ∷ [])) a (409 ∷ [])
  expect (
      (← sql
        ("select count(*) from stir.retention_lifecycle_event where tenant_id='"
          <> tenant
          <> "' and observation_id='"
          <> (← shown_item old_a_obs "id")
          <> "';")
        Bool.false)
      =s= "1")
  print
      "PASS: bilateral consent granted and individually recorded per party; one-sided decline recorded but never eligible; only the consenting party can withdraw; withdrawal is idempotent and never rewrites aggregate_consent or the observation; tenant isolation holds for consent records; retention floor and SuperAdmin exclusion enforced; a market-integrity hold blocks anonymization even past the retention window; anonymization removes only participant identifiers, is audited, and cannot repeat"
