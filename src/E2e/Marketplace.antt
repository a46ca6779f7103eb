-- ===== src/E2e/Marketplace.antt =====
-- scripts/marketplace_e2e.py: two participants reach an agreement, and the others are denied.
pub mod Contained
use stir_main.Base.{Bool, List, Option, String, [], ℕ, ◌<>◌, ◌==◌, ◌∷◌}
use stir_main.Base.Int.{pos, ℤ}
use stir_main.Compose.{sql}
use stir_main.Host.{token_urlsafe}
use stir_main.Host.Exec.{Exec, pure, ◌>>=◌, ◌>>◌}
use stir_main.Json.{Json, bool, int, null, str}
use stir_main.Py.{
  and_also, any_of, dict, draws, each_of, entry, eq, expect, is, item, last_entry, length_of, list,
  map_each, print, shown_item, strings, stripped_text, text_item, uuid4_hex,
}
use stir_main.Smoke.{fetch, ok_only, send}

abbrev pub permissions : List Json
permissions = strings (
    "stir.listings.read" ∷ "stir.listings.create" ∷ "stir.listings.update"
    ∷ "stir.participants.read" ∷ "stir.participants.update" ∷ "stir.negotiations.read"
    ∷ "stir.negotiations.create" ∷ "stir.negotiations.update" ∷ "stir.agreements.read" ∷ [])

unfoldable make_user : Json → String → Json → String → String → Exec Json
make_user admin tenant role_id label suffix = do
  email ← pure (label <> "-" <> suffix <> "@stir.test")
  password ← draws (token_urlsafe 32)
  base ← pure ("/api/shell/v1/tenants/" <> tenant)
  send (base <> "/users") "POST"
      (dict (
        ("email", str email)
        ∷ ("displayName", str label)
        ∷ ("authProvider", str "local")
        ∷ ("subject", str email)
        ∷ ("password", str password)
        ∷ ("role", str "member")
        ∷ ("enabled", bool Bool.true)
        ∷ []))
      admin (200 ∷ 201 ∷ [])
  session ←
      send "/api/shell/v1/auth/login" "POST"
        (dict (("email", str email) ∷ ("password", str password) ∷ [])) null ok_only
  send (base <> "/roles/users/" <> (← text_item (← item session "user") "id")) "PUT"
      (dict (("roleIds", list (role_id ∷ [])) ∷ [])) admin (204 ∷ [])
  send "/api/shell/v1/auth/login" "POST"
      (dict (("email", str email) ∷ ("password", str password) ∷ [])) null ok_only

unfoldable setup_tenant : Json → String → String → List String → Exec Json
setup_tenant admin tenant suffix labels = do
  role ← pure ("stir_marketplace_" <> suffix)
  created_role ←
      send ("/api/shell/v1/tenants/" <> tenant <> "/roles") "POST"
        (dict (
          ("key", str role)
          ∷ ("name", str "STIR marketplace E2E")
          ∷ ("description", str "Isolated development fixture")
          ∷ ("enabled", bool Bool.true)
          ∷ []))
        admin (200 ∷ 201 ∷ [])
  send
      (("/api/shell/v1/tenants/" <> tenant <> "/roles/")
        <> (← text_item created_role "id")
        <> "/permissions")
      "PUT" (list permissions) admin ok_only
  pure (
      dict
        (← map_each labels (λ label. do
          pure (label, (← make_user admin tenant (← item created_role "id") label suffix)))))

unfoldable deny : Json → Json → String → Json → Json → Json → Json → Json → Json → Exec Unit
deny carlos bea base_a listing negotiation agreement closed ana_agreement pedro_agreement = do
  expect (
      eq (← item (← item ana_agreement "snapshot") "digestSha256")
        (← item (← item pedro_agreement "snapshot") "digestSha256"))
  expect (
      eq (← item (← item pedro_agreement "snapshot") "digestSha256")
        (← item (← item agreement "snapshot") "digestSha256"))
  fetch (base_a <> "/listings/" <> (← text_item listing "id")) (← item carlos "accessToken") ok_only
  fetch (base_a <> ("/negotiations/" <> (← shown_item negotiation "id")))
      (← item carlos "accessToken") (404 ∷ [])
  fetch (base_a <> ("/agreements/" <> (← shown_item agreement "id"))) (← item carlos "accessToken")
      (404 ∷ [])
  send (base_a <> ("/negotiations/" <> (← shown_item negotiation "id") <> "/decline")) "POST"
      (dict (("expectedVersion", (← item closed "version")) ∷ [])) (← item carlos "accessToken")
      (400 ∷ 403 ∷ 404 ∷ 409 ∷ [])
  fetch (base_a <> "/listings/" <> (← text_item listing "id")) (← item bea "accessToken")
      (400 ∷ 403 ∷ 404 ∷ [])
  fetch (base_a <> ("/negotiations/" <> (← shown_item negotiation "id"))) (← item bea "accessToken")
      (400 ∷ 403 ∷ 404 ∷ [])
  fetch (base_a <> ("/agreements/" <> (← shown_item agreement "id"))) (← item bea "accessToken")
      (400 ∷ 403 ∷ 404 ∷ [])
  print
      "PASS: Ana/Pedro profile setup, listing publish/discovery, offer, counteroffer, accept, Agreement + AgreementSnapshot, both parties read identical digest."
  print
      "PASS: Carlos (same tenant, uninvolved) sees the public Listing but not the negotiation or agreement, and cannot act on it."
  print "PASS: Tenant B participant cannot see the listing, negotiation or agreement at all."

unfoldable agree : Json → Json → Json → Json → String → Json → Json → Exec Unit
agree ana pedro carlos bea base_a listing negotiation = do
  pedro_view ←
      fetch (base_a <> ("/negotiations/" <> (← shown_item negotiation "id")))
        (← item pedro "accessToken") ok_only
  head ← last_entry (← item pedro_view "offers")
  agreement ←
      send (base_a <> ("/negotiations/" <> (← shown_item negotiation "id") <> "/accept")) "POST"
        (dict (
          ("offerId", (← item head "id"))
          ∷ ("expectedVersion", (← item pedro_view "version"))
          ∷ []))
        (← item pedro "accessToken") ok_only
  expect (is (← item agreement "economicPhase") "AWAITING_ECONOMIC_EXECUTION")
  expect ((← length_of (← item (← item agreement "snapshot") "digestSha256")) == 64)
  expect (eq (← item agreement "listingId") (← item listing "id"))
  closed ←
      fetch (base_a <> ("/negotiations/" <> (← shown_item negotiation "id")))
        (← item ana "accessToken") ok_only
  expect (is (← item closed "status") "ACCEPTED")
  expect (eq (← item closed "agreementId") (← item agreement "id"))
  expect (is (← item (← last_entry (← item closed "offers")) "status") "ACCEPTED")
  ana_agreement ←
      fetch (base_a <> ("/agreements/" <> (← shown_item agreement "id"))) (← item ana "accessToken")
        ok_only
  pedro_agreement ←
      fetch (base_a <> ("/agreements/" <> (← shown_item agreement "id")))
        (← item pedro "accessToken") ok_only
  deny carlos bea base_a listing negotiation agreement closed ana_agreement pedro_agreement

unfoldable counter : Json → Json → Json → Json → String → Json → Json → Exec Unit
counter ana pedro carlos bea base_a listing negotiation = do
  ana_view ←
      fetch (base_a <> ("/negotiations/" <> (← shown_item negotiation "id")))
        (← item ana "accessToken") ok_only
  expect (eq (← item ana_view "id") (← item negotiation "id"))
  countered ←
      send (base_a <> ("/negotiations/" <> (← shown_item negotiation "id") <> "/offers")) "POST"
        (dict (
          ("message", str "I can do 20kg for that price")
          ∷ ("quantity", int (pos 20))
          ∷ ("unitLabel", str "kg")
          ∷ ("proposedAmount", str "10.00")
          ∷ ("terms", str "Pickup Saturday morning")
          ∷ ("expectedVersion", (← item ana_view "version"))
          ∷ []))
        (← item ana "accessToken") ok_only
  expect ((← length_of (← item countered "offers")) == 2)
  expect (is (← item (← entry (← item countered "offers") 0) "status") "SUPERSEDED")
  expect (
      eq (← item (← entry (← item countered "offers") 1) "authorId")
        (← item (← item ana "user") "id"))
  agree ana pedro carlos bea base_a listing negotiation

unfoldable negotiate : String → Json → Json → Json → Json → String → Exec Unit
negotiate suffix ana pedro carlos bea base_a = do
  listing ←
      send (base_a <> "/listings") "POST"
        (dict (
          ("direction", str "OFFER")
          ∷ ("title", str ("20kg tomatoes " <> suffix))
          ∷ ("description", str "Ripe San Marzano tomatoes")
          ∷ ("category", str "home")
          ∷ ("resourceKind", str "physical")
          ∷ ("location", str "Girona")
          ∷ []))
        (← item ana "accessToken") (201 ∷ [])
  found ← fetch (base_a <> ("/listings?q=" <> suffix)) (← item pedro "accessToken") ok_only
  expect
      (← any_of (← each_of (← item found "content")) (λ row. do
        pure
            (← and_also (do pure (eq (← item row "id") (← item listing "id")))
              (do pure (is (← item row "ownerDisplayName") ("Ana " <> suffix))))))
  public_view ←
      fetch (base_a <> "/participants/" <> (← text_item listing "ownerId"))
        (← item pedro "accessToken") ok_only
  expect (is (← item public_view "displayName") ("Ana " <> suffix))
  negotiation ←
      send (base_a <> ("/listings/" <> (← shown_item listing "id") <> "/offers")) "POST"
        (dict (
          ("message", str "I would like 15kg")
          ∷ ("quantity", int (pos 15))
          ∷ ("unitLabel", str "kg")
          ∷ ("proposedAmount", str "10.00")
          ∷ ("terms", str "Pickup Saturday")
          ∷ []))
        (← item pedro "accessToken") (201 ∷ [])
  expect (is (← item negotiation "status") "OPEN")
  expect ((← length_of (← item negotiation "offers")) == 1)
  expect (
      eq (← item (← entry (← item negotiation "offers") 0) "authorId")
        (← item (← item pedro "user") "id"))
  counter ana pedro carlos bea base_a listing negotiation

pub main : Exec Unit
main = do
  admin ←
      item
        (← send "/api/shell/v1/auth/login" "POST"
          (dict (
            ("email", str "admin@stir.test")
            ∷ ("password", str (← stripped_text ".local/secrets/login_password"))
            ∷ []))
          null ok_only)
        "accessToken"
  suffix ← uuid4_hex 10
  tenant_a ←
      sql
        ("select tenant_id from idax_core.tenant_create('stir-mkt-a-" <> suffix
          <> "', 'STIR Marketplace A', 'active', false);")
        Bool.false
  tenant_b ←
      sql
        ("select tenant_id from idax_core.tenant_create('stir-mkt-b-" <> suffix
          <> "', 'STIR Marketplace B', 'active', false);")
        Bool.false
  users_a ← setup_tenant admin tenant_a suffix ("ana" ∷ "pedro" ∷ "carlos" ∷ [])
  users_b ← setup_tenant admin tenant_b suffix ("bea" ∷ [])
  ana ← item users_a "ana"
  pedro ← item users_a "pedro"
  carlos ← item users_a "carlos"
  bea ← item users_b "bea"
  base_a ← pure ("/api/stir/tenants/" <> tenant_a)
  send (base_a <> "/participants/me") "PUT"
      (dict (
        ("displayName", str ("Ana " <> suffix))
        ∷ ("bio", str "Grows tomatoes")
        ∷ ("location", str "Girona")
        ∷ []))
      (← item ana "accessToken") ok_only
  send (base_a <> "/participants/me") "PUT"
      (dict (
        ("displayName", str ("Pedro " <> suffix))
        ∷ ("bio", str "Looks for fresh produce")
        ∷ ("location", str "Girona")
        ∷ []))
      (← item pedro "accessToken") ok_only
  negotiate suffix ana pedro carlos bea base_a
