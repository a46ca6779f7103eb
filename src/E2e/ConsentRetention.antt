-- ===== src/E2e/ConsentRetention.antt =====
-- scripts/consent_retention_e2e.py: consent given, withdrawn and retained.
pub mod Contained
pub mod Anonymize
pub mod Withdraw
use stir_main.Base.{Bool, List, Option, String, [], not, ℕ, ◌++◌, ◌<>◌, ◌=s=◌, ◌∷◌}
use stir_main.Base.Int.{pos, ℤ}
use stir_main.Compose.{sql}
use stir_main.E2e.ConsentRetention.Anonymize.{
  agree, backdate, fixtures, member_permissions, publisher_permissions, role,
}
use stir_main.E2e.ConsentRetention.Withdraw.{withdraw}
use stir_main.E2e.EconomicExchange.Steps.{make_user, permissions}
use stir_main.Host.Exec.{Exec, pure, ◌>>=◌, ◌>>◌}
use stir_main.Json.{Json, bool, int, null, str}
use stir_main.Py.{
  dict, each_of, eq, expect, expect_or, float_from, get, is, is_false, is_null, is_true, item,
  last_entry, list, map_each, next_of, print, shown, shown_item, strings, stripped_text, text_item,
  text_of, uuid4_hex, within,
}
use stir_main.Py.Texts.{show_nat}
use stir_main.Smoke.{fetch, ok_only, send}

unfoldable consent_of_each :
    Json → String → String → Json → Json → Json → Json → Json → Json → String → Json → Exec Unit
consent_of_each admin tenant base carlos bea a p community definition ref listing = do
  bilateral ← agree p a base definition listing "10" (bool Bool.true) (bool Bool.true)
  observations ← fetch (ref <> "/observations") a ok_only
  bilateral_obs ←
      next_of (← each_of observations)
        (λ o. do pure (eq (← item o "source_id") (← item bilateral "id")))
  expect (is_true (← item bilateral_obs "aggregate_consent"))
  one_sided ← agree p a base definition listing "12" (bool Bool.true) (bool Bool.false)
  one_sided_obs ←
      next_of (← each_of (← fetch (ref <> "/observations") a ok_only))
        (λ o. do pure (eq (← item o "source_id") (← item one_sided "id")))
  expect (is_false (← item one_sided_obs "aggregate_consent"))
  expect_or "declined consent must still be recorded as a datum, never silently dropped" (
      (← sql
        ("select count(*) from stir.reference_observation where tenant_id='"
          <> tenant
          <> "' and id='"
          <> (← shown_item one_sided_obs "id")
          <> "';")
        Bool.false)
      =s= "1")
  pedro_consents ← fetch (base <> "/references/consent/mine") p ok_only
  pedro_consent ←
      next_of (← each_of pedro_consents)
        (λ c. do pure (eq (← item c "observation_id") (← item bilateral_obs "id")))
  expect (is (← item pedro_consent "status") "GRANT")
  ana_consents ← fetch (base <> "/references/consent/mine") a ok_only
  ana_consent ←
      next_of (← each_of ana_consents)
        (λ c. do pure (eq (← item c "observation_id") (← item bilateral_obs "id")))
  expect (is (← item ana_consent "status") "GRANT")
  withdraw admin tenant base carlos bea a p community definition ref listing bilateral_obs
      pedro_consent ana_consent

pub main : Exec Unit
main = do
  (admin, tenant, base, ana, pedro, carlos, bea, binding) ← fixtures
  a ← item ana "accessToken"
  p ← item pedro "accessToken"
  community ← item binding "communityId"
  definition ←
      send (base <> "/references") "POST"
        (dict (
          ("name", str "Firewood 10kg")
          ∷ ("scope", str "One 10kg bundle")
          ∷ ("attributes", dict (("weight", str "10kg") ∷ []))
          ∷ ("quantityBasis", str "1")
          ∷ ("quantityUnit", str "bundle")
          ∷ []))
        a ok_only
  ref ← pure (base <> "/references/" <> (← text_item definition "id"))
  listing ←
      send (base <> "/listings") "POST"
        (dict (
          ("direction", str "OFFER")
          ∷ ("title", str "Firewood with a reference")
          ∷ ("description", str "Test bundle")
          ∷ ("category", str "home")
          ∷ ("resourceKind", str "physical")
          ∷ ("referenceDefinitionId", (← item definition "id"))
          ∷ []))
        a (201 ∷ [])
  consent_of_each admin tenant base carlos bea a p community definition ref listing
