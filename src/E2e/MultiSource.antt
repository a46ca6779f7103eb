-- ===== src/E2e/MultiSource.antt =====
-- scripts/multi_source_value_evidence_e2e.py: listings, wanted posts and seeds as evidence of a value.
pub mod Contained
pub mod EnableGovernance
pub mod RecordListings
use stir_main.Base.{Bool, List, Option, String, [], ℕ, ◌++◌, ◌<>◌, ◌=s=◌, ◌∷◌}
use stir_main.Base.Int.{pos, ℤ}
use stir_main.Compose.{sql}
use stir_main.E2e.EconomicExchange.Steps.{make_user, permissions}
use stir_main.E2e.MultiSource.EnableGovernance.{
  fixtures, member_permissions, publisher_permissions, role,
}
use stir_main.E2e.MultiSource.RecordListings.{record_listings}
use stir_main.Host.Exec.{Exec, for_each, pure, ◌>>=◌, ◌>>◌}
use stir_main.Json.{Json, bool, int, null, str}
use stir_main.Py.{
  dict, each_of, eq, expect, expect_or, is, is_true, item, last_entry, list, next_of, print, shown,
  shown_item, strings, stripped_text, text_item, text_of, uuid4_hex,
}
use stir_main.Py.Texts.{split_at}
use stir_main.Smoke.{fetch, ok_only, send}

pub main : Exec Unit
main = do
  (admin, tenant, base, ana, pedro, carlos, bea, binding) ← fixtures
  a ← item ana "accessToken"
  p ← item pedro "accessToken"
  community ← item binding "communityId"
  definition ←
      send (base <> "/references") "POST"
        (dict (
          ("name", str "Wool 1kg")
          ∷ ("scope", str "One kilogram of raw wool")
          ∷ ("attributes", dict [])
          ∷ ("quantityBasis", str "1")
          ∷ ("quantityUnit", str "kg")
          ∷ []))
        a ok_only
  definition_id ← item definition "id"
  ref ← pure (base <> "/references/" <> (← text_of definition_id))
  policy ←
      send (base <> "/references/" <> (← text_of definition_id) <> "/policies") "POST"
        (dict (
          ("windowDays", int (pos 90))
          ∷ ("minimumObservations", int (pos 5))
          ∷ ("minimumParticipants", int (pos 6))
          ∷ ("maximumParticipantShare", str "0.40")
          ∷ ("freshnessDays", int (pos 30))
          ∷ ("explanation", str "Enable listing/wanted sources")
          ∷ ("listingSourceEnabled", bool Bool.true)
          ∷ ("wantedSourceEnabled", bool Bool.true)
          ∷ []))
        a ok_only
  expect (is_true (← item policy "listing_source_enabled"))
  expect (is_true (← item policy "wanted_source_enabled"))
  record_listings admin tenant base ana pedro carlos bea a p community definition definition_id ref
