-- ===== src/E2e/Isolation/RejectOne.antt =====
-- scripts/multitenant.py: reject one.
use stir_main.Base.{List, String, [], ℕ, ◌-◌, ◌<>◌, ◌==◌, ◌∷◌}
use stir_main.Base.Int.{pos}
use stir_main.Host.Exec.{Exec, for_each, pure, ◌>>=◌, ◌>>◌}
use stir_main.Json.{Json, int, null, str}
use stir_main.Py.{
  dict, entry, eq, expect, item, length_of, list, map_each, merged, pick, plus_int, replaced,
  text_item,
}
use stir_main.Smoke.{fetch, ok_only, request, send}

unfoldable pub find_own : List Json → ℕ → Json → String → String → Exec Unit
find_own listings i token base the_query = do
  rows ← item (← fetch (base <> the_query) token ok_only) "content"
  expect ((← length_of rows) == 1)
  expect (eq (← item (← entry rows 0) "id") (← item (← pick i listings) "id"))

unfoldable pub refuse_changes :
    List String → List Json → List Json → ℕ → Json → String → String → Exec (List Json)
refuse_changes tenants sessions listings other token base foreign = do
  expect (
      eq
        (← item
          (← fetch (base <> "?q=" <> (← text_item (← pick other listings) "id")) token ok_only)
          "content")
        (list []))
  fetch (base <> "/" <> (← text_item (← pick other listings) "id")) token (404 ∷ [])
  payload ← pure (
      dict (
        ("direction", str "OFFER")
        ∷ ("title", str "Intrusion")
        ∷ ("description", str "Denied")
        ∷ ("category", str "general")
        ∷ ("resourceKind", str "service")
        ∷ ("version", int (pos 0))
        ∷ []))
  send (base <> "/" <> (← text_item (← pick other listings) "id")) "PUT" payload token (404 ∷ [])
  send (base <> "/" <> (← text_item (← pick other listings) "id") <> "/close") "POST"
      (dict (("version", int (pos 0)) ∷ [])) token (404 ∷ [])
  fetch foreign token (400 ∷ 403 ∷ 404 ∷ [])
  send (foreign <> "/" <> (← text_item (← pick other listings) "id")) "PUT" payload token
      (400 ∷ 403 ∷ 404 ∷ [])
  send (foreign <> "/" <> (← text_item (← pick other listings) "id") <> "/close") "POST"
      (dict (("version", int (pos 0)) ∷ [])) token (400 ∷ 403 ∷ 404 ∷ [])
  request base "GET" null token (400 ∷ 403 ∷ []) (("X-Tenant", (← pick other tenants)) ∷ [])
  send base "POST"
      (← merged payload (("ownerId", (← item (← item (← pick other sessions) "user") "id")) ∷ []))
      token (400 ∷ [])
  pure listings

unfoldable pub reject_one : String → List String → List Json → ℕ → List Json → Exec (List Json)
reject_one suffix tenants sessions i listings = do
  other ← pure (1 - i)
  token ← item (← pick i sessions) "accessToken"
  base ← pure ("/api/stir/tenants/" <> (← pick i tenants) <> "/listings")
  foreign ← pure ("/api/stir/tenants/" <> (← pick other tenants) <> "/listings")
  fetch (base <> "/" <> (← text_item (← pick i listings) "id")) token ok_only
  own_payload ← pure (
      dict
        (← map_each
          ("direction" ∷ "title" ∷ "description" ∷ "category" ∷ "resourceKind" ∷ "version" ∷ [])
          (λ key. do pure (key, (← item (← pick i listings) key)))))
  listings ← pure (
      replaced i
        (← send (base <> "/" <> (← text_item (← pick i listings) "id")) "PUT"
          (← merged own_payload (("description", str "Updated by its ordinary owner") ∷ [])) token
          ok_only)
        listings)
  expect (eq (← item (← pick i listings) "version") (← plus_int (← item own_payload "version") 1))
  for_each
      (""
        ∷ ("?q=" <> suffix)
        ∷ ("?category=general&resourceKind=service&status=ACTIVE&q=" <> suffix)
        ∷ [])
      (find_own listings i token base)
  refuse_changes tenants sessions listings other token base foreign
