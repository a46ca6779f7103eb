-- ===== src/E2e/Isolation/Refusals.antt =====
-- scripts/multitenant.py: what a run that passes has seen of one tenant's attempts on the other.
use stir_main.Base.{true, List, [], ◌∷◌, String, ℕ, inr, ◌≡◌, ◌≢◌, refl, ◌<>◌}
use stir_main.Base.Int.{pos}
use stir_main.Json.{Json, str, int, null}
use stir_main.Host.{Host, Trace}
use stir_main.Host.Exec.{ok, Exec, pure, ◌>>=◌}
use stir_main.Host.Passing.{FailsOr, after_bind, after_pure, after_unless}
use stir_main.Py.{eq, item, list, dict, expect, pick, text_item}
use stir_main.Smoke.{fetch, ok_only}
use stir_main.Smoke.Answers.{Call, Exchanged, after_request}
use stir_main.E2e.Isolation.RejectOne.{refuse_changes}

-- What an intruder would make of the listing.
abbrev intrusion : Json
intrusion = dict (
    ("direction", str "OFFER")
    ∷ ("title", str "Intrusion")
    ∷ ("description", str "Denied")
    ∷ ("category", str "general")
    ∷ ("resourceKind", str "service")
    ∷ ("version", int (pos 0))
    ∷ [])

abbrev closing : Json
closing = dict (("version", int (pos 0)) ∷ [])

-- What one tenant tries on the other: to see, change and close its listing under the own tenant's
-- path, to see its listings, and change and close that one under its path, and to see what a header
-- that names it gives under the own path.
abbrev pub attempts : String → String → String → String → List Call
attempts base foreign id tenant =
    (base <> "/" <> id, ("GET", (null, (404 ∷ [], []))))
    ∷ (base <> "/" <> id, ("PUT", (intrusion, (404 ∷ [], []))))
    ∷ (base <> "/" <> id <> "/close", ("POST", (closing, (404 ∷ [], []))))
    ∷ (foreign, ("GET", (null, (400 ∷ 403 ∷ 404 ∷ [], []))))
    ∷ (foreign <> "/" <> id, ("PUT", (intrusion, (400 ∷ 403 ∷ 404 ∷ [], []))))
    ∷ (foreign <> "/" <> id <> "/close", ("POST", (closing, (400 ∷ 403 ∷ 404 ∷ [], []))))
    ∷ (base, ("GET", (null, (400 ∷ 403 ∷ [], ("X-Tenant", tenant) ∷ []))))
    ∷ []

-- From this history on, the search of the session for the listing by its id finds nothing, and then the
-- attempts come in a row, each with the token of the session, and are all refused.
abbrev pub Refused : String → String → String → String → String → Host → Trace → Type 0
Refused session base foreign id tenant h t =
    (found content : Json) × ((fetch (base <> "?q=" <> id) (str session) ok_only h t).0 ≡ ok found)
    × (let searched = (fetch (base <> "?q=" <> id) (str session) ok_only h t).1 in
        ((item found "content" h searched).0 ≡ ok content)
        × (eq content (list []) ≡ true)
        × Exchanged session h (item found "content" h searched).1 (attempts base foreign id tenant))

module _ (listings : List Json) (other : ℕ) (l : Json) (id : String) (h : Host)
    (picked : pick other listings ≡ pure l) (named : text_item l "id" ≡ pure id) where
  -- The id of the listing is read again for each request.
  after_listing :
      {C A : Type 0} (f : String → Exec A) (t : Trace)
      → FailsOr C (f id h t)
      → FailsOr C ((pick other listings >>= λ x. text_item x "id" >>= f) h t)
  after_listing f t then_ = after_pure _ l _ h _ picked (after_pure _ id _ h _ named then_)

  -- Where the session of one tenant has a token that is not empty, and the other tenant's listing a text
  -- as its id, the attempts of the one on the other either fail the script, or its search by the id has
  -- found nothing, and the next seven requests, one after the other and each with that token as its
  -- bearer, were refused: to show, change and close the listing under the own tenant's path with 404, to
  -- list the other tenant's listings and to change and close the listing there with 400, 403 or 404, and
  -- to list under the own path with a header X-Tenant that names the other with 400 or 403.
  pub refuse_changes-Refused :
      (tenants : List String) (tenant : String) (sessions : List Json) (session : String)
      (base foreign : String) (t : Trace)
      → session ≢ ""
      → pick other tenants ≡ pure tenant
      → FailsOr
          (Refused session base foreign id tenant h t)
          (refuse_changes tenants sessions listings other (str session) base foreign h t)
  unfolding refuse_changes expect Exchanged
  refuse_changes-Refused tenants tenant sessions session base foreign t there chosen =
      after_listing _ _ (
        after_bind _ _ h _ (λ found got. after_bind _ _ h _ (λ content held.
          after_unless _ _ _ h _ (λ empty. after_listing _ _ (
            after_request h _ _ _ _ _ _ _ _ there (λ _ r1 shown. after_pure _ intrusion _ h _ refl (
              after_listing _ _ (
                after_request h _ _ _ _ _ _ _ _ there (λ _ r2 changed. after_listing _ _ (
                  after_request h _ _ _ _ _ _ _ _ there (λ _ r3 closed.
                    after_request h _ _ _ _ _ _ _ _ there (λ _ r4 listed. after_listing _ _ (
                      after_request h _ _ _ _ _ _ _ _ there (λ _ r5 changed_there.
                        after_listing _ _ (
                          after_request h _ _ _ _ _ _ _ _ there (λ _ r6 closed_there.
                            after_pure _ tenant _ h _ chosen (
                              after_request h _ _ _ _ _ _ _ _ there (λ _ r7 named_there. inr (
                                found,
                                content,
                                got,
                                (
                                  held,
                                  empty,
                                  (
                                    r1,
                                    shown,
                                    (
                                      r2,
                                      changed,
                                      (
                                        r3,
                                        closed,
                                        (
                                          r4,
                                          listed,
                                          (
                                            r5,
                                            changed_there,
                                            (r6, closed_there, (r7, named_there, tt)),
                                          ),
                                        ),
                                      ),
                                    ),
                                  ),
                                ),
                              )))))))))))))))))))
