-- ===== src/Smoke/Replies.antt =====
-- `request`: what it sends, and what it makes of every answer.
use stir_main.Base.{
  ℕ, String, ◌<>◌, ◌=s=◌, ◌≡◌, refl, ◌≢◌, Option, none, some, List, [], ◌∷◌, inl, inr, Bool-cases,
  eq_iff, eq_refl, if◌then◌else◌,
}
use stir_main.Json.{Json, null, str, Loaded, value, decode_error, other_error}
use stir_main.Host.{Host, Trace, Reply, replied, unreachable, Request, requested}
use stir_main.Host.Exec.{
  steps, Result, ok, fail, os_error, value_error, runtime_error, unexpected_reply, exported_in,
  or_started_with,
}
use stir_main.Py.{text_of, truthy, loads}
use stir_main.Py.Library.{loaded_or_raise}
use stir_main.Smoke.{
  Headers, request, set_header, set_headers, with_token, answered, urlopen, judge, base_or_default,
  allows,
}

-- The value that a header has.
unfoldable pub header : String → Headers → Option String
header k [] = none
header k ((j, v) ∷ rest) = if j =s= k then some v else header k rest

-- A call's `token`, `None` or a text.
abbrev pub token_of : Option String → Json
token_of none = null
token_of (some s) = str s

abbrev pub loaded : Loaded → Result Json
loaded (value v) = ok v
loaded decode_error = fail value_error
loaded other_error = fail (runtime_error "json.loads")

-- What the caller gets for each answer.
abbrev pub outcome : (String → Loaded) → String → String → List ℕ → Reply → Result Json
outcome read_json method path expected unreachable = fail os_error
outcome read_json method path expected (replied n text) =
    if allows expected n
    then (if text =s= "" then ok null else loaded (read_json text))
    else fail (unexpected_reply method path expected n text)

-- The request that a call sends.
pub record Sent (h : Host) (t : Trace) (path method : String) (body : Json) (token : Option String)
    (extra : Headers) (r : Request) : Type 0 where
  pub url :
      r.url
      ≡ base_or_default
          (or_started_with (exported_in "STIR_TEST_URL" t) (h.environ "STIR_TEST_URL"))
        <> path
  pub carries : (r.method ≡ method) × (r.body ≡ body)
  pub bearer :
      (s : String)
      → token ≡ some s
      → s ≢ ""
      → header "Authorization" r.headers ≡ some ("Bearer " <> s)
  pub typed : extra ≡ [] → header "Content-Type" r.headers ≡ some "application/json"

pub header-set_header : (k v : String) (hs : Headers) → header k (set_header k v hs) ≡ some v
unfolding header set_header
header-set_header k v [] = rw (eq_refl k) refl
header-set_header k v ((j, w) ∷ rest) = elim (Bool-cases (j =s= k)) [
  | inl there ↦ rw there (rw there refl)
  | inr other ↦ rw other (rw other (header-set_header k v rest))
]

abbrev defaults : Headers
defaults = ("Content-Type", "application/json") ∷ []

-- The headers of a call with a token, or without.
abbrev pub headers_for : Option String → Headers → Headers
headers_for none hs = hs
headers_for (some s) hs = if s =s= "" then hs else set_header "Authorization" ("Bearer " <> s) hs

pub with_token-headers :
    (token : Option String) (hs : Headers) (h : Host) (t : Trace)
    → with_token (token_of token) hs h t ≡ (ok (headers_for token hs), t)
unfolding steps with_token truthy text_of
with_token-headers none hs h t = refl
with_token-headers (some s) hs h t = elim (Bool-cases (s =s= "")) [
  | inl blank ↦ rw blank refl
  | inr there ↦ rw there refl
]

pub headers-bearer :
    (s : String) (hs : Headers)
    → s ≢ ""
    → header "Authorization" (headers_for (some s) hs) ≡ some ("Bearer " <> s)
headers-bearer s hs there = elim (Bool-cases (s =s= "")) [
  | inl blank ↦ absurd (there ((eq_iff s "").0 blank))
  | inr other ↦ rw other (header-set_header "Authorization" ("Bearer " <> s) hs)
]

headers-typed :
    (token : Option String)
    → header "Content-Type" (headers_for token defaults) ≡ some "application/json"
unfolding header set_header
headers-typed none = refl
headers-typed (some s) = elim (Bool-cases (s =s= "")) [
  | inl blank ↦ rw blank refl
  | inr other ↦ rw other refl
]

loaded_or_raise-loaded : (l : Loaded) (h : Host) (t : Trace) → loaded_or_raise l h t ≡ (loaded l, t)
unfolding steps loaded_or_raise
loaded_or_raise-loaded (value v) h t = refl
loaded_or_raise-loaded decode_error h t = refl
loaded_or_raise-loaded other_error h t = refl

pub judge-outcome :
    (method path : String) (expected : List ℕ) (n : ℕ) (text : String) (h : Host) (t : Trace)
    → judge method path expected n text h t
      ≡ (outcome h.web.loads method path expected (replied n text), t)
unfolding steps judge loads
judge-outcome method path expected n text h t = elim (Bool-cases (allows expected n)) [
  | inr refused ↦ rw refused refl
  | inl allowed ↦ elim (Bool-cases (text =s= "")) [
    | inl blank ↦ rw (allowed, blank) refl
    | inr there ↦ rw (allowed, there) (loaded_or_raise-loaded (h.web.loads text) h t)
  ]
]

module _ (path method : String) (body : Json) (token : Option String) (expected : List ℕ)
    (extra : Headers) (h : Host) (t : Trace) where
  abbrev url_at : String
  url_at =
      base_or_default (or_started_with (exported_in "STIR_TEST_URL" t) (h.environ "STIR_TEST_URL"))
      <> path

  abbrev request_for : Request
  request_for = record {
    url = url_at;
    method = method;
    headers = headers_for token (set_headers extra defaults);
    body = body;
  }

  after_urlopen :
      (reply : Reply)
      → h.web.urlopen t request_for ≡ reply
      → request path method body (token_of token) expected extra h t
        ≡ (outcome h.web.loads method path expected reply, requested request_for ∷ t)
  unfolding steps request urlopen answered
  after_urlopen unreachable said =
      rw (with_token-headers token (set_headers extra defaults) h t, said) refl
  after_urlopen (replied n text) said =
      rw (with_token-headers token (set_headers extra defaults) h t, said)
        (judge-outcome method path expected n text h _)

  -- A call with no token or a text as its token sends exactly one request: to the path under the
  -- base URL, with the method and the body of the call, as JSON unless the call has headers of its
  -- own, with the token as its bearer where that is not empty. It returns the JSON value of the
  -- body, or `None` for an empty body, exactly if the status is one that it expects; any other
  -- status, no answer and a body that is no JSON raise.
  pub request_sends :
      (r : Request) × Sent h t path method body token extra r
      × (request path method body (token_of token) expected extra h t
          ≡ (outcome h.web.loads method path expected (h.web.urlopen t r), requested r ∷ t))
  unfolding set_headers
  request_sends = (
    request_for,
    record {
      url = refl;
      carries = (refl, refl);
      bearer = λ s is_s there. rw is_s (headers-bearer s _ there);
      typed = λ plain. rw plain (headers-typed token);
    },
    after_urlopen (h.web.urlopen t request_for) refl,
  )
