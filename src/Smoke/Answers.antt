-- ===== src/Smoke/Answers.antt =====
-- `request`: what a call that returns has seen of the stack.
use stir_main.Base.{
  eq_iff, some, ◌=s=◌, ap, sym, ◌∙◌, ◌∷◌, [], Bool, false, subst, ℕ, String, ◌<>◌, ◌≡◌, ◌≢◌, refl,
  true, List, inl, inr, Bool-cases, if◌then◌else◌, arith,
}
use stir_main.Json.{Json, str, null, bool, int, array, object, real}
use stir_main.Host.{Host, Trace, Reply, replied, unreachable, Request, requested}
use stir_main.Host.Passing.{bind_passes, bind_keeps, failed_passes, bind_goes, FailsOr, after_bind}
use stir_main.Host.Exec.{
  pure, raise, Exec, Failure, ◌>>=◌, steps, getenv, ok, exported_in, or_started_with,
}
use stir_main.Py.{text_of, truthy}
use stir_main.Smoke.Replies.{
  headers_for, headers-bearer, with_token-headers, header, header-set_header, judge-outcome,
}
use stir_main.Smoke.{
  set_header, Headers, request, set_headers, with_token, answered, urlopen, judge, base_or_default,
  allows,
}

-- Sent after this history, such a request is answered with one of the statuses.
pub record Answered (h : Host) (t : Trace) (path method : String) (body : Json) (session : String)
    (expected : List ℕ) (extra : Headers) (sent : Request) : Type 0 where
  pub url :
      sent.url
      ≡ base_or_default
          (or_started_with (exported_in "STIR_TEST_URL" t) (h.environ "STIR_TEST_URL"))
        <> path
  pub carries : (sent.method ≡ method) × (sent.body ≡ body)
  pub bearer : header "Authorization" sent.headers ≡ some ("Bearer " <> session)
  pub own :
      (k v : String)
      → extra ≡ (k, v) ∷ []
      → ("Authorization" =s= k) ≡ false
      → header k sent.headers ≡ some v
  pub status : ℕ
  pub text : String
  pub reply : h.web.urlopen t sent ≡ replied status text
  pub allowed : allows expected status ≡ true

text_of-keeps : (v : Json) (h : Host) (t : Trace) → (text_of v h t).1 ≡ t
unfolding text_of steps
text_of-keeps null h t = refl
text_of-keeps (bool b) h t = refl
text_of-keeps (int n) h t = refl
text_of-keeps (real x) h t = refl
text_of-keeps (str s) h t = refl
text_of-keeps (array vs) h t = refl
text_of-keeps (object fs) h t = refl

with_token-keeps :
    (token : Json) (hs : Headers) (h : Host) (t : Trace) → (with_token token hs h t).1 ≡ t
unfolding with_token steps
with_token-keeps token hs h t = elim (Bool-cases (truthy token)) [
  | inl there ↦
      rw there (bind_keeps (text_of token) _ h t (text_of-keeps token h t) (λ bearer. refl))
  | inr missing ↦ rw missing refl
]

ok-injective : {A : Type 0} (a b : A) → ok a ≡ ok b → a ≡ b
ok-injective a b same = ground arith

header-set_other :
    (k j v : String) (hs : Headers) → (k =s= j) ≡ false → header j (set_header k v hs) ≡ header j hs
unfolding header set_header
header-set_other k j v [] differs = rw differs refl
header-set_other k j v ((i, w) ∷ hs) differs = elim (Bool-cases (i =s= k)) [
  | inl same ↦
      let apart : (i =s= j) ≡ false =
        subst (λ x. (x =s= j) ≡ false) (sym ((eq_iff i k).0 same)) differs in
      rw same (rw apart refl)
  | inr other ↦
      rw other (ap (λ x. if i =s= j then some w else x) (header-set_other k j v hs differs))
]

with_token-carries :
    (token : Json) (hs headers : Headers) (h : Host) (t : Trace) (k : String)
    → (with_token token hs h t).0 ≡ ok headers
    → ("Authorization" =s= k) ≡ false
    → header k headers ≡ header k hs
unfolding with_token steps
with_token-carries token hs headers h t k made differs = elim (Bool-cases (truthy token)) [
  | inr missing ↦
      let plain : (with_token token hs h t).0 ≡ ok hs = rw missing refl in
      ap (header k) (ok-injective headers hs (sym made ∙ plain))
  | inl there ↦
      let setting : Exec Headers =
        text_of token >>= λ b. pure (set_header "Authorization" ("Bearer " <> b) hs) in
      let splits : (with_token token hs h t).0 ≡ (setting h t).0 = rw there refl in
      let (b, got, named) = bind_passes (text_of token) _ h t headers (sym splits ∙ made) in
      ap (header k)
        (sym (ok-injective (set_header "Authorization" ("Bearer " <> b) hs) headers named))
      ∙ header-set_other "Authorization" k ("Bearer " <> b) hs differs
]

answered-replied :
    (reply : Reply) (h : Host) (t : Trace) (n : ℕ) (s : String)
    → (answered reply h t).0 ≡ ok (n, s)
    → reply ≡ replied n s
unfolding answered steps
answered-replied (replied m r) h t n s got = ground arith
answered-replied unreachable h t n s got = absurd (failed_passes _ _ got)

allowed_if :
    (b : Bool) (m : Exec Json) (e : Failure) (h : Host) (t : Trace) (v : Json)
    → ((if b then m else raise e) h t).0 ≡ ok v
    → b ≡ true
unfolding steps
allowed_if true m e h t v passed = refl
allowed_if false m e h t v passed = absurd (failed_passes e v passed)

urlopen-replied :
    (r : Request) (h : Host) (t : Trace) (n : ℕ) (s : String)
    → (urlopen r h t).0 ≡ ok (n, s)
    → h.web.urlopen t r ≡ replied n s
unfolding urlopen answered steps
urlopen-replied r h t n s opened = answered-replied (h.web.urlopen t r) h _ n s opened

judge-allows :
    (method path : String) (expected : List ℕ) (n : ℕ) (s : String) (h : Host) (t : Trace)
    (v : Json)
    → (judge method path expected n s h t).0 ≡ ok v
    → allows expected n ≡ true
unfolding judge steps
judge-allows method path expected n s h t v passed = allowed_if (allows expected n) _ _ h t v passed

abbrev request_with : Host → Trace → String → String → Json → Headers → Request
request_with h t path method body headers = record {
  url =
      base_or_default (or_started_with (exported_in "STIR_TEST_URL" t) (h.environ "STIR_TEST_URL"))
      <> path;
  method = method;
  headers = headers;
  body = body;
}

answered-keeps : (reply : Reply) (h : Host) (t : Trace) → (answered reply h t).1 ≡ t
unfolding answered steps
answered-keeps (replied m r) h t = refl
answered-keeps unreachable h t = refl

urlopen-trace : (r : Request) (h : Host) (t : Trace) → (urlopen r h t).1 ≡ requested r ∷ t
unfolding urlopen steps
urlopen-trace r h t = answered-keeps (h.web.urlopen t r) h (requested r ∷ t)

pub request-Answered :
    (path method : String) (body : Json) (session : String) (expected : List ℕ) (extra : Headers)
    (h : Host) (t : Trace) (v : Json)
    → session ≢ ""
    → (request path method body (str session) expected extra h t).0 ≡ ok v
    → (sent : Request) × Answered h t path method body session expected extra sent
      × ((request path method body (str session) expected extra h t).1 ≡ requested sent ∷ t)
unfolding request getenv steps set_headers
request-Answered path method body session expected extra h t v there passed =
    let token : Json = str session in
    let hs = set_headers extra (("Content-Type", "application/json") ∷ []) in
    let kept = with_token-keeps token hs h t in
    let (headers, made, rest) = bind_passes (with_token token hs) _ h t v passed in
    let r = request_with h t path method body headers in
    let ask : Exec Json = urlopen r >>= λ x. judge method path expected x.0 x.1 in
    let ((n, text), opened, judged) =
      bind_passes (urlopen r) _ h t v (subst (λ u. (ask h u).0 ≡ ok v) kept rest) in
    (
      r,
      record {
        url = refl;
        carries = (refl, refl);
        bearer =
            ap (header "Authorization") (
              ok-injective headers (headers_for (some session) hs)
                (sym made ∙ ap (λ x. x.0) (with_token-headers (some session) hs h t)))
            ∙ headers-bearer session hs there;
        own = λ k w only differs.
            with_token-carries token hs headers h t k made differs
            ∙ ap (λ e. header k (set_headers e (("Content-Type", "application/json") ∷ []))) only
            ∙ header-set_header k w (("Content-Type", "application/json") ∷ []);
        status = n;
        text = text;
        reply = urlopen-replied r h t n text opened;
        allowed = judge-allows method path expected n text h _ v judged;
      },
      bind_goes (with_token token hs) _ h t headers made
          ∙ ap (λ u. (ask h u).1) kept
          ∙ bind_goes (urlopen r) (λ x. judge method path expected x.0 x.1) h t (n, text) opened
          ∙ ap (λ x. x.1) (judge-outcome method path expected n text h (urlopen r h t).1)
          ∙ urlopen-trace r h t,
    )

-- A call of `request`: path, method, body, the statuses that it expects and its own headers.
abbrev pub Call : Type 0
Call = String × (String × (Json × (List ℕ × Headers)))

-- These requests in a row, each with the session's token as its bearer, and each answered with a status
-- that it expects.
unfoldable pub Exchanged : String → Host → Trace → List Call → Type 0
Exchanged session h t [] = Unit
Exchanged session h t ((path, (method, (body, (expected, extra)))) ∷ calls) =
    (sent : Request) × Answered h t path method body session expected extra sent
    × Exchanged session h (requested sent ∷ t) calls

pub after_request :
    {C A : Type 0} (h : Host) (path method : String) (body : Json) (session : String)
    (expected : List ℕ) (extra : Headers) (f : Json → Exec A) (t : Trace)
    → session ≢ ""
    → ((v : Json) (sent : Request)
        → Answered h t path method body session expected extra sent
        → FailsOr C (f v h (requested sent ∷ t)))
    → FailsOr C ((request path method body (str session) expected extra >>= f) h t)
after_request {C} h path method body session expected extra f t there each =
    after_bind _ f h t (λ v went.
      let (sent, was_answered, trace) =
        request-Answered path method body session expected extra h t v there went in
      subst (λ u. FailsOr C (f v h u)) (sym trace) (each v sent was_answered))
