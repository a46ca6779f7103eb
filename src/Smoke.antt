-- ===== src/Smoke.antt =====
-- scripts/smoke.py: the request helper that all the end-to-end scripts share.
pub mod Sending
pub mod Replies
pub mod Answers
mod Tests
use stir_main.Base.{
  ℕ, String, ◌<>◌, ◌=s=◌, ◌==◌, Bool, Option, none, some, List, [], ◌∷◌, if◌then◌else◌,
}
use stir_main.Json.{Json, null}
use stir_main.Py.{truthy, text_of, loads}
use stir_main.Host.{Request, Reply, replied, unreachable, requested}
use stir_main.Host.Exec.{
  Exec, Failure, pure, raise, getenv, query, ◌>>=◌, os_error, unexpected_reply,
}

-- `BASE`, which the environment may name.
abbrev base_or_default : Option String → String
base_or_default none = "http://localhost:8089"
base_or_default (some url) = url

abbrev pub Headers : Type 0
Headers = List (String × String)

-- `headers[k] = v`.
pub set_header : String → String → Headers → Headers
set_header k v [] = (k, v) ∷ []
set_header k v ((j, w) ∷ rest) = if j =s= k then (j, v) ∷ rest else (j, w) ∷ set_header k v rest

-- `headers.update(extra)`.
set_headers : Headers → Headers → Headers
unfolding set_header
set_headers [] headers = headers
set_headers ((k, v) ∷ extra) headers = set_headers extra (set_header k v headers)

pub with_token : Json → Headers → Exec Headers
unfolding set_header
with_token token headers =
    if truthy token
    then (do
      bearer ← text_of token
      pure (set_header "Authorization" ("Bearer " <> bearer) headers))
    else pure headers

-- The status and the body, of an error status too.
answered : Reply → Exec (ℕ × String)
answered (replied status text) = pure (status, text)
answered unreachable = raise os_error

urlopen : Request → Exec (ℕ × String)
unfolding answered
urlopen req = do reply ← query (requested req) (λ h t. h.web.urlopen t req); answered reply

unfoldable pub allows : List ℕ → ℕ → Bool
allows [] status = Bool.false
allows (n ∷ ns) status = if n == status then Bool.true else allows ns status

pub judge : String → String → List ℕ → ℕ → String → Exec Json
judge method path expected status text =
    if allows expected status
    then (if text =s= "" then pure null else loads text)
    else raise (unexpected_reply method path expected status text)

-- `token` and `body` are `null` where the call leaves them out.
pub request : String → String → Json → Json → List ℕ → Headers → Exec Json
unfolding set_headers with_token urlopen judge
request path method body token expected extra = do
  base ← getenv "STIR_TEST_URL"
  headers ← with_token token (set_headers extra (("Content-Type", "application/json") ∷ []))
  (status, text) ← urlopen (record {
    url = base_or_default base <> path;
    method = method;
    headers = headers;
    body = body;
  })
  judge method path expected status text

abbrev pub ok_only : List ℕ
ok_only = 200 ∷ []

-- The calls that pass no headers of their own.
abbrev pub send : String → String → Json → Json → List ℕ → Exec Json
send path method body token expected = request path method body token expected []

abbrev pub fetch : String → Json → List ℕ → Exec Json
fetch path token expected = request path "GET" null token expected []
