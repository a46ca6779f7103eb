-- ===== src/Proxy.antt =====
-- scripts/audit_ostris_fault_proxy.py: a proxy in front of osTRIS that can be armed to spoil the
-- next commit. `next_mode` is passed from step to step; a handler thread reads and writes it in one
-- locked step, so an interleaving of threads is a sequence of such steps.
pub mod Number
pub mod Chunked
pub mod Arming
pub mod Forwarding
pub mod SentHeaders
mod Tests
use stir_main.Base.{
  ℕ, String, ◌<>◌, ◌=s=◌, Bool, true, false, ◌&&◌, ◌||◌, Option, none, some, List, [], ◌∷◌, map,
  if◌then◌else◌,
}
use stir_main.Base.Text.{starts_with, ends_with, after_last, lowers_to, codes_of, strip}
use stir_main.Base.Int.{ℤ, pos}
use stir_main.Proxy.Number.{parse_int}
use stir_main.Proxy.Chunked.{Read, got, value_error, out_of_rounds, read_bytes, read_chunked}

pub data Mode : Type 0 where
  normal unavailable_once timeout_once drop_after_once : Mode

abbrev pub Headers : Type 0
Headers = List (String × String)

-- A request as it comes in: the request line, the headers, and the bytes after them.
pub record Incoming : Type 0 where
  pub command : String
  pub path : String
  pub headers : Headers
  pub stream : List ℕ

-- What the proxy sends to osTRIS.
pub record Outgoing : Type 0 where
  pub url : String
  pub body : Option (List ℕ)
  pub headers : Headers
  pub method : String

-- What `urlopen` comes to: an answer, an `HTTPError` included, or another exception.
pub data Answer : Type 0 where
  answer : ℕ → List ℕ → String → Answer
  urlopen_raised : Answer

-- What the peer of the proxy gets: a response, the error page of `send_error`, a closed connection,
-- or nothing because an exception has ended the handler. `stuck` is a body read without an end.
pub data Outcome : Type 0 where
  response : ℕ → List ℕ → String → Outcome
  error_page : ℕ → Outcome
  cut_off : Outcome
  raised : Outcome
  stuck : Outcome

pub record Handled : Type 0 where
  pub forwarded : Option Outgoing
  pub slept : ℕ
  pub outcome : Outcome

abbrev pub at_once : Outcome → Handled
at_once o = record { forwarded = none; slept = 0; outcome = o }

-- `self.headers.get(name, default)`: the first header of that name, in any case. `name` is lower case.
unfoldable pub header : String → String → Headers → String
header name default [] = default
header name default ((k, v) ∷ hs) = if lowers_to k name then v else header name default hs

abbrev pub is_forwarded : String → Bool
is_forwarded k = lowers_to k "authorization" || lowers_to k "x-tenant" || lowers_to k "content-type"

-- `d[k] = v`: a key that is there keeps its place.
unfoldable pub set_key : String → String → Headers → Headers
set_key k v [] = (k, v) ∷ []
set_key k v ((j, w) ∷ d) = let rest = set_key k v d in if j =s= k then (j, v) ∷ d else (j, w) ∷ rest

-- The dict comprehension over `self.headers.items()`, from the entries that it has already: of two
-- headers of the same name the later one stays.
unfoldable pub kept_onto : Headers → Headers → Headers
unfolding set_key
kept_onto d [] = d
kept_onto d ((k, v) ∷ hs) = kept_onto (if is_forwarded k then set_key k v d else d) hs

abbrev pub kept_headers : Headers → Headers
kept_headers hs = kept_onto [] hs

-- `key.capitalize()` of a name that is forwarded.
abbrev pub capitalized : String → String
capitalized k =
    if lowers_to k "authorization"
    then "Authorization"
    else if lowers_to k "x-tenant"
    then "X-tenant"
    else "Content-type"

-- `Request(…, headers=d)` keeps the headers under their capitalized names.
unfoldable pub request_onto : Headers → Headers → Headers
unfolding set_key
request_onto d [] = d
request_onto d ((k, v) ∷ hs) = request_onto (set_key (capitalized k) v d) hs

abbrev pub sent_headers : Headers → Headers
sent_headers hs = request_onto [] (kept_headers hs)

abbrev length_of : Option ℤ → List ℕ → Read (Option (List ℕ))
length_of none s = value_error
length_of (some (pos ℕ.zero)) s = got none
length_of (some n) s = elim (read_bytes n s) [
  | got (body, rest) ↦ got (some body)
  | value_error ↦ value_error
  | out_of_rounds ↦ out_of_rounds
]

abbrev chunked_body : Read (List ℕ × List ℕ) → Read (Option (List ℕ))
chunked_body (got (body, rest)) = got (some body)
chunked_body value_error = value_error
chunked_body out_of_rounds = out_of_rounds

-- The body of a request. `Content-Length` is converted before the encoding is looked at.
pub read_body : Incoming → Read (Option (List ℕ))
read_body r = elim (parse_int 10 (codes_of (strip (header "content-length" "0" r.headers)))) [
  | none ↦ value_error
  | some n ↦
      if lowers_to (header "transfer-encoding" "" r.headers) "chunked"
      then chunked_body (read_chunked r.stream)
      else length_of (some n) r.stream
]

abbrev pub arming_prefix : String
arming_prefix = "/__audit/mode/"

mode_named : String → Option Mode
mode_named name =
    if name =s= "normal"
    then some normal
    else if name =s= "unavailable_once"
    then some unavailable_once
    else if name =s= "timeout_once"
    then some timeout_once
    else if name =s= "drop_after_once"
    then some drop_after_once
    else none

-- A request to arm the proxy.
arm : Mode → Option Mode → Mode × Handled
arm next none = (next, at_once (error_page 400))
arm next (some mode) = (mode, at_once (response 204 [] "application/json"))

abbrev deliver : Bool → Answer → Outcome
deliver drop urlopen_raised = raised
deliver true (answer status payload kind) = cut_off
deliver false (answer status payload kind) = response status payload kind

-- A request and what `urlopen` will come to if its handler calls it.
abbrev pub Exchange : Type 0
Exchange = (Outgoing → Answer) × Incoming

module _ (upstream : String) where
  abbrev pub outgoing : Incoming → Option (List ℕ) → Outgoing
  outgoing r body = record {
    url = upstream <> r.path;
    body = body;
    headers = sent_headers r.headers;
    method = r.command;
  }

  pub forward : Bool → Exchange → Handled
  forward drop (urlopen, r) = elim (read_body r) [
    | got body ↦ record {
      forwarded = some (outgoing r body);
      slept = 0;
      outcome = deliver drop (urlopen (outgoing r body));
    }
    | value_error ↦ at_once raised
    | out_of_rounds ↦ at_once stuck
  ]

  pub do_get : Exchange → Handled
  do_get x = forward false x

  -- `do_post` below the lock, in the mode that it has taken.
  pub in_mode : Mode → Exchange → Handled
  in_mode normal x = forward false x
  in_mode drop_after_once x = forward true x
  in_mode unavailable_once x = at_once (
      response 503
        (codes_of
          "{\"code\":\"AUDIT_UNAVAILABLE\",\"message\":\"Injected before upstream processing\"}")
        "application/json")
  in_mode timeout_once x = record {
    forwarded = none;
    slept = 25;
    outcome =
        response 503
          (codes_of
            "{\"code\":\"AUDIT_TIMEOUT\",\"message\":\"Injected before upstream processing\"}")
          "application/json";
  }

  pub do_post : Mode → Exchange → Mode × Handled
  unfolding arm mode_named
  do_post next (urlopen, r) =
      if starts_with r.path arming_prefix
      then arm next (mode_named (after_last b'/' r.path))
      else if ends_with r.path "/commit"
      then (normal, in_mode next (urlopen, r))
      else (next, in_mode normal (urlopen, r))

  -- The POST requests in the order in which their threads pass the lock.
  pub serve : Mode → List Exchange → Mode × List Handled
  serve next [] = (next, [])
  serve next (x ∷ xs) =
      let (after, handled) = do_post next x in
      let (last, rest) = serve after xs in (last, handled ∷ rest)
