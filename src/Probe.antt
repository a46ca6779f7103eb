-- ===== src/Probe.antt =====
-- scripts/audit_security_status_probe.py: the monitor that polls the auditor's security status and
-- turns the answer into an exit status.
mod Utf8
pub mod Verdict
pub mod Exit
mod Tests
unfoldable pub use Utf8.{decode_utf8}
use stir_main.Base.{ℕ, String, ◌==◌, ◌=s=◌, Bool, true, false, not, ◌&&◌, ◌||◌, Option, none, some}
use stir_main.Base.{List, [], ◌∷◌, all, if◌then◌else◌}
use stir_main.Base.Text.{is_space}
use stir_main.Base.Int.{ℤ, pos, lt_ℕ}
use stir_main.Json.{Json, object, Fields, lookup, Loaded, value, decode_error, other_error}
use stir_main.Json.{is_str, is_bool, is_int, int_of, str_of}

abbrev pub exit_clear : ℕ
exit_clear = 0

abbrev pub exit_critical : ℕ
exit_critical = 1

abbrev pub exit_unreachable : ℕ
exit_unreachable = 2

abbrev pub exit_invalid_response : ℕ
exit_invalid_response = 3

-- The places where `parse_security_status` raises `InvalidSecurityStatusResponse`.
pub data Reason : Type 0 where
  not_utf8 empty not_json not_object missing_state missing_count : Reason
  state_not_string : Json → Reason
  unrecognized_state : String → Reason
  count_not_integer : Json → Reason
  negative_count : ℤ → Reason
  clear_with_count critical_with_count : ℤ → Reason

-- The payload, an `InvalidSecurityStatusResponse`, or another exception that nothing here catches.
pub data Parsed : Type 0 where
  payload : Fields → Parsed
  invalid : Reason → Parsed
  escaped : Parsed

abbrev pub clear_state : String
clear_state = "CLEAR"

abbrev pub critical_state : String
critical_state = "CRITICAL_SECURITY_INCIDENT"

abbrev pub valid_state : String → Bool
valid_state s = s =s= clear_state || s =s= critical_state

-- The tests after both fields are known to be of the right type.
check_count : Fields → String → ℤ → Parsed
check_count d state count =
    if lt_ℕ count 0
    then invalid (negative_count count)
    else if state =s= clear_state && not (lt_ℕ count 1)
    then invalid (clear_with_count count)
    else if state =s= critical_state && lt_ℕ count 1
    then invalid (critical_with_count count)
    else payload d

check_count_field : Fields → String → Option Json → Parsed
check_count_field d state none = invalid missing_count
check_count_field d state (some c) =
    if is_bool c || not (is_int c)
    then invalid (count_not_integer c)
    else check_count d state (int_of c)

check_state_field : Fields → Option Json → Parsed
check_state_field d none = invalid missing_state
check_state_field d (some s) =
    if not (is_str s)
    then invalid (state_not_string s)
    else if not (valid_state (str_of s))
    then invalid (unrecognized_state (str_of s))
    else check_count_field d (str_of s) (lookup "openIncidentCount" d)

check_payload : Json → Parsed
check_payload (object d) = check_state_field d (lookup "securityState" d)
check_payload _ = invalid not_object

check_loaded : Loaded → Parsed
check_loaded (value j) = check_payload j
check_loaded decode_error = invalid not_json
check_loaded other_error = escaped

-- `urlopen(url).read()`: the body of a 2xx answer, one of the exceptions that `poll_once` catches,
-- or one that it does not (a malformed status line, a body cut short).
pub data Fetched : Type 0 where
  body : List ℕ → Fetched
  unreachable : Fetched
  fetch_escaped : Fetched

-- How a call ends: with a status, or with an exception that leaves the script.
pub data Outcome : Type 0 where
  status : ℕ → Outcome
  crashed : Outcome

-- `poll_once` after the parse. The payload is read by `d[k]`, which raises on a missing key.
pub verdict : Parsed → Outcome
verdict escaped = crashed
verdict (invalid _) = status exit_invalid_response
verdict (payload d) = elim (lookup "securityState" d) [
  | none ↦ crashed
  | some s ↦ status (if str_of s =s= critical_state then exit_critical else exit_clear)
]

-- `json.loads` of a text, given as code points.
module _ (loads : List ℕ → Loaded) where
  parse_text : Option (List ℕ) → Parsed
  parse_text none = invalid not_utf8
  parse_text (some text) = if all is_space text then invalid empty else check_loaded (loads text)

  pub parse_security_status : List ℕ → Parsed
  unfolding parse_text check_loaded check_payload check_state_field check_count_field check_count
  parse_security_status raw = parse_text (decode_utf8 raw)

  pub poll_once : Fetched → Outcome
  unfolding verdict
  poll_once (body raw) = verdict (parse_security_status raw)
  poll_once unreachable = status exit_unreachable
  poll_once fetch_escaped = crashed

-- `sys.exit(main())` without `--loop`: the interpreter exits with 1 on an exception.
pub exit_status : Outcome → ℕ
exit_status (status n) = n
exit_status crashed = 1

-- `main` with `--loop`, over the answers of as many polls: the codes of the polls, and whether an
-- exception has ended the loop, which nothing else does. `sleeps` says whether `time.sleep` takes the
-- interval; it raises on a negative one, on NaN and on one that is too large.
pub watch : Bool → (Fetched → Outcome) → List Fetched → List ℕ × Bool
watch sleeps poll [] = ([], false)
watch sleeps poll (f ∷ fs) = elim (poll f) [
  | crashed ↦ ([], true)
  | status n ↦
      let (codes, ended) = watch sleeps poll fs in
      if sleeps then (n ∷ codes, ended) else (n ∷ [], true)
]
