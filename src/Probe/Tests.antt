-- ===== src/Probe/Tests.antt =====
-- The probe at concrete bodies. `json.loads` is a table of three texts here.
use Prim.Native.Char.{code}
use stir_main.Base.{
  ℕ, String, ◌==◌, ◌≡◌, refl, ◌≤◌, ◌&&◌, Bool, true, false, none, some, List, [], ◌∷◌, All, length,
}
use stir_main.Base.{if◌then◌else◌}
use stir_main.Base.Text.{is_space}
use stir_main.Base.Int.{pos}
use stir_main.Json.{
  Json, str, bool, int, object, Fields, end, field, lookup, Loaded, value, decode_error,
  other_error,
}
use stir_main.Probe.{
  decode_utf8, Fetched, body, unreachable, status, crashed, exit_status, exit_clear, exit_critical,
  exit_invalid_response, parse_security_status, verdict, poll_once, watch,
}
use stir_main.Probe.Verdict.{ShowsClear, ShowsCritical, Shows, Answered, Escapes}
use stir_main.Probe.Exit.{
  exit_clear_iff, exit_critical_iff, exit_invalid_iff, escape_looks_critical, Fatal, watch_goes_on,
}

abbrev codes : String → List ℕ
codes String.[] = []
codes (String.◌∷◌ c s) = code c ∷ codes s

abbrev same : List ℕ → List ℕ → Bool
same [] [] = true
same (a ∷ as_) (b ∷ bs) = a == b && same as_ bs
same _ _ = false

abbrev payload_of : String → Json → Fields
payload_of state count = field "securityState" (str state) (field "openIncidentCount" count end)

abbrev loads : List ℕ → Loaded
loads text =
    if same text (codes "clear")
    then value (object (payload_of "CLEAR" (int (pos 0))))
    else if same text (codes "two")
    then value (object (payload_of "CRITICAL_SECURITY_INCIDENT" (int (pos 2))))
    else if same text (codes "true")
    then value (object (payload_of "CRITICAL_SECURITY_INCIDENT" (bool true)))
    else if same text (codes "deep")
    then other_error
    else decode_error

run : Fetched → ℕ
unfolding poll_once parse_security_status decode_utf8 is_space lookup verdict exit_status
run f = exit_status (poll_once loads f)

clear_run : run (body (codes "clear")) ≡ 0
unfolding run
clear_run = refl

critical_run : run (body (codes "two")) ≡ 1
unfolding run
critical_run = refl

bool_count : run (body (codes "true")) ≡ 3
unfolding run
bool_count = refl

blank_body : run (body (codes " \n")) ≡ 3
unfolding run
blank_body = refl

-- An overlong form and a lone surrogate are no UTF-8; three bytes of a euro sign are.
not_utf8 : run (body (0xc0 ∷ 0xaf ∷ [])) ≡ 3
unfolding run
not_utf8 = refl

surrogate : decode_utf8 (0xed ∷ 0xa0 ∷ 0x80 ∷ []) ≡ none
unfolding decode_utf8
surrogate = refl

euro : decode_utf8 (0xe2 ∷ 0x82 ∷ 0xac ∷ []) ≡ some (0x20ac ∷ [])
unfolding decode_utf8
euro = refl

abbrev clear_answer : (d : Fields) × Answered loads (body (codes "clear")) d × ShowsClear d
clear_answer = (
  payload_of "CLEAR" (int (pos 0)),
  record {
    raw = codes "clear";
    fetched = refl;
    carries = record {
      text = codes "clear";
      decoded = (unfold decode_utf8 in refl);
      written = (unfold is_space in refl);
      loaded = refl;
    };
  },
  record { state = (unfold lookup in refl); count = (unfold lookup in refl) },
)

exit_clear_iff_example : poll_once loads (body (codes "clear")) ≡ status exit_clear
exit_clear_iff_example = (exit_clear_iff loads (body (codes "clear"))).1 clear_answer

abbrev critical_answer : (d : Fields) × Answered loads (body (codes "two")) d × ShowsCritical d
critical_answer = (
  payload_of "CRITICAL_SECURITY_INCIDENT" (int (pos 2)),
  record {
    raw = codes "two";
    fetched = refl;
    carries = record {
      text = codes "two";
      decoded = (unfold decode_utf8 in refl);
      written = (unfold is_space in refl);
      loaded = refl;
    };
  },
  record { state = (unfold lookup in refl); open_incidents = 1; count = (unfold lookup in refl) },
)

exit_critical_iff_example : poll_once loads (body (codes "two")) ≡ status exit_critical
exit_critical_iff_example = (exit_critical_iff loads (body (codes "two"))).1 critical_answer

bool_rejected : poll_once loads (body (codes "true")) ≡ status exit_invalid_response
unfolding run
bool_rejected = refl

-- A count of `true` is no documented payload.
exit_invalid_iff_example : ¬ ((d : Fields) × Answered loads (body (codes "true")) d × Shows d)
exit_invalid_iff_example = ((exit_invalid_iff loads (body (codes "true"))).0 bool_rejected).3

abbrev deep : Escapes loads (codes "deep")
deep = record {
  text = codes "deep";
  decoded = (unfold decode_utf8 in refl);
  written = (unfold is_space in refl);
  loaded = refl;
}

escape_looks_critical_example :
    (poll_once loads (body (codes "deep")) ≡ crashed)
    × (exit_status (poll_once loads (body (codes "deep"))) ≡ exit_critical)
escape_looks_critical_example = escape_looks_critical loads (codes "deep") deep

not-Fatal : ¬ Fatal loads (body (codes "two"))
unfolding decode_utf8
not-Fatal (Fatal.load x) =
    let e : codes "two" ≡ x.text = cc x.decoded in
    let read : loads (codes "two") ≡ other_error = rw (← e) at x.loaded in cc

not-Fatal_gone : ¬ Fatal loads unreachable
not-Fatal_gone h = elim h [ ]

-- An interval that `time.sleep` refuses ends the loop after one poll.
refused_interval : watch false (poll_once loads) (unreachable ∷ unreachable ∷ []) ≡ (2 ∷ [], true)
unfolding watch poll_once
refused_interval = refl

watch_goes_on_example :
    let (codes, ended) = watch true (poll_once loads) (unreachable ∷ body (codes "two") ∷ []) in
    (ended ≡ false) × (length codes ≡ 2) × All (λ n. n ≤ exit_invalid_response) codes
watch_goes_on_example =
    watch_goes_on loads (unreachable ∷ body (codes "two") ∷ []) (not-Fatal_gone, (not-Fatal, tt))
