-- ===== src/Probe/Verdict.antt =====
-- Which answers of the endpoint lead to which exit status of the probe.
use stir_main.Base.{
  ℕ, String, zero, suc, ◌≡◌, refl, ap, subst, ◌∙◌, ◌≢◌, ◌⊎◌, inl, inr, true, false, Option, none,
  some,
}
use stir_main.Base.{List, all, arith, eq_iff, eq_refl, Bool-cases}
use stir_main.Base.Text.{is_space}
use stir_main.Base.Int.{pos, negsuc}
use stir_main.Json.{
  Json, str_of, str, bool, int, null, object, Fields, lookup, Loaded, value, decode_error,
  other_error,
}
use stir_main.Probe.{
  decode_utf8, Parsed, payload, invalid, escaped, Fetched, body, status, clear_state,
  critical_state, exit_clear, exit_critical, exit_invalid_response, check_count, check_count_field,
  check_state_field, check_payload, check_loaded, parse_text, parse_security_status, verdict,
  poll_once, valid_state,
}

-- The two payloads of the documented contract.
pub record ShowsClear (d : Fields) : Type 0 where
  pub state : lookup "securityState" d ≡ some (str clear_state)
  pub count : lookup "openIncidentCount" d ≡ some (int (pos 0))

pub record ShowsCritical (d : Fields) : Type 0 where
  pub state : lookup "securityState" d ≡ some (str critical_state)
  pub open_incidents : ℕ
  pub count : lookup "openIncidentCount" d ≡ some (int (pos (suc open_incidents)))

-- What the accepted payloads are.
abbrev pub Shows : Fields → Type 0
Shows d = ShowsClear d ⊎ ShowsCritical d

valid_state-cases : (s : String) → valid_state s ≡ true → (s ≡ clear_state) ⊎ (s ≡ critical_state)
valid_state-cases s h = ground (arith, eq_iff s clear_state, eq_iff s critical_state)

count-Shows :
    (d : Fields) (s : String) (c : Json) (e : Fields)
    → lookup "securityState" d ≡ some (str s)
    → lookup "openIncidentCount" d ≡ some c
    → valid_state s ≡ true
    → check_count_field d s (some c) ≡ payload e
    → (d ≡ e) × Shows d
unfolding check_count_field check_count
count-Shows d s (int (pos zero)) e hs hc v h = elim (valid_state-cases s v) [
  | inl clear ↦ (ground arith, inl (record { state = rw clear at hs; count = hc }))
  | inr critical ↦
      absurd (ground (arith, eq_iff s clear_state, eq_iff s critical_state, eq_refl critical_state))
]
count-Shows d s (int (pos (suc n))) e hs hc v h = elim (valid_state-cases s v) [
  | inl clear ↦
      absurd (ground (arith, eq_iff s clear_state, eq_iff s critical_state, eq_refl clear_state))
  | inr critical ↦
      (ground arith, inr (record { state = rw critical at hs; open_incidents = n; count = hc }))
]
count-Shows d s (int (negsuc n)) e hs hc v h = ground arith
count-Shows d s (bool b) e hs hc v h = ground arith
count-Shows d s _ e hs hc v h = ground arith

count_field-Shows :
    (d : Fields) (s : String) (c : Option Json) (e : Fields)
    → lookup "securityState" d ≡ some (str s)
    → lookup "openIncidentCount" d ≡ c
    → valid_state s ≡ true
    → check_count_field d s c ≡ payload e
    → (d ≡ e) × Shows d
unfolding check_count_field
count_field-Shows d s none e hs hc v h = cc
count_field-Shows d s (some c) e hs hc v h = count-Shows d s c e hs hc v h

state_field-Shows :
    (d : Fields) (s : Option Json) (e : Fields)
    → lookup "securityState" d ≡ s
    → check_state_field d s ≡ payload e
    → (d ≡ e) × Shows d
unfolding check_state_field
state_field-Shows d none e hs h = cc
state_field-Shows d (some (str s)) e hs h = elim (Bool-cases (valid_state s)) [
  | inl v ↦ count_field-Shows d s _ e hs refl v (ground arith)
  | inr v ↦ absurd (ground arith)
]
state_field-Shows d (some _) e hs h = cc

-- Only the two documented payloads are accepted.
check_payload_sound :
    (j : Json) (e : Fields) → check_payload j ≡ payload e → (j ≡ object e) × Shows e
unfolding check_payload
check_payload_sound (object d) e h =
    let (same, shows) = state_field-Shows d _ e refl h in (ap object same, subst Shows same shows)
check_payload_sound null e h = cc
check_payload_sound _ e h = cc

-- Both of them are.
check_payload_complete : (d : Fields) → Shows d → check_payload (object d) ≡ payload d
unfolding check_payload check_state_field check_count_field check_count
check_payload_complete d (inl clear) = rw (clear.state, clear.count) refl
check_payload_complete d (inr critical) = rw (critical.state, critical.count) (ground arith)

pub verdict_clear : (d : Fields) → ShowsClear d → verdict (payload d) ≡ status exit_clear
unfolding verdict
verdict_clear d clear = rw (clear.state, verdict) refl

pub verdict_critical : (d : Fields) → ShowsCritical d → verdict (payload d) ≡ status exit_critical
unfolding verdict
verdict_critical d critical = rw (critical.state, verdict) refl

module _ (loads : List ℕ → Loaded) where
  -- The body is a text that is not blank and that `json.loads` reads as the object `d`.
  pub record Carries (raw : List ℕ) (d : Fields) : Type 0 where
    pub text : List ℕ
    pub decoded : decode_utf8 raw ≡ some text
    pub written : all is_space text ≡ false
    pub loaded : loads text ≡ value (object d)

  loaded_sound :
      (raw text : List ℕ) (l : Loaded) (d : Fields)
      → decode_utf8 raw ≡ some text
      → all is_space text ≡ false
      → loads text ≡ l
      → check_loaded l ≡ payload d
      → Carries raw d × Shows d
  unfolding check_loaded
  loaded_sound raw text (value j) d e w l h =
      let (same, shows) = check_payload_sound j d h in
      (record { text = text; decoded = e; written = w; loaded = l ∙ ap value same }, shows)
  loaded_sound raw text decode_error d e w l h = cc
  loaded_sound raw text other_error d e w l h = cc

  text_sound :
      (raw : List ℕ) (o : Option (List ℕ)) (d : Fields)
      → decode_utf8 raw ≡ o
      → parse_text loads o ≡ payload d
      → Carries raw d × Shows d
  unfolding parse_text
  text_sound raw none d e h = cc
  text_sound raw (some text) d e h = elim (Bool-cases (all is_space text)) [
    | inl blank ↦ absurd (ground arith)
    | inr written ↦ loaded_sound raw text _ d e written refl (ground arith)
  ]

  parse_sound :
      (raw : List ℕ) (d : Fields)
      → parse_security_status loads raw ≡ payload d
      → Carries raw d × Shows d
  unfolding parse_security_status
  parse_sound raw d h = text_sound raw _ d refl h

  parse_complete :
      (raw : List ℕ) (d : Fields)
      → Carries raw d
      → Shows d
      → parse_security_status loads raw ≡ payload d
  unfolding parse_security_status parse_text check_loaded
  parse_complete raw d c shows =
      rw (c.decoded, c.written, c.loaded) (check_payload_complete d shows)

  -- The endpoint answered with the payload `d`.
  pub record Answered (f : Fetched) (d : Fields) : Type 0 where
    pub raw : List ℕ
    pub fetched : f ≡ body raw
    pub carries : Carries raw d

  pub poll_answered :
      (f : Fetched) (d : Fields) → Answered f d → Shows d → poll_once loads f ≡ verdict (payload d)
  unfolding poll_once
  poll_answered f d a shows =
      rw (a.fetched, poll_once) (ap verdict (parse_complete a.raw d a.carries shows))

  pub poll_cases :
      (raw : List ℕ) (p : Parsed)
      → parse_security_status loads raw ≡ p
      → ((d : Fields) × (p ≡ payload d) × Answered (body raw) d × Shows d)
        ⊎ ((verdict p ≡ status exit_invalid_response) ⊎ (p ≡ escaped))
  unfolding verdict
  poll_cases raw (payload d) e =
      let (c, shows) = parse_sound raw d e in
      inl (d, refl, record { raw = raw; fetched = refl; carries = c }, shows)
  poll_cases raw (invalid r) e = inr (inl refl)
  poll_cases raw escaped e = inr (inr refl)

  -- The body is a text, not blank, on which `json.loads` raises something other than a
  -- `JSONDecodeError`.
  pub record Escapes (raw : List ℕ) : Type 0 where
    pub text : List ℕ
    pub decoded : decode_utf8 raw ≡ some text
    pub written : all is_space text ≡ false
    pub loaded : loads text ≡ other_error

  pub parse_escaped : (raw : List ℕ) → Escapes raw → parse_security_status loads raw ≡ escaped
  unfolding parse_security_status parse_text check_loaded
  parse_escaped raw x = rw (x.decoded, x.written, x.loaded) refl

count_field-ne-escaped :
    (d : Fields) (s : String) (c : Option Json) → check_count_field d s c ≢ escaped
unfolding check_count_field check_count
count_field-ne-escaped d s c h = ground arith

state_field-ne-escaped : (d : Fields) (s : Option Json) → check_state_field d s ≢ escaped
unfolding check_state_field
state_field-ne-escaped d none h = cc
state_field-ne-escaped d (some s) h =
    ground (arith, count_field-ne-escaped d (str_of s) (lookup "openIncidentCount" d))

check_payload-ne-escaped : (j : Json) → check_payload j ≢ escaped
unfolding check_payload
check_payload-ne-escaped (object d) h = state_field-ne-escaped d _ h
check_payload-ne-escaped null h = cc
check_payload-ne-escaped _ h = cc

module _ (loads : List ℕ → Loaded) where
  loaded_escaped :
      (raw text : List ℕ) (l : Loaded)
      → decode_utf8 raw ≡ some text
      → all is_space text ≡ false
      → loads text ≡ l
      → check_loaded l ≡ escaped
      → Escapes loads raw
  unfolding check_loaded
  loaded_escaped raw text (value j) e w l h = absurd (check_payload-ne-escaped j h)
  loaded_escaped raw text decode_error e w l h = absurd (cc)
  loaded_escaped raw text other_error e w l h = record {
    text = text;
    decoded = e;
    written = w;
    loaded = l;
  }

  text_escaped :
      (raw : List ℕ) (o : Option (List ℕ))
      → decode_utf8 raw ≡ o
      → parse_text loads o ≡ escaped
      → Escapes loads raw
  unfolding parse_text
  text_escaped raw none e h = absurd (cc)
  text_escaped raw (some text) e h = elim (Bool-cases (all is_space text)) [
    | inl blank ↦ absurd (ground arith)
    | inr written ↦ loaded_escaped raw text _ e written refl (ground arith)
  ]

  pub escaped_parse : (raw : List ℕ) → parse_security_status loads raw ≡ escaped → Escapes loads raw
  unfolding parse_security_status
  escaped_parse raw h = text_escaped raw _ refl h
