-- ===== src/Probe/Exit.antt =====
-- `poll_once` and `main`: when the probe reports each of its four statuses.
use stir_main.Base.{true, ℕ, suc, ◌≤◌, ◌≡◌, refl, ap, subst, ◌∙◌, ◌≢◌, ◌↔◌, ◌⊎◌, inl, inr, false}
use stir_main.Base.{List, [], ◌∷◌, All, length, arith}
use stir_main.Json.{Fields, Loaded}
use stir_main.Probe.{
  Fetched, body, unreachable, fetch_escaped, status, crashed, exit_status, exit_clear,
  exit_critical, exit_unreachable, exit_invalid_response, verdict, poll_once, watch,
}
use stir_main.Probe.Verdict.{
  ShowsClear, ShowsCritical, Shows, Answered, poll_answered, poll_cases, verdict_clear,
  verdict_critical, Escapes, parse_escaped, escaped_parse,
}

module _ (loads : List ℕ → Loaded) where
  outcome_cases :
      (f : Fetched)
      → ((d : Fields) × Answered loads f d × Shows d)
        ⊎ ((poll_once loads f ≡ status exit_invalid_response)
            ⊎ ((poll_once loads f ≡ crashed) ⊎ (f ≡ unreachable)))
  unfolding poll_once verdict
  outcome_cases (body raw) = elim (poll_cases loads raw _ refl) [
    | inl (d, _, answered, shows) ↦ inl (d, answered, shows)
    | inr (inl rejected) ↦ inr (inl rejected)
    | inr (inr crash) ↦ inr (inr (inl (ap verdict crash)))
  ]
  outcome_cases unreachable = inr (inr (inr refl))
  outcome_cases fetch_escaped = inr (inr (inl refl))

  poll_clear :
      (f : Fetched) (d : Fields)
      → Answered loads f d
      → ShowsClear d
      → poll_once loads f ≡ status exit_clear
  poll_clear f d a c = poll_answered loads f d a (inl c) ∙ verdict_clear d c

  poll_critical :
      (f : Fetched) (d : Fields)
      → Answered loads f d
      → ShowsCritical d
      → poll_once loads f ≡ status exit_critical
  poll_critical f d a c = poll_answered loads f d a (inr c) ∙ verdict_critical d c

  poll_unreachable : (f : Fetched) → f ≡ unreachable → poll_once loads f ≡ status exit_unreachable
  unfolding poll_once
  poll_unreachable f e = rw e refl

  -- Status 0 is reported exactly when the endpoint answered with a JSON object whose state is CLEAR
  -- and whose count of open incidents is the integer 0.
  pub exit_clear_iff :
      (f : Fetched)
      → (poll_once loads f ≡ status exit_clear) ↔ ((d : Fields) × Answered loads f d × ShowsClear d)
  exit_clear_iff f = (
    λ h. elim (outcome_cases f) [
      | inl (d, a, inl clear) ↦ (d, a, clear)
      | inl (d, a, inr critical) ↦ absurd (cc (poll_critical f d a critical))
      | inr (inl rejected) ↦ absurd (cc)
      | inr (inr (inl crash)) ↦ absurd (cc)
      | inr (inr (inr gone)) ↦ absurd (cc (poll_unreachable f gone))
    ],
    λ (d, a, c). poll_clear f d a c,
  )

  -- Status 1 is reported exactly when the endpoint answered with a JSON object whose state is
  -- CRITICAL_SECURITY_INCIDENT and whose count of open incidents is an integer of at least 1.
  pub exit_critical_iff :
      (f : Fetched)
      → (poll_once loads f ≡ status exit_critical)
        ↔ ((d : Fields) × Answered loads f d × ShowsCritical d)
  exit_critical_iff f = (
    λ h. elim (outcome_cases f) [
      | inl (d, a, inl clear) ↦ absurd (ground (arith, poll_clear f d a clear))
      | inl (d, a, inr critical) ↦ (d, a, critical)
      | inr (inl rejected) ↦ absurd (ground arith)
      | inr (inr (inl crash)) ↦ absurd (cc)
      | inr (inr (inr gone)) ↦ absurd (ground (arith, poll_unreachable f gone))
    ],
    λ (d, a, c). poll_critical f d a c,
  )

  not_invalid :
      (f : Fetched) (d : Fields)
      → Answered loads f d
      → Shows d
      → poll_once loads f ≢ status exit_invalid_response
  not_invalid f d a (inl clear) h = ground (arith, poll_clear f d a clear)
  not_invalid f d a (inr critical) h = ground (arith, poll_critical f d a critical)

  -- Status 3 is reported exactly when a body came back that is neither of the two documented
  -- payloads, and on which `json.loads` raised nothing but a `JSONDecodeError`, if it raised.
  pub exit_invalid_iff :
      (f : Fetched)
      → (poll_once loads f ≡ status exit_invalid_response) ↔ (
          (raw : List ℕ) × (f ≡ body raw)
          × (¬ Escapes loads raw)
          × (¬ ((d : Fields) × Answered loads f d × Shows d)))
  unfolding poll_once verdict
  exit_invalid_iff (body raw) = (
    λ h. (
      raw,
      refl,
      λ x. absurd (ground (arith, parse_escaped loads raw x)),
      λ (d, a, shows). not_invalid (body raw) d a shows h,
    ),
    λ (r, e, calm, other). elim (poll_cases loads raw _ refl) [
      | inl (d, _, a, shows) ↦ absurd (other (d, a, shows))
      | inr (inl rejected) ↦ rejected
      | inr (inr crash) ↦
          let same : raw ≡ r = cc e in
          absurd (calm (subst (λ b. Escapes loads b) same (escaped_parse loads raw crash)))
    ],
  )
  exit_invalid_iff unreachable = (λ h. absurd (ground arith), λ (r, e, _, _). absurd (cc))
  exit_invalid_iff fetch_escaped = (λ h. absurd (cc), λ (r, e, _, _). absurd (cc))

  -- Status 2 is reported exactly when the fetch failed in one of the ways that `poll_once` catches.
  exit_unreachable_iff :
      (f : Fetched) → (poll_once loads f ≡ status exit_unreachable) ↔ (f ≡ unreachable)
  exit_unreachable_iff f = (
    λ h. elim (outcome_cases f) [
      | inl (d, a, inl clear) ↦ absurd (ground (arith, poll_clear f d a clear))
      | inl (d, a, inr critical) ↦ absurd (ground (arith, poll_critical f d a critical))
      | inr (inl rejected) ↦ absurd (ground arith)
      | inr (inr (inl crash)) ↦ absurd (cc)
      | inr (inr (inr gone)) ↦ gone
    ],
    poll_unreachable f,
  )

  -- A body on which `json.loads` raises anything but a `JSONDecodeError` makes `poll_once` raise, and
  -- the process then exits with the status that reports a critical incident.
  pub escape_looks_critical :
      (raw : List ℕ)
      → Escapes loads raw
      → (poll_once loads (body raw) ≡ crashed)
        × (exit_status (poll_once loads (body raw)) ≡ exit_critical)
  unfolding poll_once verdict exit_status
  escape_looks_critical raw x =
      let p = parse_escaped loads raw x in (rw (p, verdict), rw (p, verdict, exit_status))

  -- The fetches that end the loop: an exception of `urlopen` that `poll_once` does not catch, and a
  -- body on which `json.loads` raises something other than a `JSONDecodeError`.
  pub data Fatal : Fetched → Type 0 where
    fetch : Fatal fetch_escaped
    load : {raw : List ℕ} → Escapes loads raw → Fatal (body raw)

  poll_returns :
      (f : Fetched)
      → ¬ Fatal f
      → (n : ℕ) × (poll_once loads f ≡ status n) × (n ≤ exit_invalid_response)
  unfolding poll_once verdict
  poll_returns (body raw) calm = elim (poll_cases loads raw _ refl) [
    | inl (d, _, a, inl clear) ↦ (exit_clear, poll_clear (body raw) d a clear, omega arith)
    | inl (d, _, a, inr critical) ↦
        (exit_critical, poll_critical (body raw) d a critical, omega arith)
    | inr (inl rejected) ↦ (exit_invalid_response, rejected, omega arith)
    | inr (inr crash) ↦ absurd (calm (load (escaped_parse loads raw crash)))
  ]
  poll_returns unreachable calm = (exit_unreachable, refl, omega arith)
  poll_returns fetch_escaped calm = absurd (calm fetch)

  -- With `--loop` and an interval that `time.sleep` takes, as long as no fetch is fatal the loop goes
  -- on: it makes every poll, and each gives one of the four statuses.
  pub watch_goes_on :
      (fs : List Fetched)
      → All (λ f. ¬ Fatal f) fs
      → let (codes, ended) = watch true (poll_once loads) fs in
        (ended ≡ false) × (length codes ≡ length fs) × All (λ n. n ≤ exit_invalid_response) codes
  unfolding watch
  watch_goes_on [] calm = (refl, refl, tt)
  watch_goes_on (f ∷ fs) (calm, rest) =
      let (n, polled, small) = poll_returns f calm in
      let (open_ended, as_many, all_small) = watch_goes_on fs rest in
      rw (polled, watch) (open_ended, ap suc as_many, (small, all_small))
