-- ===== src/Deploy/Health.antt =====
-- `healthy` and `wait_healthy`: what a positive answer says, and that the wait ends.
use stir_main.Base.{
  ℕ, zero, suc, ◌+◌, ◌*◌, ◌≤◌, ltb, String, ◌≡◌, refl, ◌≢◌, inl, inr, Bool, true, false, some, List,
  [], ◌∷◌, All, arith, Bool-cases, Option-cases,
}
use stir_main.Base.Text.{strip, splitlines, cut, contains}
use stir_main.Host.{Host, Trace, Proc, ran, timed, slept}
use stir_main.Host.Exec.{steps, ok, fail, out_of_rounds, at, answer_cases}
use stir_main.Host.Clock.{ClockRuns}
use stir_main.Deploy.{compose, all_well, rows_of, judge_rows, healthy, wait_until, wait_healthy}

abbrev pub ps_call : Bool → Host → Proc
ps_call prod h = at h.root (compose prod ("ps" ∷ "--format" ∷ "{{.Name}}\t{{.Status}}" ∷ []))

-- The seconds that a history has slept.
unfoldable pub pauses : Trace → ℕ
pauses [] = 0
pauses (slept n ∷ t) = n + pauses t
pauses (_ ∷ t) = pauses t

-- A line of `docker compose ps` whose status says none of the three words.
pub record IsWellRow (row : String) : Type 0 where
  pub name : String
  pub status : String
  pub parts : cut 9 row ≡ some (name, status)
  pub not_starting : contains status "starting" ≡ false
  pub not_unhealthy : contains status "unhealthy" ≡ false
  pub not_exited : contains status "Exit" ≡ false

-- The rows that `docker compose ps` lists after the history `t`.
abbrev pub rows_at : Bool → Host → Trace → List String
rows_at prod h t = rows_of (splitlines (strip (h.run t (ps_call prod h)).stdout))

-- At `t` compose lists a container, and all that it lists are well.
abbrev pub IsWellAt : Bool → Host → Trace → Type 0
IsWellAt prod h t = (rows_at prod h t ≢ []) × All IsWellRow (rows_at prod h t)

all_well_sound :
    (rows : List String) (h : Host) (t : Trace)
    → (all_well rows h t).0 ≡ ok true
    → All IsWellRow rows
unfolding steps all_well
all_well_sound [] h t e = tt
all_well_sound (row ∷ rows) h t e = elim (Option-cases (cut 9 row)) [
  | inl bad ↦ absurd (ground arith)
  | inr ((name, status), parts) ↦ (
    record {
      name = name;
      status = status;
      parts = parts;
      not_starting = ground arith;
      not_unhealthy = ground arith;
      not_exited = ground arith;
    },
    all_well_sound rows h t (ground arith),
  )
]

judge_rows_sound :
    (rows : List String) (h : Host) (t : Trace)
    → (judge_rows rows h t).0 ≡ ok true
    → (rows ≢ []) × All IsWellRow rows
unfolding steps judge_rows
judge_rows_sound [] h t e = absurd (ground arith)
judge_rows_sound (row ∷ rows) h t e = (λ same. cc, all_well_sound (row ∷ rows) h t e)

-- The rows change nothing.
pub trace-all_well : (rows : List String) (h : Host) (t : Trace) → (all_well rows h t).1 ≡ t
unfolding steps all_well
trace-all_well [] h t = refl
trace-all_well (row ∷ rows) h t = ground (arith, trace-all_well rows h t)

pub trace-judge_rows : (rows : List String) (h : Host) (t : Trace) → (judge_rows rows h t).1 ≡ t
unfolding steps judge_rows
trace-judge_rows [] h t = refl
trace-judge_rows (row ∷ rows) h t = trace-all_well (row ∷ rows) h t

module _ (prod : Bool) (h : Host) where
  trace-healthy : (t : Trace) → (healthy prod h t).1 ≡ ran (ps_call prod h) ∷ t
  unfolding steps healthy
  trace-healthy t = trace-judge_rows _ h _

  healthy_sound : (t : Trace) → (healthy prod h t).0 ≡ ok true → IsWellAt prod h t
  unfolding steps healthy
  healthy_sound t e = judge_rows_sound _ h _ e

  wait_until_sound :
      (rounds deadline : ℕ) (t : Trace)
      → (wait_until prod rounds deadline h t).0 ≡ ok true
      → (v : Trace) × ((wait_until prod rounds deadline h t).1 ≡ ran (ps_call prod h) ∷ v)
        × IsWellAt prod h v
  unfolding steps wait_until
  wait_until_sound zero deadline t e = absurd (ground arith)
  wait_until_sound (suc rounds) deadline t e = elim (Bool-cases (ltb (h.clock t) deadline)) [
    | inr late ↦ absurd (ground arith)
    | inl early ↦ elim (answer_cases (healthy prod h (timed ∷ t)).0) [
      | inl yes_ ↦ (
        timed ∷ t,
        rw (early, yes_, trace-healthy (timed ∷ t)) refl,
        healthy_sound (timed ∷ t) yes_,
      )
      | inr (inl no_) ↦
          let (v, last, good) =
            wait_until_sound rounds deadline (slept 5 ∷ (healthy prod h (timed ∷ t)).1)
              (ground arith) in
          (v, rw (early, no_) last, good)
      | inr (inr (x, broken)) ↦ absurd (ground arith)
    ]
  ]

  -- `healthy` has no loop.
  all_well-ne-out : (rows : List String) (t : Trace) → (all_well rows h t).0 ≢ fail out_of_rounds
  unfolding steps all_well
  all_well-ne-out [] t e = ground arith
  all_well-ne-out (row ∷ rows) t e = ground (arith, all_well-ne-out rows t)

  healthy-ne-out : (t : Trace) → (healthy prod h t).0 ≢ fail out_of_rounds
  unfolding steps healthy judge_rows
  healthy-ne-out t e = ground (arith, all_well-ne-out (rows_at prod h t) (ran (ps_call prod h) ∷ t))

  module _ (runs : ClockRuns h) where
    wait_until_ends :
        (rounds deadline : ℕ) (t : Trace)
        → deadline ≤ h.clock t + 5 * h.second * rounds
        → (wait_until prod (suc rounds) deadline h t).0 ≢ fail out_of_rounds
    unfolding steps wait_until
    wait_until_ends zero deadline t near e = ground arith
    wait_until_ends (suc rounds) deadline t near e = elim (Bool-cases (ltb (h.clock t) deadline)) [
      | inr late ↦ ground arith
      | inl early ↦
          let u = timed ∷ t in
          let v = slept 5 ∷ ran (ps_call prod h) ∷ u in
          let later : h.clock t + 5 * h.second ≤ h.clock v = omega (
            arith,
            runs.steady timed t,
            runs.steady (ran (ps_call prod h)) u,
            runs.sleeps 5 (ran (ps_call prod h) ∷ u),
          ) in
          let again = wait_until_ends rounds deadline v (omega arith) in
          ground (arith, healthy-ne-out u, trace-healthy u, again)
    ]

    -- The seconds that a wait of so many rounds sleeps.
    wait_until-pauses :
        (rounds left deadline : ℕ) (t : Trace)
        → deadline ≤ h.clock t + 5 * h.second * left
        → pauses (wait_until prod rounds deadline h t).1 ≤ pauses t + 5 * left
    unfolding steps wait_until pauses
    wait_until-pauses zero left deadline t near = omega arith
    wait_until-pauses (suc rounds) zero deadline t near =
        let late : ltb (h.clock t) deadline ≡ false = ground arith in rw late (omega arith)
    wait_until-pauses (suc rounds) (suc left) deadline t near =
        elim (Bool-cases (ltb (h.clock t) deadline)) [
          | inr late ↦ rw late (omega arith)
          | inl early ↦
              let u = timed ∷ t in
              let v = slept 5 ∷ ran (ps_call prod h) ∷ u in
              let later : h.clock t + 5 * h.second ≤ h.clock v = omega (
                arith,
                runs.steady timed t,
                runs.steady (ran (ps_call prod h)) u,
                runs.sleeps 5 (ran (ps_call prod h) ∷ u),
              ) in
              let again = wait_until-pauses rounds left deadline v (omega arith) in
              elim (answer_cases (healthy prod h u).0) [
                | inl yes_ ↦ rw (early, yes_, trace-healthy u) (omega arith)
                | inr (inl no_) ↦ rw (early, no_, trace-healthy u) (omega (arith, again))
                | inr (inr (x, broken)) ↦ rw (early, broken, trace-healthy u) (omega arith)
              ]
        ]

    -- As long as the clock does not go back and sleeping takes its time, the loop that waits for health
    -- ends in the rounds that it gets here, and sleeps no more than its 300 seconds in all.
    pub wait_healthy_ends :
        (t : Trace)
        → ((wait_healthy prod h t).0 ≢ fail out_of_rounds)
          × (pauses (wait_healthy prod h t).1 ≤ pauses t + 300)
    unfolding steps wait_healthy pauses
    wait_healthy_ends t = (
      wait_until_ends 60 (h.clock t + 300 * h.second) (timed ∷ t)
          (omega (arith, runs.steady timed t)),
      wait_until-pauses 61 60 (h.clock t + 300 * h.second) (timed ∷ t)
          (omega (arith, runs.steady timed t)),
    )

  -- When the wait succeeds, the last thing done is a look at the containers, at which compose listed
  -- at least one and said of none that it is starting, unhealthy or has exited.
  pub wait_healthy_sound :
      (t : Trace)
      → (wait_healthy prod h t).0 ≡ ok true
      → (v : Trace) × ((wait_healthy prod h t).1 ≡ ran (ps_call prod h) ∷ v) × IsWellAt prod h v
  unfolding steps wait_healthy
  wait_healthy_sound t = wait_until_sound 61 (h.clock t + 300 * h.second) (timed ∷ t)
