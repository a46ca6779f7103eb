-- ===== src/Compose/Guards.antt =====
-- What the two guards let through, and what they leave in the history.
use stir_main.Base.{
  String, ◌=s=◌, ◌||◌, false, ◌≡◌, refl, ◌≢◌, ◌⊎◌, inl, inr, arith, eq_iff, ne_of_test, Bool-cases,
  ◌∷◌,
}
use stir_main.Base.Text.{strip, contains}
use stir_main.Host.{Host, Trace, exported, ran}
use stir_main.Host.Exec.{
  steps, safety_error, project_not_set, project_is_stir_dev, not_one_container, label_differs,
  label_is_stir_dev,
}
use stir_main.Host.Exec.{Failure, ok, fail, exported_in, or_started_with}
use stir_main.Compose.{
  stir_dev, or_blank, accept_project, compose_project, ps_call, inspect_call, check_label,
  inspect_one, verify_isolated_container,
}

-- The project that the environment asks for.
abbrev pub requested : Host → Trace → String
requested h t = strip (
    or_blank
      (or_started_with (exported_in "STIR_COMPOSE_PROJECT" t) (h.environ "STIR_COMPOSE_PROJECT")))

abbrev pub IsIsolated : String → Type 0
IsIsolated project = (project ≢ "") × (project ≢ stir_dev)

accept_project-cases :
    (p : String) (h : Host) (t : Trace)
    → (IsIsolated p × (accept_project p h t ≡ (ok p, exported "COMPOSE_PROJECT_NAME" p ∷ t)))
      ⊎ ((e : Failure) × (accept_project p h t ≡ (fail e, t)) × ¬ IsIsolated p)
unfolding steps accept_project
accept_project-cases p h t = elim (Bool-cases (p =s= "")) [
  | inl blank ↦
      inr (
        safety_error project_not_set,
        rw blank refl,
        λ isolated. isolated.0 ((eq_iff p "").0 blank),
      )
  | inr set ↦ elim (Bool-cases (p =s= stir_dev)) [
    | inl live ↦ inr (
      safety_error project_is_stir_dev,
      rw (set, live) refl,
      λ isolated. isolated.1 ((eq_iff p stir_dev).0 live),
    )
    | inr other ↦ inl ((ne_of_test p "" set, ne_of_test p stir_dev other), rw (set, other) refl)
  ]
]

pub compose_project-cases :
    (h : Host) (t : Trace)
    → let p = requested h t in
      (IsIsolated p × (compose_project h t ≡ (ok p, exported "COMPOSE_PROJECT_NAME" p ∷ t)))
      ⊎ ((e : Failure) × (compose_project h t ≡ (fail e, t)) × ¬ IsIsolated p)
unfolding steps compose_project
compose_project-cases h t = accept_project-cases (requested h t) h t

module _ (h : Host) (project service : String) (t : Trace) where
  -- What `docker compose ps -q` names, the history after it, and the label that `docker inspect`
  -- then reads.
  abbrev pub container : String
  container = strip (h.run t (ps_call h.root project service)).stdout

  abbrev pub after_ps : Trace
  after_ps = ran (ps_call h.root project service) ∷ t

  abbrev pub label : String
  label = strip (h.run after_ps (inspect_call container)).stdout

  pub record IsVerified : Type 0 where
    pub named : container ≢ ""
    pub single : contains container "\n" ≡ false
    pub labelled : label ≡ project
    pub not_live : label ≢ stir_dev

  abbrev pub Verifies : Type 0
  Verifies =
      (IsVerified
        × (verify_isolated_container project service h t
            ≡ (ok container, ran (inspect_call container) ∷ after_ps)))
      ⊎ ((e : Failure) × (u : Trace) × (verify_isolated_container project service h t ≡ (fail e, u))
          × ((u ≡ after_ps) ⊎ (u ≡ ran (inspect_call container) ∷ after_ps))
          × ¬ IsVerified)

  pub verify-cases : Verifies
  unfolding steps verify_isolated_container inspect_one check_label
  verify-cases = elim (Bool-cases (container =s= "" || contains container "\n")) [
    | inl refused ↦ inr (
      safety_error (not_one_container project service),
      after_ps,
      rw refused refl,
      inl refl,
      λ v. ground (arith, eq_iff container "", v.named, v.single),
    )
    | inr one ↦ elim (Bool-cases (label =s= project)) [
      | inl same ↦ elim (Bool-cases (label =s= stir_dev)) [
        | inl live ↦ inr (
          safety_error (label_is_stir_dev container),
          ran (inspect_call container) ∷ after_ps,
          rw (one, same, live) refl,
          inr refl,
          λ v. v.not_live ((eq_iff label stir_dev).0 live),
        )
        | inr isolated ↦ inl (
          record {
            named = ground (arith, eq_iff container "");
            single = ground arith;
            labelled = (eq_iff label project).0 same;
            not_live = ne_of_test label stir_dev isolated;
          },
          rw (one, same, isolated) refl,
        )
      ]
      | inr other ↦ inr (
        safety_error (label_differs project label),
        ran (inspect_call container) ∷ after_ps,
        rw (one, other) refl,
        inr refl,
        λ v. ne_of_test label project other v.labelled,
      )
    ]
  ]
