-- ===== src/Compose/Routing.antt =====
-- `sql`: a statement is sent only behind both guards, and to the project that they have checked.
use stir_main.Base.{
  true, false, ◌++◌, ℕ, ◌+◌, String, ◌≡◌, refl, inl, inr, Bool, ◌∷◌, List, [], arith,
}
use stir_main.Host.{Proc, Host, Trace, Input, typed, exported, ran}
use stir_main.Host.Exec.{steps, Failure, fail}
use stir_main.Compose.{sql, inspect_call}
use stir_main.Compose.Guards.{
  requested, IsIsolated, compose_project-cases, IsVerified, verify-cases, container, after_ps,
}

abbrev input_sent : Input → ℕ
input_sent (typed _) = 1
input_sent _ = 0

-- How many texts a history has sent to a program.
abbrev pub sent : Trace → ℕ
sent [] = 0
sent (ran p ∷ t) = sent t + input_sent p.input
sent (_ ∷ t) = sent t

-- The history that the guards look at: the process has been routed to the project.
abbrev pub routed : Host → Trace → Trace
routed h t = exported "COMPOSE_PROJECT_NAME" (requested h t) ∷ t

abbrev pub IsCleared : Host → Trace → Type 0
IsCleared h t = IsIsolated (requested h t) × IsVerified h (requested h t) "postgres" (routed h t)

-- The history once the label has been read.
abbrev pub verified_at : Host → Trace → Trace
verified_at h t =
    ran (inspect_call (container h (requested h t) "postgres" (routed h t)))
    ∷ after_ps h (requested h t) "postgres" (routed h t)

-- The login of psql, and how it is reached, for the runtime and for the owner of the database.
abbrev pub login : Bool → List String
login true = "idax_backend" ∷ "-d" ∷ "idax" ∷ "-h" ∷ "postgres" ∷ []
login false = "postgres" ∷ "-d" ∷ "idax" ∷ []

-- `p` types the statement into psql in the container `postgres` of this compose project.
pub record IsDelivery (project : String) (extra : List String) (runtime : Bool) (statement : String)
    (p : Proc) : Type 0 where
  pub typed_in : p.input ≡ typed statement
  pub routed_to :
      p.argv
      ≡ ("docker" ∷ "compose" ∷ "-p" ∷ project ∷ "exec" ∷ "-T" ∷ [])
        ++ extra
        ++ ("postgres" ∷ "psql" ∷ "-X" ∷ "-At" ∷ "-v" ∷ "ON_ERROR_STOP=1" ∷ "-U" ∷ login runtime)

module _ (h : Host) (statement : String) (runtime : Bool) (t : Trace) where
  -- Unless the requested project is isolated and the container's label matches it, `sql` raises and
  -- no statement is sent anywhere.
  pub sql_fails_closed :
      ¬ IsCleared h t
      → (e : Failure) × (u : Trace) × (sql statement runtime h t ≡ (fail e, u)) × (sent u ≡ sent t)
  unfolding steps sql
  sql_fails_closed refused = elim (compose_project-cases h t) [
    | inr (e, raised, _) ↦ (e, t, rw raised refl, refl)
    | inl (isolated, set) ↦ elim (verify-cases h (requested h t) "postgres" (routed h t)) [
      | inl (verified, _) ↦ absurd (refused (isolated, verified))
      | inr (e, u, raised, left, _) ↦ (
        e,
        u,
        rw (set, raised) refl,
        elim left [ inl e ↦ rw e (omega arith) | inr e ↦ rw e (omega arith) ],
      )
    ]
  ]
