-- ===== src/Compose/Sending.antt =====
-- What `sql` adds to the history, of which the client says what it may be.
use stir_main.Base.{String, Bool, true, false, List, ◌≡◌, refl, inl, inr}
use stir_main.Host.{Host, Trace, Event, Completed, exported, ran, read, ◌/◌}
use stir_main.Host.Exec.{Exec, asks, call, ◌>>=◌}
use stir_main.Host.Emits.{
  Emits, Grown-refl, Grown-event, Grown-trans, Emits-bind, Emits-pure, Emits-asks, Emits-call,
  Emits-read_text, emits_rules,
}
use stir_main.Compose.{
  ps_call, inspect_call, psql_call, compose_project, check_label, inspect_one, runtime_args,
  verify_isolated_container, psql_result, sql,
}
use stir_main.Compose.Guards.{IsIsolated, compose_project-cases, requested}

-- What `sql` does once the project is known.
unfoldable rest_of : String → Bool → String → Exec String
rest_of statement runtime p = do
  _ ← verify_isolated_container p "postgres"
  root ← asks (λ h. h.root)
  extra ← runtime_args root runtime
  done ← call (psql_call root p extra runtime statement)
  psql_result done

sql-starts :
    (statement : String) (runtime : Bool) (h : Host) (t : Trace)
    → sql statement runtime h t ≡ (compose_project >>= rest_of statement runtime) h t
unfolding sql rest_of ◌>>=◌
sql-starts statement runtime h t = refl

module _ {Q : Event → Type 0} (statement : String) (runtime : Bool)
    (routes : (p : String) → IsIsolated p → Q (exported "COMPOSE_PROJECT_NAME" p))
    (locates : (root p : String) → IsIsolated p → Q (ran (ps_call root p "postgres")))
    (inspects : (container : String) → Q (ran (inspect_call container)))
    (reads : (root : String) → Q (read (root / ".local/secrets/runtime_password")))
    (queries : (root p : String) (extra : List String)
      → IsIsolated p
      → Q (ran (psql_call root p extra runtime statement))) where
  check_label-Emits : (p container label : String) → Emits Q (check_label p container label)
  unfolding check_label
  check_label-Emits p container label = search emits_rules depth 6

  inspect_one-Emits : (p service container : String) → Emits Q (inspect_one p service container)
  unfolding inspect_one
  inspect_one-Emits p service container = search (emits_rules, inspects, check_label-Emits) depth 8

  verify-Emits : (p : String) → IsIsolated p → Emits Q (verify_isolated_container p "postgres")
  unfolding verify_isolated_container
  verify-Emits p isolated = Emits-bind _ _ (Emits-asks _) (λ root.
      Emits-bind _ _ (Emits-call _ (locates root p isolated)) (λ ps. inspect_one-Emits p _ _))

  runtime_args-Emits : (root : String) (b : Bool) → Emits Q (runtime_args root b)
  unfolding runtime_args
  runtime_args-Emits root true =
      Emits-bind _ _ (Emits-read_text _ (reads root)) (λ password. Emits-pure _)
  runtime_args-Emits root false = Emits-pure _

  psql_result-Emits : (done : Completed) → Emits Q (psql_result done)
  unfolding psql_result
  psql_result-Emits done = search emits_rules depth 6

  rest-Emits : (p : String) → IsIsolated p → Emits Q (rest_of statement runtime p)
  unfolding rest_of
  rest-Emits p isolated = Emits-bind _ _ (verify-Emits p isolated) (λ _.
      Emits-bind _ _ (Emits-asks _) (λ root.
        Emits-bind _ _ (runtime_args-Emits root runtime) (λ extra.
          Emits-bind _ _ (Emits-call _ (queries root p extra isolated))
            (λ done. psql_result-Emits done))))

  pub sql-Emits : Emits Q (sql statement runtime)
  unfolding ◌>>=◌
  sql-Emits = record {
    grown = λ h t. rw (sql-starts statement runtime h t) (elim (compose_project-cases h t) [
      | inl (isolated, set) ↦ rw set (
          Grown-trans t _ _ (Grown-event t _ (routes (requested h t) isolated))
            ((rest-Emits (requested h t) isolated).grown h _))
      | inr (e, refused, _) ↦ rw refused (Grown-refl t)
    ]);
  }
