-- ===== src/Deploy/Raising.antt =====
-- What the parts of `deploy.py` may raise: the tagging nothing, the wait and the build no `SystemExit`.
use stir_main.Base.{ℕ, zero, suc, ltb, String, ◌≡◌, ◌≢◌, Bool, true, false, List, [], ◌∷◌, arith}
use stir_main.Host.{Host, Trace, slept}
use stir_main.Host.Exec.{
  steps, ok, fail, Failure, system_exit, called_process_error, value_error, out_of_rounds, emit,
  pure, time,
}
use stir_main.Host.Raises.{Raises, raises_rules, Raises-returns, Raises-bind, Raises-if}
use stir_main.Deploy.{
  run, run_unchecked, capture, tag_one, tag_each, tag_current_as_previous, image_name, all_well,
  judge_rows, healthy, wait_until, wait_healthy, recreate, built_services,
}

-- A failure that is no `SystemExit`.
abbrev pub NotExit : Failure → Type 0
NotExit e = (s : String) → e ≢ system_exit s

called-NotExit : (argv : List String) → NotExit (called_process_error argv)
called-NotExit argv s e = ground arith

value-NotExit : NotExit value_error
value-NotExit s e = ground arith

rounds-NotExit : NotExit out_of_rounds
rounds-NotExit s e = ground arith

ruleset quiet_rules = (raises_rules, called-NotExit, value-NotExit, rounds-NotExit)

all_well-ne-exit :
    (rows : List String) (h : Host) (t : Trace) (s : String)
    → (all_well rows h t).0 ≢ fail (system_exit s)
unfolding steps all_well
all_well-ne-exit [] h t s e = ground arith
all_well-ne-exit (row ∷ rows) h t s e = ground (arith, all_well-ne-exit rows h t s)

judge_rows-Raises : (rows : List String) → Raises NotExit (judge_rows rows)
unfolding steps judge_rows
judge_rows-Raises [] = search quiet_rules
judge_rows-Raises (row ∷ rows) = record {
  raised = λ h t e eq s same. all_well-ne-exit (row ∷ rows) h t s (rw (← same) eq);
}

module _ (prod : Bool) where
  healthy-Raises : Raises NotExit (healthy prod)
  unfolding healthy capture
  healthy-Raises = search (quiet_rules, judge_rows-Raises) depth 12

  wait_until-Raises : (rounds deadline : ℕ) → Raises NotExit (wait_until prod rounds deadline)
  unfolding wait_until
  wait_until-Raises zero deadline = search quiet_rules
  wait_until-Raises (suc rounds) deadline = Raises-bind time _ (search quiet_rules) (λ now.
      Raises-if (ltb now deadline) _ (pure false)
        (Raises-bind (healthy prod) _ healthy-Raises (λ b.
          Raises-if b (pure true) _ (search quiet_rules) (
            Raises-bind (emit (slept 5)) _ (search quiet_rules)
              (λ _. wait_until-Raises rounds deadline))))
        (search quiet_rules))

  pub wait_healthy-Raises : Raises NotExit (wait_healthy prod)
  unfolding wait_healthy
  wait_healthy-Raises = search (quiet_rules, wait_until-Raises) depth 9

  pub recreate-Raises : Raises NotExit (recreate prod)
  unfolding recreate run
  recreate-Raises = search quiet_rules depth 20

  tag_one-Raises :
      {E : Failure → Type 0} (service image_id : String) → Raises E (tag_one service image_id)
  unfolding tag_one run_unchecked
  tag_one-Raises service image_id = search raises_rules depth 9

  image_name-Raises : {E : Failure → Type 0} (service : String) → Raises E (image_name prod service)
  unfolding image_name capture
  image_name-Raises service = search raises_rules depth 9

  tag_each-Raises :
      {E : Failure → Type 0} (services : List String) → Raises E (tag_each prod services)
  unfolding tag_each
  tag_each-Raises [] = search raises_rules
  tag_each-Raises (service ∷ services) =
      Raises-bind (image_name prod service) _ (image_name-Raises service) (λ image_id.
        Raises-bind (tag_one service image_id) _ (tag_one-Raises service image_id) (λ tagged.
          Raises-bind (tag_each prod services) _ (tag_each-Raises services)
            (λ rest. search raises_rules)))

  -- No answer of docker makes the tagging raise.
  pub tags_saved :
      (h : Host) (t : Trace)
      → (tags : List (String × String)) × ((tag_current_as_previous prod h t).0 ≡ ok tags)
  unfolding tag_current_as_previous
  tags_saved h t =
      Raises-returns (tag_each prod built_services) h t (tag_each-Raises built_services)
