-- ===== src/E2e/Boundary/Mutation/Once.antt =====
-- scripts/governed_boundary_e2e.py: what a run that passes has seen of the one legitimate change.
use stir_main.Base.{◌⊎◌, ap, ◌∙◌, ◌<>◌, List, String, inr, ◌≡◌}
use stir_main.Json.{null, Json}
use stir_main.Host.{Host, Trace}
use stir_main.Host.Exec.{Exec, ◌>>=◌, ◌>>◌, ok}
use stir_main.Host.Passing.{FailsOr, bind_went, after_bind, after_unless}
use stir_main.Py.{length_of, text_of, pick, expect_or}
use stir_main.Py.Splitting.{OneMore, Blank, split-OneMore}
use stir_main.E2e.SevenKeys.Signing.{domain}
use stir_main.Smoke.{fetch, ok_only, send}
use stir_main.E2e.Boundary.Attack.{effective_constitution}
use stir_main.E2e.Boundary.Mutation.{sign_path, sig, activate_path, change_once}

-- What the check does up to the activation of the change.
abbrev pub activated : String → Json → Json → List String → List String → Json → Json → Exec Json
activated api community token the_keys credentials empty p = do
  length_of (← fetch (api <> "/" <> (← text_of community) <> "/events") token ok_only)
  send (← sign_path api p) "POST" (← sig credentials p 7 (← pick 6 the_keys) domain null null) token
      ok_only
  send (← activate_path api p) "POST" empty token ok_only

-- After `activate` the constitution reads as the old one with one version more, or as what the
-- assertions let pass for it.
abbrev pub ChangedOnce : String → String → Exec Json → Host → Trace → Type 0
ChangedOnce tenant before activate h t =
    (answer : Json) × (after : String) × ((activate h t).0 ≡ ok answer)
    × ((effective_constitution tenant h (activate h t).1).0 ≡ ok after)
    × (OneMore before after ⊎ Blank before after)

-- The check of the legitimate change either fails, or the constitution that it read right after the
-- request that activates the change lists the versions of the old one and exactly one version more at the
-- end; two cases in which no version was added pass too: the constitution was and stays empty, or a comma
-- with nothing behind it was appended.
pub change_once-ChangedOnce :
    (tenant api : String) (community : Json) (authority : String) (token : Json)
    (the_keys : List String) (guardian : String) (credentials : List String) (empty : Json)
    (before : String) (changed p : Json) (h : Host) (t : Trace)
    → FailsOr
        (ChangedOnce tenant before (activated api community token the_keys credentials empty p) h t)
        (change_once tenant api community authority token the_keys guardian credentials empty before
          changed p h t)
unfolding change_once expect_or
change_once-ChangedOnce tenant api community authority token the_keys guardian credentials empty
      before changed p h t =
    after_bind _ _ h _ (λ community_text w1. after_bind _ _ h _ (λ events w2.
      after_bind _ _ h _ (λ events_before w3. after_bind _ _ h _ (λ signing w4.
        after_bind _ _ h _ (λ seven w5. after_bind _ _ h _ (λ signature w6.
          after_bind _ _ h _ (λ signed w7. after_bind _ _ h _ (λ path w8.
            after_bind _ _ h _ (λ answer w9. after_bind _ _ h _ (λ after read.
              after_unless _ _ _ h _ (λ starts. after_unless _ _ _ h _ (λ counts.
                let run =
                  bind_went _ _ h _ _ w1
                  ∙ bind_went _ _ h _ _ w2
                  ∙ bind_went _ _ h _ _ w3
                  ∙ bind_went _ _ h _ _ w4
                  ∙ bind_went _ _ h _ _ w5
                  ∙ bind_went _ _ h _ _ w6
                  ∙ bind_went _ _ h _ _ w7
                  ∙ bind_went _ _ h _ _ w8 in
                inr (
                  answer,
                  after,
                  ap (λ r. r.0) run ∙ w9,
                  ap (λ r. (effective_constitution tenant h r.1).0) run ∙ read,
                  split-OneMore before after starts counts,
                )))))))))))))
