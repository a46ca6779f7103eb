-- ===== src/E2e/Boundary/Mutation/Contained.antt =====
-- The scripts of the module above do nothing but what `Contained` allows.
use stir_main.Base.{String, ℕ, List}
use stir_main.Json.{Json}
use stir_main.Host.Emits.{Emits}
use stir_main.E2e.Contained.{Contained, contained_rules}
use stir_main.E2e.Boundary.Attack.Contained.{
  expect_rejected-Contained, effective_constitution-Contained,
}
use stir_main.E2e.SevenKeys.Signing.Contained.{sign-Contained}
use stir_main.E2e.Boundary.Mutation.{
  propose, sig, sign_path, activate_path, refuse_stale, refuse_replay, change_once, refuse_all,
  constitutional_mutation_matrix,
}

propose-Contained :
    (api : String) (community token after : Json) (the_fields : List String)
    → Emits Contained (propose api community token after the_fields)
unfolding propose
propose-Contained api community token after the_fields = search contained_rules depth 200 fits 20000

sig-Contained :
    (credentials : List String) (p : Json) (seat : ℕ) (key the_domain : String)
    (payload credential : Json)
    → Emits Contained (sig credentials p seat key the_domain payload credential)
unfolding sig
sig-Contained credentials p seat key the_domain payload credential =
    search (contained_rules, sign-Contained) depth 200 fits 20000

sign_path-Contained : (api : String) (p : Json) → Emits Contained (sign_path api p)
unfolding sign_path
sign_path-Contained api p = search contained_rules depth 200 fits 20000

activate_path-Contained : (api : String) (p : Json) → Emits Contained (activate_path api p)
unfolding activate_path
activate_path-Contained api p = search contained_rules depth 200 fits 20000

refuse_stale-Contained :
    (tenant api : String) (community : Json) (authority : String) (token : Json)
    (the_keys : List String) (guardian : String) (credentials : List String) (changed : Json)
    → Emits Contained
        (refuse_stale tenant api community authority token the_keys guardian credentials changed)
unfolding refuse_stale
refuse_stale-Contained tenant api community authority token the_keys guardian credentials changed =
    search
      (
        contained_rules, expect_rejected-Contained, sign-Contained, propose-Contained,
        sig-Contained, sign_path-Contained,
      )
      depth 200 fits 20000

refuse_replay-Contained :
    (tenant api : String) (community : Json) (authority : String) (token : Json)
    (the_keys : List String) (guardian : String) (credentials : List String)
    (empty changed p : Json) (events_before : ℕ) (after : String)
    → Emits Contained (
        refuse_replay tenant api community authority token the_keys guardian credentials empty
          changed p events_before after)
unfolding refuse_replay
refuse_replay-Contained tenant api community authority token the_keys guardian credentials empty
      changed p events_before after =
    search
      (
        contained_rules, expect_rejected-Contained, effective_constitution-Contained, sig-Contained,
        sign_path-Contained, activate_path-Contained, refuse_stale-Contained,
      )
      depth 200 fits 20000

change_once-Contained :
    (tenant api : String) (community : Json) (authority : String) (token : Json)
    (the_keys : List String) (guardian : String) (credentials : List String) (empty : Json)
    (before : String) (changed p : Json)
    → Emits Contained (
        change_once tenant api community authority token the_keys guardian credentials empty before
          changed p)
unfolding change_once
change_once-Contained tenant api community authority token the_keys guardian credentials empty
      before changed p =
    search
      (
        contained_rules, effective_constitution-Contained, sig-Contained, sign_path-Contained,
        activate_path-Contained, refuse_replay-Contained,
      )
      depth 200 fits 20000

refuse_all-Contained :
    (tenant api : String) (community : Json) (authority : String) (token : Json)
    (the_keys : List String) (guardian guardian_id : String) (credentials : List String)
    (empty : Json) (before : String) (changed p payload : Json)
    → Emits Contained (
        refuse_all tenant api community authority token the_keys guardian guardian_id credentials
          empty before changed p payload)
unfolding refuse_all
refuse_all-Contained tenant api community authority token the_keys guardian guardian_id credentials
      empty before changed p payload =
    search
      (
        contained_rules, expect_rejected-Contained, effective_constitution-Contained,
        sign-Contained, sig-Contained, sign_path-Contained, activate_path-Contained,
        change_once-Contained,
      )
      depth 200 fits 20000

pub constitutional_mutation_matrix-Contained :
    (tenant api : String) (community : Json) (authority : String) (token : Json)
    (the_keys : List String) (guardian guardian_id : String) (credentials : List String)
    (constitution : Json)
    → Emits Contained (
        constitutional_mutation_matrix tenant api community authority token the_keys guardian
          guardian_id credentials constitution)
unfolding constitutional_mutation_matrix
constitutional_mutation_matrix-Contained tenant api community authority token the_keys guardian
      guardian_id credentials constitution =
    search
      (
        contained_rules, effective_constitution-Contained, propose-Contained, sig-Contained,
        sign_path-Contained, refuse_all-Contained,
      )
      depth 200 fits 20000
