-- ===== src/E2e/SevenKeys/Contained.antt =====
-- The scripts of the module above do nothing but what `Contained` allows.
use stir_main.Base.{String, ℕ, List}
use stir_main.Json.{Json}
use stir_main.Host.Emits.{Emits}
use stir_main.E2e.Contained.{Contained, contained_rules}
use stir_main.E2e.References.Contained.{fixtures-Contained}
use stir_main.E2e.SevenKeys.Signing.Contained.{digest-Contained, rawkey-Contained, sign-Contained}
use stir_main.E2e.SevenKeys.RemoveGuardian.{propose, sign_seat, execute, remove_guardian}
use stir_main.E2e.SevenKeys.Suspend.{rotate, suspend}
use stir_main.E2e.SevenKeys.{amend, adjust_policy, main}

propose-Contained :
    (community : Json) (api : String) (token : Json) (action : String) (after : Json)
    (the_fields : List String) (reason : String)
    → Emits Contained (propose community api token action after the_fields reason)
unfolding propose
propose-Contained community api token action after the_fields reason =
    search contained_rules depth 200 fits 20000

sign_seat-Contained :
    (credentials the_keys : List String) (api : String) (token p : Json) (seat : ℕ)
    (key credential : Json)
    → Emits Contained (sign_seat credentials the_keys api token p seat key credential)
unfolding sign_seat
sign_seat-Contained credentials the_keys api token p seat key credential =
    search (contained_rules, sign-Contained) depth 200 fits 20000

execute-Contained :
    (api : String) (token p guardian_key new_key : Json) (expected : List ℕ)
    → Emits Contained (execute api token p guardian_key new_key expected)
unfolding execute
execute-Contained api token p guardian_key new_key expected =
    search (contained_rules, sign-Contained) depth 200 fits 20000

remove_guardian-Contained :
    (pedro bea token community : Json) (api : String) (the_keys credentials : List String)
    (guardian_id : String) (the_body : Json)
    → Emits Contained
        (remove_guardian pedro bea token community api the_keys credentials guardian_id the_body)
unfolding remove_guardian
remove_guardian-Contained pedro bea token community api the_keys credentials guardian_id the_body =
    search (contained_rules, propose-Contained, sign_seat-Contained, execute-Contained) depth 200
      fits 20000

rotate-Contained :
    (pedro bea token community : Json) (api : String) (the_keys : List String) (guardian : String)
    (credentials controllers : List String) (guardian_id : String) (the_body frozen : Json)
    → Emits Contained (
        rotate pedro bea token community api the_keys guardian credentials controllers guardian_id
          the_body frozen)
unfolding rotate
rotate-Contained pedro bea token community api the_keys guardian credentials controllers guardian_id
      the_body frozen =
    search
      (
        contained_rules, rawkey-Contained, sign-Contained, propose-Contained, sign_seat-Contained,
        execute-Contained, remove_guardian-Contained,
      )
      depth 200 fits 20000

suspend-Contained :
    (tenant : String) (pedro bea token community : Json) (authority api : String)
    (the_keys : List String) (guardian : String) (credentials controllers : List String)
    (guardian_id : String) (changed : Json)
    → Emits Contained (
        suspend tenant pedro bea token community authority api the_keys guardian credentials
          controllers guardian_id changed)
unfolding suspend
suspend-Contained tenant pedro bea token community authority api the_keys guardian credentials
      controllers guardian_id changed =
    search (contained_rules, sign-Contained, propose-Contained, execute-Contained, rotate-Contained)
      depth 200 fits 20000

amend-Contained :
    (tenant : String) (pedro bea token community : Json) (authority api : String)
    (the_keys : List String) (guardian : String) (credentials controllers : List String)
    (guardian_id : String) (constitution : Json)
    → Emits Contained (
        amend tenant pedro bea token community authority api the_keys guardian credentials
          controllers guardian_id constitution)
unfolding amend
amend-Contained tenant pedro bea token community authority api the_keys guardian credentials
      controllers guardian_id constitution =
    search
      (
        contained_rules, propose-Contained, sign_seat-Contained, execute-Contained,
        suspend-Contained,
      )
      depth 200 fits 20000

adjust_policy-Contained :
    (tenant base : String) (pedro bea token community : Json) (authority api : String)
    (the_keys : List String) (guardian : String) (credentials controllers : List String)
    (guardian_id : String) (constitution view : Json)
    → Emits Contained (
        adjust_policy tenant base pedro bea token community authority api the_keys guardian
          credentials controllers guardian_id constitution view)
unfolding adjust_policy
adjust_policy-Contained tenant base pedro bea token community authority api the_keys guardian
      credentials controllers guardian_id constitution view =
    search (contained_rules, amend-Contained) depth 200 fits 20000

pub main-Contained : Emits Contained main
unfolding main
main-Contained =
    search
      (
        contained_rules, fixtures-Contained, digest-Contained, rawkey-Contained, sign-Contained,
        adjust_policy-Contained,
      )
      depth 200 fits 20000
