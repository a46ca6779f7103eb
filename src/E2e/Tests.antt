-- ===== src/E2e/Tests.antt =====
-- Runs of the end-to-end scripts' parts.
use stir_main.Base.{ne_of_test, ◌=s=◌, String, [], ◌∷◌, ◌≡◌, refl, some, List, if◌then◌else◌}
use stir_main.Base.Int.{pos}
use stir_main.Json.{lookup, Json, null, str, int, value}
use stir_main.Host.{Host, Trace, Proc, Completed, replied}
use stir_main.Host.Exec.{member, pure, steps}
use stir_main.Host.Passing.{FailsOr}
use stir_main.Host.Samples.{idle, offline, done}
use stir_main.Py.{dict, list, pick, text_item, nth, item, fields, text_of}
use stir_main.E2e.Isolation.RejectOne.{refuse_changes}
use stir_main.E2e.Isolation.Refusals.{Refused, refuse_changes-Refused}
use stir_main.E2e.Uuid7.{halves}
use stir_main.E2e.Uuid7.Layout.{IsUuid7, halves-IsUuid7}
use stir_main.E2e.Boundary.Mutation.{change_once}
use stir_main.E2e.Boundary.Mutation.Once.{activated, ChangedOnce, change_once-ChangedOnce}

two_halves : halves 1 2 3 ≡ (94210, 9223372036854775811)
unfolding halves
two_halves = refl

halves-IsUuid7_example : IsUuid7 1732629600000 4660 17 113549613465629236 9223372036854775825
unfolding halves
halves-IsUuid7_example = halves-IsUuid7 1732629600000 4660 17

abbrev docker : Trace → Proc → Completed
docker t p = done (
    if member "-q" p.argv
    then "c1\n"
    else if member "inspect" p.argv
    then "gate-2\n"
    else "digest1,digest2\n")

-- A stack whose constitution has two versions once the change is active.
abbrev changed_stack : Host
changed_stack = record idle {
  environ = λ k. some "gate-2";
  run = docker;
  web = record offline {
    urlopen = λ t r. replied 200 "{}";
    loads = λ s. value (dict (("constitutionVersion", int (pos 2)) ∷ []));
  };
}

abbrev proposal : Json
proposal = dict (("id", str "p-1") ∷ ("payloadJson", str "{}") ∷ [])

abbrev seven : List String
seven = "k1" ∷ "k2" ∷ "k3" ∷ "k4" ∷ "k5" ∷ "k6" ∷ "k7" ∷ []

change_once-ChangedOnce_example :
    FailsOr
      (ChangedOnce "t" "digest1"
        (activated "/api" (str "c") (str "s") seven seven null proposal)
        changed_stack
        [])
      (change_once "t" "/api"
        (str "c")
        "a"
        (str "s")
        seven
        "g"
        seven
        null
        "digest1"
        null
        proposal
        changed_stack
        [])
change_once-ChangedOnce_example =
    change_once-ChangedOnce "t" "/api" (str "c") "a" (str "s") seven "g" seven null "digest1" null
      proposal changed_stack []

abbrev listing_of : String → Json
listing_of id = dict (("id", str id) ∷ [])

abbrev both_listings : List Json
both_listings = listing_of "l1" ∷ listing_of "l2" ∷ []

-- A stack that refuses everything but the search.
abbrev closed_stack : Host
closed_stack = record idle {
  web = record offline {
    urlopen = λ t r.
        if r.url =s= "http://localhost:8089/a?q=l2" then replied 200 "{}" else replied 404 "";
    loads = λ s. value (dict (("content", list []) ∷ []));
  };
}

second : pick 1 both_listings ≡ pure (listing_of "l2")
unfolding pick steps nth
second = refl

second_tenant : pick {A = String} 1 ("t1" ∷ "t2" ∷ []) ≡ pure "t2"
unfolding pick steps nth
second_tenant = refl

second_id : text_item (listing_of "l2") "id" ≡ pure "l2"
unfolding text_item steps item lookup fields text_of
second_id = refl

refuse_changes-Refused_example :
    FailsOr
      (Refused "s" "/a" "/b" "l2" "t2" closed_stack [])
      (refuse_changes ("t1" ∷ "t2" ∷ []) [] both_listings 1 (str "s") "/a" "/b" closed_stack [])
refuse_changes-Refused_example =
    refuse_changes-Refused both_listings 1 (listing_of "l2") "l2" closed_stack second second_id
      ("t1" ∷ "t2" ∷ []) "t2" [] "s" "/a" "/b" [] (ne_of_test "s" "" refl) second_tenant
