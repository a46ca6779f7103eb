-- ===== src/Proxy/Tests.antt =====
-- The proxy at concrete requests.
use stir_main.Base.{arith, map, ℕ, String, ◌≤◌, ◌≡◌, refl, ◌≢◌, false, List, [], ◌∷◌, reverse}
use stir_main.Base.Text.{codes_of, starts_with, ends_with, after_last, lowers_to, strip}
use stir_main.Proxy.Number.{parse_int}
use stir_main.Proxy.Chunked.{got, read_chunked, read_bytes}
use stir_main.Proxy.Chunked.Sizes.{
  size, decimal, place, done, extension, return, field, only_return,
}
use stir_main.Proxy.Chunked.Grammar.{trailer, blank, Encodes, last, chunk, read_chunked-Encodes}
use stir_main.Proxy.{
  Mode, normal, drop_after_once, Headers, answer, Outcome, response, cut_off, stuck, Handled,
  Exchange, header, kept_onto, set_key, request_onto, sent_headers, read_body, forward, in_mode,
  do_post, serve,
}
use stir_main.Proxy.Arming.{
  commit, role, armed_since_commit, commit_takes_armed, unarmed_is_transparent, total_spoiled,
  armings, spoiled-le-armings,
}
use stir_main.Proxy.Forwarding.{do_post_ends, dropped_after_upstream}

abbrev os_tris : String
os_tris = "http://ostris:8095"

abbrev sample_headers : Headers
sample_headers =
    ("Host", "stir")
    ∷ ("AUTHORIZATION", "Bearer t")
    ∷ ("Content-Length", "2")
    ∷ ("X-Tenant", "a")
    ∷ []

abbrev post_to : String → Exchange
post_to path = (
  λ o. answer 200 (codes_of "{}") "application/json",
  record { command = "POST"; path = path; headers = sample_headers; stream = codes_of "{}" },
)

abbrev arm_drop : Exchange
arm_drop = post_to "/__audit/mode/drop_after_once"

abbrev commit_one : Exchange
commit_one = post_to "/api/transactions/1/commit"

abbrev list_all : Exchange
list_all = post_to "/api/transactions"

run : List Exchange → Mode × List Handled
unfolding serve do_post in_mode forward read_body header kept_onto set_key request_onto parse_int
    read_bytes codes_of strip starts_with ends_with after_last lowers_to
run = serve os_tris normal

-- The first commit after the arming is dropped, and the next one is answered.
one_drop : (run (arm_drop ∷ list_all ∷ commit_one ∷ commit_one ∷ [])).0 ≡ normal
unfolding run
one_drop = refl

outcomes : List Handled → List Outcome
outcomes [] = []
outcomes (x ∷ xs) = x.outcome ∷ outcomes xs

one_drop_outcomes :
    outcomes (run (arm_drop ∷ list_all ∷ commit_one ∷ commit_one ∷ [])).1
    ≡ response 204 [] "application/json"
      ∷ response 200 (codes_of "{}") "application/json"
      ∷ cut_off
      ∷ response 200 (codes_of "{}") "application/json"
      ∷ []
unfolding run outcomes
one_drop_outcomes = refl

is_commit : role commit_one ≡ commit
unfolding role starts_with ends_with
is_commit = refl

commit_takes_armed_example :
    do_post os_tris (serve os_tris normal (reverse (list_all ∷ arm_drop ∷ []))).0 commit_one
    ≡ (normal, in_mode os_tris (armed_since_commit (list_all ∷ arm_drop ∷ [])) commit_one)
commit_takes_armed_example =
    commit_takes_armed os_tris (list_all ∷ arm_drop ∷ []) commit_one is_commit

unarmed_is_transparent_example :
    serve os_tris normal (list_all ∷ commit_one ∷ [])
    ≡ (normal, map (forward os_tris false) (list_all ∷ commit_one ∷ []))
unfolding starts_with
unarmed_is_transparent_example =
    unarmed_is_transparent os_tris (list_all ∷ commit_one ∷ []) (refl, (refl, tt))

spoiled-le-armings_example :
    total_spoiled (serve os_tris normal (arm_drop ∷ commit_one ∷ commit_one ∷ [])).1
    ≤ armings (arm_drop ∷ commit_one ∷ commit_one ∷ [])
spoiled-le-armings_example = spoiled-le-armings os_tris (arm_drop ∷ commit_one ∷ commit_one ∷ [])

-- Of two headers of one name the later one is sent, under the name as `Request` writes it.
abbrev twice : Headers
twice = ("Authorization", "Bearer old") ∷ ("Host", "stir") ∷ ("authorization", "Bearer new") ∷ []

later_one_sent : sent_headers twice ≡ ("Authorization", "Bearer new") ∷ []
unfolding kept_onto set_key request_onto lowers_to
later_one_sent = refl

do_post_ends_example : (do_post os_tris drop_after_once commit_one).1.outcome ≢ stuck
do_post_ends_example = do_post_ends os_tris drop_after_once commit_one

answered :
    (in_mode os_tris normal commit_one).outcome ≡ response 200 (codes_of "{}") "application/json"
unfolding run
answered = refl

dropped_after_upstream_example : (in_mode os_tris drop_after_once commit_one).outcome ≡ cut_off
dropped_after_upstream_example =
    (dropped_after_upstream os_tris commit_one).1 200 (codes_of "{}") "application/json" answered

-- "02;x" CR LF, two bytes, the end, a field of a trailer
-- and an empty line.
abbrev two_bytes : List ℕ
two_bytes =
    48 ∷ 50 ∷ 59 ∷ 120 ∷ 13 ∷ 10 ∷ 123 ∷ 125 ∷ 13 ∷ 10 ∷ 48 ∷ 13 ∷ 10 ∷ 65 ∷ 58 ∷ 13 ∷ 10 ∷ 13 ∷ 10
    ∷ []

two_bytes_encoded : Encodes [] (123 ∷ 125 ∷ []) two_bytes
two_bytes_encoded =
    chunk (48 ∷ 50 ∷ 59 ∷ 120 ∷ 13 ∷ []) 1 13 10 (123 ∷ 125 ∷ [])
      (refl, (refl, (refl, (refl, (refl, tt)))))
      (size (decimal 0 (omega arith)) (place (decimal 2 (omega arith)) done)
        (extension (120 ∷ 13 ∷ [])))
      refl
      (last (48 ∷ 13 ∷ []) (refl, (refl, tt)) (size (decimal 0 (omega arith)) done return)
        (trailer (65 ∷ 58 ∷ 13 ∷ []) (refl, (refl, (refl, tt)))
          (field 65 (58 ∷ 13 ∷ []) (omega arith)) (blank (13 ∷ []) only_return)))

read_chunked-Encodes_example : read_chunked two_bytes ≡ got (123 ∷ 125 ∷ [], [])
read_chunked-Encodes_example = read_chunked-Encodes two_bytes_encoded
