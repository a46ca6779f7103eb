-- ===== src/Smoke/Tests.antt =====
-- A call of `request` to a stack that answers, one that refuses, and one that is down.
use stir_main.Base.{[], ◌∷◌, ◌≡◌, refl, some}
use stir_main.Json.{null, str, value}
use stir_main.Host.{Host, replied, Request, requested, Web}
use stir_main.Host.Exec.{steps, ok, fail, unexpected_reply}
use stir_main.Host.Samples.{idle, offline}
use stir_main.Py.{truthy, loads}
use stir_main.Py.Library.{loaded_or_raise}
use stir_main.Smoke.{
  request, set_header, set_headers, with_token, answered, urlopen, judge, allows, ok_only,
}
use stir_main.Smoke.Replies.{Sent, outcome, request_sends}

abbrev reading : Web
reading = record offline { urlopen = λ t r. replied 409 "taken"; loads = λ s. value (str s) }

abbrev refusing : Host
refusing = record idle { web = reading; environ = λ k. some "http://stack" }

a_refusal_passes :
    (request "/api/x" "POST" (str "b") null (409 ∷ []) [] refusing []).0 ≡ ok (str "taken")
unfolding steps request set_headers set_header with_token urlopen answered judge allows truthy loads
    loaded_or_raise
a_refusal_passes = refl

a_refusal_raises :
    (request "/api/x" "POST" (str "b") null ok_only [] refusing []).0
    ≡ fail (unexpected_reply "POST" "/api/x" ok_only 409 "taken")
unfolding steps request set_headers set_header with_token urlopen answered judge allows truthy loads
    loaded_or_raise
a_refusal_raises = refl

request_sends_example :
    (r : Request) × Sent refusing [] "/api/x" "POST" (str "b") (some "t") [] r
    × (request "/api/x" "POST" (str "b") (str "t") (409 ∷ []) [] refusing [] ≡ (
      outcome reading.loads "POST" "/api/x" (409 ∷ []) (replied 409 "taken"),
      requested r ∷ [],
    ))
request_sends_example = request_sends "/api/x" "POST" (str "b") (some "t") (409 ∷ []) [] refusing []
