-- ===== src/Smoke/Sending.antt =====
-- `request`: what it sends, and what it makes of the answer.
use stir_main.Base.{String, List, ℕ}
use stir_main.Json.{Json}
use stir_main.Host.{Event, Reply, replied, unreachable, Request, requested}
use stir_main.Host.Emits.{Emits, Emits-pure, Emits-raise, Emits-bind, Emits-query}
use stir_main.Py.Emits.{py_rules}
use stir_main.Smoke.{Headers, request, with_token, answered, urlopen, judge}

module _ {Q : Event → Type 0} where
  with_token-Emits : (token : Json) (headers : Headers) → Emits Q (with_token token headers)
  unfolding with_token
  with_token-Emits token headers = search py_rules depth 8

  answered-Emits : (reply : Reply) → Emits Q (answered reply)
  unfolding answered
  answered-Emits (replied n text) = Emits-pure _
  answered-Emits unreachable = Emits-raise _

  judge-Emits :
      (method path : String) (expected : List ℕ) (n : ℕ) (text : String)
      → Emits Q (judge method path expected n text)
  unfolding judge
  judge-Emits method path expected n text = search py_rules depth 8

  module _ (sends : (r : Request) → Q (requested r)) where
    urlopen-Emits : (req : Request) → Emits Q (urlopen req)
    unfolding urlopen
    urlopen-Emits req =
        Emits-bind _ _ (Emits-query (requested req) _ (sends req)) (λ reply. answered-Emits reply)

    pub request-Emits :
        (path method : String) (body token : Json) (expected : List ℕ) (extra : Headers)
        → Emits Q (request path method body token expected extra)
    unfolding request
    request-Emits path method body token expected extra =
        search (py_rules, with_token-Emits, urlopen-Emits, judge-Emits) depth 12
