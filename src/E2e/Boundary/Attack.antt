-- ===== src/E2e/Boundary/Attack.antt =====
-- scripts/governed_boundary_e2e.py: a request from inside the ordinary container, straight to the verifier.
pub mod Contained
use stir_main.Base.{
  Bool, List, Option, String, [], all, if◌then◌else◌, none, not, some, ℕ, ◌&&◌, ◌++◌, ◌<>◌, ◌==◌,
  ◌=s=◌, ◌∷◌,
}
use stir_main.Base.Int.{pos, ℤ}
use stir_main.Base.Text.{contains, first, starts_with}
use stir_main.Compose.{sql}
use stir_main.E2e.Contained.{compose_call}
use stir_main.Host.{Completed, Input, inherited}
use stir_main.Host.Exec.{Exec, asks, call, pure, ◌>>=◌, ◌>>◌}
use stir_main.Json.{Json, int, str}
use stir_main.Py.{dumps, eq, expect_or, int_from, is_null, pick_back, print, shown, truthy}
use stir_main.Py.Texts.{drop, letters, show_int, suffixes, text_length}

pub compose : List String → Input → Exec Completed
compose args given = do root ← asks (λ h. h.root); call (compose_call root args given)

-- `re.findall(r'HTTP/1\.1 (\d{3})', s)`: two matches cannot overlap.
abbrev is_digit : String → Bool
is_digit s = contains "0123456789" s && not (s =s= "")

status_at : String → Option String
status_at s =
    let code = first 3 (drop 9 s) in
    if starts_with s "HTTP/1.1 " && text_length code == 3 && all is_digit (letters code)
    then some code
    else none

statuses_in : List String → List String
statuses_in [] = []
statuses_in (s ∷ ss) = elim (status_at s) [
  | none ↦ statuses_in ss
  | some code ↦ code ∷ statuses_in ss
]

last_status : List String → Exec ℤ
last_status [] = pure (pos 0)
last_status (code ∷ codes) = do found ← pick_back 1 (code ∷ codes); int_from (str found)

bearer : Json → Exec (List String)
bearer token =
    if truthy token
    then (do pure (("--header=Authorization: Bearer " <> (← shown token)) ∷ []))
    else pure []

pub attack : String → Json → Json → Exec ℤ
unfolding bearer last_status statuses_in status_at
attack path body token = do
  extra ← bearer token
  text ← dumps body
  result ←
      compose
        (("exec" ∷ "-T" ∷ "stir" ∷ "wget" ∷ "-S" ∷ "-q" ∷ "-O" ∷ "-"
            ∷ "--header=Content-Type: application/json" ∷ [])
          ++ extra
          ++ ("--post-data" ∷ text ∷ ("http://governed-verifier:8096" <> path) ∷ []))
        inherited
  last_status (statuses_in (suffixes result.stderr))

pub expect_rejected : String → String → Json → Json → Json → Exec ℤ
expect_rejected name path the_body token expected = do
  the_status ← attack path the_body token
  expect_or name (not (is_null expected))
  expect_or (name <> ": expected exactly " <> (← shown expected) <> ", got " <> show_int the_status)
      (eq (int the_status) expected)
  print ("PASS: " <> name <> " -> " <> show_int the_status)
  pure the_status

pub effective_constitution : String → Exec String
effective_constitution tenant = do
  sql
      ("select coalesce(string_agg(digest_sha256, ',' order by version), '') from stir.market_constitution where tenant_id='"
        <> tenant <> "';")
      Bool.false
