-- ===== src/E2e/Contained.antt =====
-- What an end-to-end script may do to the machine that it runs on.
use stir_main.Base.{String, Bool, List, ℕ, [], ◌∷◌, ◌++◌, none}
use stir_main.Json.{Json}
use stir_main.Host.{
  Event, Proc, Input, Request, Draw, requested, drew, printed, timed, read, wrote, exported, ran,
  ◌/◌,
}
use stir_main.Host.Emits.{Emits}
use stir_main.Compose.{ps_call, inspect_call, psql_call, sql}
use stir_main.Compose.Guards.{IsIsolated}
use stir_main.Compose.Sending.{sql-Emits}
use stir_main.Smoke.{Headers, request}
use stir_main.Smoke.Sending.{request-Emits}
use stir_main.Py.Emits.{py_rules}

-- A call of `compose` in scripts/governed_boundary_e2e.py.
abbrev pub compose_call : String → List String → Input → Proc
compose_call root args given = record {
  argv =
      ("docker"
        ∷ "compose"
        ∷ "-p"
        ∷ "stir-claude-mvp"
        ∷ "-f"
        ∷ (root / "compose.yml")
        ∷ "-f"
        ∷ (root / "compose.release.yml")
        ∷ [])
      ++ args;
  cwd = root;
  input = given;
  stdout = none;
  env = [];
}

-- Requests to the stack, random draws, what it prints and reads, and SQL that goes to the
-- database of an explicitly named compose project other than `stir-dev`.
pub data Contained : Event → Type 0 where
  asked_stack : (r : Request) → Contained (requested r)
  drawn : (d : Draw) → Contained (drew d)
  told : (s : String) → Contained (printed s)
  clock : Contained timed
  secret : (path : String) → Contained (read path)
  noted : (root said : String) → Contained (wrote (root / ".local/e2e-fixtures.json") said)
  routed : (p : String) → IsIsolated p → Contained (exported "COMPOSE_PROJECT_NAME" p)
  located : (root p service : String) → IsIsolated p → Contained (ran (ps_call root p service))
  composed :
      (root : String) (args : List String) (given : Input)
      → Contained (ran (compose_call root args given))
  inspected : (container : String) → Contained (ran (inspect_call container))
  queried :
      (root p : String) (extra : List String) (runtime : Bool) (statement : String)
      → IsIsolated p
      → Contained (ran (psql_call root p extra runtime statement))

pub sql-Contained : (statement : String) (runtime : Bool) → Emits Contained (sql statement runtime)
sql-Contained statement runtime =
    sql-Emits statement runtime routed (λ root p isolated. located root p "postgres" isolated)
      inspected (λ root. secret _)
      (λ root p extra isolated. queried root p extra runtime statement isolated)

pub request-Contained :
    (path method : String) (body token : Json) (expected : List ℕ) (extra : Headers)
    → Emits Contained (request path method body token expected extra)
request-Contained = request-Emits asked_stack

pub ruleset contained_rules =
    (py_rules, sql-Contained, request-Contained, drawn, told, clock, secret, noted)
