-- ===== src/Compose/Tests.antt =====
-- The guards over a docker that knows one isolated stack, and one that answers with the live stack.
use stir_main.Base.{String, ◌≡◌, refl, false, some, [], if◌then◌else◌}
use stir_main.Base.Text.{strip, contains}
use stir_main.Host.{Host, Trace, Proc, Completed}
use stir_main.Host.Exec.{steps, ok, fail, Failure, member, exported_in}
use stir_main.Host.Samples.{idle, done}
use stir_main.Compose.{compose_project, verify_isolated_container, sql, runtime_args}
use stir_main.Compose.Routing.{IsCleared, sent, sql_fails_closed}

abbrev docker : String → Trace → Proc → Completed
docker label t p =
    done
      (if member "-q" p.argv then "c1\n" else if member "inspect" p.argv then label else "idax\n")

abbrev isolated : Host
isolated = record idle { environ = λ k. some "gate-2"; run = docker "gate-2\n" }

abbrev crossed : Host
crossed = record idle { environ = λ k. some "gate-2"; run = docker "stir-dev\n" }

query_runs : (sql "select 1;" false isolated []).0 ≡ ok "idax"
unfolding steps sql compose_project verify_isolated_container runtime_args strip contains member
query_runs = refl

not-IsCleared : ¬ IsCleared crossed []
unfolding strip contains member exported_in
not-IsCleared (_, v) = v.not_live refl

sql_fails_closed_example :
    (e : Failure) × (u : Trace) × (sql "drop table x;" false crossed [] ≡ (fail e, u))
    × (sent u ≡ 0)
sql_fails_closed_example = sql_fails_closed crossed "drop table x;" false [] not-IsCleared
