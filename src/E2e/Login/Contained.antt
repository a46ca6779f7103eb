-- ===== src/E2e/Login/Contained.antt =====
-- The scripts of the module above do nothing but what `Contained` allows.
use stir_main.Base.{String}
use stir_main.Json.{Json}
use stir_main.Host.Emits.{Emits}
use stir_main.E2e.Contained.{Contained, contained_rules}
use stir_main.E2e.Login.{make_login}

pub make_login-Contained :
    (admin : Json) (tenant : String) (role_id : Json) (label suffix : String)
    → Emits Contained (make_login admin tenant role_id label suffix)
unfolding make_login
make_login-Contained admin tenant role_id label suffix = search contained_rules depth 200 fits 20000
