-- ===== src/E2e/SevenKeys/Signing.antt =====
-- scripts/market_integrity_e2e.py: what the seven keys sign, and how.
pub mod Contained
use stir_main.Base.{Bool, List, Option, String, [], ℕ, ◌<>◌, ◌∷◌}
use stir_main.Base.Int.{ℤ}
use stir_main.Host.Exec.{Exec, pure, ◌>>=◌, ◌>>◌}
use stir_main.Json.{Json, str}
use stir_main.Py.{canonical, public_text, sha256, signed}

abbrev pub domain : String
domain = "STIR:MARKET:CONSTITUTION:V1"

abbrev pub guardian_domain : String
guardian_domain = "STIR:MARKET:GUARDIAN:V1"

abbrev pub possession_domain : String
possession_domain = "STIR:MARKET:POSSESSION:V1"

abbrev pub bootstrap_domain : String
bootstrap_domain = "STIR:MARKET:BOOTSTRAP:V1"

pub digest : Json → Exec String
digest value = do sha256 (← canonical value)

pub rawkey : String → Exec String
rawkey key = public_text key

pub sign : String → String → Json → Exec String
sign key domain payload = do signed key (domain <> "\0" <> (← canonical payload))
