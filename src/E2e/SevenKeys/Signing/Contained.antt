-- ===== src/E2e/SevenKeys/Signing/Contained.antt =====
-- The scripts of the module above do nothing but what `Contained` allows.
use stir_main.Base.{String}
use stir_main.Json.{Json}
use stir_main.Host.Emits.{Emits}
use stir_main.E2e.Contained.{Contained, contained_rules}
use stir_main.E2e.SevenKeys.Signing.{digest, rawkey, sign}

pub digest-Contained : (v : Json) → Emits Contained (digest v)
unfolding digest
digest-Contained v = search contained_rules depth 40

pub rawkey-Contained : (key : String) → Emits Contained (rawkey key)
unfolding rawkey
rawkey-Contained key = search contained_rules depth 40

pub sign-Contained :
    (key domain : String) (payload : Json) → Emits Contained (sign key domain payload)
unfolding sign
sign-Contained key domain payload = search contained_rules depth 40
