-- ===== src/E2e/Uuid7/Contained.antt =====
-- The scripts of the module above do nothing but what `Contained` allows.
use stir_main.Host.Emits.{Emits}
use stir_main.E2e.Contained.{Contained, contained_rules}
use stir_main.E2e.Uuid7.{uuid7}

pub uuid7-Contained : Emits Contained uuid7
unfolding uuid7
uuid7-Contained = search contained_rules depth 40
