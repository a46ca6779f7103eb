-- ===== src/Status/Tests.antt =====
-- The flag of an unhealthy and of a healthy container, and a summary of a machine on which nothing runs.
use stir_main.Base.{◌≡◌, refl, false, []}
use stir_main.Base.Text.{contains}
use stir_main.Host.Emits.{Grown}
use stir_main.Host.Samples.{idle}
use stir_main.Deploy.{well}
use stir_main.Status.{flag, status}
use stir_main.Status.Flags.{flag_misses}
use stir_main.Status.ReadOnly.{Reads, status-Reads}

flag_misses_example :
    (flag "Up 2 hours (unhealthy)" ≡ "OK ") × (well "Up 2 hours (unhealthy)" ≡ false)
unfolding contains
flag_misses_example = flag_misses "Up 2 hours (unhealthy)" refl

status-Reads_example : Grown Reads [] (status "" (λ n. "some") idle []).1
status-Reads_example = status-Reads "" (λ n. "some") idle []
