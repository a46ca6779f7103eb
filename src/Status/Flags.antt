-- ===== src/Status/Flags.antt =====
-- The flag in front of a container, against what `deploy.py` takes for healthy.
use stir_main.Base.{String, ◌≡◌, refl, true, false, arith}
use stir_main.Base.Text.{contains, contains-unhealthy}
use stir_main.Deploy.{well}
use stir_main.Status.{is_fine, flag}

-- A container that docker calls unhealthy is flagged as OK, although a deploy is not content with it.
pub flag_misses : (s : String) → contains s "unhealthy" ≡ true → (flag s ≡ "OK ") × (well s ≡ false)
unfolding is_fine
flag_misses s bad = (rw (contains-unhealthy s bad) refl, ground arith)
