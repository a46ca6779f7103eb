-- ===== src/Py/Numbers.antt =====
-- Python's numbers: `int(v)`, `float(v)` and the arithmetic of the scripts.
use stir_main.Base.{String, ℕ, ◌-◌, ◌==◌, ◌<>◌, Bool, not, Option, none, some, if◌then◌else◌}
use stir_main.Base.Text.{strip, codes_of, cut}
use stir_main.Base.Int.{ℤ, pos, negsuc, ◌+ℤ◌, lt_ℕ}
use stir_main.Proxy.Number.{parse_int}
use stir_main.Py.Texts.{show_int}
use stir_main.Json.{Json, bool, int, real, str, int_of}
use stir_main.Host.Exec.{Exec, pure, raise, asks, some_or_raise, ◌>>=◌, type_error, value_error}

-- The text of a float up to its point; where the text has an exponent this is refused here.
unfoldable pub whole_part : Option (String × String) → Exec ℤ
whole_part none = raise value_error
whole_part (some (whole, _)) = some_or_raise value_error (parse_int 10 (codes_of whole))

-- `int(v)`.
unfoldable pub int_from : Json → Exec ℤ
int_from (int i) = pure i
int_from (bool b) = pure (int_of (bool b))
int_from (str s) = some_or_raise value_error (parse_int 10 (codes_of (strip s)))
int_from (real s) = whole_part (cut 46 s)
int_from _ = raise type_error

-- `float(v)`.
unfoldable pub float_from : Json → Exec Json
float_from (int i) = pure (real (show_int i <> ".0"))
float_from (bool b) = pure (real (show_int (int_of (bool b)) <> ".0"))
float_from (real s) = pure (real s)
float_from (str s) = do
  found ← asks (λ h. h.web.float_of s)
  read_as ← some_or_raise value_error found
  pure (real read_as)
float_from _ = raise type_error

-- `v + n`, and `v >= n`, where `v` is to be an int.
unfoldable pub plus_int : Json → ℕ → Exec Json
plus_int (int i) n = pure (int (i +ℤ pos n))
plus_int (bool b) n = pure (int (int_of (bool b) +ℤ pos n))
plus_int _ n = raise type_error

unfoldable pub minus_int : Json → ℕ → Exec Json
minus_int (int i) n = pure (int (if n == 0 then i else i +ℤ negsuc (n - 1)))
minus_int (bool b) n =
    pure (int (if n == 0 then int_of (bool b) else int_of (bool b) +ℤ negsuc (n - 1)))
minus_int _ n = raise type_error

unfoldable pub at_least : Json → ℕ → Exec Bool
at_least (int i) n = pure (not (lt_ℕ i n))
at_least (bool b) n = pure (not (lt_ℕ (int_of (bool b)) n))
at_least _ n = raise type_error
