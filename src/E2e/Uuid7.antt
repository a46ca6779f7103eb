-- ===== src/E2e/Uuid7.antt =====
-- scripts/participant_independence_e2e.py: the identifiers that it makes of the clock and of the
-- random source, as osTRIS does.
pub mod Contained
pub mod Layout
use stir_main.Base.{ℕ, zero, suc, ◌+◌, ◌*◌, ◌/◌, ◌%◌, String, ◌<>◌, List, [], ◌∷◌}
use stir_main.Base.Text.{codes_of}
use stir_main.Py.{draws}
use stir_main.Py.Texts.{nth_letter}
use stir_main.Host.{urandom}
use stir_main.Host.Exec.{Exec, pure, asks, time, ◌>>=◌}

-- `int.from_bytes(raw, 'big')`, one character for a byte.
from_bytes : ℕ → List ℕ → ℕ
from_bytes acc [] = acc
from_bytes acc (b ∷ bs) = from_bytes (acc * 256 + b) bs

-- `msb` and `lsb`, of the milliseconds and of two random numbers. The parts that `|` puts together
-- share no bit, so that it adds them.
unfoldable pub halves : ℕ → ℕ → ℕ → ℕ × ℕ
halves millis a b = (
  millis % 281474976710656 * 65536 + 28672 + a % 4096,
  b % 4611686018427387904 + 9223372036854775808,
)

hex_digits : ℕ → ℕ → String
hex_digits zero n = ""
hex_digits (suc width) n =
    let before = hex_digits width (n / 16) in before <> nth_letter (n % 16) "0123456789abcdef"

-- `str(UUID(int=(msb << 64) | lsb))`.
canonical_form : ℕ × ℕ → String
unfolding hex_digits
canonical_form (msb, lsb) =
    hex_digits 8 (msb / 4294967296)
    <> "-"
    <> hex_digits 4 (msb / 65536)
    <> "-"
    <> hex_digits 4 msb
    <> "-"
    <> hex_digits 4 (lsb / 281474976710656)
    <> "-"
    <> hex_digits 12 lsb

pub uuid7 : Exec String
unfolding from_bytes canonical_form
uuid7 = do
  now ← time
  second ← asks (λ h. h.second)
  a ← draws (urandom 2)
  b ← draws (urandom 8)
  pure (
      canonical_form
        (halves (now * 1000 / second) (from_bytes 0 (codes_of a)) (from_bytes 0 (codes_of b))))
