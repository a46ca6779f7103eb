-- ===== src/E2e/Uuid7/Layout.antt =====
-- What osTRIS requires of a UUID of version 7, of the two halves of the number.
use stir_main.Base.{ℕ, ◌/◌, ◌%◌, ◌<◌, ◌≡◌, arith}
use stir_main.E2e.Uuid7.{halves}

-- Both halves fit 64 bits, the version is 7 and the variant 2, the milliseconds are the high 48 bits,
-- and the low bits are those drawn.
pub record IsUuid7 (millis a b msb lsb : ℕ) : Type 0 where
  pub fits : (msb < 18446744073709551616) × (lsb < 18446744073709551616)
  pub version : msb / 4096 % 16 ≡ 7
  pub variant : lsb / 4611686018427387904 ≡ 2
  pub timestamp : msb / 65536 ≡ millis % 281474976710656
  pub drawn : (msb % 4096 ≡ a % 4096) × (lsb % 4611686018427387904 ≡ b % 4611686018427387904)

-- Whatever the clock and the random source give, the two halves are those of a UUID of version 7.
pub halves-IsUuid7 :
    (millis a b : ℕ) → IsUuid7 millis a b (halves millis a b).0 (halves millis a b).1
unfolding halves
halves-IsUuid7 millis a b = record {
  fits = (omega arith, omega arith);
  version = omega arith;
  variant = omega arith;
  timestamp = omega arith;
  drawn = (omega arith, omega arith);
}
