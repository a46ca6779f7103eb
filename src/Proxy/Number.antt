-- ===== src/Proxy/Number.antt =====
-- Python's `int(s, 10)` and `int(s, 16)` of the characters of a header or of a chunk's first line.
use stir_main.Base.{
  ℕ, suc, ◌+◌, ◌-◌, ◌*◌, leb, ltb, ◌==◌, Bool, true, false, not, ◌&&◌, ◌||◌, Option, none, some,
  List, [], ◌∷◌, if◌then◌else◌,
}
use stir_main.Base.Int.{ℤ, pos, negsuc}

unfoldable pub digit : ℕ → ℕ → Option ℕ
digit base b =
    let d =
      if leb 48 b && leb b 57
      then b - 48
      else if leb 97 b && leb b 102
      then b - 87
      else if leb 65 b && leb b 70
      then b - 55
      else base in
    if ltb d base then some d else none

-- The characters after the first digit. One underscore may stand between two digits.
unfoldable pub digits_on : ℕ → Bool → ℕ → List ℕ → Option ℕ
digits_on base under acc [] = if under then none else some acc
digits_on base under acc (b ∷ bs) = elim (digit base b) [
  | some d ↦ digits_on base false (acc * base + d) bs
  | none ↦ let rest = digits_on base true acc bs in if b == 95 && not under then rest else none
]

unfoldable pub digits_from : ℕ → List ℕ → Option ℕ
digits_from base [] = none
digits_from base (b ∷ bs) = elim (digit base b) [ some d ↦ digits_on base false d bs | none ↦ none ]

-- After `0x` one underscore may stand.
unfoldable pub after_prefix : List ℕ → Option ℕ
after_prefix [] = none
after_prefix (b ∷ bs) = if b == 95 then digits_from 16 bs else digits_from 16 (b ∷ bs)

unfoldable pub unsigned : ℕ → List ℕ → Option ℕ
unfolding digits_on digits_from after_prefix digit
unsigned base (a ∷ b ∷ bs) =
    if base == 16 && a == 48 && (b == 120 || b == 88)
    then after_prefix bs
    else digits_from base (a ∷ b ∷ bs)
unsigned base bs = digits_from base bs

abbrev negated : ℕ → ℤ
negated n = elim n [ ℕ.zero ↦ pos 0 | suc m ↦ negsuc m ]

abbrev map_int : (ℕ → ℤ) → Option ℕ → Option ℤ
map_int f none = none
map_int f (some n) = some (f n)

-- The text is stripped already. `none` is a `ValueError`.
unfoldable pub parse_int : ℕ → List ℕ → Option ℤ
unfolding unsigned
parse_int base [] = none
parse_int base (b ∷ bs) =
    if b == 45
    then map_int negated (unsigned base bs)
    else if b == 43
    then map_int pos (unsigned base bs)
    else map_int pos (unsigned base (b ∷ bs))
