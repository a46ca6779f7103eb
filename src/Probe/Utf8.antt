-- ===== src/Probe/Utf8.antt =====
-- `bytes.decode("utf-8")`: strict UTF-8, with no surrogates and no overlong forms.
use stir_main.Base.{ℕ, zero, suc, ◌+◌, ◌-◌, ◌*◌, ltb, leb, ◌&&◌, Bool, Option, none, some, List}
use stir_main.Base.{[], ◌∷◌, if◌then◌else◌}

within : ℕ → ℕ → ℕ → Bool
within lo hi b = leb lo b && leb b hi

-- What a first byte begins: the number of bytes to come, the range of the next one, and the bits
-- known so far.
pub record Lead : Type 0 where
  pub more : ℕ
  pub lo : ℕ
  pub hi : ℕ
  pub bits : ℕ

abbrev follow : ℕ → ℕ → ℕ → ℕ → Option Lead
follow more lo hi bits = some (record { more = more; lo = lo; hi = hi; bits = bits })

lead : ℕ → Option Lead
unfolding within
lead b =
    if ltb b 0x80
    then follow 0 0x80 0xbf b
    else if within 0xc2 0xdf b
    then follow 1 0x80 0xbf (b - 0xc0)
    else if within 0xe0 0xef b
    then follow 2 (if leb b 0xe0 then 0xa0 else 0x80) (if within 0xed 0xed b then 0x9f else 0xbf)
        (b - 0xe0)
    else if within 0xf0 0xf4 b
    then follow 3 (if leb b 0xf0 then 0x90 else 0x80) (if leb 0xf4 b then 0x8f else 0xbf) (b - 0xf0)
    else none

abbrev push : ℕ → Option (List ℕ) → Option (List ℕ)
push c none = none
push c (some cs) = some (c ∷ cs)

-- `more` bytes of the character with the bits `bits` are still to come.
decode : ℕ → ℕ → ℕ → ℕ → List ℕ → Option (List ℕ)
decode zero lo hi bits [] = some []
decode (suc more) lo hi bits [] = none
decode zero lo hi bits (b ∷ bs) = elim (lead b) [
  | none ↦ none
  | some l ↦
      let rest = decode l.more l.lo l.hi l.bits bs in elim l.more [ zero ↦ push b rest | _ ↦ rest ]
]
decode (suc more) lo hi bits (b ∷ bs) =
    let bits' = bits * 64 + (b - 0x80) in
    let rest = decode more 0x80 0xbf bits' bs in
    if within lo hi b then elim more [ zero ↦ push bits' rest | _ ↦ rest ] else none

unfoldable pub decode_utf8 : List ℕ → Option (List ℕ)
unfolding decode lead
decode_utf8 raw = decode 0 0 0 0 raw
