-- ===== src/Proxy/Chunked/Sizes.antt =====
-- The lines of the chunked encoding, described by their bytes: a size in hexadecimal with or without
-- an extension, an empty line, and a header field after the last chunk.
use mathlib.Core.List.{append_assoc}
use stir_main.Base.{
  Bool-cases, ℕ, ◌+◌, ◌*◌, ◌<◌, ◌≤◌, ◌==◌, ◌≡◌, refl, ap, ◌∙◌, inl, inr, true, false, some, List,
  [], ◌∷◌, ◌++◌, All, arith,
}
use stir_main.Base.Int.{pos}
use stir_main.Proxy.Number.{digit, digits_on, digits_from, unsigned, parse_int}
use stir_main.Proxy.Chunked.{
  is_blank, is_nil, skip_blanks, trim, trim_end, strip_bytes, before_semicolon, chunk_size,
}

-- A byte that is a hexadecimal digit, and its value.
pub data HexDigit : ℕ → ℕ → Type 0 where
  decimal : (d : ℕ) → d < 10 → HexDigit (48 + d) d
  small : (d : ℕ) → d < 6 → HexDigit (97 + d) (10 + d)
  capital : (d : ℕ) → d < 6 → HexDigit (65 + d) (10 + d)

-- The digits after a number `m`, most significant first, make it `n`.
pub data HexFrom (n : ℕ) : ℕ → List ℕ → Type 0 where
  done : HexFrom n n []
  place :
      {m b d : ℕ} {bs : List ℕ} → HexDigit b d → HexFrom n (m * 16 + d) bs → HexFrom n m (b ∷ bs)

-- What may stand behind the digits: nothing, a carriage return, or an extension.
pub data Ending : List ℕ → Type 0 where
  plain : Ending []
  return : Ending (13 ∷ [])
  extension : (e : List ℕ) → Ending (59 ∷ e)

-- A first line of a chunk, without its line feed.
pub data SizeLine (n : ℕ) : List ℕ → Type 0 where
  size :
      {b d : ℕ} {bs e : List ℕ}
      → HexDigit b d
      → HexFrom n d bs
      → Ending e
      → SizeLine n ((b ∷ bs) ++ e)

-- A line with nothing on it, and one that starts with a visible character.
pub data EmptyLine : List ℕ → Type 0 where
  nothing : EmptyLine []
  only_return : EmptyLine (13 ∷ [])

pub data FieldLine : List ℕ → Type 0 where
  field : (c : ℕ) (l : List ℕ) → 33 ≤ c → FieldLine (c ∷ l)

digit-HexDigit : {b d : ℕ} → HexDigit b d → digit 16 b ≡ some d
unfolding digit
digit-HexDigit (decimal d low) = ground arith
digit-HexDigit (small d low) = ground arith
digit-HexDigit (capital d low) = ground arith

digits_on-HexFrom : {n m : ℕ} {bs : List ℕ} → HexFrom n m bs → digits_on 16 false m bs ≡ some n
unfolding digits_on
digits_on-HexFrom done = refl
digits_on-HexFrom (place x h) = ground (arith, digit-HexDigit x, digits_on-HexFrom h)

-- Digits are no signs, no blanks, no semicolons and no letter x.
abbrev IsPlain : ℕ → Type 0
IsPlain b =
    ((b == 45) ≡ false)
    × ((b == 43) ≡ false)
    × ((b == 59) ≡ false)
    × ((b == 120) ≡ false)
    × ((b == 88) ≡ false)
    × (is_blank b ≡ false)

HexDigit-IsPlain : {b d : ℕ} → HexDigit b d → IsPlain b
HexDigit-IsPlain (decimal d low) =
    (ground arith, ground arith, ground arith, ground arith, ground arith, ground arith)
HexDigit-IsPlain (small d low) =
    (ground arith, ground arith, ground arith, ground arith, ground arith, ground arith)
HexDigit-IsPlain (capital d low) =
    (ground arith, ground arith, ground arith, ground arith, ground arith, ground arith)

HexFrom-IsPlain : {n m : ℕ} {bs : List ℕ} → HexFrom n m bs → All IsPlain bs
HexFrom-IsPlain done = tt
HexFrom-IsPlain (place x h) = (HexDigit-IsPlain x, HexFrom-IsPlain h)

digits_from-Hex :
    {n b d : ℕ} {bs : List ℕ} → HexDigit b d → HexFrom n d bs → digits_from 16 (b ∷ bs) ≡ some n
unfolding digits_from
digits_from-Hex x h = ground (arith, digit-HexDigit x, digits_on-HexFrom h)

unsigned-Hex :
    {n b d : ℕ} {bs : List ℕ} → HexDigit b d → HexFrom n d bs → unsigned 16 (b ∷ bs) ≡ some n
unfolding unsigned
unsigned-Hex x done = digits_from-Hex x done
unsigned-Hex {b} x (place y h) =
    let (_, _, _, no_small, no_capital, _) = HexDigit-IsPlain y in
    let all_ = digits_from-Hex x (place y h) in
    elim (Bool-cases (b == 48)) [
      | inl zero_first ↦ rw (zero_first, no_small, no_capital) all_
      | inr other ↦ rw other all_
    ]

parse_int-Hex :
    {n b d : ℕ} {bs : List ℕ} → HexDigit b d → HexFrom n d bs → parse_int 16 (b ∷ bs) ≡ some (pos n)
unfolding parse_int
parse_int-Hex x h =
    let (no_minus, no_plus, _, _, _, _) = HexDigit-IsPlain x in
    rw (no_minus, no_plus, unsigned-Hex x h) refl

trim-plain : (b : ℕ) (bs : List ℕ) → is_blank b ≡ false → trim b bs ≡ b ∷ bs
unfolding trim
trim-plain b [] filled = rw filled refl
trim-plain b (c ∷ bs) filled = refl

trim_end-append : (bs e : List ℕ) → All IsPlain bs → trim_end e ≡ [] → trim_end (bs ++ e) ≡ bs
unfolding trim_end trim
trim_end-append [] e plains blank = blank
trim_end-append (b ∷ bs) e (p, plains) blank =
    let (_, _, _, _, _, filled) = p in
    ap (trim b) (trim_end-append bs e plains blank) ∙ trim-plain b bs filled

before-append :
    (bs e : List ℕ) → All IsPlain bs → before_semicolon (bs ++ e) ≡ bs ++ before_semicolon e
unfolding before_semicolon
before-append [] e plains = refl
before-append (b ∷ bs) e ((_, _, no_cut, _, _, _), plains) =
    rw no_cut (ap (λ r. b ∷ r) (before-append bs e plains))

trim_end-Ending : {e : List ℕ} → Ending e → trim_end (before_semicolon (e ++ 10 ∷ [])) ≡ []
unfolding trim_end before_semicolon trim
trim_end-Ending plain = refl
trim_end-Ending return = refl
trim_end-Ending (extension e) = refl

pub chunk_size-SizeLine :
    {n : ℕ} {l : List ℕ} → SizeLine n l → chunk_size (l ++ 10 ∷ []) ≡ some (pos n)
unfolding chunk_size strip_bytes skip_blanks
chunk_size-SizeLine (size {b} {d} {bs} {e} x h end_) =
    let (_, _, no_cut, _, _, filled) = HexDigit-IsPlain x in
    let plains : All IsPlain (b ∷ bs) = (HexDigit-IsPlain x, HexFrom-IsPlain h) in
    let cut_off : before_semicolon (((b ∷ bs) ++ e) ++ 10 ∷ [])
        ≡ (b ∷ bs) ++ before_semicolon (e ++ 10 ∷ []) =
      ap before_semicolon (append_assoc (b ∷ bs) e (10 ∷ []))
      ∙ before-append (b ∷ bs) (e ++ 10 ∷ []) plains in
    let bare : trim_end (before_semicolon (((b ∷ bs) ++ e) ++ 10 ∷ [])) ≡ b ∷ bs =
      ap trim_end cut_off
      ∙ trim_end-append (b ∷ bs) (before_semicolon (e ++ 10 ∷ [])) plains (trim_end-Ending end_) in
    let kept : skip_blanks (b ∷ bs) ≡ b ∷ bs = rw filled refl in
    ap (λ r. parse_int 16 (skip_blanks r)) bare ∙ ap (parse_int 16) kept ∙ parse_int-Hex x h

pub strip_bytes-EmptyLine : {l : List ℕ} → EmptyLine l → is_nil (strip_bytes (l ++ 10 ∷ [])) ≡ true
unfolding strip_bytes skip_blanks trim_end trim
strip_bytes-EmptyLine nothing = refl
strip_bytes-EmptyLine only_return = refl

trim_filled : (c : ℕ) (r : List ℕ) → is_blank c ≡ false → is_nil (skip_blanks (trim c r)) ≡ false
unfolding skip_blanks trim
trim_filled c [] filled = rw filled (rw filled refl)
trim_filled c (b ∷ r) filled = rw filled refl

pub strip_bytes-FieldLine : {l : List ℕ} → FieldLine l → is_nil (strip_bytes (l ++ 10 ∷ [])) ≡ false
unfolding strip_bytes skip_blanks trim_end trim
strip_bytes-FieldLine (field c l seen) = trim_filled c (trim_end (l ++ 10 ∷ [])) (ground arith)
