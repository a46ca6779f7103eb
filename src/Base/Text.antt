-- ===== src/Base/Text.antt =====
-- The methods of Python's `str` that the scripts use, on texts as sequences of code points.
mod Tests
use Prim.Native.Char.{Char, code}
use Prim.Native.String.{String, [], ◌∷◌, ◌++◌ as ◌<>◌}
use Prim.Native.String.append
use mathlib.Core.Logic.{◌≢◌}
use mathlib.Core.Path.{◌≡◌, refl, sym, ap, ◌∙◌}
use native.Mathlib.Omega.{arith}
use mathlib.Core.List
use mathlib.Core.List.{List}
use stir_main.Base.Tests.{ltb, leb, ◌==◌, ◌=s=◌, if◌then◌else◌}
use mathlib.Core.Bool.{Bool, true, false, not, ◌&&◌, ◌||◌}
use mathlib.Core.Option.{Option, none, some}
use Prim.Native.Nat.{ℕ, zero, suc, ◌+◌, ◌-◌}

between : ℕ → ℕ → ℕ → Bool
between lo hi c = leb lo c && leb c hi

-- `str.isspace` of one character.
unfoldable pub is_space : ℕ → Bool
unfolding between
is_space c =
    between 9 13 c
    || between 28 32 c
    || c == 0x85
    || c == 0xa0
    || c == 0x1680
    || between 0x2000 0x200a c
    || between 0x2028 0x2029 c
    || c == 0x202f
    || c == 0x205f
    || c == 0x3000

-- The characters at which `str.splitlines` breaks a line.
unfoldable pub is_break : ℕ → Bool
unfolding between
is_break c = between 10 13 c || between 28 30 c || c == 0x85 || between 0x2028 0x2029 c

unfoldable pub lstrip : String → String
unfolding is_space
lstrip [] = []
lstrip (c ∷ s) = let rest = lstrip s in if is_space (code c) then rest else c ∷ s

trim_end : Char → String → String
unfolding is_space
trim_end c [] = if is_space (code c) then [] else c ∷ []
trim_end c (d ∷ s) = c ∷ d ∷ s

unfoldable pub rstrip : String → String
unfolding trim_end
rstrip [] = []
rstrip (c ∷ s) = trim_end c (rstrip s)

-- `str.strip()`.
unfoldable pub strip : String → String
unfolding lstrip rstrip
strip s = lstrip (rstrip s)

-- `s.startswith(t)`, and `t in s`.
unfoldable pub starts_with : String → String → Bool
starts_with s [] = true
starts_with [] (d ∷ t) = false
starts_with (c ∷ s) (d ∷ t) = code c == code d && starts_with s t

unfoldable pub contains : String → String → Bool
unfolding starts_with
contains [] t = starts_with [] t
contains (c ∷ s) t = starts_with (c ∷ s) t || contains s t

unfoldable pub ends_with : String → String → Bool
ends_with [] t = [] =s= t
ends_with (c ∷ s) t = (c ∷ s) =s= t || ends_with s t

onto_first : Char → List String → List String
onto_first c List.[] = List.◌∷◌ (c ∷ []) List.[]
onto_first c (List.◌∷◌ l ls) = List.◌∷◌ (c ∷ l) ls

-- `str.splitlines()`; the flag says that the character before was a carriage return.
lines_after : Bool → String → List String
lines_after cr [] = List.[]
lines_after cr (c ∷ s) =
    let rest = lines_after (code c == 13) s in
    if cr && code c == 10
    then rest
    else if is_break (code c)
    then List.◌∷◌ [] rest
    else onto_first c rest

unfoldable pub splitlines : String → List String
unfolding lines_after onto_first is_break
splitlines s = lines_after false s

-- The text before the first occurrence of the character, and the text after it.
unfoldable pub cut : ℕ → String → Option (String × String)
cut d [] = none
cut d (c ∷ s) =
    let rest = cut d s in
    if code c == d
    then some ([], s)
    else elim rest [ none ↦ none | some (before, after) ↦ some (c ∷ before, after) ]

-- `s.split()`: the runs of characters that are not space.
words_of : Char → Bool → List String → List String
words_of c true ws = List.◌∷◌ (c ∷ []) ws
words_of c false ws = onto_first c ws

starts_space : String → Bool
starts_space [] = true
starts_space (c ∷ s) = is_space (code c)

unfoldable pub split : String → List String
unfolding words_of starts_space onto_first is_space
split [] = List.[]
split (c ∷ s) =
    let rest = split s in if is_space (code c) then rest else words_of c (starts_space s) rest

-- The order of texts by code points.
unfoldable pub text_leb : String → String → Bool
text_leb [] t = true
text_leb (c ∷ s) [] = false
text_leb (c ∷ s) (d ∷ t) = ltb (code c) (code d) || (code c == code d && text_leb s t)

-- `s[:n]`.
unfoldable pub first : ℕ → String → String
first zero s = []
first (suc n) [] = []
first (suc n) (c ∷ s) = c ∷ first n s

-- `s.rsplit(sep, 1)[-1]` for one character: what follows its last occurrence, or the whole text.
has : ℕ → String → Bool
has d [] = false
has d (c ∷ s) = code c == d || has d s

unfoldable pub after_last : ℕ → String → String
unfolding has
after_last d [] = []
after_last d (c ∷ s) =
    let rest = after_last d s in if has d s then rest else if code c == d then s else c ∷ s

-- `s.lower()` of a text of ASCII letters. No other Latin-1 character has an ASCII lower case.
unfoldable pub lower_code : ℕ → ℕ
unfolding between
lower_code c = if between 65 90 c then c + 32 else c

-- Equality with a text of ASCII characters, whatever the case.
unfoldable pub lowers_to : String → String → Bool
unfolding lower_code
lowers_to [] [] = true
lowers_to (c ∷ s) (d ∷ t) = lower_code (code c) == code d && lowers_to s t
lowers_to _ _ = false

-- The code points of a text; its bytes too, if it is ASCII.
unfoldable pub codes_of : String → List ℕ
codes_of [] = List.[]
codes_of (c ∷ s) = List.◌∷◌ (code c) (codes_of s)

pub text_assoc : (s t u : String) → (s <> t) <> u ≡ s <> (t <> u)
text_assoc [] t u = ap (λ v. v <> u) (append.nil t) ∙ sym (append.nil (t <> u))
text_assoc (c ∷ s) t u =
    ap (λ v. v <> u) (append.cons c s t)
    ∙ append.cons c (s <> t) u
    ∙ ap (λ v. c ∷ v) (text_assoc s t u)
    ∙ sym (append.cons c s (t <> u))

-- Two texts that differ before either ends differ whatever follows the first.
starts_with-append :
    (p s q : String)
    → starts_with q p ≡ false
    → starts_with p q ≡ false
    → starts_with (p <> s) q ≡ false
unfolding starts_with
starts_with-append [] s q short differs = absurd (ground arith)
starts_with-append (c ∷ p) s [] short differs = absurd (ground arith)
starts_with-append (c ∷ p) s (d ∷ q) short differs =
    rw (append.cons c p s) (ground (arith, starts_with-append p s q))

starts_with_own : (p s : String) → starts_with (p <> s) p ≡ true
unfolding starts_with
starts_with_own [] s = refl
starts_with_own (c ∷ p) s = rw (append.cons c p s) (ground (arith, starts_with_own p s))

pub append-differ :
    (p q s t : String) → starts_with q p ≡ false → starts_with p q ≡ false → p <> s ≢ q <> t
append-differ p q s t short differs same = ground (
  arith,
  starts_with-append p s q short differs,
  starts_with_own q t,
  ap (λ x. starts_with x q) same,
)

len_chars : String → ℕ
len_chars [] = zero
len_chars (c ∷ s) = suc (len_chars s)

spaces : ℕ → String
spaces zero = []
spaces (suc n) = " " <> spaces n

-- `f'{s:<n}'`.
pub pad : ℕ → String → String
unfolding len_chars spaces
pad n s = s <> spaces (n - len_chars s)

pub text_leb_total : (s t : String) → text_leb s t ≡ false → text_leb t s ≡ true
unfolding text_leb
text_leb_total [] t gt_ = absurd (ground arith)
text_leb_total (c ∷ s) [] gt_ = refl
text_leb_total (c ∷ s) (d ∷ t) gt_ = ground (arith, text_leb_total s t)

pub text_leb_trans :
    (s t u : String) → text_leb s t ≡ true → text_leb t u ≡ true → text_leb s u ≡ true
unfolding text_leb
text_leb_trans [] t u a b = refl
text_leb_trans (c ∷ s) [] u a b = absurd (ground arith)
text_leb_trans (c ∷ s) (d ∷ t) [] a b = absurd (ground arith)
text_leb_trans (c ∷ s) (d ∷ t) (e ∷ u) a b = ground (arith, text_leb_trans s t u)

starts_with-contains : (s t : String) → starts_with s t ≡ true → contains s t ≡ true
unfolding contains starts_with
starts_with-contains [] t h = h
starts_with-contains (c ∷ s) t h = ground (arith, h)

contains-tail :
    (s : String) (d : Char) (t : String) → contains s (d ∷ t) ≡ true → contains s t ≡ true
unfolding contains starts_with
contains-tail [] d t h = absurd (ground arith)
contains-tail (c ∷ s) d t h = ground (arith, contains-tail s d t, starts_with-contains s t)

-- What follows `t` after one or two characters more is found where they are found.
pub contains-unhealthy : (s : String) → contains s "unhealthy" ≡ true → contains s "healthy" ≡ true
contains-unhealthy s h = contains-tail s _ "healthy" (contains-tail s _ "nhealthy" h)
