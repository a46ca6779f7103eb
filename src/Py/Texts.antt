-- ===== src/Py/Texts.antt =====
-- Python's texts of numbers, and the methods of `str` that cut and join.
use stir_main.Base.{ℕ, zero, suc, ◌+◌, ◌*◌, ◌/◌, ◌%◌, ltb, ◌==◌, String, ◌<>◌, List, if◌then◌else◌}
use stir_main.Base.Text.{codes_of}
use stir_main.Base.Int.{ℤ, pos, negsuc}
use Prim.Native.Char.{Char, code}
use Prim.Native.String.{[], ◌∷◌}

-- One character of an alphabet.
unfoldable pub nth_letter : ℕ → String → String
nth_letter n [] = []
nth_letter zero (c ∷ s) = c ∷ []
nth_letter (suc n) (c ∷ s) = nth_letter n s

digit_text : ℕ → String
unfolding nth_letter
digit_text n = nth_letter n "0123456789"

-- The decimal digits; as many rounds as the number are enough.
digits : ℕ → ℕ → String
unfolding digit_text
digits zero n = digit_text (n % 10)
digits (suc rounds) n =
    let before = digits rounds (n / 10) in
    if ltb n 10 then digit_text n else before <> digit_text (n % 10)

-- `str(n)`, for numbers of up to 64 digits.
unfoldable pub show_nat : ℕ → String
unfolding digits
show_nat n = digits 64 n

unfoldable pub show_int : ℤ → String
unfolding show_nat
show_int (pos n) = show_nat n
show_int (negsuc n) = "-" <> show_nat (suc n)

-- The characters of a text, each as a text.
unfoldable pub letters : String → List String
letters [] = List.[]
letters (c ∷ s) = List.◌∷◌ (c ∷ []) (letters s)

-- What is left of a text at each of its characters.
unfoldable pub suffixes : String → List String
suffixes [] = List.[]
suffixes (c ∷ s) = List.◌∷◌ (c ∷ s) (suffixes s)

unfoldable pub onto : Char → List String → List String
onto c List.[] = List.◌∷◌ (c ∷ []) List.[]
onto c (List.◌∷◌ s ss) = List.◌∷◌ (c ∷ s) ss

-- `s.split(sep)` for one character.
unfoldable pub split_at : ℕ → String → List String
unfolding onto
split_at d [] = List.◌∷◌ [] List.[]
split_at d (c ∷ s) =
    let rest = split_at d s in if code c == d then List.◌∷◌ [] rest else onto c rest

-- `sep.join(ss)`.
unfoldable pub join : String → List String → String
join sep List.[] = []
join sep (List.◌∷◌ s List.[]) = s
join sep (List.◌∷◌ s (List.◌∷◌ t ss)) = s <> sep <> join sep (List.◌∷◌ t ss)

-- `s[n:]`, and `len(s)`.
unfoldable pub drop : ℕ → String → String
drop zero s = s
drop (suc n) [] = []
drop (suc n) (c ∷ s) = drop n s

unfoldable pub text_length : String → ℕ
text_length [] = zero
text_length (c ∷ s) = suc (text_length s)

sextet : ℕ → String
unfolding nth_letter
sextet n = nth_letter n "ABCDEFGHIJKLMNOPQRSTUVWXYZabcdefghijklmnopqrstuvwxyz0123456789-_"

encoded : List ℕ → String
unfolding sextet
encoded List.[] = []
encoded (List.◌∷◌ a List.[]) = sextet (a / 4) <> sextet (a % 4 * 16)
encoded (List.◌∷◌ a (List.◌∷◌ b List.[])) =
    sextet (a / 4) <> sextet (a % 4 * 16 + b / 16) <> sextet (b % 16 * 4)
encoded (List.◌∷◌ a (List.◌∷◌ b (List.◌∷◌ c rest))) =
    sextet (a / 4)
    <> sextet (a % 4 * 16 + b / 16)
    <> sextet (b % 16 * 4 + c / 64)
    <> sextet (c % 64)
    <> encoded rest

-- `urlsafe_b64encode(raw).rstrip(b'=')` of bytes, each a character.
unfoldable pub b64url : String → String
unfolding encoded
b64url raw = encoded (codes_of raw)
