-- ===== src/Update/Assignments.antt =====
-- One line of `.env`: what `read_env` takes for an assignment, in terms of the line's text.
use stir_main.Base.{
  String, ◌<>◌, ◌==◌, ◌≡◌, refl, sym, ap, ◌∙◌, ◌⊎◌, inl, inr, Option, none, some, false, arith,
  Bool-cases,
}
use stir_main.Base.Text.{strip, starts_with, cut}
use stir_main.Py.Splitting.{separators}
use stir_main.Update.{assignment}
use text.Mathlib.TextEquality.{Char-path}
use Prim.Native.Char.{Char, code}
use Prim.Native.String.{[], ◌∷◌}
use Prim.Native.String.append

-- The line, stripped, is no comment and has the key, an equals sign and the value, with blanks around
-- either; the first equals sign counts.
pub record Assigns (key v line : String) : Type 0 where
  pub left : String
  pub right : String
  pub parts : strip line ≡ left <> "=" <> right
  pub first_sign : separators 61 left ≡ 0
  pub no_comment : starts_with (strip line) "#" ≡ false
  pub key_is : strip left ≡ key
  pub value_is : strip right ≡ v

abbrev equals : Char
equals = "="

sign : (s : String) → "=" <> s ≡ equals ∷ s
sign s = append.cons equals [] s ∙ ap (λ t. equals ∷ t) (append.nil s)

-- Where `cut` cuts.
abbrev Halves : String → Option (String × String) → Type 0
Halves s o =
    (o ≡ none) ⊎ ((a b : String) × (o ≡ some (a, b)) × (s ≡ a <> "=" <> b) × (separators 61 a ≡ 0))

cut-Halves : (s : String) → Halves s (cut 61 s)
unfolding cut separators
cut-Halves [] = inl refl
cut-Halves (c ∷ s) = elim (Bool-cases (code c == 61)) [
  | inl here ↦ inr (
    [],
    s,
    rw here refl,
    ap (λ d. d ∷ s) (Char-path c equals (ground arith))
        ∙ sym (sign s)
        ∙ sym (append.nil ("=" <> s)),
    refl,
  )
  | inr other ↦ elim (cut-Halves s) [
    | inl no_ ↦ inl (rw (other, no_) refl)
    | inr (a, b, at_, whole, none_before) ↦ inr (
      c ∷ a,
      b,
      rw (other, at_) refl,
      ap (λ t. c ∷ t) whole ∙ sym (append.cons c a ("=" <> b)),
      rw other (omega (arith, none_before)),
    )
  ]
]

cut-append : (a b : String) → separators 61 a ≡ 0 → cut 61 (a <> "=" <> b) ≡ some (a, b)
unfolding cut separators
cut-append [] b none_before = rw (append.nil ("=" <> b), sign b) refl
cut-append (c ∷ a) b none_before =
    let other : (code c == 61) ≡ false = ground arith in
    rw (append.cons c a ("=" <> b)) (rw other (rw (cut-append a b (omega arith)) refl))

pub assignment-Assigns :
    (key v line : String) → assignment (strip line) ≡ some (key, v) → Assigns key v line
assignment-Assigns key v line e = elim (Bool-cases (starts_with (strip line) "#")) [
  | inl comment ↦ absurd (ground arith)
  | inr plain ↦ elim (cut-Halves (strip line)) [
    | inl no_ ↦ absurd (ground arith)
    | inr (a, b, at_, whole, none_before) ↦
        let got : assignment (strip line) ≡ some (strip a, strip b) = rw (plain, at_) refl in
        let named : ◌≡◌ {A = Option (String × String)} (some (strip a, strip b)) (some (key, v)) =
          sym got ∙ e in
        record {
          left = a;
          right = b;
          parts = whole;
          first_sign = none_before;
          no_comment = plain;
          key_is = ground arith;
          value_is = ground arith;
        }
  ]
]

pub Assigns-assignment :
    (key v line : String) → Assigns key v line → assignment (strip line) ≡ some (key, v)
Assigns-assignment key v line a =
    let at_ : cut 61 (strip line) ≡ some (a.left, a.right) =
      ap (cut 61) a.parts ∙ cut-append a.left a.right a.first_sign in
    rw (a.no_comment, at_, a.key_is, a.value_is) refl
