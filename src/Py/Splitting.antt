-- ===== src/Py/Splitting.antt =====
-- `s.split(sep)` and `s.startswith(t)` against concatenation.
use stir_main.Base.{
  ◌∙◌, ℕ, suc, ◌+◌, ◌==◌, ◌≡◌, ◌≢◌, ◌++◌, false, ◌-◌, ◌⊎◌, refl, sym, ap, subst, ◌=s=◌, ◌||◌, not,
  String, ◌<>◌, true, List, length, inl, inr, Bool-cases, ne_of_test, arith, if◌then◌else◌, eq_iff,
}
use stir_main.Base.Text.{starts_with}
use stir_main.Py.Texts.{split_at, onto}
use text.Mathlib.TextLemmas.{append-nil}
use text.Mathlib.TextEquality.{Char-path}
use Prim.Native.Char.{Char, code}
use Prim.Native.String.{[], ◌∷◌}
use Prim.Native.String.append

-- How often the separator occurs.
unfoldable pub separators : ℕ → String → ℕ
separators d [] = 0
separators d (c ∷ s) = (if code c == d then 1 else 0) + separators d s

length-onto :
    (c : Char) (ss : List String) → length ss ≡ suc (length ss - 1) → length (onto c ss) ≡ length ss
unfolding onto
length-onto c List.[] h = absurd (omega arith)
length-onto c (List.◌∷◌ s ss) h = refl

pub length-split_at : (d : ℕ) (s : String) → length (split_at d s) ≡ suc (separators d s)
unfolding split_at separators
length-split_at d [] = refl
length-split_at d (c ∷ s) = elim (Bool-cases (code c == d)) [
  | inl here ↦ rw here (omega (arith, length-split_at d s))
  | inr other ↦ rw other (
      omega (
        arith,
        length-onto c (split_at d s) (omega (arith, length-split_at d s)),
        length-split_at d s,
      ))
]

pub separators-append :
    (d : ℕ) (s t : String) → separators d (s <> t) ≡ separators d s + separators d t
unfolding separators
separators-append d [] t = rw (append.nil t) (omega arith)
separators-append d (c ∷ s) t = rw (append.cons c s t) (omega (arith, separators-append d s t))

pub starts_with-splits : (s p : String) → starts_with s p ≡ true → (r : String) × (s ≡ p <> r)
unfolding starts_with
starts_with-splits s [] h = (s, sym (append.nil s))
starts_with-splits [] (d ∷ p) h = absurd (ground arith)
starts_with-splits (c ∷ s) (d ∷ p) h =
    let rest = starts_with-splits s p (ground arith) in
    (
      rest.0,
      rw (append.cons d p rest.0) (rw (Char-path c d (ground arith)) (ap (λ x. d ∷ x) rest.1)),
    )

-- `s` as a list of versions: what stands between the separators, and none at all in the empty text.
abbrev pub versions : String → List String
versions s = if s =s= "" then List.[] else split_at 44 s

-- The list of versions has exactly one more at its end, which is not empty.
abbrev pub OneMore : String → String → Type 0
OneMore before after =
    (version : String) × (version ≢ "")
    × (versions after ≡ versions before ++ List.◌∷◌ version List.[])

-- What passes for one more: nothing after nothing, and a separator with nothing behind it.
abbrev pub Blank : String → String → Type 0
Blank before after = ((before ≡ "") × (after ≡ "")) ⊎ (after ≡ before <> ",")

split_single : (s : String) → separators 44 s ≡ 0 → split_at 44 s ≡ List.◌∷◌ s List.[]
unfolding split_at separators onto
split_single [] none_ = refl
split_single (c ∷ s) none_ =
    let other : (code c == 44) ≡ false = ground arith in
    rw other (rw (split_single s (omega (arith, none_))) refl)

comma : (s : String) → "," <> s ≡ "," ∷ s
comma s = append.cons "," [] s ∙ ap (λ t. "," ∷ t) (append.nil s)

onto-append :
    (c : Char) (ss ts : List String)
    → length ss ≡ suc (length ss - 1)
    → onto c (ss ++ ts) ≡ onto c ss ++ ts
unfolding onto
onto-append c List.[] ts filled = absurd (omega arith)
onto-append c (List.◌∷◌ s ss) ts filled = refl

split-append : (s t : String) → split_at 44 ((s <> ",") <> t) ≡ split_at 44 s ++ split_at 44 t
unfolding split_at
split-append [] t = rw (append.nil ",", comma t) refl
split-append (c ∷ s) t =
    rw (append.cons c s ",", append.cons c (s <> ",") t)
      (elim (Bool-cases (code c == 44)) [
        | inl here ↦ rw here (ap (λ ss. List.◌∷◌ [] ss) (split-append s t))
        | inr other ↦ rw other (
            ap (onto c) (split-append s t)
            ∙ onto-append c (split_at 44 s) (split_at 44 t) (omega (arith, length-split_at 44 s)))
      ])

numbers_of_test : (m n : ℕ) → (m == n) ≡ true → m ≡ n
numbers_of_test m n same = ground arith

at_most_one :
    (after : String) → (length (split_at 44 after) == (0 + 1)) ≡ true → separators 44 after ≡ 0
at_most_one after counts = omega (arith, length-split_at 44 after, numbers_of_test _ _ counts)

none_more :
    (before after part : String)
    → (length (split_at 44 after) == (length (split_at 44 before) + 1)) ≡ true
    → after ≡ (before <> ",") <> part
    → separators 44 part ≡ 0
unfolding separators
none_more before after part counts whole = omega (
  arith,
  numbers_of_test _ _ counts,
  length-split_at 44 after,
  length-split_at 44 before,
  ap (separators 44) whole,
  separators-append 44 (before <> ",") part,
  separators-append 44 before ",",
)

holds_more : (before after r : String) → after ≡ (before <> ",") <> r → (after =s= "") ≡ false
unfolding separators
holds_more before after r whole = elim (Bool-cases (after =s= "")) [
  | inr filled ↦ filled
  | inl blank ↦
      let empty : separators 44 after ≡ 0 = ap (separators 44) ((eq_iff after "").0 blank) in
      absurd (
        omega (
          arith,
          empty,
          ap (separators 44) whole,
          separators-append 44 (before <> ",") r,
          separators-append 44 before ",",
        ))
]

pub split-OneMore :
    (before after : String)
    → ((before =s= "") || starts_with after (before <> ",")) ≡ true
    → (length (split_at 44 after)
        == ((if not (before =s= "") then length (split_at 44 before) else 0) + 1))
      ≡ true
    → OneMore before after ⊎ Blank before after
split-OneMore before after starts counts = elim (Bool-cases (before =s= "")) [
  | inl empty ↦ elim (Bool-cases (after =s= "")) [
    | inl still ↦ inr (inl (ground (arith, eq_iff before ""), ground (arith, eq_iff after "")))
    | inr filled ↦
        let single : separators 44 after ≡ 0 = at_most_one after (
          subst
            (λ b.
              (length (split_at 44 after)
                == ((if not b then length (split_at 44 before) else 0) + 1))
              ≡ true)
            empty counts) in
        inl (after, ne_of_test after "" filled, rw (empty, filled) (split_single after single))
  ]
  | inr other ↦
      let (r, whole) =
        starts_with-splits after (before <> ",")
          (subst (λ b. (b || starts_with after (before <> ",")) ≡ true) other starts) in
      let single : separators 44 r ≡ 0 =
        none_more before after r
          (subst
            (λ b.
              (length (split_at 44 after)
                == ((if not b then length (split_at 44 before) else 0) + 1))
              ≡ true)
            other counts)
          whole in
      elim (Bool-cases (r =s= "")) [
        | inl blank ↦ inr (
            inr (
              whole
              ∙ ap (λ t. (before <> ",") <> t) ((eq_iff r "").0 blank)
              ∙ append-nil (before <> ",")))
        | inr filled ↦ inl (
          r,
          ne_of_test r "" filled,
          rw (other, holds_more before after r whole)
              (ap (split_at 44) whole
                ∙ split-append before r
                ∙ ap (λ ss. split_at 44 before ++ ss) (split_single r single)),
        )
      ]
]
