-- ===== src/Update/Env.antt =====
-- `read_env`: the first assignment of `.env` to the key counts.
use stir_main.Base.{
  String, ◌=s=◌, ◌≡◌, refl, sym, ap, ◌∙◌, ◌≢◌, ◌↔◌, ◌⊎◌, inl, inr, Option, none, some, List, [],
  ◌∷◌, ◌++◌, All, arith, eq_iff, eq_refl, Bool-cases, ne_of_test,
}
use stir_main.Base.Text.{strip}
use stir_main.Update.Assignments.{Assigns, assignment-Assigns, Assigns-assignment}
use stir_main.Update.{assignment, chosen, env_value}

-- A line that assigns `v` to the key, after lines none of which assigns it anything.
pub record IsFirst (key v : String) (lines : List String) : Type 0 where
  pub before : List String
  pub line : String
  pub after : List String
  pub whole : lines ≡ before ++ line ∷ after
  pub assigns : Assigns key v line
  pub none_before : All (λ l. (w : String) → ¬ Assigns key w l) before

later :
    (key v line : String) (lines : List String)
    → ((w : String) → ¬ Assigns key w line)
    → IsFirst key v lines
    → IsFirst key v (line ∷ lines)
later key v line lines no_ f = record {
  before = line ∷ f.before;
  line = f.line;
  after = f.after;
  whole = ap (λ ls. line ∷ ls) f.whole;
  assigns = f.assigns;
  none_before = (no_, f.none_before);
}

chosen_cases :
    (o : Option (String × String)) (key : String) (rest : Option String)
    → ((v : String) × (o ≡ some (key, v)) × (chosen o key rest ≡ some v))
      ⊎ (((w : String) → o ≢ some (key, w)) × (chosen o key rest ≡ rest))
unfolding chosen
chosen_cases none key rest = inr (λ w e. ground arith, refl)
chosen_cases (some (k, v)) key rest = elim (Bool-cases (k =s= key)) [
  | inl same ↦ inl (v, ap (λ j. some (j, v)) ((eq_iff k key).0 same), rw same refl)
  | inr other ↦ inr (λ w e. ground (arith, ne_of_test k key other), rw other refl)
]

env_value-IsFirst :
    (key v : String) (lines : List String) → env_value key lines ≡ some v → IsFirst key v lines
unfolding env_value
env_value-IsFirst key v [] e = absurd (ground arith)
env_value-IsFirst key v (line ∷ lines) e =
    elim (chosen_cases (assignment (strip line)) key (env_value key lines)) [
      | inl (w, assigns, took) ↦
          let both : some w ≡ some v = sym took ∙ e in
          let same : w ≡ v = ground arith in
          record {
            before = [];
            line = line;
            after = lines;
            whole = refl;
            assigns = assignment-Assigns key v line (assigns ∙ ap (λ x. some (key, x)) same);
            none_before = tt;
          }
      | inr (no_, passed) ↦
          later key v line lines (λ w a. no_ w (Assigns-assignment key w line a))
            (env_value-IsFirst key v lines (sym passed ∙ e))
    ]

skips :
    (key v line : String) (before after : List String)
    → Assigns key v line
    → All (λ l. (w : String) → ¬ Assigns key w l) before
    → env_value key (before ++ line ∷ after) ≡ some v
unfolding env_value chosen
skips key v line [] after a none_before =
    ap (λ o. chosen o key (env_value key after)) (Assigns-assignment key v line a)
    ∙ rw (eq_refl key) refl
skips key v line (l ∷ before) after a (no_, none_before) =
    elim (chosen_cases (assignment (strip l)) key (env_value key (before ++ line ∷ after))) [
      | inl (w, assigns, took) ↦ absurd (no_ w (assignment-Assigns key w l assigns))
      | inr (_, passed) ↦ passed ∙ skips key v line before after a none_before
    ]

-- A key has the value of the first line of `.env` that assigns it one, comments and blank lines left
-- aside.
pub env_value_iff :
    (key v : String) (lines : List String) → (env_value key lines ≡ some v) ↔ IsFirst key v lines
env_value_iff key v lines = (
  env_value-IsFirst key v lines,
  λ f. ap (env_value key) f.whole ∙ skips key v f.line f.before f.after f.assigns f.none_before,
)
