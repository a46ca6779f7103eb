-- ===== src/Backup/Sorting.antt =====
-- `sorted`: the same names, in the order of their code points.
use mathlib.Core.List.{Perm}
use mathlib.Core.List.Perm
use stir_main.Base.{
  suc, length, ap, ◌∙◌, String, ◌≡◌, refl, inl, inr, true, List, [], ◌∷◌, ◌++◌, All, Bool-cases,
}
use stir_main.Base.Text.{text_leb, text_leb_total, text_leb_trans}
use stir_main.Backup.{insert, sorted}

abbrev pub IsBelow : String → String → Type 0
IsBelow x y = text_leb x y ≡ true

abbrev pub IsSorted : List String → Type 0
IsSorted [] = Unit
IsSorted (x ∷ xs) = All (IsBelow x) xs × IsSorted xs

All-IsBelow :
    (x y : String) (ys : List String) → IsBelow x y → All (IsBelow y) ys → All (IsBelow x) ys
All-IsBelow x y [] below all = tt
All-IsBelow x y (z ∷ zs) below (first, rest) =
    (text_leb_trans x y z below first, All-IsBelow x y zs below rest)

insert-All :
    (x y : String) (ys : List String)
    → IsBelow x y
    → All (IsBelow x) ys
    → All (IsBelow x) (insert y ys)
unfolding insert
insert-All x y [] below all = (below, tt)
insert-All x y (z ∷ zs) below (first, rest) = elim (Bool-cases (text_leb y z)) [
  | inl le_ ↦ rw le_ (below, (first, rest))
  | inr gt_ ↦ rw gt_ (first, insert-All x y zs below rest)
]

insert-IsSorted : (x : String) (xs : List String) → IsSorted xs → IsSorted (insert x xs)
unfolding insert
insert-IsSorted x [] s = (tt, tt)
insert-IsSorted x (y ∷ ys) (first, rest) = elim (Bool-cases (text_leb x y)) [
  | inl le_ ↦ rw le_ ((le_, All-IsBelow x y ys le_ first), (first, rest))
  | inr gt_ ↦ rw gt_ (insert-All y x ys (text_leb_total x y gt_) first, insert-IsSorted x ys rest)
]

pub sorted-IsSorted : (xs : List String) → IsSorted (sorted xs)
unfolding sorted
sorted-IsSorted [] = tt
sorted-IsSorted (x ∷ xs) = insert-IsSorted x (sorted xs) (sorted-IsSorted xs)

insert-Perm : (x : String) (xs : List String) → Perm (insert x xs) (x ∷ xs)
unfolding insert
insert-Perm x [] = Perm.refl (x ∷ [])
insert-Perm x (y ∷ ys) = elim (Bool-cases (text_leb x y)) [
  | inl le_ ↦ rw le_ (Perm.refl (x ∷ y ∷ ys))
  | inr gt_ ↦ rw gt_ (Perm.trans (Perm.cons y (insert-Perm x ys)) (Perm.swap x y ys))
]

pub sorted-Perm : (xs : List String) → Perm (sorted xs) xs
unfolding sorted
sorted-Perm [] = Perm.refl []
sorted-Perm (x ∷ xs) = Perm.trans (insert-Perm x (sorted xs)) (Perm.cons x (sorted-Perm xs))

length-insert : (x : String) (xs : List String) → length (insert x xs) ≡ suc (length xs)
unfolding insert
length-insert x [] = refl
length-insert x (y ∷ ys) = elim (Bool-cases (text_leb x y)) [
  | inl le_ ↦ rw le_ refl
  | inr gt_ ↦ rw gt_ (ap suc (length-insert x ys))
]

pub length-sorted : (xs : List String) → length (sorted xs) ≡ length xs
unfolding sorted
length-sorted [] = refl
length-sorted (x ∷ xs) = length-insert x (sorted xs) ∙ ap suc (length-sorted xs)

All-behind : (x : String) (zs ws : List String) → All (IsBelow x) (zs ++ ws) → All (IsBelow x) ws
All-behind x [] ws all = all
All-behind x (z ∷ zs) ws (_, rest) = All-behind x zs ws rest

-- Where a sorted list is cut, all in front of the cut is below all behind it.
pub IsSorted-append : (xs ys : List String) → IsSorted (xs ++ ys) → All (λ x. All (IsBelow x) ys) xs
IsSorted-append [] ys s = tt
IsSorted-append (x ∷ xs) ys (first, rest) = (All-behind x xs ys first, IsSorted-append xs ys rest)
