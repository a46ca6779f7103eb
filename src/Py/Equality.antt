-- ===== src/Py/Equality.antt =====
-- `==`, `in` and the truth of Python's values.
use stir_main.Base.{
  ◌==◌, ◌=s=◌, String, ◌<>◌, Bool, true, false, not, ◌&&◌, ◌||◌, none, some, List, [], ◌∷◌, length,
  if◌then◌else◌,
}
use stir_main.Base.Text.{contains}
use stir_main.Base.Int.{ℤ, pos, same}
use stir_main.Py.Texts.{show_int}
use stir_main.Json.{
  Json, Items, Fields, null, bool, int, real, str, array, object, nil, cons, end, field, lookup,
  int_of,
}
use stir_main.Host.Exec.{Exec, pure, raise, type_error}
use stir_main.Py.Values.{elements, keys}

-- A float is held by its text; the text of a whole one below 10^16 ends in `.0`.
abbrev unsigned_zero : String → String
unsigned_zero s = if s =s= "-0.0" then "0.0" else s

int_eq : ℤ → Json → Bool
int_eq i (int j) = same i j
int_eq i (bool b) = same i (int_of (bool b))
int_eq i (real s) = (show_int i <> ".0") =s= unsigned_zero s
int_eq i _ = false

real_eq : String → Json → Bool
real_eq s (int j) = (show_int j <> ".0") =s= unsigned_zero s
real_eq s (bool b) = (show_int (int_of (bool b)) <> ".0") =s= unsigned_zero s
real_eq s (real t) = unsigned_zero s =s= unsigned_zero t && not (s =s= "nan")
real_eq s _ = false

-- `v == w`: a bool is the int that it stands for, and the order of a dict is forgotten.
unfoldable mutual
  unfolding int_eq real_eq

  pub eq : Json → Json → Bool
  eq null null = true
  eq (bool b) w = int_eq (int_of (bool b)) w
  eq (int i) w = int_eq i w
  eq (real s) w = real_eq s w
  eq (str s) (str t) = s =s= t
  eq (array vs) (array ws) = eq_items vs ws
  eq (object fs) (object gs) = length (keys fs) == length (keys gs) && eq_fields fs gs
  eq _ _ = false

  eq_items : Items → Items → Bool
  eq_items nil nil = true
  eq_items (cons v vs) (cons w ws) = eq v w && eq_items vs ws
  eq_items _ _ = false

  eq_fields : Fields → Fields → Bool
  eq_fields end gs = true
  eq_fields (field k v rest) gs =
      let others = eq_fields rest gs in
      elim (lookup k gs) [ none ↦ false | some w ↦ eq v w && others ]

abbrev pub is : Json → String → Bool
is v s = eq v (str s)

abbrev pub is_null : Json → Bool
is_null null = true
is_null _ = false

abbrev pub is_true : Json → Bool
is_true (bool true) = true
is_true _ = false

abbrev pub is_false : Json → Bool
is_false (bool false) = true
is_false _ = false

unfoldable pub among : Json → List Json → Bool
unfolding eq
among v [] = false
among v (w ∷ ws) = eq v w || among v ws

-- `{…} <= {…}` and `{…} == {…}`, of lists that stand for the sets of their elements.
unfoldable pub subset : List Json → List Json → Bool
subset [] ws = true
subset (v ∷ vs) ws = among v ws && subset vs ws

unfoldable pub same_set : List Json → List Json → Bool
same_set vs ws = subset vs ws && subset ws vs

abbrev pub is_array : Json → Bool
is_array (array _) = true
is_array _ = false

-- `v in w`.
unfoldable pub within : Json → Json → Exec Bool
within v (array ws) = pure (among v (elements ws))
within v (object fs) = pure (among v (keys fs))
within (str s) (str t) = pure (contains t s)
within _ _ = raise type_error

unfoldable pub truthy : Json → Bool
truthy null = false
truthy (bool b) = b
truthy (int i) = not (same i (pos 0))
truthy (real s) = not (unsigned_zero s =s= "0.0")
truthy (str s) = not (s =s= "")
truthy (array vs) = not (length (elements vs) == 0)
truthy (object fs) = not (length (keys fs) == 0)
