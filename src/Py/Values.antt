-- ===== src/Py/Values.antt =====
-- Literals, subscripts and texts of Python's values. What Python refuses raises.
use stir_main.Base.{
  ℕ, zero, suc, take, ◌=s=◌, String, Option, none, some, List, [], ◌∷◌, reverse, length,
  if◌then◌else◌,
}
use stir_main.Py.Texts.{show_int, letters, text_length}
use stir_main.Json.{
  Json, Items, Fields, null, bool, int, str, array, object, nil, cons, end, field, lookup,
}
use stir_main.Host.Exec.{
  Exec, pure, raise, asks, some_or_raise, ◌>>=◌, key_error, index_error, type_error,
  attribute_error,
}

-- The literals of the scripts: a dict, a list, a list of texts.
unfoldable pub fields : List (String × Json) → Fields
fields [] = end
fields ((k, v) ∷ rest) = field k v (fields rest)

unfoldable pub items : List Json → Items
items [] = nil
items (v ∷ vs) = cons v (items vs)

abbrev pub dict : List (String × Json) → Json
dict kvs = object (fields kvs)

abbrev pub list : List Json → Json
list vs = array (items vs)

abbrev pub no_values : List Json
no_values = []

unfoldable pub strings : List String → List Json
strings [] = []
strings (s ∷ ss) = str s ∷ strings ss

unfoldable pub elements : Items → List Json
elements nil = []
elements (cons v vs) = v ∷ elements vs

unfoldable pub keys : Fields → List Json
keys end = []
keys (field k v rest) = str k ∷ keys rest

set_key : String → Json → Fields → Fields
set_key k v end = field k v end
set_key k v (field j w rest) = if j =s= k then field j v rest else field j w (set_key k v rest)

set_keys : List (String × Json) → Fields → Fields
unfolding set_key
set_keys [] fs = fs
set_keys ((k, v) ∷ rest) fs = set_keys rest (set_key k v fs)

-- `{**v, …}`.
unfoldable pub merged : Json → List (String × Json) → Exec Json
unfolding set_keys
merged (object fs) kvs = pure (object (set_keys kvs fs))
merged _ kvs = raise type_error

-- `v[k]` with a text, and `v.get(k)`.
unfoldable pub item : Json → String → Exec Json
item (object fs) k = some_or_raise key_error (lookup k fs)
item _ k = raise type_error

get_or_null : Option Json → Json
get_or_null none = null
get_or_null (some v) = v

unfoldable pub get : Json → String → Exec Json
unfolding get_or_null
get (object fs) k = pure (get_or_null (lookup k fs))
get _ k = raise attribute_error

unfoldable pub nth : {A : Type 0} → ℕ → List A → Option A
nth n [] = none
nth zero (x ∷ xs) = some x
nth (suc n) (x ∷ xs) = nth n xs

-- `v[n]` and `v[-1]` with a number.
unfoldable pub entry : Json → ℕ → Exec Json
unfolding nth
entry (array vs) n = some_or_raise index_error (nth n (elements vs))
entry (str s) n = some_or_raise index_error (nth n (strings (letters s)))
entry (object fs) n = raise key_error
entry _ n = raise type_error

unfoldable pub last_entry : Json → Exec Json
unfolding nth
last_entry (array vs) = some_or_raise index_error (nth 0 (reverse (elements vs)))
last_entry (str s) = some_or_raise index_error (nth 0 (reverse (strings (letters s))))
last_entry (object fs) = raise key_error
last_entry _ = raise type_error

-- What an addition to a text takes, and what an f-string makes of a value.
unfoldable pub text_of : Json → Exec String
text_of (str s) = pure s
text_of _ = raise type_error

unfoldable pub shown : Json → Exec String
shown (str s) = pure s
shown (int i) = pure (show_int i)
shown (bool b) = pure (if b then "True" else "False")
shown null = pure "None"
shown v = asks (λ h. h.web.repr v)

unfoldable pub text_item : Json → String → Exec String
text_item v k = do x ← item v k; text_of x

unfoldable pub shown_item : Json → String → Exec String
shown_item v k = do x ← item v k; shown x

-- `len(v)`, and what a loop over `v` runs through.
unfoldable pub length_of : Json → Exec ℕ
length_of (array vs) = pure (length (elements vs))
length_of (str s) = pure (text_length s)
length_of (object fs) = pure (length (keys fs))
length_of _ = raise type_error

unfoldable pub each_of : Json → Exec (List Json)
each_of (array vs) = pure (elements vs)
each_of (str s) = pure (strings (letters s))
each_of (object fs) = pure (keys fs)
each_of _ = raise type_error

-- What a method of `str` is called on.
unfoldable pub method_text : Json → Exec String
method_text (str s) = pure s
method_text _ = raise attribute_error

-- `v[:n]` of a list.
unfoldable pub head_of : Json → ℕ → Exec (List Json)
head_of (array vs) n = pure (take n (elements vs))
head_of (str s) n = pure (take n (strings (letters s)))
head_of _ n = raise type_error
