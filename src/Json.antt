-- ===== src/Json.antt =====
-- Values as Python's `json.loads` gives them, and the tests the scripts make of their types.
use stir_main.Base.{String, ◌=s=◌, Bool, true, false, Option, none, some, if◌then◌else◌}
use stir_main.Base.Int.{ℤ, pos}

-- `real` is a float, with its text.
mutual
  pub data Json : Type 0 where
    null : Json
    bool : Bool → Json
    int : ℤ → Json
    real : String → Json
    str : String → Json
    array : Items → Json
    object : Fields → Json

  pub data Items : Type 0 where
    nil : Items
    cons : Json → Items → Items

  pub data Fields : Type 0 where
    end : Fields
    field : String → Json → Fields → Fields

-- `d[k]` where `k in d`. A dict holds a key once.
unfoldable pub lookup : String → Fields → Option Json
lookup k end = none
lookup k (field j v rest) = if j =s= k then some v else lookup k rest

-- What `json.loads` comes to: a value, a `JSONDecodeError`, or some other exception (a number that
-- is longer than the interpreter converts, a value nested deeper than its stack).
pub data Loaded : Type 0 where
  value : Json → Loaded
  decode_error : Loaded
  other_error : Loaded

-- `isinstance(v, str)`, `isinstance(v, bool)`, `isinstance(v, int)`. A bool is an int too.
abbrev pub is_str : Json → Bool
is_str (str _) = true
is_str _ = false

abbrev pub is_bool : Json → Bool
is_bool (bool _) = true
is_bool _ = false

abbrev pub is_int : Json → Bool
is_int (int _) = true
is_int (bool _) = true
is_int _ = false

-- The number that an int stands for.
abbrev pub int_of : Json → ℤ
int_of (int i) = i
int_of (bool true) = pos 1
int_of _ = pos 0

abbrev pub str_of : Json → String
str_of (str s) = s
str_of _ = ""
