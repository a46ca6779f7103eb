-- ===== src/Proxy/SentHeaders.antt =====
-- The headers that osTRIS gets, against those that the caller sent.
use stir_main.Base.{
  String, ◌=s=◌, ◌≡◌, ◌⊎◌, true, false, Option, none, some, [], ◌∷◌, All, if◌then◌else◌,
}
use stir_main.Base.Text.{lowers_to}
use stir_main.Proxy.{Headers, is_forwarded, capitalized}
use mathlib.Core.List.{Memᴰ}
use Prim.Native.String.{[], ◌∷◌}

-- The value under a key of a dict.
unfoldable pub value_of : String → Headers → Option String
value_of k [] = none
value_of k ((j, v) ∷ d) = let rest = value_of k d in if j =s= k then some v else rest

abbrev Entry : String → String → Headers → Type 0
Entry k v hs = Memᴰ (k, v) hs

-- What osTRIS gets under a name that is `low` in lower case: a value that the caller sent under that name,
-- in any case; and nothing only if the caller sent nothing under it.
abbrev pub Given : String → Headers → Option String → Type 0
Given low hs none = All (λ x. lowers_to x.0 low ≡ false) hs
Given low hs (some v) = (k : String) × Entry k v hs × (lowers_to k low ≡ true)

abbrev pub IsOneOfThree : String × String → Type 0
IsOneOfThree x = (x.0 ≡ "Authorization") ⊎ ((x.0 ≡ "X-tenant") ⊎ (x.0 ≡ "Content-type"))

abbrev HasKey : String → Headers → Type 0
HasKey k d = (v : String) × (value_of k d ≡ some v)

-- How `capitalized` writes a name, and that it writes no other so.
record Writes (low cap : String) : Type 0 where
  writes : (k : String) → lowers_to k low ≡ true → (is_forwarded k ≡ true) × (capitalized k ≡ cap)
  only : (k : String) → is_forwarded k ≡ true → cap ≡ capitalized k → lowers_to k low ≡ true
