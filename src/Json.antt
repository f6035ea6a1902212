-- ===== src/Json.antt =====
-- The values that `json.loads` gives a handler, and the `dict` methods the source reads them by.
use quickonnect.Prelude.{
  ◌||◌, ◌&&◌, nat_eq, ℕ, String, Bool, true, false, Option, none, some, Text, string_eq, ◌==◌,
  if◌then◌else◌, List, [], ◌∷◌, leb, not,
}
use quickonnect.Prelude.Int.{ℤ, pos}

-- A number with a fraction or an exponent is kept as its spelling.
mutual
  pub data Json : Type 0 where
    null : Json
    bool : Bool → Json
    int : ℤ → Json
    float : Text → Json
    str : Text → Json
    arr : Items → Json
    obj : Fields → Json

  pub data Items : Type 0 where
    nil : Items
    cons : Json → Items → Items

  pub data Fields : Type 0 where
    end : Fields
    field : String → Json → Fields → Fields

-- A dict display, a list display, and a number that is not negative.
abbrev pub fields : List (String × Json) → Fields
fields [] = end
fields ((k, v) ∷ l) = field k v (fields l)

abbrev pub items : List Json → Items
items [] = nil
items (v ∷ l) = cons v (items l)

abbrev pub dict : List (String × Json) → Json
dict l = obj (fields l)

abbrev pub num : ℕ → Json
num n = int (pos n)

abbrev pub or_null : Option Json → Json
or_null none = null
or_null (some v) = v

-- `payload.get(key)`; `json.loads` keeps the last of two equal keys, so `Fields` has each once.
unfoldable pub find : String → Fields → Option Json
find k end = none
find k (field j v l) = if k == j then some v else find k l

-- `payload.get(key, default)`
unfoldable pub get_or : String → Json → Fields → Json
unfolding find
get_or k d l = elim (find k l) [ none ↦ d | some v ↦ v ]

-- `dict(payload)` with `payload[key] = v` after it.
unfoldable pub set_field : String → Json → Fields → Fields
set_field k v end = field k v end
set_field k v (field j w l) = if k == j then field j v l else field j w (set_field k v l)

-- Whether the number that a text spells is not zero: a digit above 0 before an exponent, or one of
-- `NaN` and `Infinity`. (A number too small for a double is not rounded to zero.)
unfoldable pub spells_nonzero : Text → Bool
spells_nonzero [] = false
spells_nonzero (c ∷ t) =
    let rest = spells_nonzero t in
    if c == b'e' || c == b'E'
    then false
    else if (leb b'1' c && leb c b'9') || (c == b'N' || c == b'I')
    then true
    else rest

-- `bool(v)`: whether the value passes `if v`.
unfoldable pub truthy : Json → Bool
unfolding spells_nonzero
truthy null = false
truthy (bool b) = b
truthy (int n) = elim n [ pos k ↦ not (leb k 0) | _ ↦ true ]
truthy (float t) = spells_nonzero t
truthy (str []) = false
truthy (str (c ∷ t)) = true
truthy (arr nil) = false
truthy (arr (cons v l)) = true
truthy (obj end) = false
truthy (obj (field k v l)) = true

-- `isinstance(v, int)`: Python's booleans are integers too.
unfoldable pub as_int : Json → Option ℤ
as_int (int n) = some n
as_int (bool true) = some (pos 1)
as_int (bool false) = some (pos 0)
as_int _ = none
