-- ===== src/Json.antt =====
-- Decoded JSON as Python holds it, and the dict operations that yugo/fleet_bus.py uses.
use text.Mathlib.Text.{◌==◌ as str_eq}
use text.Mathlib.TextEquality.{eq_iff}
use Prim.Native.String.{String}
use yugo.Base.{
  ◌⊎◌, inl, inr, Bool-cases, Text, ◌≡◌, refl, Bool, true, false, ◌||◌, Option, none, some, arith,
  if◌then◌else◌,
}
use yugo.Base.Int.{ℤ}

-- `None`, `bool`, `int`, `float` (as its spelling), `str`, `list` and `dict`.
mutual
  pub data Value : Type 0 where
    null : Value
    bool : Bool → Value
    int : ℤ → Value
    float : Text → Value
    str : Text → Value
    arr : Items → Value
    obj : Dict → Value

  pub data Items : Type 0 where
    nil : Items
    cons : Value → Items → Items

  pub data Dict : Type 0 where
    empty : Dict
    entry : String → Value → Dict → Dict

-- `d.get(k)`, with `none` for a missing key
unfoldable pub lookup : String → Dict → Option Value
lookup k empty = none
lookup k (entry j v d) = if str_eq j k then some v else lookup k d

-- `d.get(k)`, with None for a missing key
unfoldable pub get : String → Dict → Value
get k empty = null
get k (entry j v d) = if str_eq j k then v else get k d

-- `k in d`
unfoldable pub has : String → Dict → Bool
has k empty = false
has k (entry j v d) = str_eq j k || has k d

-- `d[k] = v`: a key keeps its place, a new one comes last.
unfoldable pub put : String → Value → Dict → Dict
put k v empty = entry k v empty
put k v (entry j w d) = if str_eq j k then entry j v d else entry j w (put k v d)

-- `d.update(e)`
unfoldable pub update : Dict → Dict → Dict
update d empty = d
update d (entry k v e) = update (put k v d) e

pub lookup-put :
    (k j : String) (v : Value) (d : Dict)
    → lookup j (put k v d) ≡ (if str_eq k j then some v else lookup j d)
unfolding lookup put
lookup-put k j v empty = refl
lookup-put k j v (entry i w d) =
    ground (arith, eq_iff k j, eq_iff i k, eq_iff i j, lookup-put k j v d)

-- `get` and `in` by `lookup`
abbrev pub or_null : Option Value → Value
or_null none = null
or_null (some v) = v

abbrev pub is_some : Option Value → Bool
is_some none = false
is_some (some v) = true

pub get-lookup : (k : String) (d : Dict) → get k d ≡ or_null (lookup k d)
unfolding get lookup
get-lookup k empty = refl
get-lookup k (entry j v d) = ground (arith, get-lookup k d)

pub has-lookup : (k : String) (d : Dict) → has k d ≡ is_some (lookup k d)
unfolding has lookup
has-lookup k empty = refl
has-lookup k (entry j v d) = ground (arith, has-lookup k d)

-- A split on two keys.
pub String-cases : (j k : String) → (j ≡ k) ⊎ (str_eq j k ≡ false)
String-cases j k = elim (Bool-cases (str_eq j k)) [ inl e ↦ inl ((eq_iff j k).0 e) | inr e ↦ inr e ]
