-- ===== src/Config/Value.antt =====
-- The values that the YAML decoder puts behind `interface{}` in pkg/server/config/loading.go.
use proxyreverse.Prelude.{
  ◌≡◌, refl, arith, text_eq, text_eq_iff, if◌then◌else◌, Option, none, some, Bool, List, [], ◌∷◌, ℤ,
  Text,
}

-- `opaque` is any other scalar, a float or a time, by its print.
mutual
  pub data Value : Type 0 where
    null : Value
    boolean : Bool → Value
    integer : ℤ → Value
    text : Text → Value
    opaque : Text → Value
    list : Values → Value
    map : Entries → Value

  -- `[]interface{}`
  pub data Values : Type 0 where
    nil : Values
    cons : Value → Values → Values

  -- `map[string]interface{}`
  pub data Entries : Type 0 where
    end : Entries
    entry : Text → Value → Entries → Entries

unfoldable pub items : Values → List Value
items nil = []
items (cons v vs) = v ∷ items vs

-- `v, ok := m[k]` and `m[k] = v`
unfoldable pub find_entry : Text → Entries → Option Value
find_entry k end = none
find_entry k (entry j v m) = if text_eq j k then some v else find_entry k m

unfoldable pub put_entry : Text → Value → Entries → Entries
put_entry k v end = entry k v end
put_entry k v (entry j w m) = if text_eq j k then entry k v m else entry j w (put_entry k v m)

pub find_entry-put_entry :
    (k j : Text) (v : Value) (m : Entries)
    → find_entry j (put_entry k v m) ≡ (if text_eq k j then some v else find_entry j m)
unfolding find_entry put_entry
find_entry-put_entry k j v end = refl
find_entry-put_entry k j v (entry i w m) =
    ground (arith, text_eq_iff k j, text_eq_iff i k, text_eq_iff i j, find_entry-put_entry k j v m)

-- Maps with distinct keys, all the way down.
abbrev mutual
  pub IsTree : Value → Type 0
  IsTree null = Unit
  IsTree (boolean b) = Unit
  IsTree (integer n) = Unit
  IsTree (text t) = Unit
  IsTree (opaque t) = Unit
  IsTree (list vs) = Unit
  IsTree (map m) = AreTrees m

  pub AreTrees : Entries → Type 0
  AreTrees end = Unit
  AreTrees (entry k v m) = (find_entry k m ≡ none) × IsTree v × AreTrees m
