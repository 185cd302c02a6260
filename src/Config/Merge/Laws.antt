-- ===== src/Config/Merge/Laws.antt =====
-- What the merged map of pkg/server/config/loading.go holds at each path of keys.
use proxyreverse.Prelude.{
  ◌≡◌, ◌⊎◌, ◌↔◌, sym, subst, Option, none, some, List, [], ◌∷◌, Text, arith, text_eq, text_eq_iff,
  if◌then◌else◌, Option-cases, inl, inr, Bool-cases,
}
use proxyreverse.Config.Value.{
  Value, map, Entries, end, entry, find_entry, find_entry-put_entry, IsTree, AreTrees,
}
use proxyreverse.Config.Merge.{config_map_merge, keep, descend}

-- The value at a key from the default and the setting there.
abbrev pub combine : Option Value → Option Value → Option Value
combine l none = l
combine (some (map l)) (some (map r)) = some (map (config_map_merge l r))
combine l (some w) = some w

find_entry-keep :
    (j k : Text) (v : Value) (right : Entries)
    → find_entry k (keep j v right) ≡ (
        if text_eq j k
        then elim (find_entry k right) [ none ↦ some v | some w ↦ some w ]
        else find_entry k right)
unfolding keep
find_entry-keep j k v right = ground (arith, find_entry-put_entry j k v right, text_eq_iff j k)

find_entry-descend :
    (j k : Text) (l right : Entries)
    → find_entry k (descend j l (config_map_merge l) right)
      ≡ (if text_eq j k then combine (some (map l)) (find_entry k right) else find_entry k right)
unfolding descend
find_entry-descend j k l right = elim (Option-cases (find_entry j right)) [
  | inl missing ↦ ground (arith, missing, find_entry-put_entry j k (map l) right, text_eq_iff j k)
  | inr (map r, found) ↦
      ground
        (arith, found, find_entry-put_entry j k (map (config_map_merge l r)) right, text_eq_iff j k)
  | inr (w, found) ↦ ground (arith, found, text_eq_iff j k)
]

-- A key of the merged map has the setting, or the default if there is no setting, or the merge of
-- the two if both are maps.
pub find_entry-config_map_merge :
    (left right : Entries) (k : Text)
    → AreTrees left
    → find_entry k (config_map_merge left right) ≡ combine (find_entry k left) (find_entry k right)
unfolding config_map_merge find_entry
find_entry-config_map_merge end right k t = ground arith
find_entry-config_map_merge (entry j (map l) left) right k (free, tree, t) = ground (
  arith,
  find_entry-config_map_merge left (descend j l (config_map_merge l) right) k t,
  find_entry-descend j k l right,
  text_eq_iff j k,
)
find_entry-config_map_merge (entry j v left) right k (free, tree, t) = ground (
  arith,
  find_entry-config_map_merge left (keep j v right) k t,
  find_entry-keep j k v right,
  text_eq_iff j k,
)

-- The value at a path of keys below a value that may be missing.
unfoldable pub value_at : List Text → Option Value → Option Value
value_at [] o = o
value_at (k ∷ ks) (some (map m)) = value_at ks (find_entry k m)
value_at (k ∷ ks) _ = none

-- A value that is no map.
abbrev pub IsLeaf : Value → Type 0
IsLeaf (map m) = ⊥
IsLeaf v = Unit

-- Nothing is set at the path or on the way to it.
abbrev pub IsUnset : List Text → Option Value → Type 0
IsUnset ks none = Unit
IsUnset [] (some w) = ⊥
IsUnset (k ∷ ks) (some (map m)) = IsUnset ks (find_entry k m)
IsUnset (k ∷ ks) (some w) = ⊥

abbrev AreTrees? : Option Value → Type 0
AreTrees? none = Unit
AreTrees? (some v) = IsTree v

find_entry-IsTree : (k : Text) (m : Entries) → AreTrees m → AreTrees? (find_entry k m)
unfolding find_entry
find_entry-IsTree k end t = tt
find_entry-IsTree k (entry j w m) (free, tree, t) = elim (Bool-cases (text_eq j k)) [
  | inl same ↦ rw same tree
  | inr other ↦ rw other (find_entry-IsTree k m t)
]

settings :
    (path : List Text) (l r : Option Value) (v : Value)
    → AreTrees? l
    → IsLeaf v
    → value_at path r ≡ some v
    → value_at path (combine l r) ≡ some v
unfolding value_at
settings [] none r v t leaf e = ground arith
settings [] (some l) none v t leaf e = ground arith
settings [] (some l) (some (map r)) v t leaf e = ground arith
settings [] (some l) (some r) v t leaf e = ground arith
settings (k ∷ ks) none (some (map r)) v t leaf e = e
settings (k ∷ ks) (some (map l)) (some (map r)) v t leaf e =
    rw (find_entry-config_map_merge l r k t)
      (settings ks (find_entry k l) (find_entry k r) v (find_entry-IsTree k l t) leaf e)
settings (k ∷ ks) l r v t leaf e = ground arith

-- A setting that is no map stays as it is, at any depth, whatever the defaults.
pub config_map_merge-settings :
    (path : List Text) (left right : Entries) (v : Value)
    → AreTrees left
    → IsLeaf v
    → value_at path (some (map right)) ≡ some v
    → value_at path (some (map (config_map_merge left right))) ≡ some v
config_map_merge-settings path left right v t leaf e =
    settings path (some (map left)) (some (map right)) v t leaf e

defaults :
    (path : List Text) (l r : Option Value) (v : Value)
    → AreTrees? l
    → IsUnset path r
    → value_at path l ≡ some v
    → value_at path (combine l r) ≡ some v
unfolding value_at
defaults path l none v t unset e = e
defaults [] l (some r) v t unset e = absurd unset
defaults (k ∷ ks) (some (map l)) (some (map r)) v t unset e =
    rw (find_entry-config_map_merge l r k t)
      (defaults ks (find_entry k l) (find_entry k r) v (find_entry-IsTree k l t) unset e)
defaults (k ∷ ks) l (some r) v t unset e = ground arith

-- A default stands, at any depth, where nothing is set at its path or on the way to it.
pub config_map_merge-defaults :
    (path : List Text) (left right : Entries) (v : Value)
    → AreTrees left
    → IsUnset path (some (map right))
    → value_at path (some (map left)) ≡ some v
    → value_at path (some (map (config_map_merge left right))) ≡ some v
config_map_merge-defaults path left right v t unset e =
    defaults path (some (map left)) (some (map right)) v t unset e

-- What is set at a path, or the default where nothing is set at it or on the way to it.
abbrev pub IsSettled : List Text → Option Value → Option Value → Value → Type 0
IsSettled path l r v = (value_at path r ≡ some v) ⊎ (IsUnset path r × (value_at path l ≡ some v))

settled :
    (path : List Text) (l r : Option Value) (v : Value)
    → AreTrees? l
    → IsLeaf v
    → value_at path (combine l r) ≡ some v
    → IsSettled path l r v
unfolding value_at
settled path l none v t leaf e = inr (tt, e)
settled path none (some r) v t leaf e = inl e
settled [] (some (map l)) (some (map r)) v t leaf e =
    absurd (subst (λ o. elim o [ some w ↦ IsLeaf w | none ↦ Unit ]) (sym e) leaf)
settled (k ∷ ks) (some (map l)) (some (map r)) v t leaf e =
    settled ks (find_entry k l) (find_entry k r) v (find_entry-IsTree k l t) leaf
      (rw (sym (find_entry-config_map_merge l r k t)) e)
settled path (some l) (some r) v t leaf e = inl e

-- The values that are no maps in the merged map are exactly those of the setting at their path, and
-- those of the default where nothing is set at their path or on the way to it.
pub config_map_merge-IsSettled :
    (path : List Text) (left right : Entries) (v : Value)
    → AreTrees left
    → IsLeaf v
    → (value_at path (some (map (config_map_merge left right))) ≡ some v)
      ↔ IsSettled path (some (map left)) (some (map right)) v
config_map_merge-IsSettled path left right v t leaf = (
  settled path (some (map left)) (some (map right)) v t leaf,
  λ h. elim h [
    | inl set ↦ config_map_merge-settings path left right v t leaf set
    | inr (unset, default) ↦ config_map_merge-defaults path left right v t unset default
  ],
)
