-- ===== src/Config/Merge.antt =====
-- `configMapMerge` of pkg/server/config/loading.go: defaults put under a configuration.
pub mod Laws
use proxyreverse.Prelude.{Text, Option, none, some}
use proxyreverse.Config.Value.{
  Value, null, boolean, integer, text, opaque, list, map, Values, nil, cons, Entries, end, entry,
  find_entry, put_entry,
}

-- A default that is no map goes where the key is missing.
unfoldable pub keep : Text → Value → Entries → Entries
keep k v right = elim (find_entry k right) [ none ↦ put_entry k v right | some w ↦ right ]

-- A default that is a map is merged into a map, and left out beside anything else.
merge_into : Text → (Entries → Entries) → Value → Entries → Entries
merge_into k merged (map r) right = put_entry k (map (merged r)) right
merge_into k merged null right = right
merge_into k merged (boolean b) right = right
merge_into k merged (integer n) right = right
merge_into k merged (text t) right = right
merge_into k merged (opaque t) right = right
merge_into k merged (list vs) right = right

unfoldable pub descend : Text → Entries → (Entries → Entries) → Entries → Entries
unfolding merge_into
descend k l merged right = elim (find_entry k right) [
  | none ↦ put_entry k (map l) right
  | some w ↦ merge_into k merged w right
]

-- `configMapMerge`: the map on the right after the call
unfoldable pub config_map_merge : Entries → Entries → Entries
unfolding keep descend
config_map_merge end right = right
config_map_merge (entry k (map l) left) right =
    config_map_merge left (descend k l (config_map_merge l) right)
config_map_merge (entry k v left) right = config_map_merge left (keep k v right)
