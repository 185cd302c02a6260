-- ===== src/Target.antt =====
-- pkg/server/target_selectors.go: the target of a request.
pub mod Hosts
pub mod PathIndex
pub mod Keeps
use proxyreverse.Prelude.{
  ℕ, zero, suc, ◌+◌, ◌-◌, ◌^◌, ◌≡◌, Bool, true, false, Option, none, some, List, [], ◌∷◌, ◌++◌,
  Text, ℤ, pos, negsuc, length, get_elem?, text_eq, ltb, ◌==◌, if◌then◌else◌, Result, ok, err,
  ◌>>=◌,
}
use proxyreverse.Go.Split.{split}
use proxyreverse.Go.HostPort.{split_host_port}
use proxyreverse.Go.Decimal.{parse_uint16, decimal}
use proxyreverse.Go.Panic.{Panic, index_out_of_range}
use proxyreverse.Go.Paths.{path_join}
use proxyreverse.Config.Models.{target_select_type_default, target_select_type_path_index}
use proxyreverse.Config.Value.{Entries}
use proxyreverse.Http.{
  Request, Url, TargetSelector, default_selector, path_index_selector, HttpBackend,
}

-- The largest `int`.
abbrev pub max_int : ℕ
max_int = 2 ^ 63 - 1

-- `len < index + 1`, where the largest index wraps round to a negative number.
too_short : ℕ → ℤ → Bool
too_short len (pos n) = if n == max_int then false else ltb len (n + 1)
too_short len (negsuc n) = false

-- `slices.Delete(parts, i, i+1)`
unfoldable pub delete_at : ℕ → List Text → List Text
delete_at i [] = []
delete_at zero (w ∷ ws) = ws
delete_at (suc i) (w ∷ ws) = w ∷ delete_at i ws

-- `net.SplitHostPort` with the error dropped.
abbrev pub split_or_empty : Text → Text × Text
split_or_empty s = elim (split_host_port s) [ ok (host, port) ↦ (host, port) | err e ↦ ([], []) ]

abbrev pub with_port : Text → ℕ → Text
with_port host port = host ++ (b':' ∷ decimal port)

module _ {D : Type 0} (backend : HttpBackend D) (request : Request) where
  -- `DefaultSelector.GetTarget`
  unfoldable pub default_target : Text
  default_target =
      with_port (if text_eq backend.target [] then request.host else backend.target) backend.port

  -- the port of the target: the backend's, or that of the path's element
  port_of : Text → ℕ
  port_of part =
      if backend.port == 0 then (parse_uint16 (split_or_empty part).1).0 else backend.port

  -- the part at the index, which may not be there
  take_part : List Text → Option Text → ℕ → Result Panic (Text × Request)
  take_part parts none i = err index_out_of_range
  take_part parts (some part) i = ok (
    with_port part (port_of part),
    record request { url = record request.url { path = path_join (delete_at i parts) } },
  )

  at_index : List Text → ℤ → Result Panic (Text × Request)
  at_index parts (pos i) = take_part parts (get_elem? parts i) i
  at_index parts (negsuc i) = err index_out_of_range

  -- `PathIndexSelector.GetTarget`: the target and the request with its path edited
  unfoldable pub path_index_target : ℤ → Result Panic (Text × Request)
  unfolding too_short port_of take_part at_index
  path_index_target index =
      let parts = split b'/' request.url.path in
      if too_short (length parts) index then ok ([], request) else at_index parts index

  -- `GetTarget`
  unfoldable pub get_target : TargetSelector → Result Panic (Text × Request)
  unfolding default_target path_index_target
  get_target default_selector = ok (default_target, request)
  get_target (path_index_selector index) = path_index_target index

-- The decoder of a selector's parameters, mapstructure: whether it can be built, and what it makes
-- of the parameters of each selector.
pub record SelectorDecoder : Type 0 where
  pub build_error : Option Text
  pub decode_default : Entries → Option Text
  pub decode_path_index : Entries → Result Text ℤ

module _ (decoder : SelectorDecoder) where
  default_of : Option Text → Option TargetSelector
  default_of none = some default_selector
  default_of (some e) = none

  path_index_of : Result Text ℤ → Option TargetSelector
  path_index_of (ok index) = some (path_index_selector index)
  path_index_of (err e) = none

  -- `NewTargetSelector`; `none` is nil
  unfoldable pub new_target_selector : Text → Entries → Option TargetSelector
  unfolding default_of path_index_of
  new_target_selector name parameters =
      if text_eq name target_select_type_default
      then elim decoder.build_error [
        | some e ↦ none
        | none ↦ default_of (decoder.decode_default parameters)
      ]
      else if text_eq name target_select_type_path_index
      then elim decoder.build_error [
        | some e ↦ none
        | none ↦ path_index_of (decoder.decode_path_index parameters)
      ]
      else none
