-- ===== src/Target/Keeps.antt =====
-- What a target selector leaves alone: all of the request but the path of its URL.
use proxyreverse.Prelude.{text_eq_iff, Text, some, ◌≡◌, [], ok, arith, pos, negsuc}
use proxyreverse.Http.{Request, TargetSelector, default_selector, path_index_selector, HttpBackend}
use proxyreverse.Config.Value.{Entries}
use proxyreverse.Config.Models.{target_select_type_default}
use proxyreverse.Target.{SelectorDecoder, new_target_selector, get_target}

-- The request but for the path.
abbrev pub without_path : Request → Request
without_path r = record r { url = record r.url { path = [] } }

module _ {D : Type 0} (backend : HttpBackend D) (request : Request) where
  pub get_target_keeps :
      (s : TargetSelector) (target : Text) (r : Request)
      → get_target backend request s ≡ ok (target, r)
      → without_path r ≡ without_path request
  unfolding get_target
  get_target_keeps default_selector target r e = cc
  get_target_keeps (path_index_selector (pos n)) target r e = ground arith
  get_target_keeps (path_index_selector (negsuc n)) target r e = ground arith

pub new_target_selector-default :
    (decoder : SelectorDecoder) (name : Text) (parameters : Entries) (selector : TargetSelector)
    → name ≡ target_select_type_default
    → new_target_selector decoder name parameters ≡ some selector
    → selector ≡ default_selector
unfolding new_target_selector
new_target_selector-default decoder name parameters selector default e =
    ground (arith, text_eq_iff name target_select_type_default)
