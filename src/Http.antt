-- ===== src/Http.antt =====
-- Requests and backends: what pkg/server/backends.go and pkg/server/target_selectors.go read of
-- `http.Request`, and `HTTPBackend`.
use proxyreverse.Prelude.{ℕ, ℤ, Bool, Option, List, Text, Assoc}
use proxyreverse.Config.Models.{Tls}

-- `http.Header`
abbrev pub Header : Type 0
Header = Assoc (List Text)

-- `url.URL` but for `OmitHost`; `user` is the printed user information, and `path` the decoded path,
-- of which `raw_path` may hold the encoding.
pub record Url : Type 0 where
  pub scheme : Text
  pub opaque : Text
  pub user : Option Text
  pub host : Text
  pub path : Text
  pub raw_path : Text
  pub force_query : Bool
  pub raw_query : Text
  pub fragment : Text
  pub raw_fragment : Text

pub record Request : Type 0 where
  pub method : Text
  pub host : Text
  pub url : Url
  pub header : Header
  pub body : Text

-- The implementations of `TargetSelector`: `DefaultSelector` and `PathIndexSelector`.
pub data TargetSelector : Type 0 where
  default_selector : TargetSelector
  path_index_selector : (index : ℤ) → TargetSelector

-- `HTTPBackend` without its logger; `D` is the type of its dialer. Of its client, `dial` is the dialer
-- that `SetDial` has set, if any; the client's TLS configuration changes, and stands apart.
pub record HttpBackend (D : Type 0) : Type 0 where
  pub dial : Option D
  pub proxychain : D
  pub target : Text
  pub port : ℕ
  pub tls : Tls
  pub set_headers : Header
  pub del_headers : List Text
  pub target_selector : TargetSelector
