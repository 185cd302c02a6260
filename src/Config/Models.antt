-- ===== src/Config/Models.antt =====
-- pkg/server/config/models.go and proxy_models.go: the configuration's records. A certificate is
-- its raw bytes, and a pool the certificates that it holds.
use proxyreverse.Prelude.{Bool, Option, List, Text, Assoc, codes}
use proxyreverse.Config.HostSpec.{HostSpec}
use proxyreverse.Config.Value.{Entries}

abbrev pub site_config_type_http_edge : Text
site_config_type_http_edge = codes "http-edge"

abbrev pub target_select_type_default : Text
target_select_type_default = codes ""

abbrev pub target_select_type_path_index : Text
target_select_type_path_index = codes "path"

abbrev pub proxy_environment : Text
proxy_environment = codes "environment"

abbrev pub proxy_direct : Text
proxy_direct = codes "direct"

-- The pool of `TLSCertificatePool`; `none` is the nil pointer of a value that was not decoded.
pub record CertificatePool : Type 0 where
  pub cert_pool : Option (List Text)
  pub original : List Text

pub record Tls : Type 0 where
  pub enable : Bool
  pub no_verify : Bool
  pub server_name_indication : Option Text
  pub ca_certs : CertificatePool

pub record HttpHeaders : Type 0 where
  pub set_headers : Assoc (List Text)
  pub del_headers : List Text

pub record BackendConfig : Type 0 where
  pub target : HostSpec
  pub tls : Tls
  pub target_select : Text
  pub target_select_params : Entries
  pub http_headers : HttpHeaders

pub record Proxy : Type 0 where
  pub proxy : Text

pub record ListenerConfig : Type 0 where
  pub listen_addr : HostSpec
  pub listener_type : Text

pub record SiteConfig : Type 0 where
  pub listener : List Text
  pub host : Text
  pub backend : BackendConfig
  pub proxychain : Text
  pub method : Text

pub record Config : Type 0 where
  pub proxychains : Assoc (List Proxy)
  pub listeners : Assoc ListenerConfig
  pub sites : List SiteConfig
