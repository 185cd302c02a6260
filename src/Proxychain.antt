-- ===== src/Proxychain.antt =====
-- pkg/server/proxychains.go: the dialer for a chain of proxies.
pub mod Chains
pub mod Readable
use proxyreverse.Prelude.{
  ℕ, suc, ◌+◌, ◌≡◌, Bool, Option, none, some, List, [], ◌∷◌, ◌++◌, Text, codes, text_eq, ◌==◌,
  if◌then◌else◌, Result, ok, err, ◌>>=◌,
}
use proxyreverse.Go.Panic.{Panic, must_failed, type_assertion}
use proxyreverse.Config.Models.{Proxy, proxy_direct, proxy_environment}

-- golang.org/x/net/proxy and the URLs that it takes: the direct dialer, a dialer wrapped by the
-- proxies of the environment or by one of a URL, and whether a dialer is a `ContextDialer`.
pub record ProxyLibrary : Type 1 where
  pub Dialer : Type 0
  pub ProxyUrl : Type 0
  pub parse_url : Text → Option ProxyUrl
  pub direct : Dialer
  pub from_environment_using : Dialer → Dialer
  pub from_url : ProxyUrl → Dialer → Result Text Dialer
  pub is_context_dialer : Dialer → Bool

-- `ErrInvalidProxySpec` by its cause, or a panic.
pub data ChainError : Type 0 where
  direct_after_non_direct : ChainError
  url_refused : Text → ChainError
  panics : Panic → ChainError

-- `Cause`; a panic has none. The first is the message of `ErrDirectProxyAfterNonDirectProxy`.
unfoldable pub cause_of : ChainError → Option Text
cause_of direct_after_non_direct =
    some (codes "direct connection does not make sense as non-first member of proxychain")
cause_of (url_refused e) = some e
cause_of (panics p) = none

-- `Error`
unfoldable pub error_text : ChainError → Option Text
unfolding cause_of
error_text e = elim (cause_of e) [
  | none ↦ none
  | some cause ↦ some (codes "invalid proxy url: " ++ cause)
]

module _ (lib : ProxyLibrary) where
  open lib use {
    Dialer, ProxyUrl, parse_url, direct, from_environment_using, from_url, is_context_dialer,
  }

  with_url : Option ProxyUrl → Dialer → Result ChainError Dialer
  with_url none dialer = err (panics must_failed)
  with_url (some url) dialer = elim (from_url url dialer) [
    | ok d ↦ ok d
    | err e ↦ err (url_refused e)
  ]

  -- one round of the loop of `NewProxychainFromConfig`
  unfoldable pub stage : ℕ → Proxy → Dialer → Result ChainError Dialer
  unfolding with_url
  stage idx conf dialer =
      if text_eq conf.proxy proxy_direct
      then (if idx == 0 then ok dialer else err direct_after_non_direct)
      else if text_eq conf.proxy proxy_environment
      then ok (from_environment_using dialer)
      else with_url (parse_url conf.proxy) dialer

  unfoldable pub stages : ℕ → List Proxy → Dialer → Result ChainError Dialer
  stages idx [] dialer = ok dialer
  stages idx (conf ∷ cfg) dialer = stage idx conf dialer >>= λ d. stages (suc idx) cfg d

  -- the type assertion at the end
  unfoldable pub as_context_dialer : Dialer → Result ChainError Dialer
  as_context_dialer dialer =
      if is_context_dialer dialer then ok dialer else err (panics type_assertion)

  -- `NewProxychainFromConfig`
  unfoldable pub new_proxychain_from_config : List Proxy → Result ChainError Dialer
  unfolding stages as_context_dialer
  new_proxychain_from_config cfg = stages 0 cfg direct >>= as_context_dialer
