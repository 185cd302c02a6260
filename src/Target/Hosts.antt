-- ===== src/Target/Hosts.antt =====
-- The targets of pkg/server/target_selectors.go as addresses: which of them `net.SplitHostPort`
-- takes apart again.
use proxyreverse.Prelude.{
  ℕ, ◌≡◌, sym, ap, ◌∙◌, [], ◌∷◌, ◌++◌, Text, arith, text_eq, text_eq_iff, if◌then◌else◌, ok, err,
  All-append, ◌≢◌,
}
use proxyreverse.Go.HostPort.{
  split_host_port, split_host_port_of_IsPlain, split_host_port_colons, IsPlain, has-append,
  too_many_colons,
}
use proxyreverse.Go.Decimal.{decimal, decimal-IsPlain}
use proxyreverse.Http.{Request, HttpBackend}
use proxyreverse.Target.{default_target, with_port}

-- A name with a port already, and a port after it.
pub with_port-doubled :
    (host port : Text) (n : ℕ)
    → IsPlain host
    → IsPlain port
    → split_host_port (with_port (host ++ (b':' ∷ port)) n) ≡ err too_many_colons
with_port-doubled host port n h k =
    split_host_port_colons (host ++ (b':' ∷ port)) (decimal n) (has-append b':' host port)
      (All-append (λ c. c ≢ b'[') host (b':' ∷ port) h.1 (omega arith, k.1)) (decimal-IsPlain n).0

module _ {D : Type 0} (backend : HttpBackend D) (request : Request) where
  -- With a configured target name without colons and brackets, or with none and a request host
  -- without them, the target is that name and the backend's port, and comes apart into these.
  pub default_target-split :
      (name : Text)
      → name ≡ (if text_eq backend.target [] then request.host else backend.target)
      → IsPlain name
      → split_host_port (default_target backend request) ≡ ok (name, decimal backend.port)
  unfolding default_target
  default_target-split name e h =
      ap (λ n. split_host_port (with_port n backend.port)) (sym e)
      ∙ split_host_port_of_IsPlain name (decimal backend.port) h (decimal-IsPlain backend.port)

  -- Without a configured target name, a request host that carries a port gives a target with two
  -- ports, which is no address.
  pub default_target-doubled :
      (host port : Text)
      → backend.target ≡ []
      → request.host ≡ host ++ (b':' ∷ port)
      → IsPlain host
      → IsPlain port
      → split_host_port (default_target backend request) ≡ err too_many_colons
  unfolding default_target
  default_target-doubled host port t e h k =
      let name : (if text_eq backend.target [] then request.host else backend.target)
          ≡ host ++ (b':' ∷ port) =
        ground (arith, text_eq_iff backend.target []) in
      ap (λ n. split_host_port (with_port n backend.port)) name
      ∙ with_port-doubled host port backend.port h k
