-- ===== src/Startup.antt =====
-- pkg/server/server.go: the start of the server from a configuration, up to the wait for the end.
-- The maps of the configuration are lists in the order in which the runtime visits them; those that
-- the start makes are visited in an order that its surroundings choose.
pub mod Collect
pub mod Mapping
pub mod Attached
pub mod Keys
pub mod Ports
pub mod Opened
pub mod Clashes
pub mod Ready
pub mod Sites
pub mod Starts
pub mod Serves
pub mod Conditions
pub mod Table
pub mod Forwards
pub mod Live
use proxyreverse.Prelude.{
  ℕ, ◌≡◌, ◌&&◌, Bool, Option, none, some, List, [], ◌∷◌, Text, text_eq, codes, ◌==◌, if◌then◌else◌,
  Assoc, lookup, insert, find, put, IsVisit, Result, ok, err, ◌>>=◌,
}
use proxyreverse.Go.Lo.{Lo}
use proxyreverse.Go.Panic.{Panic, nil_dereference}
use proxyreverse.Config.Models.{
  Config, ListenerConfig, SiteConfig, BackendConfig, Proxy, site_config_type_http_edge,
}
use proxyreverse.Http.{HttpBackend}
use proxyreverse.Target.{SelectorDecoder}
use proxyreverse.Backend.{ClientTls, new_http_backend}
use proxyreverse.Listener.{HttpEdgeListener, new_listener, add_site}
use proxyreverse.Proxychain.{ProxyLibrary, ChainError, new_proxychain_from_config}

-- `listenerKey`; an address is its print, and the zero address is empty.
pub record ListenerKey : Type 0 where
  pub addr : Text
  pub port : ℕ
  pub network : Text

-- `siteKey`
pub record SiteKey : Type 0 where
  pub host : Text
  pub listener : Text

unfoldable pub listener_key_eq : ListenerKey → ListenerKey → Bool
listener_key_eq a b = text_eq a.addr b.addr && (a.port == b.port && text_eq a.network b.network)

unfoldable pub site_key_eq : SiteKey → SiteKey → Bool
site_key_eq a b = text_eq a.host b.host && text_eq a.listener b.listener

-- Why the server does not start: the errors of `Server`, or a panic.
pub data StartError : Type 0 where
  nil_config duplicate_listeners listener_not_found backend_init_failed : StartError
  host_listener_clash attach_site_to_listener_failed : StartError
  unknown_listener_type : Text → StartError
  proxychain_not_found : Text → StartError
  chain_failed : ChainError → StartError
  panics : Panic → StartError

abbrev pub ListenPorts : Type 0
ListenPorts = List (ListenerKey × Text)

abbrev pub SiteMapping : Type 0 → Type 0
SiteMapping B = List (SiteKey × B)

-- What the start asks of its surroundings: reading an address, opening a socket, and the orders in
-- which the runtime visits the map of the listeners and that of the sites.
pub record Surroundings : Type 1 where
  pub parse_addr : Text → Option Text
  pub listen : ListenerKey → Option Text
  pub visit_ports : ListenPorts → ListenPorts
  pub visit_sites : (B : Type 0) → SiteMapping B → SiteMapping B
  pub visit_ports_law : IsVisit listener_key_eq visit_ports
  pub visit_sites_law : (B : Type 0) → IsVisit site_key_eq (visit_sites B)

module _ (around : Surroundings) where
  -- the address that a failed read leaves is the zero address
  unfoldable pub key_of : ListenerConfig → ListenerKey
  key_of config = record {
    addr = elim (around.parse_addr config.listen_addr.host) [ none ↦ [] | some addr ↦ addr ];
    port = config.listen_addr.port;
    network = config.listen_addr.network;
  }

  -- The loop over the listeners: both tests on the keys seen before end the start.
  unfoldable pub collect_listeners :
      Assoc ListenerConfig
      → ListenPorts
      → ListenPorts
      → Result StartError (ListenPorts × ListenPorts)
  collect_listeners [] ports names = ok (ports, names)
  collect_listeners ((name, config) ∷ more) ports names =
      let rest =
        collect_listeners more (put listener_key_eq (key_of config) config.listener_type ports)
          (put listener_key_eq (key_of config) name names) in
      elim (find listener_key_eq (key_of config) ports) [
        | some listener_type ↦
            if text_eq listener_type config.listener_type
            then err duplicate_listeners
            else err duplicate_listeners
        | none ↦ rest
      ]

  module _ {B : Type 0} where
    -- `NewHTTPEdgeListener`
    unfoldable pub new_http_edge_listener : ListenerKey → Result Text (HttpEdgeListener B)
    new_http_edge_listener key = elim (around.listen key) [
      | none ↦ ok new_listener
      | some e ↦ err e
    ]

    -- a listener that could not be made is nil
    unfoldable pub started : ListenerKey → Option (HttpEdgeListener B)
    unfolding new_http_edge_listener
    started key = elim (new_http_edge_listener key) [ ok l ↦ some l | err e ↦ none ]

    -- The loop that starts the listeners. `listenNames` has every key of `listenPorts`; a missing
    -- one would give the empty name.
    unfoldable pub start_listeners :
        ListenPorts
        → ListenPorts
        → Assoc (Option (HttpEdgeListener B))
        → Result StartError (Assoc (Option (HttpEdgeListener B)))
    start_listeners [] names listeners = ok listeners
    start_listeners ((key, listen_type) ∷ ports) names listeners =
        let name : Text = elim (find listener_key_eq key names) [ none ↦ [] | some n ↦ n ] in
        let rest = start_listeners ports names (insert name (started key) listeners) in
        if text_eq listen_type site_config_type_http_edge
        then rest
        else err (unknown_listener_type listen_type)

module _ (lib : ProxyLibrary) where
  -- The loop over the proxychains.
  unfoldable pub build_chains :
      Assoc (List Proxy) → Assoc (lib.Dialer) → Result StartError (Assoc (lib.Dialer))
  build_chains [] chains = ok chains
  build_chains ((name, config) ∷ more) chains = elim (new_proxychain_from_config lib config) [
    | err e ↦ err (chain_failed e)
    | ok chain ↦ build_chains more (insert name chain chains)
  ]

module _ {B : Type 0} where
  -- The loop over the listeners of one site.
  unfoldable pub map_site : Text → B → List Text → SiteMapping B → Result StartError (SiteMapping B)
  map_site host b [] mapping = ok mapping
  map_site host b (name ∷ names) mapping =
      let key : SiteKey = record { host = host; listener = name } in
      let rest = map_site host b names (put site_key_eq key b mapping) in
      elim (find site_key_eq key mapping) [ some old ↦ err host_listener_clash | none ↦ rest ]

-- A backend with its client, as the sites share it.
abbrev pub Built : Type 0 → Type 0
Built D = HttpBackend D × ClientTls

module _ (decoder : SelectorDecoder) {D : Type 0} where
  built_or_fail : BackendConfig → D → Result StartError (Built D)
  built_or_fail config chain = elim (new_http_backend decoder config chain) [
    | ok b ↦ ok b
    | err e ↦ err backend_init_failed
  ]

  -- a site's backend
  unfoldable pub site_backend : Assoc D → SiteConfig → Result StartError (Built D)
  unfolding built_or_fail
  site_backend chains site = elim (lookup site.proxychain chains) [
    | none ↦ err (proxychain_not_found site.proxychain)
    | some chain ↦ built_or_fail site.backend chain
  ]

  -- The loop over the sites.
  unfoldable pub collect_sites :
      Assoc D → List SiteConfig → SiteMapping (Built D) → Result StartError (SiteMapping (Built D))
  collect_sites chains [] mapping = ok mapping
  collect_sites chains (site ∷ sites) mapping = site_backend chains site >>= λ b.
      map_site site.host b site.listener mapping >>= λ m. collect_sites chains sites m

abbrev pub Listeners : Type 0 → Type 0
Listeners B = Assoc (Option (HttpEdgeListener B))

module _ (lo : Lo) {B : Type 0} where
  -- a failed `AddSite` ends the start
  after_add : HttpEdgeListener B × Option Text → Result StartError (HttpEdgeListener B)
  after_add (l, none) = ok l
  after_add (l, some e) = err attach_site_to_listener_failed

  -- The listener that a site is attached to: absent, nil, or a listener.
  pub attach_site :
      SiteKey → B → Option (Option (HttpEdgeListener B)) → Result StartError (HttpEdgeListener B)
  attach_site key b none = err listener_not_found
  attach_site key b (some none) = err (panics nil_dereference)
  attach_site key b (some (some l)) = after_add (add_site lo key.host b l)

  -- The loop that attaches the backends.
  unfoldable pub attach_sites : SiteMapping B → Listeners B → Result StartError (Listeners B)
  unfolding attach_site after_add
  attach_sites [] listeners = ok listeners
  attach_sites ((key, b) ∷ mapping) listeners =
      attach_site key b (lookup key.listener listeners) >>= λ l.
      attach_sites mapping (insert key.listener (some l) listeners)

module _ (lo : Lo) (lib : ProxyLibrary) (decoder : SelectorDecoder) (around : Surroundings) where
  -- the stages of `Server` after the configuration was found
  unfoldable pub start : Config → Result StartError (Listeners (Built (lib.Dialer)))
  start cfg = do
    chains ← build_chains lib cfg.proxychains []
    keys ← collect_listeners around cfg.listeners [] []
    listeners ← start_listeners around (around.visit_ports keys.0) keys.1 []
    mapping ← collect_sites decoder chains cfg.sites []
    attach_sites lo (around.visit_sites (Built (lib.Dialer)) mapping) listeners

  -- `Server`, up to the wait for the end: the listeners that it runs with.
  unfoldable pub server : Option Config → Result StartError (Listeners (Built (lib.Dialer)))
  unfolding start
  server none = err nil_config
  server (some cfg) = start cfg
