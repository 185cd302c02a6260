-- ===== src/Tests/Listeners.antt =====
-- The routing of pkg/server/listeners.go on a small site table.
use proxyreverse.Prelude.{
  inr, ◌≡◌, refl, true, false, none, some, [], ◌∷◌, Text, codes, arith, Assoc, lookup,
  HasDistinctKeys, text_eq, text_eq_iff, ℕ,
}
use proxyreverse.Go.Split.{split}
use proxyreverse.Go.HostPort.{split_host_port}
use proxyreverse.Go.Lo.{plain_lo}
use proxyreverse.Listener.{components, match_site, handler, status, serve, new_listener, add_site}
use proxyreverse.Listener.Nodes.{is_prefix}
use proxyreverse.Listener.Attach.{attach, knows, site_at, match_site-attach}
use proxyreverse.Listener.Walk.{resolve}
use proxyreverse.Listener.Routing.{
  listening, match_site_known, match_site_under_configured, match_site_wildcard, handler_unknown,
}
use proxyreverse.Listener.Order.{SameMap, match_site_order}

runs : Unit {0}
unfolding lookup text_eq split components knows split_host_port match_site handler attach add_site
    is_prefix
runs = tt

abbrev example_com : Text
example_com = codes "example.com"

abbrev starred : Text
starred = codes "*.apps.com"

-- Two sites, one of them for every host below `apps.com`.
abbrev sites : Assoc ℕ
sites = (example_com, 1) ∷ (starred, 2) ∷ []

sites-HasDistinctKeys : HasDistinctKeys sites
unfolding runs
sites-HasDistinctKeys = (refl, (refl, tt))

routing_tests :
    (match_site plain_lo (codes "a.b.apps.com") (listening plain_lo sites) ≡ some 2)
    × (match_site plain_lo (codes "apps.com") (listening plain_lo sites) ≡ none)
    × (match_site plain_lo (codes "www.example.com") (listening plain_lo sites) ≡ some 1)
    × (handler plain_lo (codes "example.com:80") (listening plain_lo sites) ≡ serve 1)
unfolding runs
routing_tests = (refl, refl, refl, refl)

-- A wildcard and a site two labels below it: the host between them gets no backend.
shadowed_tests :
    let shadowing : Assoc ℕ = (codes "*.com", 1) ∷ (codes "www.example.com", 2) ∷ [] in
    (match_site plain_lo (codes "other.com") (listening plain_lo shadowing) ≡ some 1)
    × (match_site plain_lo (codes "example.com") (listening plain_lo shadowing) ≡ none)
unfolding runs
shadowed_tests = (refl, refl)

-- The same sites, visited the other way round.
abbrev sites_reversed : Assoc ℕ
sites_reversed = (starred, 2) ∷ (example_com, 1) ∷ []

sites_reversed-HasDistinctKeys : HasDistinctKeys sites_reversed
unfolding runs
sites_reversed-HasDistinctKeys = (refl, (refl, tt))

sites-SameMap : SameMap sites sites_reversed
unfolding lookup
sites-SameMap k =
    let differ : text_eq example_com starred ≡ false = unfold runs in refl in
    ground (
      arith,
      text_eq_iff example_com k,
      text_eq_iff starred k,
      text_eq_iff example_com starred,
      differ,
    )

match_site_known_example :
    match_site plain_lo (codes "apps.com") (listening plain_lo sites)
    ≡ lookup (codes "apps.com") sites
match_site_known_example =
    match_site_known plain_lo sites (codes "apps.com") sites-HasDistinctKeys (unfold runs in refl)

match_site_under_configured_example :
    match_site plain_lo (codes "www.example.com") (listening plain_lo sites) ≡ some 1
match_site_under_configured_example =
    match_site_under_configured plain_lo sites example_com (codes "www") 1 sites-HasDistinctKeys
      (unfold runs in refl) (λ d. unfold runs in refl)

match_site_wildcard_example :
    match_site plain_lo (codes "a.b.apps.com") (listening plain_lo sites) ≡ some 2
match_site_wildcard_example =
    match_site_wildcard plain_lo sites (codes "apps.com") (codes "a.b") (codes "b") (codes "a" ∷ [])
      2 sites-HasDistinctKeys (unfold runs in refl) (unfold runs in refl) (unfold runs in refl)
      (λ e. unfold runs in refl)

match_site_order_example :
    match_site plain_lo (codes "a.apps.com") (attach plain_lo sites new_listener)
    ≡ match_site plain_lo (codes "a.apps.com") (attach plain_lo sites_reversed new_listener)
match_site_order_example =
    match_site_order plain_lo sites sites_reversed (codes "a.apps.com") sites-HasDistinctKeys
      sites_reversed-HasDistinctKeys sites-SameMap

handler_unknown_example :
    handler plain_lo (codes "example.org:80") (listening plain_lo sites) ≡ status 502 true
handler_unknown_example =
    handler_unknown plain_lo sites (codes "example.org:80") (codes "example.org") (codes "org")
      (codes "example" ∷ []) sites-HasDistinctKeys (omega arith)
      (inr (codes "80", omega arith, refl)) (unfold runs in refl) (unfold runs in refl)
      (unfold runs in refl)

match_site-attach_example :
    match_site plain_lo (codes "a.b.apps.com") (attach plain_lo sites new_listener)
    ≡ site_at plain_lo sites
        (resolve (knows plain_lo sites) false [] (components plain_lo (codes "a.b.apps.com")))
match_site-attach_example =
    match_site-attach plain_lo sites (codes "a.b.apps.com") sites-HasDistinctKeys
