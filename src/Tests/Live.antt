-- ===== src/Tests/Live.antt =====
-- Requests during a start of pkg/server/server.go with one site.
use proxyreverse.Prelude.{
  ◌≡◌, ◌↔◌, ◌++◌, refl, true, some, [], ◌∷◌, codes, arith, lookup, find, Among, ok, ℕ,
}
use proxyreverse.Go.Lo.{plain_lo}
use proxyreverse.Listener.{HttpEdgeListener, new_listener, add_site, handler, status, serve}
use proxyreverse.Startup.{SiteKey, SiteMapping, Listeners, Built, attach_sites, site_key_eq}
use proxyreverse.Startup.Attached.{AreNew}
use proxyreverse.Startup.Live.{Reply, Live, starting, Reaches, attaches, here, next}
use proxyreverse.Startup.Live.Parts.{partly}
use proxyreverse.Startup.Live.Answers.{live_answers_iff}
use proxyreverse.Startup.Live.Served.{attached_is_served, early_bad_gateway}
use proxyreverse.Tests.Starting.{mapping, running, built, runs}

abbrev listeners : Listeners (Built ℕ)
listeners = (codes "web", some new_listener) ∷ []

listeners-AreNew : AreNew listeners
unfolding lookup
listeners-AreNew name l e = ground arith

attached : attach_sites plain_lo mapping listeners ≡ ok running
unfolding runs
attached = refl

abbrev key : SiteKey
key = record { host = codes "a.b"; listener = codes "web" }

mapped : find site_key_eq key mapping ≡ some built
unfolding runs
mapped = ground arith

abbrev reply : Reply (Built ℕ)
reply = record { listener = codes "web"; host = codes "a.b"; answer = status 502 true }

live_answers_iff_example :
    ((s : Live (Built ℕ)) × Reaches plain_lo (starting mapping listeners) s × Among reply s.replies)
    ↔ ((done rest : SiteMapping (Built ℕ)) × (mapping ≡ done ++ rest)
        × (status 502 true ≡ handler plain_lo (codes "a.b") (partly plain_lo done (codes "web"))))
live_answers_iff_example =
    live_answers_iff plain_lo mapping listeners running listeners-AreNew attached reply new_listener
      (unfold runs in refl)

-- The site is attached, and no request was answered.
abbrev ready : Live (Built ℕ)
ready = record { remaining = []; listeners = running; replies = [] }

ready-Reaches : Reaches plain_lo (starting mapping listeners) ready
unfolding runs
ready-Reaches = next here (
    attaches (starting mapping listeners) key built []
      (add_site plain_lo (codes "a.b") built new_listener).0 refl refl)

attached_is_served_example :
    (l : HttpEdgeListener (Built ℕ)) × (lookup (codes "web") running ≡ some (some l))
    × (handler plain_lo (codes "a.b") l ≡ serve built)
attached_is_served_example =
    attached_is_served plain_lo mapping listeners running listeners-AreNew
      (unfold runs in (refl, tt)) attached key built mapped (omega arith) ready ready-Reaches
      (unfold runs in refl)

early_bad_gateway_example :
    (s t : Live (Built ℕ)) × (l : HttpEdgeListener (Built ℕ)) × Reaches plain_lo
      (starting mapping listeners)
      s
    × Reaches plain_lo s t
    × (s.replies ≡ reply ∷ [])
    × (t.listeners ≡ running)
    × (t.remaining ≡ [])
    × (lookup (codes "web") running ≡ some (some l))
    × (handler plain_lo (codes "a.b") l ≡ serve built)
early_bad_gateway_example =
    early_bad_gateway plain_lo mapping listeners running listeners-AreNew
      (unfold runs in (refl, tt)) attached key built mapped (omega arith)
