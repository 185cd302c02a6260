-- ===== src/Startup/Live/Served.antt =====
-- When a site of pkg/server/server.go is served during the start, and when it is not.
use proxyreverse.Prelude.{
  List, ◌≡◌, refl, sym, ap, ◌∙◌, subst, none, some, [], ◌∷◌, ◌++◌, Text, arith, lookup, find,
  AreDistinct, Result-cases, inl, inr, ok, true,
}
use mathlib.Core.List.{append-nil}
use proxyreverse.Go.Lo.{Lo}
use proxyreverse.Go.HostPort.{IsPlain, split_host_port}
use proxyreverse.Listener.{
  HttpEdgeListener, new_listener, handler, match_site, Answer, status, serve,
}
use proxyreverse.Listener.Attach.{attach, match_site-attach, site_at}
use proxyreverse.Listener.Routing.{match_site_configured, handler_of_host}
use proxyreverse.Startup.{SiteKey, SiteMapping, Listeners, attach_sites, site_key_eq}
use proxyreverse.Startup.Attached.{
  AreNew, attach_sites-attach, attached_listener, sites_of, lookup-sites_of,
  sites_of-HasDistinctKeys,
}
use proxyreverse.Startup.Live.{Reply, Live, starting, answers, Reaches, here, next}
use proxyreverse.Startup.Live.Parts.{partly, Reaches-IsPart, attach_run, attach_sites-split}

module _ {B : Type 0} where
  -- A site of a first part is a site of the whole.
  find-left :
      (k : SiteKey) (xs ys : SiteMapping B)
      → find site_key_eq k ys ≡ none
      → find site_key_eq k (xs ++ ys) ≡ find site_key_eq k xs
  unfolding find
  find-left k [] ys h = h
  find-left k ((j, c) ∷ xs) ys h = ground (arith, find-left k xs ys h)

  AreDistinct-left :
      (xs ys : SiteMapping B) → AreDistinct site_key_eq (xs ++ ys) → AreDistinct site_key_eq xs
  unfolding find
  AreDistinct-left [] ys h = tt
  AreDistinct-left ((k, b) ∷ xs) ys (free, h) = (find_none k xs ys free, AreDistinct-left xs ys h)
    where
      find_none :
          (k : SiteKey) (xs ys : SiteMapping B)
          → find site_key_eq k (xs ++ ys) ≡ none
          → find site_key_eq k xs ≡ none
      find_none k [] ys h = refl
      find_none k ((j, c) ∷ xs) ys h = ground (arith, find_none k xs ys)

module _ (lo : Lo) {B : Type 0} where
  -- A listener without sites answers every request by 502.
  handler-new_listener : (host : Text) → handler lo host (new_listener {B = B}) ≡ status 502 true
  unfolding handler
  handler-new_listener host =
      let none_at : (h : Text) → match_site lo h (new_listener {B = B}) ≡ none =
        λ h. unfold attach site_at in match_site-attach lo [] h tt in
      elim (Result-cases (split_host_port host)) [
        | inl ((h, port), e) ↦ ground (arith, e, none_at h)
        | inr (x, e) ↦ ground (arith, e, none_at host)
      ]

  Reaches-trans : {s t u : Live B} → Reaches lo s t → Reaches lo t u → Reaches lo s u
  Reaches-trans r here = r
  Reaches-trans r (next q st) = next (Reaches-trans r q) st

  module _ (mapping : SiteMapping B) (listeners running : Listeners B) (new : AreNew listeners)
      (distinct : AreDistinct site_key_eq mapping)
      (attached : attach_sites lo mapping listeners ≡ ok running) where
    -- Whatever requests come in between, the loop goes on to the listeners of a start without them.
    pub live_finishes :
        (s : Live B)
        → Reaches lo (starting mapping listeners) s
        → Reaches lo s (record { remaining = []; listeners = running; replies = s.replies })
    live_finishes s r =
        let p = Reaches-IsPart lo mapping listeners s r in
        let (mid, first, last) =
          attach_sites-split lo p.done s.remaining listeners running
            (ap (λ q. attach_sites lo q listeners) (sym p.parts) ∙ attached) in
        let same : mid ≡ s.listeners = ground (arith, first, p.table) in
        let rest : attach_sites lo s.remaining s.listeners ≡ ok running =
          subst (λ q. attach_sites lo s.remaining q ≡ ok running) same last in
        let whole : SiteMapping B → Live B =
          λ q. record { remaining = q; listeners = s.listeners; replies = s.replies } in
        attach_run lo s s.remaining [] s.listeners running s.replies
          (subst (λ q. Reaches lo s (whole q)) (sym (append-nil s.remaining)) here) rest

    module _ (key : SiteKey) (b : B) (mapped : find site_key_eq key mapping ≡ some b)
        (plain : IsPlain key.host) where
      -- Once the loop has attached a site, a request for its host, which has no colon or bracket,
      -- is passed to the site's backend at once, whatever sites are still to come and whatever
      -- requests were answered before.
      pub attached_is_served :
          (s : Live B)
          → Reaches lo (starting mapping listeners) s
          → find site_key_eq key s.remaining ≡ none
          → (l : HttpEdgeListener B) × (lookup key.listener s.listeners ≡ some (some l))
            × (handler lo key.host l ≡ serve b)
      attached_is_served s r over =
          let p = Reaches-IsPart lo mapping listeners s r in
          let found : find site_key_eq key p.done ≡ some b =
            sym (find-left key p.done s.remaining over)
            ∙ ap (find site_key_eq key) (sym p.parts)
            ∙ mapped in
          let apart : AreDistinct site_key_eq p.done =
            AreDistinct-left p.done s.remaining
              (subst (AreDistinct site_key_eq) p.parts distinct) in
          let (l0, has) = attached_listener lo key b p.done listeners s.listeners p.table found in
          let at : lookup key.listener s.listeners ≡ some (some (partly lo p.done key.listener)) =
            attach_sites-attach lo p.done listeners s.listeners key.listener l0 p.table has
            ∙ ap (λ q. some (some (attach lo (sites_of key.listener p.done) q)))
                (new key.listener l0 has) in
          let matched : match_site lo key.host (partly lo p.done key.listener) ≡ some b =
            match_site_configured lo (sites_of key.listener p.done) key.host b
              (sites_of-HasDistinctKeys key.listener p.done apart)
              (lookup-sites_of key.host key.listener p.done ∙ found) in
          (
            partly lo p.done key.listener,
            at,
            handler_of_host lo key.host key.host _ b plain (inl refl) matched,
          )

      -- For each site of a configuration with which the start succeeds, whose host has no colon or
      -- bracket, there is a run in which a request for that host is answered by 502, while the
      -- listener with which the same run ends passes it to the site's backend.
      pub early_bad_gateway :
          (s t : Live B) × (l : HttpEdgeListener B) × Reaches lo (starting mapping listeners) s
          × Reaches lo s t
          × (s.replies
              ≡ record { listener = key.listener; host = key.host; answer = status 502 true } ∷ [])
          × (t.listeners ≡ running)
          × (t.remaining ≡ [])
          × (lookup key.listener running ≡ some (some l))
          × (handler lo key.host l ≡ serve b)
      early_bad_gateway =
          let (l0, has) = attached_listener lo key b mapping listeners running attached mapped in
          let first : Live B = starting mapping listeners in
          let s : Live B = record first {
            replies =
                record { listener = key.listener; host = key.host; answer = handler lo key.host l0 }
                ∷ [];
          } in
          let r : Reaches lo first s = next here (answers first key.listener key.host l0 has) in
          let t : Live B = record { remaining = []; listeners = running; replies = s.replies } in
          let end = live_finishes s r in
          let (l, at, served) = attached_is_served t (Reaches-trans r end) (unfold find in refl) in
          let refused : handler lo key.host l0 ≡ status 502 true =
            ap (handler lo key.host) (new key.listener l0 has) ∙ handler-new_listener key.host in
          let as_reply : Answer B → List (Reply B) =
            λ a. record { listener = key.listener; host = key.host; answer = a } ∷ [] in
          (s, t, l, r, end, ap as_reply refused, refl, refl, at, served)
