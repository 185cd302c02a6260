-- ===== src/Startup/Live/Answers.antt =====
-- What requests are answered during the start of pkg/server/server.go.
use proxyreverse.Prelude.{
  ◌≡◌, ◌↔◌, refl, sym, ap, ◌∙◌, subst, some, [], ◌∷◌, ◌++◌, Text, arith, lookup, Among, inl, inr,
  ok,
}
use proxyreverse.Go.Lo.{Lo}
use proxyreverse.Listener.{HttpEdgeListener, handler}
use proxyreverse.Listener.Attach.{attach}
use proxyreverse.Startup.{SiteMapping, Listeners, attach_sites}
use proxyreverse.Startup.Attached.{AreNew, attach_sites-attach, sites_of}
use proxyreverse.Startup.Live.{Reply, Live, starting, attaches, answers, Reaches, here, next}
use proxyreverse.Startup.Live.Parts.{
  partly, Reaches-IsPart, IsPart-partly, attach_run, attach_sites-split,
}

module _ (lo : Lo) {B : Type 0} where
  abbrev IsEarly : SiteMapping B → Reply B → Type 0
  IsEarly mapping reply =
      (done rest : SiteMapping B) × (mapping ≡ done ++ rest)
      × (reply.answer ≡ handler lo reply.host (partly lo done reply.listener))

  replies-IsEarly :
      (mapping : SiteMapping B) (listeners : Listeners B) (s : Live B) (reply : Reply B)
      → AreNew listeners
      → Reaches lo (starting mapping listeners) s
      → Among reply s.replies
      → IsEarly mapping reply
  replies-IsEarly mapping listeners s reply new here among = elim among [ ]
  replies-IsEarly mapping listeners s reply new (next {t} r (attaches _ key b more l e added))
        among =
      replies-IsEarly mapping listeners t reply new r among
  replies-IsEarly mapping listeners s reply new (next {t} r (answers _ name host l e))
        (inr before) =
      replies-IsEarly mapping listeners t reply new r before
  replies-IsEarly mapping listeners s reply new (next {t} r (answers _ name host l e)) (inl same) =
      let p = Reaches-IsPart lo mapping listeners t r in
      let table = IsPart-partly lo mapping listeners t name l new p e in
      let at : Reply B = record { listener = name; host = host; answer = handler lo host l } in
      let early : IsEarly mapping at = (p.done, t.remaining, p.parts, ap (handler lo host) table) in
      subst (IsEarly mapping) (sym same) early

  module _ (mapping : SiteMapping B) (listeners running : Listeners B) (new : AreNew listeners)
      (attached : attach_sites lo mapping listeners ≡ ok running) where
    early-Reaches :
        (name host : Text) (l0 : HttpEdgeListener B) (done rest : SiteMapping B)
        → lookup name listeners ≡ some (some l0)
        → mapping ≡ done ++ rest
        → (s : Live B) × Reaches lo (starting mapping listeners) s
          × (s.replies
              ≡ record {
                listener = name;
                host = host;
                answer = handler lo host (partly lo done name);
              }
                ∷ [])
    early-Reaches name host l0 done rest found parts =
        let (mid, first, last) =
          attach_sites-split lo done rest listeners running
            (ap (λ q. attach_sites lo q listeners) (sym parts) ∙ attached) in
        let t : Live B = record { remaining = rest; listeners = mid; replies = [] } in
        let there : Reaches lo (starting mapping listeners) t =
          attach_run lo (starting mapping listeners) done rest listeners mid []
            (subst (λ q. Reaches lo (starting mapping listeners) (starting q listeners)) parts here)
            first in
        let now : lookup name mid ≡ some (some (partly lo done name)) =
          attach_sites-attach lo done listeners mid name l0 first found
          ∙ ap (λ q. some (some (attach lo (sites_of name done) q))) (new name l0 found) in
        (
          record {
            remaining = rest;
            listeners = mid;
            replies =
                record {
                  listener = name;
                  host = host;
                  answer = handler lo host (partly lo done name);
                }
                ∷ [];
          },
          next there (answers t name host (partly lo done name) now),
          refl,
        )

    -- The answers that a request can get at a listener during a start that succeeds are exactly
    -- those of the handler on the listener with the sites of some first part of the loop's order
    -- attached to it, from none to all of them.
    pub live_answers_iff :
        (reply : Reply B) (l0 : HttpEdgeListener B)
        → lookup reply.listener listeners ≡ some (some l0)
        → ((s : Live B) × Reaches lo (starting mapping listeners) s × Among reply s.replies) ↔ (
            (done rest : SiteMapping B) × (mapping ≡ done ++ rest)
            × (reply.answer ≡ handler lo reply.host (partly lo done reply.listener)))
    live_answers_iff reply l0 found = (
      λ h. replies-IsEarly mapping listeners h.0 reply new h.1 h.2,
      λ h.
          let (done, rest, parts, same) = h in
          let (s, r, e) = early-Reaches reply.listener reply.host l0 done rest found parts in
          let at : Reply B = record {
            listener = reply.listener;
            host = reply.host;
            answer = handler lo reply.host (partly lo done reply.listener);
          } in
          let one : reply ≡ at = ground arith in (s, r, subst (Among reply) (sym e) (inl one)),
    )
