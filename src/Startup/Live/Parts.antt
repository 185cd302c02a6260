-- ===== src/Startup/Live/Parts.antt =====
-- How far the loop of pkg/server/server.go that attaches the sites has come, while requests are
-- answered.
use proxyreverse.Prelude.{
  List, ◌≡◌, refl, sym, ap, ◌∙◌, subst, some, [], ◌∷◌, ◌++◌, Text, arith, lookup, insert,
  lookup-insert, Result-cases, Bool-cases, inl, inr, ok, text_eq, text_eq_iff, ◌>>=◌,
}
use mathlib.Core.List.{append_assoc}
use proxyreverse.Go.Lo.{Lo}
use proxyreverse.Listener.{HttpEdgeListener, new_listener, add_site}
use proxyreverse.Listener.Attach.{attach}
use proxyreverse.Startup.{SiteKey, SiteMapping, Listeners, attach_site, attach_sites}
use proxyreverse.Startup.Attached.{AreNew, attach_sites-attach, attach_sites-inv, sites_of}
use proxyreverse.Startup.Live.{Reply, Live, starting, Step, attaches, answers, Reaches, here, next}

module _ (lo : Lo) {B : Type 0} where
  pub attach_sites-append :
      (xs ys : SiteMapping B) (listeners : Listeners B)
      → attach_sites lo (xs ++ ys) listeners
        ≡ (attach_sites lo xs listeners >>= λ l. attach_sites lo ys l)
  unfolding attach_sites
  attach_sites-append [] ys listeners = refl
  attach_sites-append ((k, b) ∷ xs) ys listeners =
      elim (Result-cases (attach_site lo k b (lookup k.listener listeners))) [
        | inr (e, failed) ↦ rw failed refl
        | inl (l, added) ↦
            rw added (attach_sites-append xs ys (insert k.listener (some l) listeners))
      ]

  attach_sites-one :
      (k : SiteKey) (b : B) (listeners : Listeners B) (l : HttpEdgeListener B)
      → attach_site lo k b (lookup k.listener listeners) ≡ ok l
      → attach_sites lo ((k, b) ∷ []) listeners ≡ ok (insert k.listener (some l) listeners)
  unfolding attach_sites
  attach_sites-one k b listeners l e = rw e refl

  -- The loop makes no listener.
  pub attach_sites_from :
      (mapping : SiteMapping B) (listeners listeners' : Listeners B) (name : Text)
      (l : HttpEdgeListener B)
      → attach_sites lo mapping listeners ≡ ok listeners'
      → lookup name listeners' ≡ some (some l)
      → (l0 : HttpEdgeListener B) × (lookup name listeners ≡ some (some l0))
  unfolding attach_sites
  attach_sites_from [] listeners listeners' name l e f = (l, ground arith)
  attach_sites_from ((k, b) ∷ mapping) listeners listeners' name l e f =
      let (l1, found, rest) = attach_sites-inv lo k b mapping listeners listeners' e in
      let added = some (add_site lo k.host b l1).0 in
      let (l0, before) =
        attach_sites_from mapping (insert k.listener added listeners) listeners' name l rest f in
      elim (Bool-cases (text_eq k.listener name)) [
        | inl same ↦ (l1, ground (arith, found, same, text_eq_iff k.listener name))
        | inr other ↦
            (l0, ground (arith, before, other, lookup-insert k.listener name added listeners))
      ]

  -- A part of the sites, the first ones, is attached.
  pub record IsPart (mapping : SiteMapping B) (listeners : Listeners B) (s : Live B) : Type 0 where
    pub done : SiteMapping B
    pub parts : mapping ≡ done ++ s.remaining
    pub table : attach_sites lo done listeners ≡ ok s.listeners

  Step-IsPart :
      (mapping : SiteMapping B) (listeners : Listeners B) (s t : Live B)
      → Step lo s t
      → IsPart mapping listeners s
      → IsPart mapping listeners t
  Step-IsPart mapping listeners s t (attaches _ key b more l e added) p = record {
    done = p.done ++ ((key, b) ∷ []);
    parts = p.parts ∙ ap (λ q. p.done ++ q) e ∙ sym (append_assoc p.done ((key, b) ∷ []) more);
    table =
        attach_sites-append p.done ((key, b) ∷ []) listeners
        ∙ ap (λ r. r >>= λ q. attach_sites lo ((key, b) ∷ []) q) p.table
        ∙ attach_sites-one key b s.listeners l added;
  }
  Step-IsPart mapping listeners s t (answers _ name host l e) p = record {
    done = p.done;
    parts = p.parts;
    table = p.table;
  }

  pub Reaches-IsPart :
      (mapping : SiteMapping B) (listeners : Listeners B) (s : Live B)
      → Reaches lo (starting mapping listeners) s
      → IsPart mapping listeners s
  Reaches-IsPart mapping listeners s here = record {
    done = [];
    parts = refl;
    table = unfold attach_sites in refl;
  }
  Reaches-IsPart mapping listeners s (next {t} r st) =
      Step-IsPart mapping listeners t s st (Reaches-IsPart mapping listeners t r)

  -- The answer that a listener gives to a request once the first of its sites are attached.
  abbrev pub partly : SiteMapping B → Text → HttpEdgeListener B
  partly done name = attach lo (sites_of name done) new_listener

  -- A listener of a state has the sites of some first part attached.
  pub IsPart-partly :
      (mapping : SiteMapping B) (listeners : Listeners B) (s : Live B) (name : Text)
      (l : HttpEdgeListener B)
      → AreNew listeners
      → (p : IsPart mapping listeners s) → lookup name s.listeners ≡ some (some l)
      → l ≡ partly p.done name
  IsPart-partly mapping listeners s name l new p e =
      let (l0, before) = attach_sites_from p.done listeners s.listeners name l p.table e in
      let after = attach_sites-attach lo p.done listeners s.listeners name l0 p.table before in
      ground (arith, after, new name l0 before)

  -- The loop attaches the first sites.
  pub attach_run :
      (s0 : Live B) (done rest : SiteMapping B) (listeners listeners' : Listeners B)
      (replies : List (Reply B))
      → Reaches lo s0
          (record { remaining = done ++ rest; listeners = listeners; replies = replies })
      → attach_sites lo done listeners ≡ ok listeners'
      → Reaches lo s0 (record { remaining = rest; listeners = listeners'; replies = replies })
  unfolding attach_sites
  attach_run s0 [] rest listeners listeners' replies r e =
      let same : listeners ≡ listeners' = ground arith in
      subst (λ q. Reaches lo s0 (record { remaining = rest; listeners = q; replies = replies }))
        same r
  attach_run s0 ((k, b) ∷ done) rest listeners listeners' replies r e =
      elim (Result-cases (attach_site lo k b (lookup k.listener listeners))) [
        | inr (x, failed) ↦ absurd (ground (arith, failed))
        | inl (l, added) ↦
            let s : Live B = record {
              remaining = (k, b) ∷ (done ++ rest);
              listeners = listeners;
              replies = replies;
            } in
            attach_run s0 done rest (insert k.listener (some l) listeners) listeners' replies
              (next r (attaches s k b (done ++ rest) l refl added)) (ground (arith, added))
      ]

  pub attach_sites-split :
      (done rest : SiteMapping B) (listeners running : Listeners B)
      → attach_sites lo (done ++ rest) listeners ≡ ok running
      → (mid : Listeners B) × (attach_sites lo done listeners ≡ ok mid)
        × (attach_sites lo rest mid ≡ ok running)
  attach_sites-split done rest listeners running e =
      let two = attach_sites-append done rest listeners in
      elim (Result-cases (attach_sites lo done listeners)) [
        | inr (x, failed) ↦ absurd (ground (arith, failed))
        | inl (mid, first) ↦ (mid, first, ground (arith, first))
      ]
