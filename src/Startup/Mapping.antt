-- ===== src/Startup/Mapping.antt =====
-- Mapping the sites of a configuration to their backends: pkg/server/server.go.
use proxyreverse.Prelude.{
  ◌≡◌, ◌↔◌, subst, Among, true, none, some, List, [], ◌∷◌, Text, arith, text_eq_iff, AreDistinct,
  find, put, put-AreDistinct, find-put, ok, Assoc, Option-cases, Result-cases, inl, inr,
}
use proxyreverse.Target.{SelectorDecoder}
use proxyreverse.Startup.{
  Built, site_backend, collect_sites, SiteKey, SiteMapping, site_key_eq, map_site,
}
use proxyreverse.Config.Models.{SiteConfig}

pub site_key_eq_iff : (a b : SiteKey) → (site_key_eq a b ≡ true) ↔ (a ≡ b)
unfolding site_key_eq
site_key_eq_iff a b = ground (arith, text_eq_iff a.host b.host, text_eq_iff a.listener b.listener)

-- The loop over a site's listeners keeps what is mapped, and maps the site's backend at each of
-- its listeners.
module _ {B : Type 0} (host : Text) (b : B) where
  abbrev at : Text → SiteKey
  at name = record { host = host; listener = name }

  pub map_site-nil :
      (mapping mapping' : SiteMapping B)
      → map_site host b [] mapping ≡ ok mapping'
      → mapping ≡ mapping'
  unfolding map_site
  map_site-nil mapping mapping' e = ground arith

  pub map_site-inv :
      (name : Text) (names : List Text) (mapping mapping' : SiteMapping B)
      → map_site host b (name ∷ names) mapping ≡ ok mapping'
      → (find site_key_eq (at name) mapping ≡ none)
        × (map_site host b names (put site_key_eq (at name) b mapping) ≡ ok mapping')
  unfolding map_site
  map_site-inv name names mapping mapping' e =
      elim (Option-cases (find site_key_eq (at name) mapping)) [
        | inr (c, clash) ↦ absurd (ground (arith, clash))
        | inl free ↦ (free, ground (arith, free))
      ]

  pub map_site-AreDistinct :
      (names : List Text) (mapping mapping' : SiteMapping B)
      → map_site host b names mapping ≡ ok mapping'
      → AreDistinct site_key_eq mapping
      → AreDistinct site_key_eq mapping'
  map_site-AreDistinct [] mapping mapping' e d =
      subst (AreDistinct site_key_eq) (map_site-nil mapping mapping' e) d
  map_site-AreDistinct (name ∷ names) mapping mapping' e d =
      map_site-AreDistinct names (put site_key_eq (at name) b mapping) mapping'
        (map_site-inv name names mapping mapping' e).1
        (put-AreDistinct site_key_eq site_key_eq_iff (at name) b mapping d)

  pub map_site-keeps :
      (names : List Text) (mapping mapping' : SiteMapping B) (k : SiteKey) (c : B)
      → map_site host b names mapping ≡ ok mapping'
      → find site_key_eq k mapping ≡ some c
      → find site_key_eq k mapping' ≡ some c
  map_site-keeps [] mapping mapping' k c e f =
      subst (λ m. find site_key_eq k m ≡ some c) (map_site-nil mapping mapping' e) f
  map_site-keeps (name ∷ names) mapping mapping' k c e f =
      let (free, e') = map_site-inv name names mapping mapping' e in
      map_site-keeps names (put site_key_eq (at name) b mapping) mapping' k c e' (
        ground (
          arith,
          find-put site_key_eq site_key_eq_iff (at name) k b mapping,
          site_key_eq_iff (at name) k,
          free,
        ))

  pub map_site-maps :
      (names : List Text) (mapping mapping' : SiteMapping B) (name : Text)
      → map_site host b names mapping ≡ ok mapping'
      → Among name names
      → find site_key_eq (at name) mapping' ≡ some b
  map_site-maps [] mapping mapping' name e h = absurd h
  map_site-maps (n ∷ names) mapping mapping' name e (inl same) =
      let (free, e') = map_site-inv n names mapping mapping' e in
      map_site-keeps names (put site_key_eq (at n) b mapping) mapping' (at name) b e' (
        ground (
          arith,
          find-put site_key_eq site_key_eq_iff (at n) (at name) b mapping,
          site_key_eq_iff (at n) (at name),
          same,
        ))
  map_site-maps (n ∷ names) mapping mapping' name e (inr later) =
      map_site-maps names (put site_key_eq (at n) b mapping) mapping' name
        (map_site-inv n names mapping mapping' e).1 later

module _ (decoder : SelectorDecoder) {D : Type 0} (chains : Assoc D) where
  pub collect_sites-nil :
      (mapping mapping' : SiteMapping (Built D))
      → collect_sites decoder chains [] mapping ≡ ok mapping'
      → mapping ≡ mapping'
  unfolding collect_sites
  collect_sites-nil mapping mapping' e = ground arith

  pub collect_sites-inv :
      (site : SiteConfig) (sites : List SiteConfig) (mapping mapping' : SiteMapping (Built D))
      → collect_sites decoder chains (site ∷ sites) mapping ≡ ok mapping'
      → (b : Built D) × (m : SiteMapping (Built D)) × (site_backend decoder chains site ≡ ok b)
        × (map_site site.host b site.listener mapping ≡ ok m)
        × (collect_sites decoder chains sites m ≡ ok mapping')
  unfolding collect_sites
  collect_sites-inv site sites mapping mapping' e =
      elim (Result-cases (site_backend decoder chains site)) [
        | inr (x, failed) ↦ absurd (ground (arith, failed))
        | inl (b, built) ↦ elim (Result-cases (map_site site.host b site.listener mapping)) [
          | inr (x, failed) ↦ absurd (ground (arith, built, failed))
          | inl (m, mapped) ↦ (b, m, built, mapped, ground (arith, built, mapped))
        ]
      ]

  pub collect_sites-AreDistinct :
      (sites : List SiteConfig) (mapping mapping' : SiteMapping (Built D))
      → collect_sites decoder chains sites mapping ≡ ok mapping'
      → AreDistinct site_key_eq mapping
      → AreDistinct site_key_eq mapping'
  collect_sites-AreDistinct [] mapping mapping' e d =
      subst (AreDistinct site_key_eq) (collect_sites-nil mapping mapping' e) d
  collect_sites-AreDistinct (site ∷ sites) mapping mapping' e d =
      let (b, m, built, mapped, rest) = collect_sites-inv site sites mapping mapping' e in
      collect_sites-AreDistinct sites m mapping' rest
        (map_site-AreDistinct site.host b site.listener mapping m mapped d)

  pub collect_sites-keeps :
      (sites : List SiteConfig) (mapping mapping' : SiteMapping (Built D)) (k : SiteKey)
      (c : Built D)
      → collect_sites decoder chains sites mapping ≡ ok mapping'
      → find site_key_eq k mapping ≡ some c
      → find site_key_eq k mapping' ≡ some c
  collect_sites-keeps [] mapping mapping' k c e f =
      subst (λ m. find site_key_eq k m ≡ some c) (collect_sites-nil mapping mapping' e) f
  collect_sites-keeps (site ∷ sites) mapping mapping' k c e f =
      let (b, m, built, mapped, rest) = collect_sites-inv site sites mapping mapping' e in
      collect_sites-keeps sites m mapping' k c rest
        (map_site-keeps site.host b site.listener mapping m k c mapped f)

  -- When the sites are collected without an error, every site is mapped, at each of its listeners,
  -- to the backend that is built from its configuration.
  pub collect_sites-maps :
      (sites : List SiteConfig) (mapping mapping' : SiteMapping (Built D)) (site : SiteConfig)
      (name : Text)
      → collect_sites decoder chains sites mapping ≡ ok mapping'
      → Among site sites
      → Among name site.listener
      → (b : Built D) × (site_backend decoder chains site ≡ ok b)
        × (find site_key_eq (record { host = site.host; listener = name }) mapping' ≡ some b)
  collect_sites-maps [] mapping mapping' site name e h l = absurd h
  collect_sites-maps (s ∷ sites) mapping mapping' site name e (inl same) l =
      let (b, m, built, mapped, rest) = collect_sites-inv s sites mapping mapping' e in
      let l' : Among name s.listener = subst (λ (t : SiteConfig). Among name t.listener) same l in
      let found = map_site-maps s.host b s.listener mapping m name mapped l' in
      let kept =
        collect_sites-keeps sites m mapping' (record { host = s.host; listener = name }) b rest
          found in
      (b, rw same built, rw same kept)
  collect_sites-maps (s ∷ sites) mapping mapping' site name e (inr later) l =
      let (b, m, built, mapped, rest) = collect_sites-inv s sites mapping mapping' e in
      collect_sites-maps sites m mapping' site name rest later l
