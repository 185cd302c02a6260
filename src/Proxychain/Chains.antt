-- ===== src/Proxychain/Chains.antt =====
-- The order of the proxies in a chain, and the place of `direct`: pkg/server/proxychains.go.
use proxyreverse.Prelude.{
  ℕ, suc, ◌+◌, ◌≡◌, ap, List, [], ◌∷◌, ◌++◌, text_eq_iff, arith, Result-cases, err, ◌>>=◌, length,
  inl, inr,
}
use proxyreverse.Config.Models.{Proxy, proxy_direct}
use proxyreverse.Proxychain.{
  ProxyLibrary, ChainError, direct_after_non_direct, stage, stages, as_context_dialer,
  new_proxychain_from_config,
}

abbrev pub IsDirect : Proxy → Type 0
IsDirect p = p.proxy ≡ proxy_direct

module _ (lib : ProxyLibrary) where
  open lib use {Dialer, direct}

  -- A longer chain goes on from the dialer of the shorter one.
  stages-append :
      (idx : ℕ) (cfg more : List Proxy) (dialer : Dialer)
      → stages lib idx (cfg ++ more) dialer
        ≡ (stages lib idx cfg dialer >>= λ d. stages lib (idx + length cfg) more d)
  unfolding stages
  stages-append idx [] more dialer = ap (λ i. stages lib i more dialer) (omega arith)
  stages-append idx (p ∷ cfg) more dialer = elim (Result-cases (stage lib idx p dialer)) [
    | inl (d, done) ↦
        let e : suc idx + length cfg ≡ idx + suc (length cfg) = omega arith in
        ground (arith, done, stages-append (suc idx) cfg more d, e)
    | inr (e, failed) ↦ ground (arith, failed)
  ]

  stage_direct :
      (idx : ℕ) (p : Proxy) (dialer : Dialer)
      → IsDirect p
      → stage lib (suc idx) p dialer ≡ err direct_after_non_direct
  unfolding stage
  stage_direct idx p dialer h = ground (arith, text_eq_iff p.proxy proxy_direct)

  -- The last proxy of a chain wraps the dialer of the chain before it, which the type assertion
  -- does not see.
  new_proxychain_snoc :
      (cfg : List Proxy) (p : Proxy)
      → new_proxychain_from_config lib (cfg ++ (p ∷ []))
        ≡ (stages lib 0 cfg direct >>= λ d. stage lib (length cfg) p d >>= as_context_dialer lib)
  unfolding new_proxychain_from_config
  new_proxychain_snoc cfg p = elim (Result-cases (stages lib 0 cfg direct)) [
    | inl (d, done) ↦ elim (Result-cases (stage lib (length cfg) p d)) [
      | inl (d', done') ↦ ground (arith, stages-append 0 cfg (p ∷ []) direct, done, done')
      | inr (e, failed) ↦ ground (arith, stages-append 0 cfg (p ∷ []) direct, done, failed)
    ]
    | inr (e, failed) ↦ ground (arith, stages-append 0 cfg (p ∷ []) direct, failed)
  ]

  -- A chain in which `direct` stands anywhere but first has no dialer.
  pub new_proxychain_late_direct :
      (p : Proxy) (pre : List Proxy) (q : Proxy) (post : List Proxy)
      → IsDirect q
      → (e : ChainError) × (new_proxychain_from_config lib (p ∷ (pre ++ (q ∷ post))) ≡ err e)
  unfolding new_proxychain_from_config
  new_proxychain_late_direct p pre q post h = elim (Result-cases (stages lib 0 (p ∷ pre) direct)) [
    | inl (d, done) ↦ (
      direct_after_non_direct,
      ground (
        arith,
        stages-append 0 (p ∷ pre) (q ∷ post) direct,
        done,
        stage_direct (length pre) q d h,
      ),
    )
    | inr (e, failed) ↦ (e, ground (arith, stages-append 0 (p ∷ pre) (q ∷ post) direct, failed))
  ]
