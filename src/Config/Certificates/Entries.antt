-- ===== src/Config/Certificates/Entries.antt =====
-- The entries of a certificate list: pkg/server/config/x509_models.go.
use proxyreverse.Prelude.{
  ℕ, suc, ◌≡◌, ◌↔◌, refl, ap, ◌∙◌, Bool, none, some, List, [], ◌∷◌, Text, arith, ok, err, ◌≢◌,
  Option-cases, inl, inr,
}
use proxyreverse.Go.Lo.{Lo, map_index, fold_index}
use proxyreverse.Config.Value.{Value, Values, nil, cons, text, list, items}
use proxyreverse.Config.Certificates.{
  CertificateError, invalid_input_type, as_string, first_error, strings_of,
}

-- A list of texts, as a value.
unfoldable pub texts : List Text → Values
texts [] = nil
texts (t ∷ ts) = cons (text t) (texts ts)

abbrev pairs_of : ℕ → Values → List (Text × Bool)
pairs_of i vs = map_index i (λ v j. as_string v) (items vs)

fold_stays :
    (i : ℕ) (e : CertificateError) (ps : List (Text × Bool))
    → fold_index i first_error (some e) ps ≡ some e
unfolding fold_index first_error
fold_stays i e [] = refl
fold_stays i e (p ∷ ps) = fold_stays (suc i) e ps

bad_first :
    (i : ℕ) (ps : List (Text × Bool)) → fold_index i first_error (some invalid_input_type) ps ≢ none
bad_first i ps h = ground (arith, fold_stays i invalid_input_type ps)

-- No error is found exactly when every element is a text.
fold_none :
    (i j k : ℕ) (vs : Values)
    → fold_index i first_error none (pairs_of j vs) ≡ none
    → vs ≡ texts (map_index k (λ t n. t.0) (pairs_of j vs))
unfolding fold_index first_error as_string map_index items texts
fold_none i j k nil h = refl
fold_none i j k (cons (text t) vs) h = ap (cons (text t)) (fold_none (suc i) (suc j) (suc k) vs h)
fold_none i j k (cons v vs) h = absurd (bad_first (suc i) (pairs_of (suc j) vs) h)

fold_texts :
    (i j k : ℕ) (ts : List Text)
    → (fold_index i first_error none (pairs_of j (texts ts)) ≡ none)
      × (map_index k (λ t n. t.0) (pairs_of j (texts ts)) ≡ ts)
unfolding fold_index first_error as_string map_index items texts
fold_texts i j k [] = (refl, refl)
fold_texts i j k (t ∷ ts) =
    let (no_error, same) = fold_texts (suc i) (suc j) (suc k) ts in
    (no_error, ap (λ us. t ∷ us) same)

module _ (lo : Lo) where
  strings_of-list :
      (vs : Values)
      → strings_of lo (list vs) ≡ elim (fold_index 0 first_error none (pairs_of 0 vs)) [
        | some e ↦ err e
        | none ↦ ok (map_index 0 (λ t n. t.0) (pairs_of 0 vs))
      ]
  unfolding strings_of
  strings_of-list vs =
      simp (lo.map_law, lo.reduce_law)
        (elim (Option-cases (fold_index 0 first_error none (pairs_of 0 vs))) [
          | inl fine ↦ rw fine (ap ok (lo.map_law (Text × Bool) Text (λ t n. t.0) (pairs_of 0 vs)))
          | inr (e, failed) ↦ rw failed
        ])

  strings_of_sound : (v : Value) (ts : List Text) → strings_of lo v ≡ ok ts → v ≡ list (texts ts)
  strings_of_sound (list vs) ts e =
      elim (Option-cases (fold_index 0 first_error none (pairs_of 0 vs))) [
        | inl fine ↦
            let same : map_index 0 (λ t n. t.0) (pairs_of 0 vs) ≡ ts =
              ground (arith, strings_of-list vs, fine) in
            ap list (fold_none 0 0 0 vs fine ∙ ap texts same)
        | inr (x, failed) ↦ absurd (ground (arith, strings_of-list vs, failed))
      ]
  strings_of_sound v ts e = absurd (unfold strings_of in ground arith)

  strings_of-texts : (ts : List Text) → strings_of lo (list (texts ts)) ≡ ok ts
  strings_of-texts ts =
      let (fine, same) = fold_texts 0 0 0 ts in
      ground (arith, strings_of-list (texts ts), fine, same)

  -- An input has strings exactly when it is a list of texts, and these are its strings.
  pub strings_of_iff :
      (v : Value) (ts : List Text) → (strings_of lo v ≡ ok ts) ↔ (v ≡ list (texts ts))
  strings_of_iff v ts = (strings_of_sound v ts, λ e. rw e (strings_of-texts ts))
