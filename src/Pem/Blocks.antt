-- ===== src/Pem/Blocks.antt =====
-- What the loop of pkg/certutils/certutils.go finds in a PEM text.
use proxyreverse.Prelude.{
  ℕ, zero, suc, ◌≤◌, ◌≡◌, refl, true, false, Option, none, some, List, [], ◌∷◌, ◌++◌, ◌+◌, ◌⊎◌, ◌↔◌,
  Text, codes, text_eq_iff, length, arith, Option-cases, Bool-cases, inl, inr,
}
use mathlib.Core.List.{append_assoc, append-nil}
use proxyreverse.Pem.{Block, Pem, Loaded, is_certificate, load_loop, load_certificates_from_pem}

module _ (pem : Pem) (parse_certificate : Text → Option Text) where
  -- The blocks that are decoded from a text one after the other, and what they leave of it.
  pub data Decodes : Text → List Block → Text → Type 0 where
    rests : (s : Text) → Decodes s [] s
    decodes :
        (c : ℕ) (s rest left : Text) (b : Block) (bs : List Block)
        → pem.decode (c ∷ s) ≡ (some b, rest)
        → Decodes rest bs left
        → Decodes (c ∷ s) (b ∷ bs) left

  -- A block of the right kind: its type is CERTIFICATE, and it has no headers.
  abbrev pub IsCertificate : Block → Type 0
  IsCertificate b = (b.block_type ≡ codes "CERTIFICATE") × (b.has_headers ≡ false)

  -- The certificates of blocks: each of the right kind gives the one that it parses to, and each
  -- other none.
  pub data Reads : List Block → List Text → Type 0 where
    nothing : Reads [] []
    skips :
        (b : Block) (bs : List Block) (certs : List Text)
        → ¬ IsCertificate b
        → Reads bs certs
        → Reads (b ∷ bs) certs
    reads :
        (b : Block) (bs : List Block) (cert : Text) (certs : List Text)
        → IsCertificate b
        → parse_certificate b.bytes ≡ some cert
        → Reads bs certs
        → Reads (b ∷ bs) (cert ∷ certs)

  -- Nothing is left to decode: the text is over, or no block is found in it.
  abbrev pub IsOver : Text → Type 0
  IsOver left = (left ≡ []) ⊎ ((pem.decode left).0 ≡ none)

  -- The next block is of the right kind and does not parse.
  abbrev pub IsRefused : Text → Type 0
  IsRefused left =
      (b : Block) × ((pem.decode left).0 ≡ some b)
      × IsCertificate b
      × (parse_certificate b.bytes ≡ none)

  -- Where the loop stops after some blocks: at the end, without an error, or at a block that is
  -- refused, with an error that names its place.
  abbrev pub Stops : Text → Option ℕ → ℕ → Type 0
  Stops left failed place =
      ((failed ≡ none) × IsOver left) ⊎ ((failed ≡ some place) × IsRefused left)

  is_certificate_iff : (b : Block) → (is_certificate b ≡ true) ↔ IsCertificate b
  is_certificate_iff b = (
    (λ h. ground (arith, h, text_eq_iff b.block_type (codes "CERTIFICATE"))),
    λ h. ground (arith, h, text_eq_iff b.block_type (codes "CERTIFICATE")),
  )

  -- What the loop finds in a text, with the certificates before it.
  record Finds (fuel idx : ℕ) (certs : List Text) (s : Text) : Type 0 where
    blocks : List Block
    left : Text
    more : List Text
    failed : Option ℕ
    ends : load_loop pem parse_certificate fuel idx certs s ≡ some (certs ++ more, failed)
    decoded : Decodes s blocks left
    read : Reads blocks more
    stopped : Stops left failed (idx + length blocks)

  -- A block of another kind is passed over.
  skips-Finds :
      (fuel idx : ℕ) (certs : List Text) (c : ℕ) (s rest : Text) (block : Block)
      → pem.decode (c ∷ s) ≡ (some block, rest)
      → is_certificate block ≡ false
      → Finds fuel (suc idx) certs rest
      → Finds (suc fuel) idx certs (c ∷ s)
  unfolding load_loop
  skips-Finds fuel idx certs c s rest block both other f = record {
    blocks = block ∷ f.blocks;
    left = f.left;
    more = f.more;
    failed = f.failed;
    ends = ground (arith, both, other, f.ends);
    decoded = decodes c s rest f.left block f.blocks both f.decoded;
    read =
        skips block f.blocks f.more
          (λ right. ground (arith, other, (is_certificate_iff block).1 right)) f.read;
    stopped = ground (arith, f.stopped);
  }

  -- A certificate is taken.
  reads-Finds :
      (fuel idx : ℕ) (certs : List Text) (c : ℕ) (s rest : Text) (block : Block) (cert : Text)
      → pem.decode (c ∷ s) ≡ (some block, rest)
      → is_certificate block ≡ true
      → parse_certificate block.bytes ≡ some cert
      → Finds fuel (suc idx) (certs ++ (cert ∷ [])) rest
      → Finds (suc fuel) idx certs (c ∷ s)
  unfolding load_loop
  reads-Finds fuel idx certs c s rest block cert both right parsed f = record {
    blocks = block ∷ f.blocks;
    left = f.left;
    more = cert ∷ f.more;
    failed = f.failed;
    ends = ground (arith, both, right, parsed, f.ends, append_assoc certs (cert ∷ []) f.more);
    decoded = decodes c s rest f.left block f.blocks both f.decoded;
    read = reads block f.blocks cert f.more ((is_certificate_iff block).0 right) parsed f.read;
    stopped = ground (arith, f.stopped);
  }

  -- The loop stops at a text: nothing more is decoded.
  halt-Finds :
      (fuel idx : ℕ) (certs : List Text) (s : Text) (failed : Option ℕ)
      → load_loop pem parse_certificate fuel idx certs s ≡ some (certs, failed)
      → Stops s failed idx
      → Finds fuel idx certs s
  halt-Finds fuel idx certs s failed e stop = record {
    blocks = [];
    left = s;
    more = [];
    failed = failed;
    ends = ground (arith, e, append-nil certs);
    decoded = rests s;
    read = nothing;
    stopped = ground (arith, stop);
  }

  load_loop-Finds :
      (fuel idx : ℕ) (certs : List Text) (s : Text) → length s ≤ fuel → Finds fuel idx certs s
  unfolding load_loop
  load_loop-Finds fuel idx certs [] h =
      halt-Finds fuel idx certs [] none refl (inl (refl, inl refl))
  load_loop-Finds zero idx certs (c ∷ s) h = absurd (omega arith)
  load_loop-Finds (suc fuel) idx certs (c ∷ s) h =
      let rest = (pem.decode (c ∷ s)).1 in
      elim (Option-cases (pem.decode (c ∷ s)).0) [
        | inl missing ↦
            halt-Finds (suc fuel) idx certs (c ∷ s) none (ground (arith, missing))
              (inl (refl, inr missing))
        | inr (block, found) ↦
            let both : pem.decode (c ∷ s) ≡ (some block, rest) = ground (arith, found) in
            let shorter = pem.decode_shorter (c ∷ s) block rest both in
            elim (Bool-cases (is_certificate block)) [
              | inr other ↦
                  skips-Finds fuel idx certs c s rest block both other
                    (load_loop-Finds fuel (suc idx) certs rest (omega arith))
              | inl right ↦ elim (Option-cases (parse_certificate block.bytes)) [
                | inl refused ↦
                    halt-Finds (suc fuel) idx certs (c ∷ s) (some idx)
                      (ground (arith, found, right, refused))
                      (inr (refl, (block, found, (is_certificate_iff block).0 right, refused)))
                | inr (cert, parsed) ↦
                    reads-Finds fuel idx certs c s rest block cert both right parsed
                      (load_loop-Finds fuel (suc idx) (certs ++ (cert ∷ [])) rest (omega arith))
              ]
            ]
      ]

  -- The loop ends on every text. It decodes blocks from the text, one after the other, and returns
  -- in their order what those of type CERTIFICATE and without headers parse to. It stops without an
  -- error where the text is over or has no further block, or else at the first block of this kind
  -- that does not parse, with an error that counts the blocks of all kinds before it.
  pub load_certificates_total :
      (s : Text)
      → (r : Loaded) × (load_certificates_from_pem pem parse_certificate s ≡ some r)
        × ((blocks : List Block) × (left : Text) × Decodes s blocks left
            × Reads blocks r.0
            × Stops left r.1 (length blocks))
  unfolding load_certificates_from_pem
  load_certificates_total s =
      let f = load_loop-Finds (length s) 0 [] s (omega arith) in
      ((f.more, f.failed), f.ends, (f.blocks, f.left, f.decoded, f.read, ground (arith, f.stopped)))
