-- ===== src/Pem.antt =====
-- pkg/certutils/certutils.go: the certificates of a PEM text.
pub mod Blocks
use proxyreverse.Prelude.{
  ℕ, zero, suc, ◌≤◌, ◌<◌, ◌≡◌, refl, Bool, true, false, not, ◌&&◌, Option, none, some, List, [],
  ◌∷◌, ◌++◌, ◌+◌, ◌⊎◌, ◌↔◌, Text, codes, text_eq, text_eq_iff, length, arith, Option-cases,
  Bool-cases, inl, inr,
}
use mathlib.Core.List.{append_assoc, append-nil}

-- `pem.Block`; only whether it has headers counts.
pub record Block : Type 0 where
  pub block_type : Text
  pub has_headers : Bool
  pub bytes : Text

-- `pem.Decode`: the next block, if there is one, and the rest of the text. A block is taken from
-- the text, so that the rest is shorter.
pub record Pem : Type 0 where
  pub decode : Text → Option Block × Text
  pub decode_shorter :
      (s : Text) (b : Block) (rest : Text) → decode s ≡ (some b, rest) → length rest < length s

-- The certificates so far, and the number of the block that could not be parsed.
abbrev pub Loaded : Type 0
Loaded = List Text × Option ℕ

abbrev pub is_certificate : Block → Bool
is_certificate b = text_eq b.block_type (codes "CERTIFICATE") && not b.has_headers

module _ (pem : Pem) (parse_certificate : Text → Option Text) where
  -- The loop of `LoadCertificatesFromPem`, on fuel; `none` when the fuel runs out.
  unfoldable pub load_loop : ℕ → ℕ → List Text → Text → Option Loaded
  load_loop fuel idx certs [] = some (certs, none)
  load_loop zero idx certs (c ∷ s) = none
  load_loop (suc fuel) idx certs (c ∷ s) =
      let (found, rest) = pem.decode (c ∷ s) in
      elim found [
        | none ↦ some (certs, none)
        | some block ↦ elim (is_certificate block) [
          | false ↦ load_loop fuel (suc idx) certs rest
          | true ↦ elim (parse_certificate block.bytes) [
            | none ↦ some (certs, some idx)
            | some cert ↦ load_loop fuel (suc idx) (certs ++ (cert ∷ [])) rest
          ]
        ]
      ]

  -- `LoadCertificatesFromPem`
  unfoldable pub load_certificates_from_pem : Text → Option Loaded
  unfolding load_loop
  load_certificates_from_pem pem_certs = load_loop (length pem_certs) 0 [] pem_certs
