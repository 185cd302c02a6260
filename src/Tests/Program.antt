-- ===== src/Tests/Program.antt =====
-- The exit code of pkg/entrypoint, the environment of pkg/envutil and the PEM texts of
-- pkg/certutils.
use proxyreverse.Prelude.{
  ◌≡◌, List, ◌↔◌, ◌⊎◌, true, ◌<◌, refl, false, Option, none, some, [], ◌∷◌, Text, codes, arith,
  text_eq, length, ok, err, All,
}
use proxyreverse.Pem.{Block, Pem, Loaded, load_loop, load_certificates_from_pem}
use proxyreverse.Pem.Blocks.{Decodes, Reads, Stops, load_certificates_total}
use proxyreverse.Environment.{HasEquals}
use proxyreverse.Go.Panic.{must_failed}
use proxyreverse.Go.Split.{split_two, cut}
use proxyreverse.Entrypoint.{Options, Steps, panicked, Exit, entrypoint}
use proxyreverse.Entrypoint.Codes.{Loads}
use proxyreverse.Program.{main, main_reverse_proxy}

-- A decoder that takes each byte for a certificate.
abbrev pub decode_byte : Text → Option Block × Text
decode_byte [] = (none, [])
decode_byte (c ∷ s) =
    (some (record { block_type = codes "CERTIFICATE"; has_headers = false; bytes = c ∷ [] }), s)

pub decode_byte-shorter :
    (s : Text) (b : Block) (rest : Text) → decode_byte s ≡ (some b, rest) → length rest < length s
decode_byte-shorter [] b rest e = absurd (ground arith)
decode_byte-shorter (c ∷ s) b rest e = ground arith

abbrev pub bytewise : Pem
bytewise = record { decode = decode_byte; decode_shorter = decode_byte-shorter }

pem_tests :
    (load_certificates_from_pem bytewise (λ t. some t) (codes "ab")
      ≡ some (codes "a" ∷ codes "b" ∷ [], none))
    × (load_certificates_from_pem bytewise (λ t. none) (codes "ab") ≡ some ([], some 0))
unfolding load_certificates_from_pem load_loop text_eq
pem_tests = (refl, refl)

load_certificates_total_example :
    (r : Loaded) × (load_certificates_from_pem bytewise (λ t. some t) (codes "ab") ≡ some r)
    × ((blocks : List Block) × (left : Text) × Decodes bytewise
          (λ t. some t)
          (codes "ab")
          blocks
          left
        × Reads bytewise (λ t. some t) blocks r.0
        × Stops bytewise (λ t. some t) left r.1 (length blocks))
load_certificates_total_example = load_certificates_total bytewise (λ t. some t) (codes "ab")

abbrev pub options : Options
options = record {
  logging_level = codes "info";
  logging_format = codes "console";
  config = codes "c.yml";
  show_version = false;
  command = codes "reverse-proxy";
}

-- Steps that succeed, with a configuration that is its text.
abbrev steps : Steps
steps = record {
  Config = Text;
  LoadFailure = Text;
  ServerFailure = Text;
  parse = λ args. ok options;
  unmarshal_level = λ t. none;
  build_logger = λ o. none;
  read_file = λ t. ok (codes "x: 1");
  load = λ t. ok (ok t);
  load_and_sanitize_config = λ t. ok t;
  server = λ cfg. ok none;
  version = codes "1";
}

main_tests :
    (main steps (codes "A=1" ∷ []) [] ≡ entrypoint steps [])
    × (main steps (codes "A" ∷ []) [] ≡ err (panicked must_failed))
unfolding main split_two cut
main_tests = (refl, refl)

main_reverse_proxy_test :
    ((x : Exit) × (main steps (codes "A=1" ∷ []) [] ≡ ok x) × (x.code ≡ 0)) ↔ (
      All HasEquals (codes "A=1" ∷ [])
      × ((false ≡ true)
          ⊎ ((cfg : Text) × (sanitized : Text) × Loads steps [] options cfg sanitized
              × (steps.server cfg ≡ ok none))))
main_reverse_proxy_test = main_reverse_proxy steps (codes "A=1" ∷ []) [] options (refl, refl) refl
