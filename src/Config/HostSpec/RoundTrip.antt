-- ===== src/Config/HostSpec/RoundTrip.antt =====
-- Printing a `HostSpec` and reading it back.
use proxyreverse.Prelude.{
  ℕ, ◌≡◌, ◌≢◌, ◌≤◌, true, none, some, [], ◌∷◌, ◌++◌, Text, arith, All-append, inl, inr, ok, err,
  ◌⊎◌, Result-cases, sym, ◌∙◌,
}
use mathlib.Core.List.{append_assoc}
use proxyreverse.Go.Split.{split_two, cut-append, Lacks}
use proxyreverse.Go.HostPort.{
  split_host_port, split_host_port_of_IsPlain, split_host_port_bracketed, split_host_port_colons,
  IsPlain, AddrError, too_many_colons, has,
}
use proxyreverse.Go.Decimal.{
  decimal-IsPlain, parse_uint16, parse_uint16-decimal, parse_uint16-le, decimal, decimal-Lacks,
  max_uint16,
}
use proxyreverse.Config.HostSpec.{
  HostSpec, bad_address, unmarshal_text, string_of, set_address, address_of,
}

split_two-append :
    (address network : Text)
    → Lacks b'/' address
    → split_two b'/' (address ++ (b'/' ∷ network)) ≡ address ∷ network ∷ []
unfolding split_two
split_two-append address network h = rw (cut-append b'/' address network h, split_two)

address-Lacks :
    (host : Text) (port : ℕ) → Lacks b'/' host → Lacks b'/' (host ++ (b':' ∷ decimal port))
address-Lacks host port h =
    All-append (λ c. c ≢ b'/') host (b':' ∷ decimal port) h
      (omega arith, decimal-Lacks b'/' port (inl (omega arith)))

-- An address and a network, read.
unmarshal_text-parts :
    (address network : Text) (v : HostSpec) (host port : Text)
    → Lacks b'/' address
    → split_host_port address ≡ ok (host, port)
    → unmarshal_text (address ++ (b'/' ∷ network)) v
      ≡ set_address (record v { network = network }) host (parse_uint16 port)
unfolding unmarshal_text
unmarshal_text-parts address network v host port h e =
    ground (arith, e, split_two-append address network h)

unmarshal_text-refused :
    (address network : Text) (v : HostSpec) (e : AddrError)
    → Lacks b'/' address
    → split_host_port address ≡ err e
    → (unmarshal_text (address ++ (b'/' ∷ network)) v).1 ≡ some (bad_address e)
unfolding unmarshal_text
unmarshal_text-refused address network v e h refused =
    ground (arith, refused, split_two-append address network h)

module _ (u v : HostSpec) where
  string_of-eq : string_of u ≡ (u.host ++ (b':' ∷ decimal u.port)) ++ (b'/' ∷ u.network)
  unfolding string_of
  string_of-eq = sym (append_assoc u.host (b':' ∷ decimal u.port) (b'/' ∷ u.network))

  -- For a host without `:`, `[`, `]` and `/` and a port of 16 bits, reading the print of a
  -- specification gives the specification, whatever the receiver held.
  pub unmarshal_text-string_of :
      IsPlain u.host
      → Lacks b'/' u.host
      → u.port ≤ max_uint16
      → unmarshal_text (string_of u) v ≡ (u, none)
  unfolding set_address
  unmarshal_text-string_of h k le = rw string_of-eq (
      unmarshal_text-parts (u.host ++ (b':' ∷ decimal u.port)) u.network v u.host (decimal u.port)
        (address-Lacks u.host u.port k)
        (split_host_port_of_IsPlain u.host (decimal u.port) h (decimal-IsPlain u.port))
      ∙ (rw (parse_uint16-decimal u.port le)))

  bracketed : Text
  bracketed = b'[' ∷ (u.host ++ (b']' ∷ (b':' ∷ decimal u.port)))

  bracketed-Lacks : Lacks b'/' u.host → Lacks b'/' bracketed
  unfolding bracketed
  bracketed-Lacks h = (
    omega arith,
    All-append (λ c. c ≢ b'/') u.host (b']' ∷ (b':' ∷ decimal u.port)) h
        (omega arith, (omega arith, decimal-Lacks b'/' u.port (inl (omega arith)))),
  )

  -- For a host with a colon, such as an IPv6 address, and without brackets and `/`: the
  -- specification is read from the form with brackets round the host, and its own print is then
  -- refused for too many colons.
  pub unmarshal_text-string_of_colons :
      has b':' u.host ≡ true
      → Lacks b'[' u.host
      → Lacks b']' u.host
      → Lacks b'/' u.host
      → u.port ≤ max_uint16
      → (unmarshal_text
            ((b'[' ∷ (u.host ++ (b']' ∷ (b':' ∷ decimal u.port)))) ++ (b'/' ∷ u.network))
            v
          ≡ (u, none))
        × ((unmarshal_text (string_of u) v).1 ≡ some (bad_address too_many_colons))
  unfolding set_address
  unmarshal_text-string_of_colons colon open_b close_b slash le = (
    unmarshal_text-parts (b'[' ∷ (u.host ++ (b']' ∷ (b':' ∷ decimal u.port)))) u.network v u.host
          (decimal u.port) (unfold bracketed in bracketed-Lacks slash)
          (split_host_port_bracketed u.host (decimal u.port) open_b close_b
            (decimal-IsPlain u.port))
        ∙ rw (parse_uint16-decimal u.port le),
    rw string_of-eq (
        unmarshal_text-refused (u.host ++ (b':' ∷ decimal u.port)) u.network v too_many_colons
          (address-Lacks u.host u.port slash)
          (split_host_port_colons u.host (decimal u.port) colon open_b (decimal-IsPlain u.port).0)),
  )

-- What a read leaves behind: a port of 16 bits and no error, or an error and the host and the port
-- that the receiver had.
unmarshal_text_result :
    (text : Text) (v : HostSpec)
    → (((unmarshal_text text v).1 ≡ none) × ((unmarshal_text text v).0.port ≤ max_uint16))
      ⊎ (((unmarshal_text text v).1 ≢ none)
          × ((unmarshal_text text v).0.host ≡ v.host)
          × ((unmarshal_text text v).0.port ≡ v.port))
unfolding unmarshal_text
unmarshal_text_result text v =
    elim (Result-cases (split_host_port (address_of (split_two b'/' text)))) [
      | inr (e, refused) ↦ ground (arith, refused)
      | inl ((host, port), split) ↦ ground (arith, split, parse_uint16-le port)
    ]
