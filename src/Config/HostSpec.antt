-- ===== src/Config/HostSpec.antt =====
-- `HostSpec` of pkg/server/config/models.go: `host:port` or `host:port/network`.
pub mod RoundTrip
use proxyreverse.Prelude.{
  ℕ, ◌≡◌, ◌&&◌, Option, none, some, List, [], ◌∷◌, ◌++◌, Text, codes, text_eq, ◌==◌, if◌then◌else◌,
  ok, err,
}
use proxyreverse.Go.Split.{split_two}
use proxyreverse.Go.HostPort.{split_host_port, AddrError}
use proxyreverse.Go.Decimal.{parse_uint16, NumError, decimal}

pub record HostSpec : Type 0 where
  pub host : Text
  pub port : ℕ
  pub network : Text

-- The errors that `UnmarshalText` wraps.
pub data HostSpecError : Type 0 where
  bad_address : AddrError → HostSpecError
  bad_port : NumError → HostSpecError

abbrev network_of : List Text → Text
network_of (address ∷ network ∷ rest) = network
network_of _ = codes "tcp"

abbrev address_of : List Text → Text
address_of [] = []
address_of (address ∷ rest) = address

-- the part after the network is set, on the address's host and port
set_address : HostSpec → Text → ℕ × Option NumError → HostSpec × Option HostSpecError
set_address u host (port, none) = (record u { host = host; port = port }, none)
set_address u host (port, some e) = (u, some (bad_port e))

-- `UnmarshalText` on a receiver: the receiver afterwards, and the error. The network is set before
-- the address is read.
unfoldable pub unmarshal_text : Text → HostSpec → HostSpec × Option HostSpecError
unfolding set_address
unmarshal_text text u =
    let parts = split_two b'/' text in
    let u' : HostSpec = record u { network = network_of parts } in
    elim (split_host_port (address_of parts)) [
      | err e ↦ (u', some (bad_address e))
      | ok (host, port) ↦ set_address u' host (parse_uint16 port)
    ]

unfoldable pub string_of : HostSpec → Text
string_of u = u.host ++ (b':' ∷ (decimal u.port ++ (b'/' ∷ u.network)))

unfoldable pub marshal_text : HostSpec → Text × Option HostSpecError
unfolding string_of
marshal_text u = (string_of u, none)

unfoldable pub host_port : HostSpec → Text
host_port u = if text_eq u.host [] && u.port == 0 then [] else u.host ++ (b':' ∷ decimal u.port)
