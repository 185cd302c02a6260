-- ===== src/Config/Certificates.antt =====
-- pkg/server/config/x509_models.go: certificates given by file name, by text, or as "system". A
-- certificate is its raw bytes.
pub mod Entries
pub mod Pool
use proxyreverse.Prelude.{
  ℕ, suc, ◌≡◌, Bool, true, false, not, Option, none, some, List, [], ◌∷◌, ◌++◌, Text, codes,
  text_eq, length, take, ltb, Assoc, lookup, insert, if◌then◌else◌, Result, ok, err, ◌>>=◌,
}
use proxyreverse.Go.Lo.{Lo}
use proxyreverse.Config.Value.{Value, null, boolean, integer, text, opaque, list, map, items}
use proxyreverse.Config.Models.{CertificatePool}

abbrev pub tls_certificate_pool_max_non_file_entry_return : ℕ
tls_certificate_pool_max_non_file_entry_return = 50

abbrev pub tls_ca_certs_system : Text
tls_ca_certs_system = codes "system"

-- `ErrInvalidInputType`, a file that cannot be read, and `ErrInvalidPEMFile` with the item's number
-- and a sample of it.
pub data CertificateError : Type 0 where
  invalid_input_type : CertificateError
  unreadable_file : Text → CertificateError
  invalid_pem_file : (idx : ℕ) (sample : Text) → CertificateError

-- The conversion of an element to a string: its value, or the empty string, and whether it is one.
unfoldable pub as_string : Value → Text × Bool
as_string (text t) = (t, true)
as_string null = ([], false)
as_string (boolean b) = ([], false)
as_string (integer n) = ([], false)
as_string (opaque t) = ([], false)
as_string (list vs) = ([], false)
as_string (map m) = ([], false)

-- the first error, if there is one
unfoldable pub first_error : Option CertificateError → Text × Bool → ℕ → Option CertificateError
first_error (some e) t i = some e
first_error none t i = if t.1 then none else some invalid_input_type

module _ (lo : Lo) where
  strings_or : Option CertificateError → List (Text × Bool) → Result CertificateError (List Text)
  strings_or (some e) pairs = err e
  strings_or none pairs = ok (lo.map_of (Text × Bool) Text (λ t i. t.0) pairs)

  -- The first part of both `MapStructureDecode`: the strings of the input.
  strings_of_items : List Value → Result CertificateError (List Text)
  strings_of_items values =
      let pairs = lo.map_of Value (Text × Bool) (λ v i. as_string v) values in
      strings_or (lo.reduce_of (Text × Bool) (Option CertificateError) first_error none pairs) pairs

  unfoldable pub strings_of : Value → Result CertificateError (List Text)
  unfolding strings_of_items strings_or
  strings_of (list vs) = strings_of_items (items vs)
  strings_of null = err invalid_input_type
  strings_of (boolean b) = err invalid_input_type
  strings_of (integer n) = err invalid_input_type
  strings_of (text t) = err invalid_input_type
  strings_of (opaque t) = err invalid_input_type
  strings_of (map m) = err invalid_input_type

-- Files, the system's pool, and the certificates that `AppendCertsFromPEM` adds.
pub record Trust : Type 0 where
  pub exists : Text → Bool
  pub read_file : Text → Option Text
  pub system_cert_pool : Option (List Text)
  pub append_certs_from_pem : List Text → Text → List Text × Bool

-- The sample of an entry that is no file.
unfoldable pub item_sample : Text → Text
item_sample entry =
    if ltb (length entry) tls_certificate_pool_max_non_file_entry_return
    then entry
    else take tls_certificate_pool_max_non_file_entry_return entry

module _ (trust : Trust) where
  -- The PEM text of an entry and its sample.
  unfoldable pub source_of : Text → Result CertificateError (Text × Text)
  source_of entry =
      if trust.exists entry
      then elim (trust.read_file entry) [
        | none ↦ err (unreadable_file entry)
        | some pem ↦ ok (pem, entry)
      ]
      else ok (entry, item_sample entry)

  -- The scan for "system": the pool that the certificates are added to.
  unfoldable pub first_pool : List Text → List Text
  first_pool [] = []
  first_pool (entry ∷ entries) =
      if text_eq entry tls_ca_certs_system
      then elim trust.system_cert_pool [ none ↦ [] | some pool ↦ pool ]
      else first_pool entries

  added_or_fail : List Text × Bool → ℕ → Text → List Text × Option CertificateError
  added_or_fail (pool, true) idx sample = (pool, none)
  added_or_fail (pool, false) idx sample = (pool, some (invalid_pem_file idx sample))

  -- One entry: the pool afterwards, and the error.
  unfoldable pub add_entry : ℕ → Text → List Text → List Text × Option CertificateError
  unfolding source_of added_or_fail
  add_entry idx entry pool =
      if text_eq entry tls_ca_certs_system then (pool, none) else elim (source_of entry) [
        | err e ↦ (pool, some e)
        | ok (pem, sample) ↦ added_or_fail (trust.append_certs_from_pem pool pem) idx sample
      ]

  -- The loop over the entries ends at the first error.
  unfoldable pub add_entries : ℕ → List Text → List Text → List Text × Option CertificateError
  add_entries idx [] pool = (pool, none)
  add_entries idx (entry ∷ entries) pool =
      let (pool', failed) = add_entry idx entry pool in
      let rest = add_entries (suc idx) entries pool' in
      elim failed [ some e ↦ (pool', some e) | none ↦ rest ]

  set_original :
      CertificatePool
      → List Text
      → List Text × Option CertificateError
      → CertificatePool × Option CertificateError
  set_original t entries (pool, none) = (record { cert_pool = some pool; original = entries }, none)
  set_original t entries (pool, some e) = (record t { cert_pool = some pool }, some e)

  -- `MapStructureDecode` of `TLSCertificatePool`, on a receiver
  unfoldable pub decode_pool :
      Lo → Value → CertificatePool → CertificatePool × Option CertificateError
  unfolding first_pool add_entries set_original
  decode_pool lo input t = elim (strings_of lo input) [
    | err e ↦ (t, some e)
    | ok entries ↦ set_original t entries (add_entries 0 entries (first_pool entries))
  ]
