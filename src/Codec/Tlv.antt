-- ===== src/Codec/Tlv.antt =====
-- The fields of internal/codec/tlv.go: their types, the checks of one field, the parser and the
-- serializer of a canonical stream.
pub mod Stream
pub mod Parse
pub mod Sort
pub mod Fuel
pub mod Context
pub mod Required
pub mod Distinct
pub mod ForContext
pub mod Panics
pub mod RoundTrip
use wg.Prelude.{
  ℕ, zero, suc, ◌+◌, ◌-◌, ◌/◌, Bool, true, false, not, ◌&&◌, ◌||◌, Option, none, some, List, [],
  ◌∷◌, ◌++◌, length, take, drop, ltb, leb, ◌==◌, if◌then◌else◌, Result, ok, err, ◌>>=◌, ◌>>◌,
  fail_if,
}
use wg.Prelude.Int.{ℤ, pos, negsuc}
use wg.Codec.Errors.{
  DecodeError, decode_error, Decoded, truncated, length_error, limit, duplicate_tlv, tlv_order,
  unknown_critical_tlv, tlv_length, stuck,
}
use wg.Codec.Bytes.{be, put_be, byte_at}
use wg.Codec.Payload.{max_uint16, segment}

abbrev pub tlv_header_size : ℕ
tlv_header_size = 3

abbrev pub TlvType : Type 0
TlvType = ℕ  -- uint8

abbrev pub tlv_egress_policy_version : TlvType
tlv_egress_policy_version = 0x0C

abbrev pub tlv_dns_parameters : TlvType
tlv_dns_parameters = 0x0D

abbrev pub tlv_version : TlvType
tlv_version = 0x81

abbrev pub tlv_deployment_id : TlvType
tlv_deployment_id = 0x82

abbrev pub tlv_client_cid : TlvType
tlv_client_cid = 0x83

abbrev pub tlv_server_cid : TlvType
tlv_server_cid = 0x84

abbrev pub tlv_capabilities : TlvType
tlv_capabilities = 0x85

abbrev pub tlv_address_families : TlvType
tlv_address_families = 0x86

abbrev pub tlv_max_datagram_size : TlvType
tlv_max_datagram_size = 0x87

abbrev pub tlv_ipv4_lease : TlvType
tlv_ipv4_lease = 0x88

abbrev pub tlv_ipv6_lease : TlvType
tlv_ipv6_lease = 0x89

abbrev pub tlv_tunnel_mtu : TlvType
tlv_tunnel_mtu = 0x8A

abbrev pub tlv_lease_seconds : TlvType
tlv_lease_seconds = 0x8B

abbrev pub tlv_client_static_key : TlvType
tlv_client_static_key = 0x8C

abbrev pub tlv_enrollment_token_id : TlvType
tlv_enrollment_token_id = 0x8D

abbrev pub tlv_enrollment_proof : TlvType
tlv_enrollment_proof = 0x8E

pub record Tlv : Type 0 where
  pub type : TlvType
  pub value : List ℕ

-- The high bit of the type, `type & 0x80 != 0` on a byte.
abbrev pub critical : Tlv → Bool
critical field = leb 128 field.type

unfoldable pub known_tlv : TlvType → Bool
known_tlv t =
    t == tlv_egress_policy_version
    || t == tlv_dns_parameters
    || (leb tlv_version t && leb t tlv_enrollment_proof)

unfoldable pub fixed_tlv_length : TlvType → Option ℕ
fixed_tlv_length t =
    if t == tlv_egress_policy_version
      || t == tlv_client_cid
      || t == tlv_server_cid
      || t == tlv_capabilities
    then some 8
    else if t == tlv_version || t == tlv_address_families
    then some 1
    else if t == tlv_deployment_id || t == tlv_enrollment_token_id
    then some 16
    else if t == tlv_max_datagram_size || t == tlv_tunnel_mtu
    then some 2
    else if t == tlv_ipv4_lease
    then some 5
    else if t == tlv_ipv6_lease
    then some 17
    else if t == tlv_lease_seconds
    then some 4
    else if t == tlv_client_static_key || t == tlv_enrollment_proof
    then some 32
    else none

abbrev pub wrong_length : Option ℕ → ℕ → Bool
wrong_length none actual = false
wrong_length (some n) actual = not (actual == n)

unfoldable pub validate_tlv_field : Tlv → ℤ → Decoded (Unit {0})
validate_tlv_field field offset = do
  fail_if (critical field && not (known_tlv field.type))
      (decode_error unknown_critical_tlv offset "tlv.type")
  fail_if (wrong_length (fixed_tlv_length field.type) (length field.value))
      (decode_error tlv_length offset "tlv.value")

-- The check of a type against the one before it, `none` before the first.
abbrev pub check_order : Option TlvType → TlvType → ℤ → Decoded (Unit {0})
check_order none t offset = ok tt
check_order (some previous) t offset =
    if leb t previous
    then if t == previous
      then err (decode_error duplicate_tlv offset "tlv.type")
      else err (decode_error tlv_order offset "tlv.type")
    else ok tt

-- The loop of `ParseTLVs`. `rest` is `data[offset:]`, not empty in the last clause; `fields` are
-- those read before. Each round takes a byte at least, so the length of the input is fuel enough.
unfoldable pub parse_tlvs_loop : ℕ → ℕ → Option TlvType → List ℕ → List Tlv → Decoded (List Tlv)
parse_tlvs_loop fuel offset previous [] fields = ok fields
parse_tlvs_loop zero offset previous (b ∷ bs) fields =
    err (decode_error stuck (pos offset) "tlv.stream")
parse_tlvs_loop (suc fuel) offset previous (b ∷ bs) fields = do
  let rest = b ∷ bs
  fail_if (ltb (length rest) tlv_header_size) (decode_error truncated (pos offset) "tlv.header")
  let field_type = byte_at rest 0
  let size = be (segment rest 1 2)
  check_order previous field_type (pos offset)
  fail_if (ltb (length rest - tlv_header_size) size)
      (decode_error truncated (pos (offset + tlv_header_size)) "tlv.value")
  let field : Tlv = record { type = field_type; value = segment rest tlv_header_size size }
  validate_tlv_field field (pos offset)
  parse_tlvs_loop fuel (offset + tlv_header_size + size) (some field_type)
      (drop size (drop tlv_header_size rest)) (fields ++ (field ∷ []))

unfoldable pub parse_tlvs : List ℕ → Decoded (List Tlv)
parse_tlvs bytes = do
  fail_if (ltb max_uint16 (length bytes)) (decode_error limit (pos 0) "tlv.stream")
  parse_tlvs_loop (length bytes) 0 none bytes []

-- `sort.Slice` by type. Where two types are equal the source's order is not determined; the
-- serializer then fails in any case.
unfoldable pub insert_tlv : Tlv → List Tlv → List Tlv
insert_tlv field [] = field ∷ []
insert_tlv field (g ∷ gs) =
    let rest = insert_tlv field gs in if leb field.type g.type then field ∷ (g ∷ gs) else g ∷ rest

unfoldable pub sort_tlvs : List Tlv → List Tlv
sort_tlvs [] = []
sort_tlvs (field ∷ fields) = insert_tlv field (sort_tlvs fields)

abbrev is_duplicate : Option TlvType → TlvType → Bool
is_duplicate none t = false
is_duplicate (some previous) t = t == previous

-- The first loop of `MarshalTLVs`. The test `total > MaxUint16 - header - length`, on an `int`, is
-- written without the subtraction.
unfoldable pub check_tlvs : Option TlvType → ℕ → List Tlv → Decoded (Unit {0})
check_tlvs previous total [] = ok tt
check_tlvs previous total (field ∷ fields) = do
  fail_if (is_duplicate previous field.type) (decode_error duplicate_tlv (negsuc 0) "tlv.type")
  validate_tlv_field field (negsuc 0)
  fail_if (ltb max_uint16 (length field.value)) (decode_error tlv_length (negsuc 0) "tlv.value")
  fail_if (ltb max_uint16 (total + tlv_header_size + length field.value))
      (decode_error length_error (negsuc 0) "tlv.stream")
  check_tlvs (some field.type) (total + tlv_header_size + length field.value) fields

-- The second loop of `MarshalTLVs`.
unfoldable pub emit_tlvs : List Tlv → List ℕ
emit_tlvs [] = []
emit_tlvs (field ∷ fields) =
    field.type ∷ (put_be 2 (length field.value) ++ (field.value ++ emit_tlvs fields))

unfoldable pub marshal_tlvs : List Tlv → Decoded (List ℕ)
marshal_tlvs fields = do
  let canonical = sort_tlvs fields
  check_tlvs none 0 canonical
  ok (emit_tlvs canonical)
