-- ===== src/Codec/Tlv/Context.antt =====
-- The occurrence rules of `ValidateTLVs`, and `FindTLV`, of internal/codec/tlv.go.
use wg.Prelude.{
  ℕ, Bool, true, false, not, ◌&&◌, ◌||◌, Option, none, some, List, [], ◌∷◌, length, ltb, leb, ◌==◌,
  if◌then◌else◌, ok, ◌>>=◌, ◌>>◌, fail_if,
}
use wg.Prelude.Int.{negsuc}
use wg.Codec.Errors.{
  DecodeError, decode_error, Decoded, tlv_context_error, tlv_length, duplicate_tlv, missing_tlv,
  stuck,
}
use wg.Codec.Bytes.{byte_at}
use wg.Codec.Tlv.{
  Tlv, TlvType, known_tlv, validate_tlv_field, parse_tlvs, marshal_tlvs, tlv_egress_policy_version,
  tlv_dns_parameters, tlv_version, tlv_deployment_id, tlv_client_cid, tlv_server_cid,
  tlv_capabilities, tlv_address_families, tlv_max_datagram_size, tlv_ipv4_lease, tlv_ipv6_lease,
  tlv_tunnel_mtu, tlv_lease_seconds, tlv_client_static_key, tlv_enrollment_token_id,
  tlv_enrollment_proof,
}

abbrev pub TlvContext : Type 0
TlvContext = ℕ  -- uint8

abbrev pub tlv_context_any : TlvContext
tlv_context_any = 0

abbrev pub tlv_context_initial : TlvContext
tlv_context_initial = 1

abbrev pub tlv_context_handshake : TlvContext
tlv_context_handshake = 2

-- `FindTLV`, and the look-up in the map `seen`, which is the list of the fields put into it.
unfoldable pub find_tlv : List Tlv → TlvType → Option (List ℕ)
find_tlv [] t = none
find_tlv (field ∷ fields) t =
    let rest = find_tlv fields t in if field.type == t then some field.value else rest

abbrev pub present : Option (List ℕ) → Bool
present none = false
present (some v) = true

abbrev pub one_of : List TlvType → TlvType → Bool
one_of [] t = false
one_of (u ∷ us) t = u == t || one_of us t

unfoldable pub allowed_in_context : TlvType → TlvContext → Bool
allowed_in_context t context =
    if context == tlv_context_initial
    then one_of
        (tlv_version ∷ tlv_deployment_id ∷ tlv_client_cid ∷ tlv_capabilities ∷ tlv_address_families
          ∷ tlv_max_datagram_size ∷ tlv_client_static_key ∷ tlv_enrollment_token_id
          ∷ tlv_enrollment_proof ∷ [])
        t
    else if context == tlv_context_handshake
    then one_of
        (tlv_egress_policy_version ∷ tlv_dns_parameters ∷ tlv_version ∷ tlv_deployment_id
          ∷ tlv_client_cid ∷ tlv_server_cid ∷ tlv_capabilities ∷ tlv_address_families
          ∷ tlv_max_datagram_size ∷ tlv_ipv4_lease ∷ tlv_ipv6_lease ∷ tlv_tunnel_mtu
          ∷ tlv_lease_seconds ∷ [])
        t
    else false

unfoldable pub required : TlvContext → List TlvType
required context =
    if context == tlv_context_initial
    then tlv_version ∷ tlv_deployment_id ∷ tlv_client_cid ∷ tlv_capabilities ∷ tlv_address_families
      ∷ tlv_max_datagram_size ∷ tlv_client_static_key ∷ []
    else if context == tlv_context_handshake
    then tlv_version ∷ tlv_deployment_id ∷ tlv_client_cid ∷ tlv_server_cid ∷ tlv_capabilities
      ∷ tlv_address_families ∷ tlv_max_datagram_size ∷ tlv_tunnel_mtu ∷ tlv_lease_seconds ∷ []
    else []

-- The loop over the fields; its result is the map `seen`.
unfoldable pub collect_tlvs : TlvContext → List Tlv → List Tlv → Decoded (List Tlv)
collect_tlvs context seen [] = ok seen
collect_tlvs context seen (field ∷ fields) = do
  fail_if (present (find_tlv seen field.type)) (decode_error duplicate_tlv (negsuc 0) "tlv.type")
  validate_tlv_field field (negsuc 0)
  fail_if
      (not (context == tlv_context_any)
        && known_tlv field.type
        && not (allowed_in_context field.type context))
      (decode_error tlv_context_error (negsuc 0) "tlv.type")
  collect_tlvs context (field ∷ seen) fields

-- `lease.Value[i] > max` for a lease that is present. An index out of range, a panic in the source,
-- is the error `stuck`.
unfoldable pub check_prefix : Option (List ℕ) → ℕ → ℕ → DecodeError → Decoded (Unit {0})
check_prefix none i max e = ok tt
check_prefix (some value) i max e = do
  fail_if (leb (length value) i) (decode_error stuck (negsuc 0) "lease")
  fail_if (ltb max (byte_at value i)) e

unfoldable pub check_required : List Tlv → List TlvType → Decoded (Unit {0})
check_required seen [] = ok tt
check_required seen (t ∷ ts) = do
  fail_if (not (present (find_tlv seen t))) (decode_error missing_tlv (negsuc 0) "tlv")
  check_required seen ts

abbrev pub differ : Bool → Bool → Bool
differ true b = not b
differ false b = b

unfoldable pub validate_tlvs : List Tlv → TlvContext → Decoded (Unit {0})
validate_tlvs fields context = do
  fail_if
      (not (context == tlv_context_any)
        && not (context == tlv_context_initial)
        && not (context == tlv_context_handshake))
      (decode_error tlv_context_error (negsuc 0) "tlv.context")
  seen ← collect_tlvs context [] fields
  fail_if
      (differ (present (find_tlv seen tlv_enrollment_token_id))
        (present (find_tlv seen tlv_enrollment_proof)))
      (decode_error tlv_context_error (negsuc 0) "enrollment")
  check_prefix (find_tlv seen tlv_ipv4_lease) 4 32
      (decode_error tlv_length (negsuc 0) "ipv4_lease.prefix")
  check_prefix (find_tlv seen tlv_ipv6_lease) 16 128
      (decode_error tlv_length (negsuc 0) "ipv6_lease.prefix")
  check_required seen (required context)
  fail_if
      (context == tlv_context_handshake
        && not (present (find_tlv seen tlv_ipv4_lease))
        && not (present (find_tlv seen tlv_ipv6_lease)))
      (decode_error missing_tlv (negsuc 0) "tlv")

unfoldable pub parse_tlvs_for : List ℕ → TlvContext → Decoded (List Tlv)
parse_tlvs_for bytes context = do fields ← parse_tlvs bytes; validate_tlvs fields context; ok fields

unfoldable pub marshal_tlvs_for : List Tlv → TlvContext → Decoded (List ℕ)
marshal_tlvs_for fields context = do validate_tlvs fields context; marshal_tlvs fields
