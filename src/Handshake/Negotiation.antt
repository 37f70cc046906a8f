-- ===== src/Handshake/Negotiation.antt =====
-- What a server takes from an INITIAL, chooses and answers, and what a client accepts of the answer:
-- the parts of internal/handshake/server.go and client.go between the parser and the serializer of
-- the fields. A field that `ValidateTLVs` requires counts as empty where it is missing.
pub mod Fields
pub mod Agreement
pub mod Accepted
pub mod Exchange
use Prim.Native.Nat.{min, bit_and}
use wg.Prelude.{
  ℕ, ◌-◌, Bool, true, false, not, ◌&&◌, ◌||◌, Option, none, some, List, [], ◌∷◌, ◌++◌, length, take,
  ltb, ◌==◌, if◌then◌else◌, Result, ok, ◌>>◌, fail_if,
}
use wg.Prelude.Equality.{ℕ_equality, list_equality, ◌=?◌}
use wg.Codec.Bytes.{be, put_be, byte_at}
use wg.Codec.Header.{version1}
use wg.Codec.Tlv.{
  Tlv, TlvType, tlv_egress_policy_version, tlv_dns_parameters, tlv_version, tlv_deployment_id,
  tlv_client_cid, tlv_server_cid, tlv_capabilities, tlv_address_families, tlv_max_datagram_size,
  tlv_ipv4_lease, tlv_ipv6_lease, tlv_tunnel_mtu, tlv_lease_seconds, tlv_client_static_key,
  tlv_enrollment_token_id, tlv_enrollment_proof,
}
use wg.Codec.Tlv.Context.{find_tlv, present}
use wg.Handshake.Config.{ClientOptions, ServerOptions, overhead, tunnel_room, has_other_families}

pub data NegotiationError : Type 0 where
  err_enrollment_unsupported err_parameters err_connection_id err_unregistered_client :
      NegotiationError

abbrev pub or_nothing : Option (List ℕ) → List ℕ
or_nothing none = []
or_nothing (some v) = v

abbrev pub value_of : List Tlv → TlvType → List ℕ
value_of fields t = or_nothing (find_tlv fields t)

-- The fields of the INITIAL that a client with this public key sends.
unfoldable pub initial_fields : ClientOptions → List ℕ → List ℕ → ℕ → List Tlv
initial_fields o deployment client_static client_cid =
    record { type = tlv_version; value = version1 ∷ [] }
    ∷ record { type = tlv_deployment_id; value = deployment }
    ∷ record { type = tlv_client_cid; value = put_be 8 client_cid }
    ∷ record { type = tlv_capabilities; value = put_be 8 o.capabilities }
    ∷ record { type = tlv_address_families; value = o.address_families ∷ [] }
    ∷ record { type = tlv_max_datagram_size; value = put_be 2 o.max_datagram_size }
    ∷ record { type = tlv_client_static_key; value = client_static }
    ∷ []

-- The comparisons of all keys are joined, so that the time does not tell which one fits.
unfoldable pub is_registered : List ℕ → List (List ℕ) → Bool
is_registered candidate [] = false
is_registered candidate (key ∷ keys) = candidate =? key || is_registered candidate keys

pub record Request : Type 0 where
  pub client_static : List ℕ
  pub families : ℕ  -- uint8
  pub datagram : ℕ  -- uint16

unfoldable pub validate_initial_fields :
    List ℕ → List (List ℕ) → List Tlv → ℕ → Result NegotiationError Request
validate_initial_fields deployment registered fields client_cid = do
  fail_if (present (find_tlv fields tlv_enrollment_token_id)) err_enrollment_unsupported
  fail_if (present (find_tlv fields tlv_enrollment_proof)) err_enrollment_unsupported
  fail_if (not (byte_at (value_of fields tlv_version) 0 == version1)) err_parameters
  fail_if (not (value_of fields tlv_deployment_id =? deployment)) err_parameters
  fail_if (not (be (value_of fields tlv_client_cid) == client_cid)) err_connection_id
  let families = byte_at (value_of fields tlv_address_families) 0
  fail_if (families == 0 || has_other_families families) err_parameters
  let datagram = be (value_of fields tlv_max_datagram_size)
  fail_if (ltb datagram overhead) err_parameters
  let key = value_of fields tlv_client_static_key
  fail_if (not (is_registered key registered)) err_unregistered_client
  ok (record { client_static = key; families = families; datagram = datagram })

pub record Selected : Type 0 where
  pub families : ℕ
  pub datagram : ℕ
  pub mtu : ℕ

abbrev pub is_none : List ℕ → Bool
is_none [] = true
is_none (b ∷ bs) = false

-- `families &^= 0x01` without an IPv4 lease, and `families &^= 0x02` without an IPv6 lease.
abbrev pub available : Bool → Bool → ℕ → ℕ
available no_ipv4 no_ipv6 families =
    let with_ipv4 = if no_ipv4 then bit_and families 0xFE else families in
    if no_ipv6 then bit_and with_ipv4 0xFD else with_ipv4

-- The choice of `HandleInitial`.
unfoldable pub select : ServerOptions → Request → Result NegotiationError Selected
select o r = do
  let families =
      bit_and r.families
        (available (is_none o.ipv4_lease) (is_none o.ipv6_lease) o.address_families)
  fail_if (families == 0) err_parameters
  let datagram = min r.datagram o.max_datagram_size
  let mtu = min o.tunnel_mtu (tunnel_room datagram)
  fail_if (ltb mtu 576) err_parameters
  ok (record { families = families; datagram = datagram; mtu = mtu })

abbrev pub optional : Bool → TlvType → List ℕ → List Tlv
optional true t v = record { type = t; value = v } ∷ []
optional false t v = []

abbrev pub has_ipv4 : ℕ → Bool
has_ipv4 families = not (bit_and families 0x01 == 0)

abbrev pub has_ipv6 : ℕ → Bool
has_ipv6 families = not (bit_and families 0x02 == 0)

unfoldable pub handshake_fields : ServerOptions → List ℕ → ℕ → ℕ → Selected → List Tlv
handshake_fields o deployment client_cid server_cid s =
    record { type = tlv_egress_policy_version; value = put_be 8 o.egress_policy }
    ∷ record { type = tlv_version; value = version1 ∷ [] }
    ∷ record { type = tlv_deployment_id; value = deployment }
    ∷ record { type = tlv_client_cid; value = put_be 8 client_cid }
    ∷ record { type = tlv_server_cid; value = put_be 8 server_cid }
    ∷ record { type = tlv_capabilities; value = put_be 8 o.capabilities }
    ∷ record { type = tlv_address_families; value = s.families ∷ [] }
    ∷ record { type = tlv_max_datagram_size; value = put_be 2 s.datagram }
    ∷ record { type = tlv_tunnel_mtu; value = put_be 2 s.mtu }
    ∷ record { type = tlv_lease_seconds; value = put_be 4 o.lease_seconds }
    ∷ (optional (not (is_none o.dns_parameters)) tlv_dns_parameters o.dns_parameters
        ++ (optional (has_ipv4 s.families && not (is_none o.ipv4_lease)) tlv_ipv4_lease o.ipv4_lease
            ++ optional (has_ipv6 s.families && not (is_none o.ipv6_lease)) tlv_ipv6_lease
                o.ipv6_lease))

-- `IsGlobalUnicast` and not `IsLoopback`, of the bytes of an address.
pub record Unicast : Type 0 where
  pub unicast_ipv4 : List ℕ → Bool
  pub unicast_ipv6 : List ℕ → Bool

pub record Negotiated : Type 0 where
  pub capabilities : ℕ
  pub families : ℕ
  pub datagram : ℕ
  pub mtu : ℕ
  pub lease_seconds : ℕ
  pub ipv4_lease : List ℕ
  pub ipv6_lease : List ℕ
  pub egress_policy : ℕ
  pub dns_parameters : List ℕ
  pub server_cid : ℕ

abbrev pub differs : Bool → Bool → Bool
differs true b = not b
differs false b = b

-- The value of an optional number is 0 where the field is missing.
abbrev pub optional_number : Option (List ℕ) → ℕ
optional_number none = 0
optional_number (some v) = be v

unfoldable pub validate_handshake_fields :
    Unicast → ClientOptions → List ℕ → ℕ → List Tlv → ℕ → Result NegotiationError Negotiated
validate_handshake_fields net o deployment client_cid fields outer_server_cid = do
  let version = value_of fields tlv_version
  fail_if (not (length version == 1) || not (byte_at version 0 == version1)) err_parameters
  fail_if (not (value_of fields tlv_deployment_id =? deployment)) err_parameters
  fail_if (not (be (value_of fields tlv_client_cid) == client_cid)) err_connection_id
  let server_cid = be (value_of fields tlv_server_cid)
  fail_if (server_cid == 0 || not (server_cid == outer_server_cid)) err_connection_id
  let families = byte_at (value_of fields tlv_address_families) 0
  fail_if (families == 0 || not (bit_and families (255 - o.address_families) == 0)) err_parameters
  let datagram = be (value_of fields tlv_max_datagram_size)
  fail_if (ltb datagram overhead || ltb o.max_datagram_size datagram) err_parameters
  let mtu = be (value_of fields tlv_tunnel_mtu)
  fail_if (ltb mtu o.min_tunnel_mtu || ltb o.max_tunnel_mtu mtu || ltb (tunnel_room datagram) mtu)
      err_parameters
  let lease_seconds = be (value_of fields tlv_lease_seconds)
  fail_if (lease_seconds == 0) err_parameters
  let ipv4 = find_tlv fields tlv_ipv4_lease
  let ipv6 = find_tlv fields tlv_ipv6_lease
  fail_if (differs (present ipv4) (has_ipv4 families) || differs (present ipv6) (has_ipv6 families))
      err_parameters
  fail_if (present ipv4 && not (net.unicast_ipv4 (take 4 (or_nothing ipv4)))) err_parameters
  fail_if (present ipv6 && not (net.unicast_ipv6 (take 16 (or_nothing ipv6)))) err_parameters
  ok (record {
    capabilities = be (value_of fields tlv_capabilities);
    families = families;
    datagram = datagram;
    mtu = mtu;
    lease_seconds = lease_seconds;
    ipv4_lease = or_nothing ipv4;
    ipv6_lease = or_nothing ipv6;
    egress_policy = optional_number (find_tlv fields tlv_egress_policy_version);
    dns_parameters = value_of fields tlv_dns_parameters;
    server_cid = server_cid;
  })
