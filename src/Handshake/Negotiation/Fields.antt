-- ===== src/Handshake/Negotiation/Fields.antt =====
-- Fields that are found in an answer of internal/handshake/server.go, sorted or not.
use wg.Prelude.{
  ℕ, ◌≡◌, refl, Bool, true, false, not, ◌&&◌, none, some, List, [], ◌∷◌, ◌++◌, if◌then◌else◌,
}
use wg.Prelude.Equality.{ℕ_equality, list_equality}
use wg.Codec.Tlv.{
  sort_tlvs, Tlv, tlv_egress_policy_version, tlv_dns_parameters, tlv_version, tlv_deployment_id,
  tlv_client_cid, tlv_server_cid, tlv_capabilities, tlv_address_families, tlv_max_datagram_size,
  tlv_ipv4_lease, tlv_ipv6_lease, tlv_tunnel_mtu, tlv_lease_seconds,
}
use wg.Codec.Tlv.Context.{find_tlv}
use wg.Codec.Tlv.Sort.{find-sort_tlvs}
use wg.Handshake.Config.{ClientOptions}
use wg.Handshake.Negotiation.{Unicast, validate_handshake_fields, optional, is_none, or_nothing}

-- The three fields that an answer may lack.
abbrev pub optional_fields : (b c d : Bool) (dns ipv4 ipv6 : List ℕ) → List Tlv
optional_fields b c d dns ipv4 ipv6 =
    optional b tlv_dns_parameters dns
    ++ (optional c tlv_ipv4_lease ipv4 ++ optional d tlv_ipv6_lease ipv6)

module _ (dns ipv4 ipv6 : List ℕ) where
  pub find-ipv4 :
      (b c d : Bool)
      → find_tlv (optional_fields b c d dns ipv4 ipv6) tlv_ipv4_lease
        ≡ (if c then some ipv4 else none)
  unfolding find_tlv
  find-ipv4 true true d = refl
  find-ipv4 false true d = refl
  find-ipv4 true false true = refl
  find-ipv4 true false false = refl
  find-ipv4 false false true = refl
  find-ipv4 false false false = refl

  pub find-ipv6 :
      (b c d : Bool)
      → find_tlv (optional_fields b c d dns ipv4 ipv6) tlv_ipv6_lease
        ≡ (if d then some ipv6 else none)
  unfolding find_tlv
  find-ipv6 true true true = refl
  find-ipv6 false true true = refl
  find-ipv6 true false true = refl
  find-ipv6 false false true = refl
  find-ipv6 true true false = refl
  find-ipv6 false true false = refl
  find-ipv6 true false false = refl
  find-ipv6 false false false = refl

  pub find-dns :
      (b c d : Bool)
      → find_tlv (optional_fields b c d dns ipv4 ipv6) tlv_dns_parameters
        ≡ (if b then some dns else none)
  unfolding find_tlv
  find-dns true c d = refl
  find-dns false true true = refl
  find-dns false false true = refl
  find-dns false true false = refl
  find-dns false false false = refl

-- A lease that is there, where a family asks for it, and is acceptable.
pub lease_found :
    (has missing : Bool) (lease : List ℕ)
    → missing ≡ is_none lease
    → not (missing && has) ≡ true
    → (if has && not missing then some lease else none) ≡ (if has then some lease else none)
lease_found true true lease e h = cc
lease_found true false lease e h = refl
lease_found false missing lease e h = refl

pub dns_found : (dns : List ℕ) → or_nothing (if not (is_none dns) then some dns else none) ≡ dns
dns_found [] = refl
dns_found (b ∷ bs) = refl

pub validate-sort_tlvs :
    (net : Unicast) (c : ClientOptions) (deployment : List ℕ) (client_cid server_cid : ℕ)
    (fs : List Tlv)
    → validate_handshake_fields net c deployment client_cid (sort_tlvs fs) server_cid
      ≡ validate_handshake_fields net c deployment client_cid fs server_cid
unfolding validate_handshake_fields
validate-sort_tlvs net c deployment client_cid server_cid fs =
    rw
      (
        find-sort_tlvs fs tlv_version,
        find-sort_tlvs fs tlv_deployment_id,
        find-sort_tlvs fs tlv_client_cid,
        find-sort_tlvs fs tlv_server_cid,
        find-sort_tlvs fs tlv_capabilities,
        find-sort_tlvs fs tlv_address_families,
        find-sort_tlvs fs tlv_max_datagram_size,
        find-sort_tlvs fs tlv_tunnel_mtu,
        find-sort_tlvs fs tlv_lease_seconds,
        find-sort_tlvs fs tlv_ipv4_lease,
        find-sort_tlvs fs tlv_ipv6_lease,
        find-sort_tlvs fs tlv_egress_policy_version,
        find-sort_tlvs fs tlv_dns_parameters,
      )
      refl
