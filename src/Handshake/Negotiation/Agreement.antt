-- ===== src/Handshake/Negotiation/Agreement.antt =====
-- The answer of a server, in internal/handshake/server.go, before the checks of client.go.
use Prim.Native.Nat.{min, bit_and}
use wg.Prelude.{
  ℕ, zero, suc, ◌-◌, ◌^◌, ◌≤◌, ◌<◌, ◌≡◌, ◌⊎◌, refl, ◌∙◌, Bool, true, false, not, ◌&&◌, ◌||◌, List,
  [], length, take, ◌==◌, if◌then◌else◌, ok, arith,
}
use wg.Prelude.Equality.{ℕ_equality, list_equality, same_refl}
use wg.Codec.Bytes.{byte_at, be-put_be}
use wg.Codec.Tlv.{sort_tlvs, Tlv}
use wg.Codec.Tlv.Context.{find_tlv, tlv_context_handshake, parse_tlvs_for, marshal_tlvs_for}
use wg.Codec.Tlv.ForContext.{marshal_tlvs_for-some}
use wg.Handshake.Config.{ClientOptions, ServerOptions, tunnel_room}
use wg.Handshake.Config.Bounds.{IsClientOptions, IsServerOptions}
use wg.Handshake.Negotiation.Accepted.{handshake_fields-valid}
use wg.Handshake.Negotiation.Fields.{
  find-ipv4, find-ipv6, find-dns, lease_found, dns_found, validate-sort_tlvs,
}
use wg.Handshake.Negotiation.{
  Request, Selected, Negotiated, Unicast, select, handshake_fields, validate_handshake_fields,
  has_ipv4, has_ipv6, is_none, available,
}

-- A condition on two numbers below four and on which leases are missing, at one pair.
abbrev chosen : Bool → Bool → ℕ → ℕ → ℕ
chosen no_ipv4 no_ipv6 a b = bit_and a (available no_ipv4 no_ipv6 b)

abbrev fits_of : Bool → Bool → ℕ → ℕ → Bool
fits_of no_ipv4 no_ipv6 a s =
    (bit_and s (255 - a) == 0)
    && not (no_ipv4 && has_ipv4 s)
    && not (no_ipv6 && has_ipv6 s)
    && (s == 0 || has_ipv4 s || has_ipv6 s)

abbrev fits : Bool → Bool → ℕ → ℕ → Bool
fits no_ipv4 no_ipv6 a b = fits_of no_ipv4 no_ipv6 a (chosen no_ipv4 no_ipv6 a b)

row :
    (x y : Bool) (a b : ℕ)
    → fits x y a 0 ≡ true
    → fits x y a 1 ≡ true
    → fits x y a 2 ≡ true
    → fits x y a 3 ≡ true
    → b < 4
    → fits x y a b ≡ true
row x y a zero h0 h1 h2 h3 k = h0
row x y a (suc zero) h0 h1 h2 h3 k = h1
row x y a (suc (suc zero)) h0 h1 h2 h3 k = h2
row x y a (suc (suc (suc zero))) h0 h1 h2 h3 k = h3
row x y a (suc (suc (suc (suc b)))) h0 h1 h2 h3 k = absurd (omega arith)

fits_below : (x y : Bool) (a b : ℕ) → a < 4 → b < 4 → fits x y a b ≡ true
fits_below true true zero b h k = row true true 0 b refl refl refl refl k
fits_below true true (suc zero) b h k = row true true 1 b refl refl refl refl k
fits_below true true (suc (suc zero)) b h k = row true true 2 b refl refl refl refl k
fits_below true true (suc (suc (suc zero))) b h k = row true true 3 b refl refl refl refl k
fits_below true false zero b h k = row true false 0 b refl refl refl refl k
fits_below true false (suc zero) b h k = row true false 1 b refl refl refl refl k
fits_below true false (suc (suc zero)) b h k = row true false 2 b refl refl refl refl k
fits_below true false (suc (suc (suc zero))) b h k = row true false 3 b refl refl refl refl k
fits_below false true zero b h k = row false true 0 b refl refl refl refl k
fits_below false true (suc zero) b h k = row false true 1 b refl refl refl refl k
fits_below false true (suc (suc zero)) b h k = row false true 2 b refl refl refl refl k
fits_below false true (suc (suc (suc zero))) b h k = row false true 3 b refl refl refl refl k
fits_below false false zero b h k = row false false 0 b refl refl refl refl k
fits_below false false (suc zero) b h k = row false false 1 b refl refl refl refl k
fits_below false false (suc (suc zero)) b h k = row false false 2 b refl refl refl refl k
fits_below false false (suc (suc (suc zero))) b h k = row false false 3 b refl refl refl refl k
fits_below x y (suc (suc (suc (suc a)))) b h k = absurd (omega arith)

-- What the client makes of the answer.
abbrev pub agreed : ServerOptions → ℕ → Selected → Negotiated
agreed o server_cid s = record {
  capabilities = o.capabilities;
  families = s.families;
  datagram = s.datagram;
  mtu = s.mtu;
  lease_seconds = o.lease_seconds;
  ipv4_lease = if has_ipv4 s.families then o.ipv4_lease else [];
  ipv6_lease = if has_ipv6 s.families then o.ipv6_lease else [];
  egress_policy = o.egress_policy;
  dns_parameters = o.dns_parameters;
  server_cid = server_cid;
}

-- The numbers of the options and the identifiers fit the fields that carry them, the lengths of the
-- prefixes fit their families, and the DNS parameters leave room for the other fields.
pub record Widths (o : ServerOptions) (client_cid server_cid : ℕ) : Type 0 where
  pub datagram : o.max_datagram_size < 65536
  pub lease : o.lease_seconds < 2 ^ 32
  pub capability_bits : o.capabilities < 2 ^ 64
  pub policy : o.egress_policy < 2 ^ 64
  pub client_id : client_cid < 2 ^ 64
  pub server_id : server_cid < 2 ^ 64
  pub server_id_some : 0 < server_cid
  pub ipv4_prefix : byte_at o.ipv4_lease 4 ≤ 32
  pub ipv6_prefix : byte_at o.ipv6_lease 16 ≤ 128
  pub parameters : length o.dns_parameters ≤ 65416

selected_facts :
    (o : ServerOptions) (r : Request) (s : Selected)
    → r.families < 4
    → o.address_families < 4
    → select o r ≡ ok s
    → ((s.families == 0) ≡ false)
      × (fits (is_none o.ipv4_lease) (is_none o.ipv6_lease) r.families o.address_families ≡ true)
      × (s.families
          ≡ chosen (is_none o.ipv4_lease) (is_none o.ipv6_lease) r.families o.address_families)
      × (s.datagram ≡ min r.datagram o.max_datagram_size)
      × (s.mtu ≡ min o.tunnel_mtu (tunnel_room s.datagram))
      × (576 ≤ s.mtu)
unfolding select
selected_facts o r s h k e = ground (
  arith,
  fits_below (is_none o.ipv4_lease) (is_none o.ipv6_lease) r.families o.address_families h k,
)

module _ (net : Unicast) (c : ClientOptions) (o : ServerOptions) (deployment : List ℕ)
    (client_cid server_cid : ℕ) (r : Request) (s : Selected) (ic : IsClientOptions c)
    (io : IsServerOptions o) (w : Widths o client_cid server_cid)
    (asked : r.families ≡ c.address_families) (size : r.datagram ≡ c.max_datagram_size)
    (chose : select o r ≡ ok s) (least : c.min_tunnel_mtu ≤ s.mtu) (most : s.mtu ≤ c.max_tunnel_mtu)
    (good_ipv4 : (has_ipv4 s.families ≡ false) ⊎ (net.unicast_ipv4 (take 4 o.ipv4_lease) ≡ true))
    (good_ipv6 : (has_ipv6 s.families ≡ false)
      ⊎ (net.unicast_ipv6 (take 16 o.ipv6_lease) ≡ true)) where
  fields : List Tlv
  fields = handshake_fields o deployment client_cid server_cid s

  answer-accepted :
      validate_handshake_fields net c deployment client_cid fields server_cid
      ≡ ok (agreed o server_cid s)
  unfolding validate_handshake_fields handshake_fields find_tlv fields
  answer-accepted =
      let (nz, fit, fam, dat, mt, big) =
        selected_facts o r s (rw asked ic.families_known) io.families_known chose in
      let fit' : fits_of (is_none o.ipv4_lease) (is_none o.ipv6_lease) c.address_families s.families
          ≡ true =
        rw (fam, ← asked) fit in
      let subset : (bit_and s.families (255 - c.address_families) == 0) ≡ true = ground arith in
      let ipv4_there : not (is_none o.ipv4_lease && has_ipv4 s.families) ≡ true = ground arith in
      let ipv6_there : not (is_none o.ipv6_lease && has_ipv6 s.families) ≡ true = ground arith in
      let with_dns = not (is_none o.dns_parameters) in
      let with_ipv4 = has_ipv4 s.families && not (is_none o.ipv4_lease) in
      let with_ipv6 = has_ipv6 s.families && not (is_none o.ipv6_lease) in
      rw
        (
          find-ipv4 o.dns_parameters o.ipv4_lease o.ipv6_lease with_dns with_ipv4 with_ipv6
              ∙ lease_found (has_ipv4 s.families) (is_none o.ipv4_lease) o.ipv4_lease refl
                  ipv4_there,
          find-ipv6 o.dns_parameters o.ipv4_lease o.ipv6_lease with_dns with_ipv4 with_ipv6
              ∙ lease_found (has_ipv6 s.families) (is_none o.ipv6_lease) o.ipv6_lease refl
                  ipv6_there,
          find-dns o.dns_parameters o.ipv4_lease o.ipv6_lease with_dns with_ipv4 with_ipv6,
          dns_found o.dns_parameters,
          same_refl deployment,
          be-put_be 8 client_cid (omega (arith, w.client_id)),
          be-put_be 8 server_cid (omega (arith, w.server_id)),
          be-put_be 2 s.datagram (omega (arith, w.datagram, dat)),
          be-put_be 2 s.mtu (omega (arith, w.datagram, io.room, mt)),
          be-put_be 4 o.lease_seconds (omega (arith, w.lease)),
          be-put_be 8 o.capabilities (omega (arith, w.capability_bits)),
          be-put_be 8 o.egress_policy (omega (arith, w.policy)),
        )
        (ground (arith, w.datagram, io.room))

  -- One of the leases is sent.
  lease_sent :
      ((has_ipv4 s.families && not (is_none o.ipv4_lease))
        || (has_ipv6 s.families && not (is_none o.ipv6_lease)))
      ≡ true
  lease_sent =
      let (nz, fit, fam, dat, mt, big) =
        selected_facts o r s (rw asked ic.families_known) io.families_known chose in
      let fit' : fits_of (is_none o.ipv4_lease) (is_none o.ipv6_lease) r.families s.families
          ≡ true =
        rw fam fit in
      ground arith

  -- The server can serialize its answer, and the client accepts it.
  pub answer-exchanged :
      length deployment ≡ 16
      → (bytes : List ℕ) × (received : List Tlv) × (marshal_tlvs_for
            (handshake_fields o deployment client_cid server_cid s)
            tlv_context_handshake
          ≡ ok bytes)
        × (parse_tlvs_for bytes tlv_context_handshake ≡ ok received)
        × (validate_handshake_fields net c deployment client_cid received server_cid
            ≡ ok (agreed o server_cid s))
  unfolding fields
  answer-exchanged dep =
      let answer = handshake_fields o deployment client_cid server_cid s in
      let (valid, small) =
        handshake_fields-valid o deployment client_cid server_cid s dep io w.ipv4_prefix
          w.ipv6_prefix w.parameters lease_sent in
      let (bytes, marshals, parses) =
        marshal_tlvs_for-some answer tlv_context_handshake valid small in
      (
        bytes,
        sort_tlvs answer,
        marshals,
        parses,
        validate-sort_tlvs net c deployment client_cid server_cid answer ∙ answer-accepted,
      )
