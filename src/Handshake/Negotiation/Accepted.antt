-- ===== src/Handshake/Negotiation/Accepted.antt =====
-- The fields that internal/handshake/client.go and server.go write, under the check of
-- `MarshalTLVsFor` for their context.
use wg.Prelude.{
  ℕ, ◌+◌, ◌≤◌, ◌<◌, ◌≡◌, inl, inr, refl, Bool, true, false, not, ◌&&◌, ◌||◌, List, [], ◌∷◌, length,
  le→ltb, arith, ok,
}
use wg.Codec.Bytes.{byte_at, put_be}
use wg.Codec.Header.{version1}
use wg.Codec.Tlv.{
  Tlv, emit_tlvs, validate_tlv_field, fixed_tlv_length, known_tlv, tlv_egress_policy_version,
  tlv_version, tlv_deployment_id, tlv_client_cid, tlv_server_cid, tlv_capabilities,
  tlv_address_families, tlv_max_datagram_size, tlv_tunnel_mtu, tlv_lease_seconds,
}
use wg.Codec.Tlv.Context.{
  tlv_context_initial, tlv_context_handshake, find_tlv, required, collect_tlvs, check_prefix,
  check_required, allowed_in_context, validate_tlvs,
}
use wg.Codec.Tlv.Stream.{length-emit_tlvs}
use wg.Handshake.Config.{ClientOptions, ServerOptions}
use wg.Handshake.Config.Bounds.{IsLease, IsServerOptions}
use wg.Handshake.Negotiation.{
  Selected, initial_fields, handshake_fields, has_ipv4, has_ipv6, is_none,
}
use wg.Handshake.Negotiation.Fields.{optional_fields}

pub initial_fields-valid :
    (c : ClientOptions) (deployment client_static : List ℕ) (client_cid : ℕ)
    → length deployment ≡ 16
    → length client_static ≡ 32
    → validate_tlvs (initial_fields c deployment client_static client_cid) tlv_context_initial
      ≡ ok tt
unfolding validate_tlvs initial_fields collect_tlvs find_tlv check_prefix check_required required
    allowed_in_context validate_tlv_field fixed_tlv_length known_tlv put_be
initial_fields-valid c deployment client_static client_cid d k = rw (d, k) refl

-- The bytes that fields take in a stream.
abbrev stream_size : List Tlv → ℕ
stream_size [] = 0
stream_size (field ∷ fields) = 3 + length field.value + stream_size fields

no_bytes : length (emit_tlvs []) ≡ 0
unfolding emit_tlvs
no_bytes = refl

stream_size_lem : (fields : List Tlv) → length (emit_tlvs fields) ≡ stream_size fields
stream_size_lem [] = no_bytes
stream_size_lem (field ∷ fields) =
    omega (arith, length-emit_tlvs field fields, stream_size_lem fields)

pub initial_fields-fit :
    (c : ClientOptions) (deployment client_static : List ℕ) (client_cid : ℕ)
    → length deployment ≡ 16
    → length client_static ≡ 32
    → length (emit_tlvs (initial_fields c deployment client_static client_cid)) ≤ 65535
unfolding initial_fields put_be
initial_fields-fit c deployment client_static client_cid d k =
    rw (stream_size_lem (initial_fields c deployment client_static client_cid))
      (omega (arith, d, k))

-- What `ValidateTLVs` wants of a lease that is sent.
abbrev pub IsSent : Bool → ℕ → ℕ → ℕ → List ℕ → Type 0
IsSent false size place most lease = Unit {0}
IsSent true size place most lease = (length lease ≡ size) × (byte_at lease place ≤ most)

module _ (o : ServerOptions) (deployment : List ℕ) (client_cid server_cid : ℕ) (s : Selected)
    (dep : length deployment ≡ 16) where
  -- The fields of the answer, by which of the optional ones are sent.
  abbrev pub answer_with : Bool → Bool → Bool → List Tlv
  answer_with b c d =
      record { type = tlv_egress_policy_version; value = put_be 8 o.egress_policy }
      ∷ record { type = tlv_version; value = version1 ∷ [] }
      ∷ record { type = tlv_deployment_id; value = deployment }
      ∷ record { type = tlv_client_cid; value = put_be 8 client_cid }
      ∷ record { type = tlv_server_cid; value = put_be 8 server_cid }
      ∷ record { type = tlv_capabilities; value = put_be 8 o.capabilities }
      ∷ record { type = tlv_address_families; value = s.families ∷ [] }
      ∷ record { type = tlv_max_datagram_size; value = put_be 2 s.datagram }
      ∷ record { type = tlv_tunnel_mtu; value = put_be 2 s.mtu }
      ∷ record { type = tlv_lease_seconds; value = put_be 4 o.lease_seconds }
      ∷ optional_fields b c d o.dns_parameters o.ipv4_lease o.ipv6_lease

  answer-valid :
      (b c d : Bool)
      → IsSent c 5 4 32 o.ipv4_lease
      → IsSent d 17 16 128 o.ipv6_lease
      → (c || d) ≡ true
      → validate_tlvs (answer_with b c d) tlv_context_handshake ≡ ok tt
  unfolding validate_tlvs collect_tlvs find_tlv check_prefix check_required required
      allowed_in_context validate_tlv_field fixed_tlv_length known_tlv put_be
  answer-valid true true true (l, m) (l', m') e =
      rw (dep, l, l', le→ltb 32 _ m, le→ltb 128 _ m', l, l') refl
  answer-valid false true true (l, m) (l', m') e =
      rw (dep, l, l', le→ltb 32 _ m, le→ltb 128 _ m', l, l') refl
  answer-valid true true false (l, m) n e = rw (dep, l, le→ltb 32 _ m, l) refl
  answer-valid false true false (l, m) n e = rw (dep, l, le→ltb 32 _ m, l) refl
  answer-valid true false true n (l', m') e = rw (dep, l', le→ltb 128 _ m', l') refl
  answer-valid false false true n (l', m') e = rw (dep, l', le→ltb 128 _ m', l') refl
  answer-valid b false false n n' e = cc

  answer-fit :
      (b c d : Bool)
      → IsSent c 5 4 32 o.ipv4_lease
      → IsSent d 17 16 128 o.ipv6_lease
      → length o.dns_parameters ≤ 65416
      → stream_size (answer_with b c d) ≤ 65535
  unfolding put_be
  answer-fit true true true (l, m) (l', m') e = omega (arith, dep)
  answer-fit false true true (l, m) (l', m') e = omega (arith, dep)
  answer-fit true true false (l, m) n e = omega (arith, dep)
  answer-fit false true false (l, m) n e = omega (arith, dep)
  answer-fit true false true n (l', m') e = omega (arith, dep)
  answer-fit false false true n (l', m') e = omega (arith, dep)
  answer-fit true false false n n' e = omega (arith, dep)
  answer-fit false false false n n' e = omega (arith, dep)

  -- A lease of the right length, or none, whose prefix is in range.
  sent :
      (has : Bool) (size place most : ℕ) (lease : List ℕ)
      → 0 < size
      → IsLease size lease
      → byte_at lease place ≤ most
      → IsSent (has && not (is_none lease)) size place most lease
  sent false size place most lease z l m = tt
  sent true size place most [] z l m = tt
  sent true size place most (b ∷ lease) z (inl l) m = absurd (omega (arith, l))
  sent true size place most (b ∷ lease) z (inr l) m = (l, m)

  pub handshake_fields-valid :
      IsServerOptions o
      → byte_at o.ipv4_lease 4 ≤ 32
      → byte_at o.ipv6_lease 16 ≤ 128
      → length o.dns_parameters ≤ 65416
      → ((has_ipv4 s.families && not (is_none o.ipv4_lease))
          || (has_ipv6 s.families && not (is_none o.ipv6_lease)))
        ≡ true
      → let fields = handshake_fields o deployment client_cid server_cid s in
        (validate_tlvs fields tlv_context_handshake ≡ ok tt) × (length (emit_tlvs fields) ≤ 65535)
  unfolding handshake_fields
  handshake_fields-valid io p4 p6 small some_lease =
      let b = not (is_none o.dns_parameters) in
      let c = has_ipv4 s.families && not (is_none o.ipv4_lease) in
      let d = has_ipv6 s.families && not (is_none o.ipv6_lease) in
      let s4 = sent (has_ipv4 s.families) 5 4 32 o.ipv4_lease (omega arith) io.ipv4 p4 in
      let s6 = sent (has_ipv6 s.families) 17 16 128 o.ipv6_lease (omega arith) io.ipv6 p6 in
      (
        answer-valid b c d s4 s6 some_lease,
        rw (stream_size_lem (answer_with b c d)) (answer-fit b c d s4 s6 small),
      )
