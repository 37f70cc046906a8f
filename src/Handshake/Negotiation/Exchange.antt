-- ===== src/Handshake/Negotiation/Exchange.antt =====
-- The fields of an INITIAL and of its answer, from client.go to server.go of internal/handshake and
-- back. The encryption of the fields lies between.
use wg.Prelude.{ℕ, ◌^◌, ◌≤◌, ◌<◌, ◌≡◌, ◌⊎◌, refl, ◌∙◌, true, false, List, length, take, ok, arith}
use wg.Prelude.Equality.{ℕ_equality, list_equality, same_refl}
use wg.Codec.Bytes.{be-put_be}
use wg.Codec.Tlv.{
  Tlv, sort_tlvs, tlv_version, tlv_deployment_id, tlv_client_cid, tlv_address_families,
  tlv_max_datagram_size, tlv_client_static_key, tlv_enrollment_token_id, tlv_enrollment_proof,
}
use wg.Codec.Tlv.Context.{
  find_tlv, tlv_context_initial, tlv_context_handshake, parse_tlvs_for, marshal_tlvs_for,
}
use wg.Codec.Tlv.ForContext.{marshal_tlvs_for-some}
use wg.Handshake.Config.{ClientOptions, ServerOptions}
use wg.Handshake.Config.Bounds.{IsClientOptions, IsServerOptions}
use wg.Handshake.Negotiation.{
  Request, Selected, Unicast, is_registered, initial_fields, validate_initial_fields, select,
  handshake_fields, validate_handshake_fields, has_ipv4, has_ipv6,
}
use wg.Codec.Tlv.Sort.{find-sort_tlvs}
use wg.Handshake.Negotiation.Agreement.{agreed, Widths, answer-exchanged}
use wg.Handshake.Negotiation.Accepted.{initial_fields-valid, initial_fields-fit}

-- What a client asks for.
abbrev pub asked : ClientOptions → List ℕ → Request
asked c client_static = record {
  client_static = client_static;
  families = c.address_families;
  datagram = c.max_datagram_size;
}

validate_initial-sort_tlvs :
    (deployment : List ℕ) (registered : List (List ℕ)) (fs : List Tlv) (client_cid : ℕ)
    → validate_initial_fields deployment registered (sort_tlvs fs) client_cid
      ≡ validate_initial_fields deployment registered fs client_cid
unfolding validate_initial_fields
validate_initial-sort_tlvs deployment registered fs client_cid =
    rw
      (
        find-sort_tlvs fs tlv_enrollment_token_id,
        find-sort_tlvs fs tlv_enrollment_proof,
        find-sort_tlvs fs tlv_version,
        find-sort_tlvs fs tlv_deployment_id,
        find-sort_tlvs fs tlv_client_cid,
        find-sort_tlvs fs tlv_address_families,
        find-sort_tlvs fs tlv_max_datagram_size,
        find-sort_tlvs fs tlv_client_static_key,
      )
      refl

module _ (c : ClientOptions) (deployment client_static : List ℕ) (registered : List (List ℕ))
    (client_cid : ℕ) (ic : IsClientOptions c) (size : c.max_datagram_size < 65536)
    (cid : client_cid < 2 ^ 64) (known : is_registered client_static registered ≡ true) where
  initial-accepted :
      validate_initial_fields deployment registered
        (initial_fields c deployment client_static client_cid)
        client_cid
      ≡ ok (asked c client_static)
  unfolding validate_initial_fields initial_fields find_tlv
  initial-accepted =
      rw
        (
          same_refl deployment,
          be-put_be 8 client_cid (omega (arith, cid)),
          be-put_be 2 c.max_datagram_size (omega (arith, size)),
          known,
        )
        (ground (arith, ic.families_some, ic.families_known, ic.datagram))

  -- For a client and a server with options in their bounds, a registered key of 32 bytes, the same
  -- deployment identifier of 16 bytes, numbers, prefix lengths and DNS parameters that fit their
  -- fields and a server identifier that is not 0: if `HandleInitial` finds families and sizes for
  -- the request of the client, with a tunnel MTU that the client allows, and the client takes the
  -- addresses of the leases for global unicast ones, then `MarshalTLVsFor` of an INITIAL accepts
  -- the fields of the client, `ParseTLVsFor` reads its stream, and `validateInitialFields` accepts
  -- what it reads, as the request of the client; and `MarshalTLVsFor` of a HANDSHAKE accepts the
  -- fields of the answer, `ParseTLVsFor` reads its stream, and `validateHandshakeFields` accepts
  -- what it reads, with the values that the server chose.
  pub fields_exchanged :
      (net : Unicast) (o : ServerOptions) (server_cid : ℕ) (s : Selected)
      → length deployment ≡ 16
      → length client_static ≡ 32
      → IsServerOptions o
      → Widths o client_cid server_cid
      → select o (asked c client_static) ≡ ok s
      → c.min_tunnel_mtu ≤ s.mtu
      → s.mtu ≤ c.max_tunnel_mtu
      → (has_ipv4 s.families ≡ false) ⊎ (net.unicast_ipv4 (take 4 o.ipv4_lease) ≡ true)
      → (has_ipv6 s.families ≡ false) ⊎ (net.unicast_ipv6 (take 16 o.ipv6_lease) ≡ true)
      → ((question : List ℕ) × (asking : List Tlv) × (marshal_tlvs_for
              (initial_fields c deployment client_static client_cid)
              tlv_context_initial
            ≡ ok question)
          × (parse_tlvs_for question tlv_context_initial ≡ ok asking)
          × (validate_initial_fields deployment registered asking client_cid
              ≡ ok (asked c client_static)))
        × ((answer : List ℕ) × (answering : List Tlv) × (marshal_tlvs_for
                (handshake_fields o deployment client_cid server_cid s)
                tlv_context_handshake
              ≡ ok answer)
            × (parse_tlvs_for answer tlv_context_handshake ≡ ok answering)
            × (validate_handshake_fields net c deployment client_cid answering server_cid
                ≡ ok (agreed o server_cid s)))
  fields_exchanged net o server_cid s dep key io w chose least most good4 good6 =
      let initial = initial_fields c deployment client_static client_cid in
      let (question, marshals, parses) =
        marshal_tlvs_for-some initial tlv_context_initial
          (initial_fields-valid c deployment client_static client_cid dep key)
          (initial_fields-fit c deployment client_static client_cid dep key) in
      (
        (
          question,
          sort_tlvs initial,
          marshals,
          parses,
          validate_initial-sort_tlvs deployment registered initial client_cid ∙ initial-accepted,
        ),
        answer-exchanged net c o deployment client_cid server_cid (asked c client_static) s ic io w
            refl refl chose least most good4 good6 dep,
      )
