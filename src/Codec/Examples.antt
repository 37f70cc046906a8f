-- ===== src/Codec/Examples.antt =====
-- Runs of the parsers and serializers of internal/codec at concrete inputs.
use wg.Prelude.{
  All, ◌↔◌, ℕ, ◌≡◌, ◌≢◌, refl, List, [], ◌∷◌, ◌++◌, length, replicate, Bool, true, none, ok, err,
  arith, ltb, ◌&&◌,
}
use wg.Prelude.Int.{pos, negsuc}
use wg.Codec.Errors.{decode_error, truncated, missing_tlv, length_error, stuck}
use wg.Codec.Bytes.{IsBytes, put_be}
use wg.Codec.Header.{Header, marshal_header, write_header, validate_header}
use wg.Codec.Header.RoundTrip.{IsHeader}
use wg.Codec.Payload.{Initial, parse_initial, marshal_initial, parse_transport}
use wg.Codec.Payload.RoundTrip.{parse_initial_iff}
use wg.Codec.Packet.{
  Packet, normalize_datagram_limit, validate_outer_payload, parse_packet, marshal_packet,
}
use wg.Codec.Packet.RoundTrip.{sized_header, parse-marshal_packet, marshal-parse_packet}
use wg.Codec.Tlv.{
  Tlv, parse_tlvs_loop, insert_tlv, check_tlvs, emit_tlvs, validate_tlv_field, known_tlv,
  parse_tlvs, marshal_tlvs, sort_tlvs, fixed_tlv_length,
}
use wg.Codec.Tlv.Stream.{IsCanonical}
use wg.Codec.Tlv.RoundTrip.{parse-marshal_tlvs, marshal-parse_tlvs}
use wg.Codec.Tlv.Fuel.{parse_tlvs_terminates}
use wg.Codec.Tlv.Context.{
  validate_tlvs, collect_tlvs, check_prefix, check_required, allowed_in_context, find_tlv, required,
  tlv_context_initial, tlv_context_handshake,
}
use wg.Codec.Tlv.Required.{Found, HasLength, validate_tlvs-find_tlv}
use wg.Codec.Tlv.Panics.{validate_tlvs_terminates}
use wg.Codec.Utf8.{utf8_valid, valid_from, after_first}
use wg.Codec.Frame.{
  Frame, encode_close, decode_close, normalize_frame_limit, validate_frame_combination,
  validate_frame, validate_body,
}
use wg.Codec.Frame.Stream.{parse_frames, marshal_frames, check_frames, emit_frames}
use wg.Codec.Frame.RoundTrip.{parse_frames_iff, parse-marshal_frames}
use wg.Codec.Frame.Combination.{IsAllowed, parse_frames-IsAllowed}
use wg.Codec.Frame.Close.{decode-encode_close}
use wg.Codec.Frame.Fuel.{parse_frames_terminates}
use wg.Codec.Payload.{Handshake, parse_handshake, marshal_handshake}
use wg.Codec.Payload.HandshakeRoundTrip.{parse_handshake_iff}

abbrev are_bytes : List ℕ → Bool
are_bytes [] = true
are_bytes (b ∷ bs) = ltb b 256 && are_bytes bs

are_bytes-IsBytes : (bs : List ℕ) → are_bytes bs ≡ true → IsBytes bs
are_bytes-IsBytes [] h = tt
are_bytes-IsBytes (b ∷ bs) h = (ground (arith, h), are_bytes-IsBytes bs (ground (arith, h)))

abbrev header : Header
header = record {
  version = 1;
  kind = 0x10;
  flags = 0;
  dcid = 258;
  scid = 3;
  packet_number = 9;
  payload_length = 16;
  reserved = 0;
}

abbrev header_bytes : List ℕ
header_bytes = write_header header

header-IsHeader : IsHeader header
header-IsHeader = ground arith

header_marshals : marshal_header header ≡ ok header_bytes
unfolding marshal_header validate_header
header_marshals = refl

header_bytes-IsBytes : IsBytes header_bytes
unfolding put_be
header_bytes-IsBytes = are_bytes-IsBytes header_bytes refl

abbrev packet : Packet
packet = record { header = header; payload = replicate 16 200 }

abbrev packet_bytes : List ℕ
packet_bytes = header_bytes ++ replicate 16 200

packet_marshals : marshal_packet packet (pos 0) ≡ ok packet_bytes
unfolding marshal_packet normalize_datagram_limit validate_outer_payload parse_transport
    marshal_header validate_header
packet_marshals = refl

parse-marshal_packet_example :
    parse_packet packet_bytes (pos 0) ≡ ok (record packet { header = sized_header packet })
parse-marshal_packet_example =
    parse-marshal_packet packet (pos 0) packet_bytes header-IsHeader packet_marshals

packet_bytes-IsBytes : IsBytes packet_bytes
unfolding put_be
packet_bytes-IsBytes = are_bytes-IsBytes packet_bytes refl

marshal-parse_packet_example : marshal_packet packet (pos 0) ≡ ok packet_bytes
marshal-parse_packet_example =
    marshal-parse_packet packet_bytes (pos 0) packet packet_bytes-IsBytes
      (parse-marshal_packet packet (pos 0) packet_bytes header-IsHeader packet_marshals)

abbrev initial : Initial
initial = record {
  token = 7 ∷ 8 ∷ [];
  client_ephemeral_public = replicate 32 1;
  encrypted_payload = replicate 16 200;
}

abbrev initial_bytes : List ℕ
initial_bytes = 0 ∷ 2 ∷ 7 ∷ 8 ∷ (replicate 32 1 ++ (0 ∷ 16 ∷ replicate 16 200))

initial_marshals : marshal_initial initial ≡ ok initial_bytes
unfolding marshal_initial put_be
initial_marshals = refl

-- Two fields out of order.
abbrev fields : List Tlv
fields = record { type = 0x85; value = replicate 8 1 } ∷ record { type = 0x05; value = 9 ∷ [] } ∷ []

abbrev stream : List ℕ
stream = 0x05 ∷ 0 ∷ 1 ∷ 9 ∷ 0x85 ∷ 0 ∷ 8 ∷ replicate 8 1

fields_marshal : marshal_tlvs fields ≡ ok stream
unfolding marshal_tlvs sort_tlvs insert_tlv check_tlvs emit_tlvs validate_tlv_field fixed_tlv_length
    known_tlv put_be
fields_marshal = refl

parse-marshal_tlvs_example : parse_tlvs stream ≡ ok (sort_tlvs fields)
parse-marshal_tlvs_example = parse-marshal_tlvs fields stream fields_marshal

marshal-parse_tlvs_example :
    IsCanonical none (sort_tlvs fields) × (marshal_tlvs (sort_tlvs fields) ≡ ok stream)
marshal-parse_tlvs_example =
    marshal-parse_tlvs stream (sort_tlvs fields) (are_bytes-IsBytes stream refl)
      (parse-marshal_tlvs fields stream fields_marshal)

cut_short : parse_tlvs (0x05 ∷ 0 ∷ []) ≡ err (decode_error truncated (pos 0) "tlv.header")
unfolding parse_tlvs parse_tlvs_loop
cut_short = refl

parse_tlvs_terminates_example : truncated ≢ stuck
parse_tlvs_terminates_example =
    parse_tlvs_terminates (0x05 ∷ 0 ∷ []) (decode_error truncated (pos 0) "tlv.header") cut_short

-- The fields of a HANDSHAKE with an IPv4 lease.
abbrev handshake_fields : List Tlv
handshake_fields =
    record { type = 0x81; value = 1 ∷ [] }
    ∷ record { type = 0x82; value = replicate 16 2 }
    ∷ record { type = 0x83; value = replicate 8 3 }
    ∷ record { type = 0x84; value = replicate 8 4 }
    ∷ record { type = 0x85; value = replicate 8 5 }
    ∷ record { type = 0x86; value = 1 ∷ [] }
    ∷ record { type = 0x87; value = 5 ∷ 120 ∷ [] }
    ∷ record { type = 0x88; value = 10 ∷ 0 ∷ 0 ∷ 2 ∷ 32 ∷ [] }
    ∷ record { type = 0x8A; value = 5 ∷ 20 ∷ [] }
    ∷ record { type = 0x8B; value = 0 ∷ 0 ∷ 14 ∷ 16 ∷ [] }
    ∷ []

handshake_accepted : validate_tlvs handshake_fields tlv_context_handshake ≡ ok tt
unfolding validate_tlvs collect_tlvs find_tlv check_prefix check_required required
    allowed_in_context validate_tlv_field fixed_tlv_length known_tlv
handshake_accepted = refl

validate_tlvs-find_tlv_example :
    All (Found handshake_fields) (required tlv_context_handshake) × All HasLength handshake_fields
validate_tlvs-find_tlv_example =
    validate_tlvs-find_tlv handshake_fields tlv_context_handshake handshake_accepted

nothing_there :
    validate_tlvs [] tlv_context_initial ≡ err (decode_error missing_tlv (negsuc 0) "tlv")
unfolding validate_tlvs collect_tlvs find_tlv check_prefix check_required required
nothing_there = refl

validate_tlvs_terminates_example : missing_tlv ≢ stuck
validate_tlvs_terminates_example =
    validate_tlvs_terminates [] tlv_context_initial (decode_error missing_tlv (negsuc 0) "tlv")
      nothing_there

-- A CONFIRM with a PING behind it.
abbrev frames : List Frame
frames =
    record { type = 2; flags = 0; body = replicate 32 5 }
    ∷ record { type = 3; flags = 0; body = replicate 8 6 }
    ∷ []

abbrev frame_bytes : List ℕ
frame_bytes = 2 ∷ 0 ∷ 0 ∷ 32 ∷ (replicate 32 5 ++ (3 ∷ 0 ∷ 0 ∷ 8 ∷ replicate 8 6))

frames_marshal : marshal_frames frames (pos 0) ≡ ok frame_bytes
unfolding marshal_frames normalize_frame_limit validate_frame_combination check_frames
    validate_frame validate_body emit_frames put_be
frames_marshal = refl

parse_frames-IsAllowed_example : IsAllowed frames
parse_frames-IsAllowed_example =
    parse_frames-IsAllowed frame_bytes (pos 0) frames
      (parse-marshal_frames frames (pos 0) frame_bytes frames_marshal)

no_plaintext : parse_frames [] (pos 0) ≡ err (decode_error length_error (pos 0) "frames")
unfolding parse_frames normalize_frame_limit
no_plaintext = refl

parse_frames_terminates_example : length_error ≢ stuck
parse_frames_terminates_example =
    parse_frames_terminates [] (pos 0) (decode_error length_error (pos 0) "frames") no_plaintext

-- The reason 7 with the text `é`.
closing : encode_close 7 (0xC3 ∷ 0xA9 ∷ []) ≡ ok (0 ∷ 7 ∷ 0xC3 ∷ 0xA9 ∷ [])
unfolding encode_close utf8_valid valid_from after_first put_be
closing = refl

decode-encode_close_example : decode_close (0 ∷ 7 ∷ 0xC3 ∷ 0xA9 ∷ []) ≡ ok (7, 0xC3 ∷ 0xA9 ∷ [])
decode-encode_close_example =
    decode-encode_close 7 (0xC3 ∷ 0xA9 ∷ []) (0 ∷ 7 ∷ 0xC3 ∷ 0xA9 ∷ []) (omega arith) closing

abbrev answer : Handshake
answer = record { server_ephemeral_public = replicate 32 1; encrypted_payload = replicate 16 200 }

abbrev answer_bytes : List ℕ
answer_bytes = replicate 32 1 ++ (0 ∷ 16 ∷ replicate 16 200)

answer_marshals : marshal_handshake answer ≡ ok answer_bytes
unfolding marshal_handshake put_be
answer_marshals = refl

parse_initial_iff_example :
    (parse_initial initial_bytes ≡ ok initial)
    ↔ ((length initial.client_ephemeral_public ≡ 32) × (marshal_initial initial ≡ ok initial_bytes))
parse_initial_iff_example =
    parse_initial_iff initial_bytes initial (are_bytes-IsBytes initial_bytes refl)

parse_frames_iff_example :
    (parse_frames frame_bytes (pos 0) ≡ ok frames)
    ↔ (marshal_frames frames (pos 0) ≡ ok frame_bytes)
parse_frames_iff_example =
    parse_frames_iff frame_bytes (pos 0) frames (are_bytes-IsBytes frame_bytes refl)

parse_handshake_iff_example :
    (parse_handshake answer_bytes ≡ ok answer)
    ↔ ((length answer.server_ephemeral_public ≡ 32) × (marshal_handshake answer ≡ ok answer_bytes))
parse_handshake_iff_example =
    parse_handshake_iff answer_bytes answer (are_bytes-IsBytes answer_bytes refl)
