-- ===== src/Codec/Packet.antt =====
-- Whole datagrams: `ParsePacket` and `Packet.MarshalBinary` of internal/codec/packet.go.
pub mod RoundTrip
use wg.Prelude.{
  ℕ, ◌+◌, ◌-◌, Bool, ◌||◌, List, ◌++◌, length, take, drop, ltb, ◌==◌, if◌then◌else◌, Result, ok,
  err, ◌>>=◌, ◌>>◌, fail_if,
}
use wg.Prelude.Int.{ℤ, pos, negsuc, ltb_ℤ}
use wg.Codec.Errors.{
  DecodeError, decode_error, Decoded, truncated, length_error, limit, trailing_data, kind_error,
}
use wg.Codec.Header.{
  Header, PacketType, version1, packet_initial, packet_retry, packet_handshake, packet_transport,
  header_size, default_max_datagram_size, parse_header_prefix, marshal_header,
}
use wg.Codec.Payload.{
  max_uint16, segment, parse_initial, parse_retry, parse_handshake, parse_transport,
}

pub record Packet : Type 0 where
  pub header : Header
  pub payload : List ℕ

unfoldable pub new_packet : PacketType → ℕ → ℕ → ℕ → List ℕ → Packet
new_packet kind dcid scid packet_number payload = record {
  header = record {
    version = version1;
    kind = kind;
    flags = 0;
    dcid = dcid;
    scid = scid;
    packet_number = packet_number;
    payload_length = 0;
    reserved = 0;
  };
  payload = payload;
}

-- The limit is an `int` of the caller's, and may be negative.
unfoldable pub normalize_datagram_limit : ℤ → Decoded ℕ
normalize_datagram_limit (negsuc n) = err (decode_error limit (pos 0) "max_datagram_size")
normalize_datagram_limit (pos n) =
    if n == 0
    then ok default_max_datagram_size
    else if ltb n header_size || ltb (header_size + max_uint16) n
    then err (decode_error limit (pos 0) "max_datagram_size")
    else ok n

unfoldable pub validate_outer_payload : PacketType → List ℕ → Decoded (Unit {0})
validate_outer_payload kind payload =
    if kind == packet_initial
    then parse_initial payload >>= (λ _. ok tt)
    else if kind == packet_retry
    then parse_retry payload >>= (λ _. ok tt)
    else if kind == packet_handshake
    then parse_handshake payload >>= (λ _. ok tt)
    else if kind == packet_transport
    then parse_transport payload >>= (λ _. ok tt)
    else err (decode_error kind_error (pos 1) "kind")

unfoldable pub parse_packet : List ℕ → ℤ → Decoded Packet
parse_packet bytes max_datagram_size = do
  size_limit ← normalize_datagram_limit max_datagram_size
  fail_if (ltb (length bytes) header_size) (decode_error truncated (pos (length bytes)) "datagram")
  fail_if (ltb size_limit (length bytes)) (decode_error limit (pos 0) "datagram")
  header ← parse_header_prefix (take header_size bytes)
  let expected = header_size + header.payload_length
  fail_if (ltb size_limit expected) (decode_error limit (pos 28) "payload_length")
  fail_if (ltb (length bytes) expected) (decode_error truncated (pos (length bytes)) "payload")
  fail_if (ltb expected (length bytes)) (decode_error trailing_data (pos expected) "payload")
  let payload = segment bytes header_size header.payload_length
  validate_outer_payload header.kind payload
  ok (record { header = header; payload = payload })

unfoldable pub marshal_packet : Packet → ℤ → Decoded (List ℕ)
marshal_packet p max_datagram_size = do
  size_limit ← normalize_datagram_limit max_datagram_size
  fail_if (ltb max_uint16 (length p.payload)) (decode_error length_error (pos 0) "payload")
  fail_if (ltb size_limit (header_size + length p.payload)) (decode_error limit (pos 0) "datagram")
  validate_outer_payload p.header.kind p.payload
  encoded_header ← marshal_header (record (p.header) { payload_length = length p.payload })
  ok (encoded_header ++ p.payload)
