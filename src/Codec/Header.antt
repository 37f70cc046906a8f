-- ===== src/Codec/Header.antt =====
-- The fixed header of internal/codec/packet.go. The types of packets stay numbers, since the parser
-- makes them of any byte.
pub mod RoundTrip
use wg.Prelude.{
  ℕ, ◌+◌, Bool, not, ◌&&◌, ◌||◌, List, ◌++◌, [], ◌∷◌, length, ltb, ◌==◌, if◌then◌else◌, Result, ok,
  err, ◌>>=◌, ◌>>◌, fail_if,
}
use wg.Prelude.Int.{ℤ, pos}
use wg.Codec.Errors.{
  DecodeError, decode_error, Decoded, truncated, trailing_data, version_error, kind_error,
  flags_error, reserved_error, cid_error, packet_number_error,
}
use wg.Codec.Bytes.{be, put_be, byte_at, slice}

abbrev pub version1 : ℕ
version1 = 0x01

abbrev pub header_size : ℕ
header_size = 32

abbrev pub aead_tag_size : ℕ
aead_tag_size = 16

abbrev pub default_max_datagram_size : ℕ
default_max_datagram_size = 1400

abbrev pub PacketType : Type 0
PacketType = ℕ

abbrev pub packet_initial : PacketType
packet_initial = 0x01

abbrev pub packet_retry : PacketType
packet_retry = 0x02

abbrev pub packet_handshake : PacketType
packet_handshake = 0x03

abbrev pub packet_transport : PacketType
packet_transport = 0x10

abbrev pub valid_packet_type : PacketType → Bool
valid_packet_type kind =
    kind == packet_initial
    || kind == packet_retry
    || kind == packet_handshake
    || kind == packet_transport

pub record Header : Type 0 where
  pub version : ℕ  -- uint8
  pub kind : PacketType  -- uint8
  pub flags : ℕ  -- uint16
  pub dcid : ℕ  -- uint64
  pub scid : ℕ  -- uint64
  pub packet_number : ℕ  -- uint64
  pub payload_length : ℕ  -- uint16
  pub reserved : ℕ  -- uint16

abbrev is_zero : ℕ → Bool
is_zero n = n == 0

-- The switch of `validate` on the kind.
validate_kind : Header → Decoded (Unit {0})
validate_kind h =
    if h.kind == packet_initial
    then (do
      fail_if (not (is_zero h.dcid) || is_zero h.scid) (decode_error cid_error (pos 4) "cid")
      fail_if (not (is_zero h.packet_number))
          (decode_error packet_number_error (pos 20) "packet_number"))
    else if h.kind == packet_retry
    then (do
      fail_if (is_zero h.dcid || not (is_zero h.scid)) (decode_error cid_error (pos 4) "cid")
      fail_if (not (is_zero h.packet_number))
          (decode_error packet_number_error (pos 20) "packet_number"))
    else if h.kind == packet_handshake
    then (do
      fail_if (is_zero h.dcid || is_zero h.scid) (decode_error cid_error (pos 4) "cid")
      fail_if (not (is_zero h.packet_number))
          (decode_error packet_number_error (pos 20) "packet_number"))
    else if h.kind == packet_transport
    then fail_if (is_zero h.dcid || is_zero h.scid) (decode_error cid_error (pos 4) "cid")
    else ok tt

unfoldable pub validate_header : Header → Decoded (Unit {0})
unfolding validate_kind
validate_header h = do
  fail_if (not (h.version == version1)) (decode_error version_error (pos 0) "version")
  fail_if (not (valid_packet_type h.kind)) (decode_error kind_error (pos 1) "kind")
  fail_if (not (is_zero h.flags)) (decode_error flags_error (pos 2) "flags")
  fail_if (not (is_zero h.reserved)) (decode_error reserved_error (pos 30) "reserved")
  validate_kind h

-- The header literal of `parseHeaderPrefix`.
abbrev pub read_header : List ℕ → Header
read_header bytes = record {
  version = byte_at bytes 0;
  kind = byte_at bytes 1;
  flags = be (slice bytes 2 4);
  dcid = be (slice bytes 4 12);
  scid = be (slice bytes 12 20);
  packet_number = be (slice bytes 20 28);
  payload_length = be (slice bytes 28 30);
  reserved = be (slice bytes 30 32);
}

unfoldable pub parse_header_prefix : List ℕ → Decoded Header
parse_header_prefix bytes = do
  fail_if (ltb (length bytes) header_size) (decode_error truncated (pos (length bytes)) "header")
  let header = read_header bytes
  validate_header header
  ok header

unfoldable pub parse_header : List ℕ → Decoded Header
parse_header bytes = do
  fail_if (ltb (length bytes) header_size) (decode_error truncated (pos (length bytes)) "header")
  fail_if (ltb header_size (length bytes)) (decode_error trailing_data (pos header_size) "header")
  parse_header_prefix bytes

-- The 32 bytes that `MarshalBinary` writes, field by field.
abbrev pub write_header : Header → List ℕ
write_header h =
    h.version
    ∷ h.kind
    ∷ (put_be 2 h.flags
        ++ (put_be 8 h.dcid
            ++ (put_be 8 h.scid
                ++ (put_be 8 h.packet_number
                    ++ (put_be 2 h.payload_length ++ put_be 2 h.reserved)))))

unfoldable pub marshal_header : Header → Decoded (List ℕ)
marshal_header h = do validate_header h; ok (write_header h)
