-- ===== src/Codec/Frame.antt =====
-- The frames of internal/codec/frame.go: the checks of one frame and of their combination, the
-- parser and the serializer. A string is the list of its bytes.
pub mod Stream
pub mod Round
pub mod Loop
pub mod Close
pub mod Combination
pub mod Fuel
pub mod RoundTrip
use wg.Prelude.{
  ℕ, zero, suc, ◌+◌, ◌-◌, ◌*◌, ◌/◌, ◌%◌, Bool, true, false, not, ◌&&◌, ◌||◌, List, [], ◌∷◌, ◌++◌,
  length, take, drop, ltb, leb, ◌==◌, if◌then◌else◌, Result, ok, err, ◌>>=◌, ◌>>◌, fail_if,
}
use wg.Prelude.Int.{ℤ, pos, negsuc, ◌+ℤ◌}
use wg.Codec.Errors.{
  DecodeError, decode_error, Decoded, truncated, length_error, limit, unknown_frame_type,
  frame_flags, frame_constraint, ip_packet_error, utf8_error, stuck,
}
use wg.Codec.Bytes.{be, put_be, byte_at}
use wg.Codec.Header.{header_size, aead_tag_size, default_max_datagram_size}
use wg.Codec.Payload.{max_uint16, segment}
use wg.Codec.Utf8.{utf8_valid}

abbrev pub frame_header_size : ℕ
frame_header_size = 4

abbrev pub default_max_frame_plaintext : ℕ
default_max_frame_plaintext = default_max_datagram_size - header_size - aead_tag_size

abbrev pub default_max_close_text_length : ℕ
default_max_close_text_length = 256

abbrev pub confirm_body_size : ℕ
confirm_body_size = 32

abbrev pub challenge_body_size : ℕ
challenge_body_size = 8

abbrev pub FrameType : Type 0
FrameType = ℕ  -- uint8

abbrev pub frame_ip_packet : FrameType
frame_ip_packet = 0x01

abbrev pub frame_confirm : FrameType
frame_confirm = 0x02

abbrev pub frame_ping : FrameType
frame_ping = 0x03

abbrev pub frame_pong : FrameType
frame_pong = 0x04

abbrev pub frame_close : FrameType
frame_close = 0x08

abbrev pub valid_frame_type : FrameType → Bool
valid_frame_type t = leb frame_ip_packet t && leb t frame_close

pub record Frame : Type 0 where
  pub type : FrameType
  pub flags : ℕ  -- uint8
  pub body : List ℕ

-- The limit is an `int` of the caller's.
unfoldable pub normalize_frame_limit : ℤ → Decoded ℕ
normalize_frame_limit (negsuc n) = err (decode_error limit (negsuc 0) "max_frame_plaintext")
normalize_frame_limit (pos n) =
    if n == 0
    then ok default_max_frame_plaintext
    else if ltb n frame_header_size || ltb max_uint16 n
    then err (decode_error limit (negsuc 0) "max_frame_plaintext")
    else ok n

unfoldable pub encode_close : ℕ → List ℕ → Decoded (List ℕ)
encode_close reason diagnostic = do
  fail_if (not (utf8_valid diagnostic)) (decode_error utf8_error (negsuc 0) "close.diagnostic")
  fail_if (ltb default_max_close_text_length (length diagnostic))
      (decode_error limit (negsuc 0) "close.diagnostic")
  ok (put_be 2 reason ++ diagnostic)

unfoldable pub decode_close : List ℕ → Decoded (ℕ × List ℕ)
decode_close body = do
  fail_if (ltb (length body) 2) (decode_error truncated (pos (length body)) "close.reason")
  fail_if (ltb default_max_close_text_length (length body - 2))
      (decode_error limit (pos 2) "close.diagnostic")
  fail_if (not (utf8_valid (drop 2 body))) (decode_error utf8_error (pos 2) "close.diagnostic")
  ok (be (take 2 body), drop 2 body)

-- `packet[0] >> 4` is the quotient by 16, and `packet[0] & 0x0F` the remainder.
unfoldable pub validate_ip_packet : List ℕ → ℤ → Decoded (Unit {0})
validate_ip_packet packet offset =
    if length packet == 0
    then err (decode_error ip_packet_error offset "ip_packet")
    else if byte_at packet 0 / 16 == 4
    then (do
      fail_if (ltb (length packet) 20) (decode_error ip_packet_error offset "ipv4")
      let header_length = byte_at packet 0 % 16 * 4
      fail_if (ltb header_length 20 || ltb (length packet) header_length)
          (decode_error ip_packet_error offset "ipv4.ihl")
      fail_if (not (be (segment packet 2 2) == length packet))
          (decode_error ip_packet_error (offset +ℤ pos 2) "ipv4.total_length"))
    else if byte_at packet 0 / 16 == 6
    then (do
      fail_if (ltb (length packet) 40) (decode_error ip_packet_error offset "ipv6")
      fail_if (not (40 + be (segment packet 4 2) == length packet))
          (decode_error ip_packet_error (offset +ℤ pos 4) "ipv6.payload_length"))
    else err (decode_error ip_packet_error offset "ip.version")

-- The switch of `validateFrame` on the type.
unfoldable pub validate_body : Frame → ℤ → Decoded (Unit {0})
validate_body frame offset =
    if frame.type == frame_ip_packet
    then validate_ip_packet frame.body (offset +ℤ pos frame_header_size)
    else if frame.type == frame_confirm
    then fail_if (not (length frame.body == confirm_body_size))
        (decode_error length_error (offset +ℤ pos frame_header_size) "confirm")
    else if frame.type == frame_ping || frame.type == frame_pong
    then fail_if (not (length frame.body == challenge_body_size))
        (decode_error length_error (offset +ℤ pos frame_header_size) "challenge")
    else if frame.type == frame_close
    then decode_close frame.body >>= (λ _. ok tt)
    else ok tt

unfoldable pub validate_frame : Frame → ℤ → Decoded (Unit {0})
validate_frame frame offset = do
  fail_if (not (valid_frame_type frame.type)) (decode_error unknown_frame_type offset "frame_type")
  fail_if (not (frame.flags == 0)) (decode_error frame_flags (offset +ℤ pos 1) "frame_flags")
  validate_body frame offset

-- How many frames have a type.
abbrev pub count_type : FrameType → List Frame → ℕ
count_type t [] = 0
count_type t (frame ∷ frames) =
    let rest = count_type t frames in if frame.type == t then suc rest else rest

-- `confirmIndex == 0` and `frames[1].Type == FramePing` of two frames.
abbrev pub confirm_then_ping : List Frame → Bool
confirm_then_ping (f ∷ g ∷ []) = f.type == frame_confirm && g.type == frame_ping
confirm_then_ping _ = false

-- The loop that finds `confirmIndex` fails at the second CONFIRM, so where there are two or more.
unfoldable pub validate_frame_combination : List Frame → Decoded (Unit {0})
validate_frame_combination frames = do
  let ip_packets = count_type frame_ip_packet frames
  let confirms = count_type frame_confirm frames
  fail_if (ltb 1 confirms) (decode_error frame_constraint (negsuc 0) "frames")
  fail_if (ltb 1 ip_packets) (decode_error frame_constraint (negsuc 0) "frames")
  fail_if (ip_packets == 1 && not (length frames == 1))
      (decode_error frame_constraint (negsuc 0) "frames")
  fail_if (ltb 0 confirms && not (confirm_then_ping frames))
      (decode_error frame_constraint (negsuc 0) "frames")
