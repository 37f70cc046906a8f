-- ===== src/Codec/Payload.antt =====
-- The outer payloads of internal/codec/payload.go. A fixed array of 32 bytes is a list.
pub mod RoundTrip
pub mod HandshakeRoundTrip
use wg.Prelude.{
  ℕ, ◌+◌, ◌-◌, Bool, ◌||◌, List, ◌++◌, length, take, drop, ltb, if◌then◌else◌, Result, ok, err,
  ◌>>=◌, ◌>>◌, fail_if,
}
use wg.Prelude.Int.{ℤ, pos}
use wg.Codec.Errors.{
  DecodeError, decode_error, Decoded, truncated, length_error, limit, trailing_data,
}
use wg.Codec.Bytes.{be, put_be, slice}
use wg.Codec.Header.{aead_tag_size}

abbrev pub max_uint16 : ℕ
max_uint16 = 65535

abbrev pub ephemeral_public_key_size : ℕ
ephemeral_public_key_size = 32

abbrev pub min_retry_token_size : ℕ
min_retry_token_size = 16

-- `bytes[from:from+width]`
abbrev pub segment : List ℕ → ℕ → ℕ → List ℕ
segment bytes from width = take width (drop from bytes)

pub record Initial : Type 0 where
  pub token : List ℕ
  pub client_ephemeral_public : List ℕ  -- 32 bytes
  pub encrypted_payload : List ℕ

unfoldable pub parse_initial : List ℕ → Decoded Initial
parse_initial bytes = do
  fail_if (ltb max_uint16 (length bytes)) (decode_error limit (pos 0) "initial")
  fail_if (ltb (length bytes) 2)
      (decode_error truncated (pos (length bytes)) "initial.token_length")
  let token_length = be (segment bytes 0 2)
  fail_if (ltb (length bytes - 2) token_length) (decode_error truncated (pos 2) "initial.token")
  fail_if (ltb (length bytes - 2 - token_length) (ephemeral_public_key_size + 2 + aead_tag_size))
      (decode_error truncated (pos (2 + token_length)) "initial")
  let key_offset = 2 + token_length
  let length_offset = key_offset + ephemeral_public_key_size
  let encrypted_length = be (segment bytes length_offset 2)
  let offset = length_offset + 2
  fail_if (ltb encrypted_length aead_tag_size)
      (decode_error length_error (pos (offset - 2)) "initial.encrypted_length")
  let remaining = length bytes - offset
  fail_if (ltb remaining encrypted_length)
      (decode_error truncated (pos (offset + remaining)) "initial.encrypted_payload")
  fail_if (ltb encrypted_length remaining)
      (decode_error trailing_data (pos (offset + encrypted_length)) "initial.encrypted_payload")
  ok (record {
    token = segment bytes 2 token_length;
    client_ephemeral_public = segment bytes key_offset ephemeral_public_key_size;
    encrypted_payload = drop offset bytes;
  })

unfoldable pub marshal_initial : Initial → Decoded (List ℕ)
marshal_initial p = do
  fail_if (ltb max_uint16 (length p.token)) (decode_error length_error (pos 0) "initial.token")
  fail_if
      (ltb (length p.encrypted_payload) aead_tag_size
        || ltb max_uint16 (length p.encrypted_payload))
      (decode_error length_error (pos 0) "initial.encrypted_payload")
  fail_if
      (ltb max_uint16
        (2 + length p.token + ephemeral_public_key_size + 2 + length p.encrypted_payload))
      (decode_error length_error (pos 0) "initial")
  ok (
      put_be 2 (length p.token)
      ++ (p.token
          ++ (p.client_ephemeral_public
              ++ (put_be 2 (length p.encrypted_payload) ++ p.encrypted_payload))))

pub record Retry : Type 0 where
  pub token : List ℕ

unfoldable pub parse_retry : List ℕ → Decoded Retry
parse_retry bytes = do
  fail_if (ltb max_uint16 (length bytes)) (decode_error limit (pos 0) "retry.token")
  fail_if (ltb (length bytes) min_retry_token_size)
      (decode_error length_error (pos 0) "retry.token")
  ok (record { token = bytes })

unfoldable pub marshal_retry : Retry → Decoded (List ℕ)
marshal_retry p = do
  fail_if (ltb (length p.token) min_retry_token_size || ltb max_uint16 (length p.token))
      (decode_error length_error (pos 0) "retry.token")
  ok p.token

pub record Handshake : Type 0 where
  pub server_ephemeral_public : List ℕ  -- 32 bytes
  pub encrypted_payload : List ℕ

unfoldable pub parse_handshake : List ℕ → Decoded Handshake
parse_handshake bytes = do
  let prefix_size = ephemeral_public_key_size + 2
  fail_if (ltb max_uint16 (length bytes)) (decode_error limit (pos 0) "handshake")
  fail_if (ltb (length bytes) prefix_size) (decode_error truncated (pos (length bytes)) "handshake")
  let encrypted_length = be (segment bytes ephemeral_public_key_size 2)
  fail_if (ltb encrypted_length aead_tag_size)
      (decode_error length_error (pos ephemeral_public_key_size) "handshake.encrypted_length")
  let remaining = length bytes - prefix_size
  fail_if (ltb remaining encrypted_length)
      (decode_error truncated (pos (length bytes)) "handshake.encrypted_payload")
  fail_if (ltb encrypted_length remaining) (
      decode_error trailing_data (pos (prefix_size + encrypted_length))
        "handshake.encrypted_payload")
  ok (record {
    server_ephemeral_public = segment bytes 0 ephemeral_public_key_size;
    encrypted_payload = drop prefix_size bytes;
  })

unfoldable pub marshal_handshake : Handshake → Decoded (List ℕ)
marshal_handshake p = do
  fail_if
      (ltb (length p.encrypted_payload) aead_tag_size
        || ltb max_uint16 (length p.encrypted_payload))
      (decode_error length_error (pos 0) "handshake.encrypted_payload")
  fail_if (ltb max_uint16 (ephemeral_public_key_size + 2 + length p.encrypted_payload))
      (decode_error length_error (pos 0) "handshake")
  ok (p.server_ephemeral_public ++ (put_be 2 (length p.encrypted_payload) ++ p.encrypted_payload))

pub record Transport : Type 0 where
  pub ciphertext : List ℕ

unfoldable pub parse_transport : List ℕ → Decoded Transport
parse_transport bytes = do
  fail_if (ltb max_uint16 (length bytes)) (decode_error limit (pos 0) "transport.ciphertext")
  fail_if (ltb (length bytes) aead_tag_size)
      (decode_error length_error (pos 0) "transport.ciphertext")
  ok (record { ciphertext = bytes })

unfoldable pub marshal_transport : Transport → Decoded (List ℕ)
marshal_transport p = do
  fail_if (ltb (length p.ciphertext) aead_tag_size || ltb max_uint16 (length p.ciphertext))
      (decode_error length_error (pos 0) "transport.ciphertext")
  ok p.ciphertext
