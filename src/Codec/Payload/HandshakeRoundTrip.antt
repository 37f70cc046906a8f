-- ===== src/Codec/Payload/HandshakeRoundTrip.antt =====
-- `ParseHandshake` and its serializer of internal/codec/payload.go against each other.
use wg.Prelude.{
  ◌↔◌, ℕ, ◌+◌, ◌-◌, ◌≤◌, ◌≡◌, refl, sym, ap, ap₂, ◌∙◌, List, ◌++◌, length, drop, arith, ok, fail_if,
  ltb, ◌||◌, le→ltb, ltb→le, length-append, length-take, length-drop, >>=-eq-ok, fail_if-eq-ok,
}
use wg.Codec.Bytes.{IsBytes, be, put_be, be-put_be, length-put_be}
use wg.Codec.Payload.{segment, Handshake, parse_handshake, marshal_handshake}
use wg.Codec.Payload.RoundTrip.{segment_of, tail_of, join, put_be-segment}

-- The wire form of a HANDSHAKE payload, and the parts that the parser cuts out.
abbrev write_handshake : Handshake → List ℕ
write_handshake p =
    p.server_ephemeral_public ++ (put_be 2 (length p.encrypted_payload) ++ p.encrypted_payload)

abbrev read_handshake : List ℕ → Handshake
read_handshake bytes = record {
  server_ephemeral_public = segment bytes 0 32;
  encrypted_payload = drop 34 bytes;
}

length-write_handshake :
    (p : Handshake)
    → length p.server_ephemeral_public ≡ 32
    → length (write_handshake p) ≡ 34 + length p.encrypted_payload
length-write_handshake p k = omega (
  arith,
  k,
  length-put_be 2 (length p.encrypted_payload),
  length-append p.server_ephemeral_public
      (put_be 2 (length p.encrypted_payload) ++ p.encrypted_payload),
  length-append (put_be 2 (length p.encrypted_payload)) p.encrypted_payload,
)

parse_handshake_of :
    (bytes : List ℕ)
    → length bytes ≤ 65535
    → 50 ≤ length bytes
    → be (segment bytes 32 2) ≡ length bytes - 34
    → parse_handshake bytes ≡ ok (read_handshake bytes)
unfolding parse_handshake
parse_handshake_of bytes fits long size = rw (
  le→ltb 65535 (length bytes) fits,
  le→ltb (length bytes) 34 (omega (arith, long)),
  size,
  le→ltb (length bytes - 34) 16 (omega (arith, long)),
  le→ltb (length bytes - 34) (length bytes - 34) (omega arith),
)

parse_handshake_ok :
    (bytes : List ℕ) (p : Handshake)
    → parse_handshake bytes ≡ ok p
    → (length bytes ≤ 65535)
      × (length bytes ≡ 34 + be (segment bytes 32 2))
      × (16 ≤ be (segment bytes 32 2))
      × (p ≡ read_handshake bytes)
unfolding parse_handshake
parse_handshake_ok bytes p e =
    let c = be (segment bytes 32 2) in
    let (_, a, e1) = >>=-eq-ok (fail_if (ltb 65535 (length bytes)) _) _ e in
    let (_, b, e2) = >>=-eq-ok (fail_if (ltb (length bytes) 34) _) _ e1 in
    let (_, g, e3) = >>=-eq-ok (fail_if (ltb c 16) _) _ e2 in
    let (_, h, e4) = >>=-eq-ok (fail_if (ltb (length bytes - 34) c) _) _ e3 in
    let (_, i, e5) = >>=-eq-ok (fail_if (ltb c (length bytes - 34)) _) _ e4 in
    let long = ltb→le _ _ (fail_if-eq-ok _ _ b) in
    let below = ltb→le _ _ (fail_if-eq-ok _ _ h) in
    let above = ltb→le _ _ (fail_if-eq-ok _ _ i) in
    (
      ltb→le _ _ (fail_if-eq-ok _ _ a),
      omega (arith, long, below, above),
      ltb→le _ _ (fail_if-eq-ok _ _ g),
      cc e5,
    )

marshal_handshake_ok :
    (p : Handshake) (bytes : List ℕ)
    → marshal_handshake p ≡ ok bytes
    → (34 + length p.encrypted_payload ≤ 65535)
      × (16 ≤ length p.encrypted_payload)
      × (bytes ≡ write_handshake p)
unfolding marshal_handshake
marshal_handshake_ok p bytes e =
    let (_, b, e1) =
      >>=-eq-ok
        (fail_if (ltb (length p.encrypted_payload) 16 || ltb 65535 (length p.encrypted_payload)) _)
        _ e in
    let (_, c, e2) = >>=-eq-ok (fail_if (ltb 65535 (34 + length p.encrypted_payload)) _) _ e1 in
    (ltb→le _ _ (fail_if-eq-ok _ _ c), ground (arith, b), cc e2)

marshal_handshake_of :
    (p : Handshake)
    → 34 + length p.encrypted_payload ≤ 65535
    → 16 ≤ length p.encrypted_payload
    → marshal_handshake p ≡ ok (write_handshake p)
unfolding marshal_handshake
marshal_handshake_of p fits tag = rw (
  le→ltb (length p.encrypted_payload) 16 tag,
  le→ltb 65535 (length p.encrypted_payload) (omega (arith, fits)),
  le→ltb 65535 (34 + length p.encrypted_payload) fits,
)

-- `ParseHandshake` reads back what `MarshalBinary` writes for a HANDSHAKE with a key of 32 bytes.
pub parse-marshal_handshake :
    (p : Handshake) (bytes : List ℕ)
    → length p.server_ephemeral_public ≡ 32
    → marshal_handshake p ≡ ok bytes
    → parse_handshake bytes ≡ ok p
parse-marshal_handshake p bytes k e =
    let (fits, tag, written) = marshal_handshake_ok p bytes e in
    let w = write_handshake p in
    let size = length-write_handshake p k in
    let width = sym (length-put_be 2 (length p.encrypted_payload)) in
    let t1 = tail_of w 0 32 p.server_ephemeral_public refl (sym k) in
    let count : be (segment w 32 2) ≡ length w - 34 =
      ap be (segment_of w 32 2 p.encrypted_payload t1 width)
      ∙ be-put_be 2 (length p.encrypted_payload) (omega (arith, fits))
      ∙ omega (arith, size) in
    rw written (
      parse_handshake_of w (omega (arith, size, fits)) (omega (arith, size, tag)) count
      ∙ ap₂
          (λ (key : List ℕ) (rest : List ℕ).
            ok (record { server_ephemeral_public = key; encrypted_payload = rest }))
          (segment_of w 0 32 _ refl (sym k)) (tail_of w 32 2 _ t1 width))

-- A HANDSHAKE of bytes that `ParseHandshake` accepts is the one that `MarshalBinary` writes for
-- the result, whose key has 32 bytes.
pub marshal-parse_handshake :
    (bytes : List ℕ) (p : Handshake)
    → IsBytes bytes
    → parse_handshake bytes ≡ ok p
    → (length p.server_ephemeral_public ≡ 32) × (marshal_handshake p ≡ ok bytes)
marshal-parse_handshake bytes p b e =
    let (fits, total, tag, same) = parse_handshake_ok bytes p e in
    let r = read_handshake bytes in
    let payload_width : length r.encrypted_payload ≡ be (segment bytes 32 2) =
      omega (arith, length-drop 34 bytes, total) in
    let second : put_be 2 (length r.encrypted_payload) ≡ segment bytes 32 2 =
      ap (put_be 2) payload_width ∙ put_be-segment bytes 32 2 b (omega (arith, total)) in
    let written : write_handshake r ≡ bytes =
      ap (λ (t : List ℕ). segment bytes 0 32 ++ t)
        (ap (λ (t : List ℕ). t ++ r.encrypted_payload) second ∙ join bytes 32 2)
      ∙ join bytes 0 32 in
    rw same (
      omega (arith, length-take 32 bytes, total),
      marshal_handshake_of r (omega (arith, fits, total, payload_width))
            (omega (arith, tag, payload_width))
          ∙ ap ok written,
    )

-- `ParseHandshake` of a HANDSHAKE of bytes gives a result exactly when `MarshalBinary` of the
-- result, with a key of 32 bytes, gives these bytes.
pub parse_handshake_iff :
    (bytes : List ℕ) (p : Handshake)
    → IsBytes bytes
    → (parse_handshake bytes ≡ ok p)
      ↔ ((length p.server_ephemeral_public ≡ 32) × (marshal_handshake p ≡ ok bytes))
parse_handshake_iff bytes p b =
    (marshal-parse_handshake bytes p b, λ (k, e). parse-marshal_handshake p bytes k e)
