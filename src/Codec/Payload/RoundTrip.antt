-- ===== src/Codec/Payload/RoundTrip.antt =====
-- Parsers and serializers of internal/codec/payload.go against each other.
use wg.Prelude.{
  ◌↔◌, ℕ, ◌+◌, ◌-◌, ◌≤◌, ◌<◌, ◌≡◌, refl, sym, ap, ap₂, ◌∙◌, List, ◌++◌, length, take, drop, arith,
  ok, fail_if, ltb, ◌||◌, le→ltb, length-append, length-take, length-drop, take-append-drop,
  take-append_at, drop-append_at, All-take, All-drop, drop-drop, >>=-eq-ok, fail_if-eq-ok, ltb→le,
}
use wg.Codec.Bytes.{IsBytes, be, put_be, be-put_be, put_be-be, length-put_be}
use wg.Codec.Payload.{segment, Initial, parse_initial, marshal_initial}

-- The wire form of an INITIAL payload.
abbrev write_initial : Initial → List ℕ
write_initial p =
    put_be 2 (length p.token)
    ++ (p.token
        ++ (p.client_ephemeral_public
            ++ (put_be 2 (length p.encrypted_payload) ++ p.encrypted_payload)))

-- What the checks of the parser say.
record Parses (bytes : List ℕ) (p : Initial) : Type 0 where
  pub total : length bytes ≡ 36 + length p.token + length p.encrypted_payload
  pub fits : length bytes ≤ 65535
  pub tag : 16 ≤ length p.encrypted_payload
  pub token_length : be (segment bytes 0 2) ≡ length p.token
  pub encrypted_length : be (segment bytes (2 + length p.token + 32) 2) ≡ length p.encrypted_payload
  pub token_is : segment bytes 2 (length p.token) ≡ p.token
  pub key_is : segment bytes (2 + length p.token) 32 ≡ p.client_ephemeral_public
  pub payload_is : drop (2 + length p.token + 32 + 2) bytes ≡ p.encrypted_payload

parse_initial_of : (bytes : List ℕ) (p : Initial) → Parses bytes p → parse_initial bytes ≡ ok p
unfolding parse_initial
parse_initial_of bytes p m = rw (
  le→ltb 65535 (length bytes) m.fits,
  le→ltb (length bytes) 2 (omega (arith, m.total)),
  m.token_length,
  le→ltb (length bytes - 2) (length p.token) (omega (arith, m.total)),
  le→ltb (length bytes - 2 - length p.token) 50 (omega (arith, m.total, m.tag)),
  m.encrypted_length,
  le→ltb (length p.encrypted_payload) 16 m.tag,
  le→ltb (length bytes - (2 + length p.token + 32 + 2)) (length p.encrypted_payload)
      (omega (arith, m.total)),
  le→ltb (length p.encrypted_payload) (length bytes - (2 + length p.token + 32 + 2))
      (omega (arith, m.total)),
  m.token_is,
  m.key_is,
  m.payload_is,
)

record Writes (p : Initial) (bytes : List ℕ) : Type 0 where
  pub fits : 36 + length p.token + length p.encrypted_payload ≤ 65535
  pub tag : 16 ≤ length p.encrypted_payload
  pub written : bytes ≡ write_initial p

marshal_initial_ok : (p : Initial) (bytes : List ℕ) → marshal_initial p ≡ ok bytes → Writes p bytes
unfolding marshal_initial
marshal_initial_ok p bytes e =
    let (_, a, e1) = >>=-eq-ok (fail_if (ltb 65535 (length p.token)) _) _ e in
    let (_, b, e2) =
      >>=-eq-ok
        (fail_if (ltb (length p.encrypted_payload) 16 || ltb 65535 (length p.encrypted_payload)) _)
        _ e1 in
    let (_, c, e3) =
      >>=-eq-ok (fail_if (ltb 65535 (2 + length p.token + 32 + 2 + length p.encrypted_payload)) _) _
        e2 in
    record { fits = ground (arith, c); tag = ground (arith, b); written = ground (arith, e3) }

marshal_initial_of : (p : Initial) (bytes : List ℕ) → Writes p bytes → marshal_initial p ≡ ok bytes
unfolding marshal_initial
marshal_initial_of p bytes m =
    rw
      (
        le→ltb 65535 (length p.token) (omega (arith, m.fits)),
        le→ltb (length p.encrypted_payload) 16 m.tag,
        le→ltb 65535 (length p.encrypted_payload) (omega (arith, m.fits)),
        le→ltb 65535 (2 + length p.token + 32 + 2 + length p.encrypted_payload)
            (omega (arith, m.fits)),
      )
      (ap ok (sym m.written))

-- Cutting a part off the front of what is left, and putting it back.
module _ (bytes : List ℕ) (from width : ℕ) where
  pub segment_of :
      {xs : List ℕ} (ys : List ℕ)
      → drop from bytes ≡ xs ++ ys
      → width ≡ length xs
      → segment bytes from width ≡ xs
  segment_of {xs} ys e w = ap (take width) e ∙ take-append_at width xs ys w

  pub tail_of :
      (xs : List ℕ) {ys : List ℕ}
      → drop from bytes ≡ xs ++ ys
      → width ≡ length xs
      → drop (from + width) bytes ≡ ys
  tail_of xs {ys} e w =
      sym (drop-drop from width bytes) ∙ ap (drop width) e ∙ drop-append_at width xs ys w

  pub join : segment bytes from width ++ drop (from + width) bytes ≡ drop from bytes
  join =
      ap (λ (t : List ℕ). segment bytes from width ++ t) (sym (drop-drop from width bytes))
      ∙ take-append-drop width (drop from bytes)

  pub put_be-segment :
      IsBytes bytes
      → from + width ≤ length bytes
      → put_be width (be (segment bytes from width)) ≡ segment bytes from width
  put_be-segment b l =
      put_be-be width (segment bytes from width) (All-take _ width _ (All-drop _ from bytes b))
        (omega (arith, length-take width (drop from bytes), length-drop from bytes))

length-write_initial :
    (p : Initial)
    → length p.client_ephemeral_public ≡ 32
    → length (write_initial p) ≡ 36 + length p.token + length p.encrypted_payload
length-write_initial p k = omega (
  arith,
  k,
  length-put_be 2 (length p.token),
  length-put_be 2 (length p.encrypted_payload),
  length-append (put_be 2 (length p.token)) (
      p.token
      ++ (p.client_ephemeral_public
          ++ (put_be 2 (length p.encrypted_payload) ++ p.encrypted_payload))),
  length-append p.token
      (p.client_ephemeral_public ++ (put_be 2 (length p.encrypted_payload) ++ p.encrypted_payload)),
  length-append p.client_ephemeral_public
      (put_be 2 (length p.encrypted_payload) ++ p.encrypted_payload),
  length-append (put_be 2 (length p.encrypted_payload)) p.encrypted_payload,
)

-- `ParseInitial` reads back what `MarshalBinary` writes for an INITIAL with a key of 32 bytes.
pub parse-marshal_initial :
    (p : Initial) (bytes : List ℕ)
    → length p.client_ephemeral_public ≡ 32
    → marshal_initial p ≡ ok bytes
    → parse_initial bytes ≡ ok p
parse-marshal_initial p bytes k e =
    let m = marshal_initial_ok p bytes e in
    let size = length-write_initial p k in
    let w = write_initial p in
    let n = length p.token in
    let sizes : length p.encrypted_payload < 65536 = omega (arith, m.fits) in
    let width = sym (length-put_be 2 (length p.encrypted_payload)) in
    let token_width = sym (length-put_be 2 n) in
    let t1 = tail_of w 0 2 _ refl token_width in
    let t2 = tail_of w 2 n _ t1 refl in
    let t3 = tail_of w (2 + n) 32 _ t2 (sym k) in
    rw m.written (
      parse_initial_of w p (record {
        total = size;
        fits = omega (arith, size, m.fits);
        tag = m.tag;
        token_length =
            ap be (segment_of w 0 2 _ refl token_width) ∙ be-put_be 2 n (omega (arith, m.fits));
        encrypted_length =
            ap be (segment_of w (2 + n + 32) 2 _ t3 width) ∙ be-put_be 2 _ (omega (arith, sizes));
        token_is = segment_of w 2 n _ t1 refl;
        key_is = segment_of w (2 + n) 32 _ t2 (sym k);
        payload_is = tail_of w (2 + n + 32) 2 _ t3 width;
      }))

-- The parts that the parser cuts out.
abbrev token_size : List ℕ → ℕ
token_size bytes = be (segment bytes 0 2)

abbrev encrypted_size : List ℕ → ℕ
encrypted_size bytes = be (segment bytes (2 + token_size bytes + 32) 2)

abbrev read_initial : List ℕ → Initial
read_initial bytes = record {
  token = segment bytes 2 (token_size bytes);
  client_ephemeral_public = segment bytes (2 + token_size bytes) 32;
  encrypted_payload = drop (2 + token_size bytes + 32 + 2) bytes;
}

parse_initial_ok :
    (bytes : List ℕ) (p : Initial)
    → parse_initial bytes ≡ ok p
    → (length bytes ≤ 65535)
      × (length bytes ≡ 36 + token_size bytes + encrypted_size bytes)
      × (16 ≤ encrypted_size bytes)
      × (p ≡ read_initial bytes)
unfolding parse_initial
parse_initial_ok bytes p e =
    let n = token_size bytes in
    let c = encrypted_size bytes in
    let (_, a, e1) = >>=-eq-ok (fail_if (ltb 65535 (length bytes)) _) _ e in
    let (_, b, e2) = >>=-eq-ok (fail_if (ltb (length bytes) 2) _) _ e1 in
    let (_, d, e3) = >>=-eq-ok (fail_if (ltb (length bytes - 2) n) _) _ e2 in
    let (_, f, e4) = >>=-eq-ok (fail_if (ltb (length bytes - 2 - n) 50) _) _ e3 in
    let (_, g, e5) = >>=-eq-ok (fail_if (ltb c 16) _) _ e4 in
    let (_, h, e6) = >>=-eq-ok (fail_if (ltb (length bytes - (2 + n + 32 + 2)) c) _) _ e5 in
    let (_, i, e7) = >>=-eq-ok (fail_if (ltb c (length bytes - (2 + n + 32 + 2))) _) _ e6 in
    let long : 2 ≤ length bytes = ltb→le _ _ (fail_if-eq-ok _ _ b) in
    let room : 50 ≤ length bytes - 2 - n = ltb→le _ _ (fail_if-eq-ok _ _ f) in
    let below = ltb→le _ _ (fail_if-eq-ok _ _ h) in
    let above = ltb→le _ _ (fail_if-eq-ok _ _ i) in
    (
      ltb→le _ _ (fail_if-eq-ok _ _ a),
      omega (arith, long, room, below, above),
      ltb→le _ _ (fail_if-eq-ok _ _ g),
      cc e7,
    )

-- An INITIAL of bytes that `ParseInitial` accepts is the one that `MarshalBinary` writes for the
-- result, whose key has 32 bytes.
pub marshal-parse_initial :
    (bytes : List ℕ) (p : Initial)
    → IsBytes bytes
    → parse_initial bytes ≡ ok p
    → (length p.client_ephemeral_public ≡ 32) × (marshal_initial p ≡ ok bytes)
marshal-parse_initial bytes p b e =
    let (fits, total, tag, same) = parse_initial_ok bytes p e in
    let n = token_size bytes in
    let c = encrypted_size bytes in
    let r = read_initial bytes in
    let token_width : length r.token ≡ n =
      omega (arith, length-take n (drop 2 bytes), length-drop 2 bytes, total) in
    let key_width : length r.client_ephemeral_public ≡ 32 =
      omega (arith, length-take 32 (drop (2 + n) bytes), length-drop (2 + n) bytes, total) in
    let payload_width : length r.encrypted_payload ≡ c =
      omega (arith, length-drop (2 + n + 32 + 2) bytes, total) in
    let first : put_be 2 (length r.token) ≡ segment bytes 0 2 =
      ap (put_be 2) token_width ∙ put_be-segment bytes 0 2 b (omega (arith, total)) in
    let second : put_be 2 (length r.encrypted_payload) ≡ segment bytes (2 + n + 32) 2 =
      ap (put_be 2) payload_width ∙ put_be-segment bytes (2 + n + 32) 2 b (omega (arith, total)) in
    let written : write_initial r ≡ bytes =
      ap₂ ◌++◌ first (
        ap (λ (t : List ℕ). r.token ++ t)
          (ap (λ (t : List ℕ). r.client_ephemeral_public ++ t)
              (ap (λ (t : List ℕ). t ++ r.encrypted_payload) second ∙ join bytes (2 + n + 32) 2)
            ∙ join bytes (2 + n) 32)
        ∙ join bytes 2 n)
      ∙ join bytes 0 2 in
    rw same (
      key_width,
      marshal_initial_of r bytes (record {
        fits = omega (arith, fits, total, token_width, payload_width);
        tag = omega (arith, tag, payload_width);
        written = sym written;
      }),
    )

-- `ParseInitial` of an INITIAL of bytes gives a result exactly when `MarshalBinary` of the result,
-- with a key of 32 bytes, gives these bytes.
pub parse_initial_iff :
    (bytes : List ℕ) (p : Initial)
    → IsBytes bytes
    → (parse_initial bytes ≡ ok p)
      ↔ ((length p.client_ephemeral_public ≡ 32) × (marshal_initial p ≡ ok bytes))
parse_initial_iff bytes p b =
    (marshal-parse_initial bytes p b, λ (k, e). parse-marshal_initial p bytes k e)
