-- ===== src/Codec/Packet/RoundTrip.antt =====
-- Parser and serializer of datagrams of internal/codec/packet.go against each other.
use wg.Prelude.{
  ℕ, ◌+◌, ◌≤◌, ◌<◌, ◌≡◌, sym, ap, ap₂, ◌∙◌, List, [], ◌++◌, length, take, drop, arith, ok,
  take-append-drop, All-take, All-drop, take_all, length-take, length-drop, le→ltb, length-append,
  append-nil, take-append_at, drop-append_at, >>=-eq-ok,
}
use native.Mathlib.Nat.{le_refl, lt_of_lt_of_le, pow-le-pow_right}
use wg.Prelude.Int.{ℤ}
use wg.Codec.Bytes.{IsBytes, be-lt-pow}
use wg.Codec.Header.{
  Header, validate_header, read_header, write_header, parse_header_prefix, marshal_header,
}
use wg.Codec.Header.RoundTrip.{
  IsHeader, length-write_header, write-read_header_exact, parse-write_header,
  marshal_header_of_valid, parse_header_prefix_ok,
}
use wg.Codec.Packet.{
  Packet, normalize_datagram_limit, validate_outer_payload, parse_packet, marshal_packet,
}

-- The header that `MarshalBinary` writes: the payload length is taken from the payload.
abbrev pub sized_header : Packet → Header
sized_header p = record (p.header) { payload_length = length p.payload }

-- What a successful `MarshalBinary` checked, and what it wrote.
pub record Marshals (p : Packet) (max : ℤ) (bytes : List ℕ) : Type 0 where
  pub size_limit : ℕ
  pub limit_ok : normalize_datagram_limit max ≡ ok size_limit
  pub payload_fits : length p.payload ≤ 65535
  pub within : 32 + length p.payload ≤ size_limit
  pub payload_ok : validate_outer_payload p.header.kind p.payload ≡ ok tt
  pub header_ok : validate_header (sized_header p) ≡ ok tt
  pub written : bytes ≡ write_header (sized_header p) ++ p.payload

marshal_packet_ok :
    (p : Packet) (max : ℤ) {bytes : List ℕ} → marshal_packet p max ≡ ok bytes → Marshals p max bytes
unfolding marshal_packet marshal_header
marshal_packet_ok p max e =
    let (l, n, rest) = >>=-eq-ok (normalize_datagram_limit max) _ e in
    record {
      size_limit = l;
      limit_ok = n;
      payload_fits = ground arith;
      within = ground arith;
      payload_ok = ground arith;
      header_ok = ground arith;
      written = ground arith;
    }

marshal_packet_of :
    (p : Packet) (max : ℤ) {bytes : List ℕ} → Marshals p max bytes → marshal_packet p max ≡ ok bytes
unfolding marshal_packet
marshal_packet_of p max m =
    rw
      (
        m.limit_ok,
        le→ltb 65535 (length p.payload) m.payload_fits,
        le→ltb m.size_limit (32 + length p.payload) m.within,
        m.payload_ok,
        marshal_header_of_valid (sized_header p) m.header_ok,
      )
      (ap ok (sym m.written))

-- What a successful `ParsePacket` checked.
pub record Parses (bytes : List ℕ) (max : ℤ) (p : Packet) : Type 0 where
  pub size_limit : ℕ
  pub limit_ok : normalize_datagram_limit max ≡ ok size_limit
  pub header_ok : parse_header_prefix (take 32 bytes) ≡ ok p.header
  pub size : length bytes ≡ 32 + p.header.payload_length
  pub within : length bytes ≤ size_limit
  pub payload_is : p.payload ≡ take p.header.payload_length (drop 32 bytes)
  pub payload_ok : validate_outer_payload p.header.kind p.payload ≡ ok tt

parse_packet_ok :
    (bytes : List ℕ) (max : ℤ) (p : Packet) → parse_packet bytes max ≡ ok p → Parses bytes max p
unfolding parse_packet
parse_packet_ok bytes max p e =
    let (l, n, rest) = >>=-eq-ok (normalize_datagram_limit max) _ e in
    record {
      size_limit = l;
      limit_ok = n;
      header_ok = ground arith;
      size = ground arith;
      within = ground arith;
      payload_is = ground arith;
      payload_ok = ground arith;
    }

parse_packet_of :
    (bytes : List ℕ) (max : ℤ) (p : Packet) → Parses bytes max p → parse_packet bytes max ≡ ok p
unfolding parse_packet
parse_packet_of bytes max p m = rw (
  m.limit_ok,
  le→ltb (length bytes) 32 (omega (arith, m.size)),
  le→ltb m.size_limit (length bytes) m.within,
  m.header_ok,
  le→ltb m.size_limit (32 + p.header.payload_length) (omega (arith, m.size, m.within)),
  le→ltb (length bytes) (32 + p.header.payload_length) (omega (arith, m.size)),
  le→ltb (32 + p.header.payload_length) (length bytes) (omega (arith, m.size)),
  ← m.payload_is,
  m.payload_ok,
)

payload_length-lt : (bytes : List ℕ) → IsBytes bytes → (read_header bytes).payload_length < 65536
payload_length-lt bytes b =
    lt_of_lt_of_le (be-lt-pow piece (All-take _ 2 _ (All-drop _ 28 bytes b)))
      (pow-le-pow_right (omega arith) {j = 2} (omega (arith, length-take 2 (drop 28 bytes))))
  where
    piece : List ℕ
    piece = take 2 (drop 28 bytes)

-- `ParsePacket` reads back every datagram that `MarshalBinary` writes for a packet whose header
-- fields fit their widths, under the same limit: the packet is the one given, with the payload
-- length filled in.
pub parse-marshal_packet :
    (p : Packet) (max : ℤ) (bytes : List ℕ)
    → IsHeader p.header
    → marshal_packet p max ≡ ok bytes
    → parse_packet bytes max ≡ ok (record p { header = sized_header p })
parse-marshal_packet p max bytes r e =
    let m = marshal_packet_ok p max e in
    let size : length (write_header (sized_header p)) ≡ 32 = length-write_header (sized_header p) in
    let fits : IsHeader (sized_header p) = ground (arith, m.payload_fits) in
    rw m.written (
      parse_packet_of (write_header (sized_header p) ++ p.payload) max
        (record p { header = sized_header p })
        (record {
          size_limit = m.size_limit;
          limit_ok = m.limit_ok;
          header_ok =
              rw (take-append_at 32 (write_header (sized_header p)) p.payload (sym size))
                (rw append-nil at (parse-write_header (sized_header p) [] fits m.header_ok));
          size = length-append (write_header (sized_header p)) p.payload ∙ omega (arith, size);
          within =
              omega
                (arith, m.within, size, length-append (write_header (sized_header p)) p.payload);
          payload_is =
              rw (drop-append_at 32 (write_header (sized_header p)) p.payload (sym size))
                (sym (take_all (length p.payload) p.payload (le_refl _)));
          payload_ok = m.payload_ok;
        }))

-- A datagram that `ParsePacket` accepts is the one that `MarshalBinary` writes for the packet, for
-- datagrams made of bytes.
pub marshal-parse_packet :
    (bytes : List ℕ) (max : ℤ) (p : Packet)
    → IsBytes bytes
    → parse_packet bytes max ≡ ok p
    → marshal_packet p max ≡ ok bytes
marshal-parse_packet bytes max p b e =
    let m = parse_packet_ok bytes max p e in
    let (long, same, valid) = parse_header_prefix_ok (take 32 bytes) m.header_ok in
    let size : length (take 32 bytes) ≡ 32 = omega (arith, length-take 32 bytes, m.size) in
    let exact : write_header p.header ≡ take 32 bytes =
      ap write_header same ∙ write-read_header_exact (take 32 bytes) (All-take _ 32 bytes b) size in
    let body : p.payload ≡ drop 32 bytes =
      m.payload_is
      ∙ take_all p.header.payload_length (drop 32 bytes)
          (omega (arith, length-drop 32 bytes, m.size)) in
    let count : length p.payload ≡ p.header.payload_length =
      ap length body ∙ omega (arith, length-drop 32 bytes, m.size) in
    let sized : sized_header p ≡ p.header =
      ap (λ (n : ℕ). record (p.header) { payload_length = n }) count in
    marshal_packet_of p max (record {
      size_limit = m.size_limit;
      limit_ok = m.limit_ok;
      payload_fits = omega (
        arith,
        count,
        ap (λ (h : Header). h.payload_length) same,
        payload_length-lt (take 32 bytes) (All-take _ 32 bytes b),
      );
      within = omega (arith, m.within, m.size, count);
      payload_ok = m.payload_ok;
      header_ok = rw sized valid;
      written = sym (ap₂ ◌++◌ (ap write_header sized ∙ exact) body ∙ take-append-drop 32 bytes);
    })
