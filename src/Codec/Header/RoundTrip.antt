-- ===== src/Codec/Header/RoundTrip.antt =====
-- Parser and serializer of the header of internal/codec/packet.go against each other.
use wg.Prelude.{
  ℕ, ◌+◌, ◌^◌, ◌≤◌, ◌<◌, ◌≡◌, refl, sym, ap, ap₂, ◌∙◌, List, [], ◌∷◌, ◌++◌, length, take, drop,
  arith, append_assoc, append-nil, ok, take-append-drop, drop-drop, All-take, All-drop, length-take,
  length-drop, length-append,
}
use wg.Codec.Bytes.{IsBytes, byte_at, be, put_be, be-put_be, put_be-be}
use wg.Codec.Header.{
  Header, validate_header, read_header, write_header, parse_header_prefix, parse_header,
  marshal_header,
}

-- The ranges of Go's types.
pub record IsHeader (h : Header) : Type 0 where
  pub version_fits : h.version < 256
  pub kind_fits : h.kind < 256
  pub flags_fits : h.flags < 2 ^ 16
  pub dcid_fits : h.dcid < 2 ^ 64
  pub scid_fits : h.scid < 2 ^ 64
  pub packet_number_fits : h.packet_number < 2 ^ 64
  pub payload_length_fits : h.payload_length < 2 ^ 16
  pub reserved_fits : h.reserved < 2 ^ 16

pub length-write_header : (h : Header) → length (write_header h) ≡ 32
unfolding put_be
length-write_header h = refl

pub read-write_header :
    (h : Header) (rest : List ℕ) → IsHeader h → read_header (write_header h ++ rest) ≡ h
unfolding put_be
read-write_header h rest v = λ i. record {
  version = h.version;
  kind = h.kind;
  flags = be-put_be 2 h.flags v.flags_fits i;
  dcid = be-put_be 8 h.dcid v.dcid_fits i;
  scid = be-put_be 8 h.scid v.scid_fits i;
  packet_number = be-put_be 8 h.packet_number v.packet_number_fits i;
  payload_length = be-put_be 2 h.payload_length v.payload_length_fits i;
  reserved = be-put_be 2 h.reserved v.reserved_fits i;
}

-- One field: its bytes, and the bytes behind it.
module _ (bytes : List ℕ) (b : IsBytes bytes) where
  put_slice :
      (from width : ℕ)
      → from + width ≤ length bytes
      → put_be width (be (take width (drop from bytes))) ≡ take width (drop from bytes)
  put_slice from width h =
      put_be-be width (take width (drop from bytes)) (All-take _ width _ (All-drop _ from bytes b))
        (length-take width (drop from bytes) ∙ omega (arith, length-drop from bytes))

  join_slice :
      (from width : ℕ)
      → from + width ≤ length bytes
      → put_be width (be (take width (drop from bytes))) ++ drop (from + width) bytes
        ≡ drop from bytes
  join_slice from width h =
      ap₂ ◌++◌ (put_slice from width h) (sym (drop-drop from width bytes))
      ∙ take-append-drop width (drop from bytes)

join_bytes :
    (bytes : List ℕ) → 2 ≤ length bytes → byte_at bytes 0 ∷ byte_at bytes 1 ∷ drop 2 bytes ≡ bytes
join_bytes [] h = absurd (omega arith)
join_bytes (x ∷ []) h = absurd (omega arith)
join_bytes (x ∷ y ∷ bytes) h = refl

pub write-read_header :
    (bytes : List ℕ)
    → IsBytes bytes
    → 32 ≤ length bytes
    → write_header (read_header bytes) ++ drop 32 bytes ≡ bytes
write-read_header bytes b h =
    simp
      (
        append_assoc,
        join_slice bytes b 30 2 (omega arith),
        join_slice bytes b 28 2 (omega arith),
        join_slice bytes b 20 8 (omega arith),
        join_slice bytes b 12 8 (omega arith),
        join_slice bytes b 4 8 (omega arith),
        join_slice bytes b 2 2 (omega arith),
      )
      (join_bytes bytes (omega arith))

-- A header that a parse returns passed the checks.
pub parse_header_prefix_ok :
    (bytes : List ℕ) {h : Header}
    → parse_header_prefix bytes ≡ ok h
    → (32 ≤ length bytes) × (h ≡ read_header bytes) × (validate_header h ≡ ok tt)
unfolding parse_header_prefix
parse_header_prefix_ok bytes e = ground arith

pub parse_header_prefix_of_valid :
    (bytes : List ℕ)
    → 32 ≤ length bytes
    → validate_header (read_header bytes) ≡ ok tt
    → parse_header_prefix bytes ≡ ok (read_header bytes)
unfolding parse_header_prefix
parse_header_prefix_of_valid bytes l v = ground arith

pub parse-write_header :
    (h : Header) (rest : List ℕ)
    → IsHeader h
    → validate_header h ≡ ok tt
    → parse_header_prefix (write_header h ++ rest) ≡ ok h
parse-write_header h rest r v =
    parse_header_prefix_of_valid (write_header h ++ rest)
      (omega (arith, length-append (write_header h) rest, length-write_header h))
      (rw (read-write_header h rest r) v)
    ∙ ap ok (read-write_header h rest r)

pub marshal_header_ok :
    (h : Header) {bytes : List ℕ}
    → marshal_header h ≡ ok bytes
    → (validate_header h ≡ ok tt) × (bytes ≡ write_header h)
unfolding marshal_header
marshal_header_ok h e = ground arith

pub marshal_header_of_valid :
    (h : Header) → validate_header h ≡ ok tt → marshal_header h ≡ ok (write_header h)
unfolding marshal_header
marshal_header_of_valid h v = rw v

parse_header_exact :
    (bytes : List ℕ) → length bytes ≡ 32 → parse_header bytes ≡ parse_header_prefix bytes
unfolding parse_header
parse_header_exact bytes l = ground arith

parse_header_ok :
    (bytes : List ℕ) {h : Header}
    → parse_header bytes ≡ ok h
    → (length bytes ≡ 32) × (parse_header_prefix bytes ≡ ok h)
unfolding parse_header
parse_header_ok bytes e = ground arith

drop_all : (bytes : List ℕ) → length bytes ≡ 32 → drop 32 bytes ≡ []
drop_all bytes l = nil_of_length (drop 32 bytes) (omega (arith, length-drop 32 bytes))
  where
    nil_of_length : (xs : List ℕ) → length xs ≡ 0 → xs ≡ []
    nil_of_length [] e = refl
    nil_of_length (x ∷ xs) e = absurd (omega arith)

pub write-read_header_exact :
    (bytes : List ℕ) → IsBytes bytes → length bytes ≡ 32 → write_header (read_header bytes) ≡ bytes
write-read_header_exact bytes b l =
    sym (append-nil (write_header (read_header bytes)))
    ∙ ap (λ (t : List ℕ). write_header (read_header bytes) ++ t) (sym (drop_all bytes l))
    ∙ write-read_header bytes b (omega arith)

-- `ParseHeader` reads back every header that `MarshalBinary` accepts, if its fields fit their
-- widths.
pub parse-marshal_header :
    (h : Header) (bytes : List ℕ)
    → IsHeader h
    → marshal_header h ≡ ok bytes
    → parse_header bytes ≡ ok h
parse-marshal_header h bytes r e =
    let (v, w) = marshal_header_ok h e in
    rw (w, parse_header_exact (write_header h) (length-write_header h))
      (rw append-nil at (parse-write_header h [] r v))

-- What `ParseHeader` accepts, of bytes, has one encoding: `MarshalBinary` gives the same bytes
-- back.
pub marshal-parse_header :
    (bytes : List ℕ) (h : Header)
    → IsBytes bytes
    → parse_header bytes ≡ ok h
    → marshal_header h ≡ ok bytes
marshal-parse_header bytes h b e =
    let (l, p) = parse_header_ok bytes e in
    let (le, same, v) = parse_header_prefix_ok bytes p in
    rw (same, marshal_header_of_valid (read_header bytes) (rw (← same) v))
      (ap ok (write-read_header_exact bytes b l))
