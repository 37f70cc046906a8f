-- ===== src/Codec/Tlv/RoundTrip.antt =====
-- Parser and serializer of internal/codec/tlv.go against each other.
use wg.Prelude.{
  ℕ, zero, suc, ◌+◌, ◌-◌, ◌≤◌, ◌<◌, ◌≡◌, refl, sym, ap, ◌∙◌, List, [], ◌∷◌, ◌++◌, length, take,
  drop, arith, append_assoc, append-nil, Option, none, some, ok, fail_if, ltb, le→ltb,
  length-append, length-drop, take-append_at, drop-append_at, >>=-eq-ok,
}
use wg.Prelude.Int.{pos}
use wg.Codec.Bytes.{IsBytes, be, put_be, be-put_be, length-put_be}
use wg.Codec.Tlv.{
  Tlv, TlvType, parse_tlvs_loop, parse_tlvs, sort_tlvs, check_tlvs, emit_tlvs, marshal_tlvs,
}
use wg.Codec.Tlv.Stream.{
  IsField, After, IsCanonical, validate_tlv_field_of, check_order_of, length-emit_tlvs,
  check_tlvs_of,
}
use wg.Codec.Tlv.Parse.{size_at, parse_tlvs_loop_ok}
use wg.Codec.Tlv.Sort.{sort_tlvs-IsSorted, sort_tlvs_canonical, check_tlvs_ok}

size_at-emit_tlvs :
    (field : Tlv) (fields : List Tlv)
    → length field.value < 65536
    → size_at (emit_tlvs (field ∷ fields)) ≡ length field.value
unfolding emit_tlvs
size_at-emit_tlvs field fields l =
    ap be (
      take-append_at 2 (put_be 2 (length field.value)) (field.value ++ emit_tlvs fields)
        (sym (length-put_be 2 (length field.value))))
    ∙ be-put_be 2 (length field.value) (omega (arith, l))

rest-emit_tlvs :
    (field : Tlv) (fields : List Tlv)
    → drop 3 (emit_tlvs (field ∷ fields)) ≡ field.value ++ emit_tlvs fields
unfolding emit_tlvs
rest-emit_tlvs field fields =
    drop-append_at 2 (put_be 2 (length field.value)) (field.value ++ emit_tlvs fields)
      (sym (length-put_be 2 (length field.value)))

-- One round, on a stream whose first field has a value of n bytes.
round_of :
    (fuel offset : ℕ) (previous : Option TlvType) (field : Tlv) (bs rest : List ℕ)
    (fields : List Tlv)
    → 2 ≤ length bs
    → be (take 2 bs) ≡ length field.value
    → drop 2 bs ≡ field.value ++ rest
    → After previous field.type
    → IsField field
    → parse_tlvs_loop (suc fuel) offset previous (field.type ∷ bs) fields
      ≡ parse_tlvs_loop fuel
          (offset + 3 + length field.value)
          (some field.type)
          rest
          (fields ++ (field ∷ []))
unfolding parse_tlvs_loop
round_of fuel offset previous field bs rest fields long size split a v =
    let whole : length bs - 2 ≡ length field.value + length rest =
      sym (length-drop 2 bs) ∙ ap length split ∙ length-append field.value rest in
    rw (
      le→ltb (suc (length bs)) 3 (omega (arith, long)),
      check_order_of previous field.type (pos offset) a,
      size,
      le→ltb (suc (length bs) - 3) (length field.value) (omega (arith, whole, long)),
      split,
      take-append_at (length field.value) field.value rest refl,
      drop-append_at (length field.value) field.value rest refl,
      validate_tlv_field_of field (pos offset) v,
    )

parse_tlvs_loop_nil :
    (fuel offset : ℕ) (previous : Option TlvType) (fields : List Tlv)
    → parse_tlvs_loop fuel offset previous (emit_tlvs []) fields ≡ ok (fields ++ [])
unfolding parse_tlvs_loop emit_tlvs
parse_tlvs_loop_nil zero offset previous fields = ap ok (sym (append-nil fields))
parse_tlvs_loop_nil (suc fuel) offset previous fields = ap ok (sym (append-nil fields))

first_round :
    (fuel offset : ℕ) (previous : Option TlvType) (field : Tlv) (read fields : List Tlv)
    → After previous field.type
    → IsField field
    → length field.value < 65536
    → parse_tlvs_loop (suc fuel) offset previous (emit_tlvs (field ∷ read)) fields
      ≡ parse_tlvs_loop fuel
          (offset + 3 + length field.value)
          (some field.type)
          (emit_tlvs read)
          (fields ++ (field ∷ []))
unfolding emit_tlvs
first_round fuel offset previous field read fields a v l =
    let width = length-put_be 2 (length field.value) in
    let bs = put_be 2 (length field.value) ++ (field.value ++ emit_tlvs read) in
    round_of fuel offset previous field bs (emit_tlvs read) fields
      (omega (
        arith,
        width,
        length-append (put_be 2 (length field.value)) (field.value ++ emit_tlvs read),
      ))
      (size_at-emit_tlvs field read l) (rest-emit_tlvs field read) a v

-- The loop on the encoding of canonical fields, with fuel for each byte.
pub parse_tlvs_loop_of :
    (fuel offset : ℕ) (previous : Option TlvType) (read fields : List Tlv)
    → IsCanonical previous read
    → length (emit_tlvs read) ≤ fuel
    → length (emit_tlvs read) ≤ 65535
    → parse_tlvs_loop fuel offset previous (emit_tlvs read) fields ≡ ok (fields ++ read)
parse_tlvs_loop_of fuel offset previous [] fields c enough fits =
    parse_tlvs_loop_nil fuel offset previous fields
parse_tlvs_loop_of zero offset previous (field ∷ read) fields c enough fits =
    absurd (omega (arith, length-emit_tlvs field read))
parse_tlvs_loop_of (suc fuel) offset previous (field ∷ read) fields (a, v, c) enough fits =
    first_round fuel offset previous field read fields a v (omega (arith, fits, size))
    ∙ parse_tlvs_loop_of fuel (offset + 3 + length field.value) (some field.type) read
        (fields ++ (field ∷ [])) c (omega (arith, enough, size)) (omega (arith, fits, size))
    ∙ ap ok (append_assoc fields (field ∷ []) read)
  where
    size : length (emit_tlvs (field ∷ read)) ≡ 3 + length field.value + length (emit_tlvs read)
    size = length-emit_tlvs field read

parse_tlvs_of :
    (fields : List Tlv)
    → IsCanonical none fields
    → length (emit_tlvs fields) ≤ 65535
    → parse_tlvs (emit_tlvs fields) ≡ ok fields
unfolding parse_tlvs
parse_tlvs_of fields c fits = rw (
  le→ltb 65535 (length (emit_tlvs fields)) fits,
  parse_tlvs_loop_of (length (emit_tlvs fields)) 0 none fields [] c (omega arith) fits,
)

parse_tlvs_ok :
    (bytes : List ℕ) (fields : List Tlv)
    → parse_tlvs bytes ≡ ok fields
    → (length bytes ≤ 65535) × (parse_tlvs_loop (length bytes) 0 none bytes [] ≡ ok fields)
unfolding parse_tlvs
parse_tlvs_ok bytes fields e =
    let (_, l, p) = >>=-eq-ok (fail_if (ltb 65535 (length bytes)) _) _ e in (ground (arith, l), p)

marshal_tlvs_ok :
    (fields : List Tlv) (bytes : List ℕ)
    → marshal_tlvs fields ≡ ok bytes
    → IsCanonical none (sort_tlvs fields)
      × (length (emit_tlvs (sort_tlvs fields)) ≤ 65535)
      × (bytes ≡ emit_tlvs (sort_tlvs fields))
unfolding marshal_tlvs
marshal_tlvs_ok fields bytes e =
    let (_, valid, w) = >>=-eq-ok (check_tlvs none 0 (sort_tlvs fields)) _ e in
    let (c, fits) =
      check_tlvs_ok none 0 (sort_tlvs fields) (sort_tlvs-IsSorted fields) (omega arith) valid in
    (c, omega (arith, fits), ground (arith, w))

marshal_tlvs_of :
    (fields : List Tlv)
    → IsCanonical none fields
    → length (emit_tlvs fields) ≤ 65535
    → marshal_tlvs fields ≡ ok (emit_tlvs fields)
unfolding marshal_tlvs
marshal_tlvs_of fields c fits =
    rw (sort_tlvs_canonical none fields c, check_tlvs_of none 0 fields c (omega (arith, fits)))

-- The stream that `MarshalTLVs` writes parses to the fields sorted by type.
pub parse-marshal_tlvs :
    (fields : List Tlv) (bytes : List ℕ)
    → marshal_tlvs fields ≡ ok bytes
    → parse_tlvs bytes ≡ ok (sort_tlvs fields)
parse-marshal_tlvs fields bytes e =
    let (c, fits, written) = marshal_tlvs_ok fields bytes e in
    rw written (parse_tlvs_of (sort_tlvs fields) c fits)

-- A stream of bytes that `ParseTLVs` accepts is the one that `MarshalTLVs` writes for its fields,
-- which are in strictly increasing order of type.
pub marshal-parse_tlvs :
    (bytes : List ℕ) (fields : List Tlv)
    → IsBytes bytes
    → parse_tlvs bytes ≡ ok fields
    → IsCanonical none fields × (marshal_tlvs fields ≡ ok bytes)
marshal-parse_tlvs bytes fields b e =
    let (l, p) = parse_tlvs_ok bytes fields e in
    let s = parse_tlvs_loop_ok (length bytes) 0 none bytes [] fields b p in
    (
      rw s.out_is s.canonical,
      rw (s.out_is, marshal_tlvs_of s.read s.canonical (rw s.encoding l)) (ap ok s.encoding),
    )
