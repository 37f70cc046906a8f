-- ===== src/Codec/Tlv/Stream.antt =====
-- Canonical streams of internal/codec/tlv.go: fields in strictly increasing order, each well formed.
use wg.Prelude.{
  ℕ, ◌+◌, ◌≤◌, ◌<◌, ◌≡◌, refl, List, [], ◌∷◌, ◌++◌, length, arith, Option, none, some, ok, le→ltb,
  true, false, length-append,
}
use wg.Prelude.Int.{ℤ, negsuc}
use wg.Codec.Bytes.{IsBytes, put_be, length-put_be}
use wg.Codec.Tlv.{
  Tlv, TlvType, critical, known_tlv, fixed_tlv_length, wrong_length, validate_tlv_field,
  check_order, check_tlvs, emit_tlvs, is_duplicate,
}

-- The field itself: a critical type is known, and a fixed length is kept.
pub record IsField (field : Tlv) : Type 0 where
  pub critical_known : critical field ≡ true → known_tlv field.type ≡ true
  pub length_kept : wrong_length (fixed_tlv_length field.type) (length field.value) ≡ false

pub validate_tlv_field_ok :
    (field : Tlv) (offset : ℤ) → validate_tlv_field field offset ≡ ok tt → IsField field
unfolding validate_tlv_field
validate_tlv_field_ok field offset e = ground arith

pub validate_tlv_field_of :
    (field : Tlv) (offset : ℤ) → IsField field → validate_tlv_field field offset ≡ ok tt
unfolding validate_tlv_field
validate_tlv_field_of field offset v = ground arith

abbrev pub After : Option TlvType → TlvType → Type 0
After none t = Unit {0}
After (some previous) t = previous < t

-- Each type is above the one before it, and each field is well formed.
abbrev pub IsCanonical : Option TlvType → List Tlv → Type 0
IsCanonical previous [] = Unit {0}
IsCanonical previous (field ∷ fields) =
    After previous field.type × IsField field × IsCanonical (some field.type) fields

pub check_order_ok :
    (previous : Option TlvType) (t : TlvType) (offset : ℤ)
    → check_order previous t offset ≡ ok tt
    → After previous t
check_order_ok none t offset e = tt
check_order_ok (some previous) t offset e = ground arith

pub check_order_of :
    (previous : Option TlvType) (t : TlvType) (offset : ℤ)
    → After previous t
    → check_order previous t offset ≡ ok tt
check_order_of none t offset e = refl
check_order_of (some previous) t offset e = ground arith

-- The ranges of Go's types.
abbrev pub IsTlv : Tlv → Type 0
IsTlv field = (field.type < 256) × IsBytes field.value

pub length-emit_tlvs :
    (field : Tlv) (fields : List Tlv)
    → length (emit_tlvs (field ∷ fields)) ≡ 3 + length field.value + length (emit_tlvs fields)
unfolding emit_tlvs
length-emit_tlvs field fields = omega (
  arith,
  length-append (put_be 2 (length field.value)) (field.value ++ emit_tlvs fields),
  length-append field.value (emit_tlvs fields),
  length-put_be 2 (length field.value),
)

is_duplicate_of_After :
    (previous : Option TlvType) (t : TlvType) → After previous t → is_duplicate previous t ≡ false
is_duplicate_of_After none t a = refl
is_duplicate_of_After (some previous) t a = ground arith

-- Canonical fields that fit a stream pass the serializer's checks.
pub check_tlvs_of :
    (previous : Option TlvType) (total : ℕ) (fields : List Tlv)
    → IsCanonical previous fields
    → total + length (emit_tlvs fields) ≤ 65535
    → check_tlvs previous total fields ≡ ok tt
unfolding check_tlvs
check_tlvs_of previous total [] c fits = refl
check_tlvs_of previous total (field ∷ fields) (a, v, c) fits =
    let size = length-emit_tlvs field fields in
    rw (
      is_duplicate_of_After previous field.type a,
      validate_tlv_field_of field (negsuc 0) v,
      le→ltb 65535 (length field.value) (omega (arith, size)),
      le→ltb 65535 (total + 3 + length field.value) (omega (arith, size)),
      check_tlvs_of (some field.type) (total + 3 + length field.value) fields c
          (omega (arith, size)),
    )
