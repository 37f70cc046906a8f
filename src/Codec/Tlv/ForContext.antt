-- ===== src/Codec/Tlv/ForContext.antt =====
-- `MarshalTLVsFor` and `ParseTLVsFor` of internal/codec/tlv.go: what passes the check of a context
-- passes it again after the sort of the serializer.
use wg.Prelude.{
  ℕ, ◌≤◌, ◌≡◌, refl, sym, ◌∙◌, false, not, ◌&&◌, Option, none, some, List, [], ◌∷◌, length, All,
  arith, leb, ◌==◌, ok, fail_if, >>=-eq-ok, Bool-cases, inl, inr,
}
use wg.Codec.Tlv.{Tlv, TlvType, insert_tlv, sort_tlvs, emit_tlvs, marshal_tlvs}
use wg.Codec.Tlv.Stream.{IsField, IsCanonical, length-emit_tlvs, check_tlvs_of}
use wg.Codec.Tlv.Sort.{IsSorted, sort_tlvs-IsSorted, sort_tlvs-All, find-sort_tlvs}
use wg.Codec.Tlv.RoundTrip.{parse-marshal_tlvs}
use wg.Codec.Tlv.Required.{find_tlv_same, find_tlv_nil, find_tlv-collect}
use wg.Codec.Tlv.Context.{
  TlvContext, find_tlv, present, required, collect_tlvs, check_required, validate_tlvs,
  parse_tlvs_for, marshal_tlvs_for,
}
use wg.Codec.Tlv.Distinct.{Fits, Distinct, New, collected_of, collected_parts, sort_tlvs-Distinct}

check_required-same :
    (a b : List Tlv) (ts : List TlvType)
    → ((t : TlvType) → find_tlv a t ≡ find_tlv b t)
    → check_required a ts ≡ check_required b ts
unfolding check_required
check_required-same a b [] same = refl
check_required-same a b (t ∷ ts) same = rw (same t, check_required-same a b ts same) refl

nothing_seen : (fs : List Tlv) → All (New []) fs
nothing_seen [] = tt
nothing_seen (f ∷ fs) = (rw (← find_tlv_nil f.type) refl, nothing_seen fs)

found_of :
    (context : TlvContext) (fs out : List Tlv) (t : TlvType)
    → collect_tlvs context [] fs ≡ ok out
    → find_tlv out t ≡ find_tlv fs t
found_of context fs out t c = find_tlv-collect context [] fs out t c ∙ rw (← find_tlv_nil t) refl

-- What a successful check gives of the fields.
pub validate_tlvs_parts :
    (fs : List Tlv) (context : TlvContext)
    → validate_tlvs fs context ≡ ok tt
    → All (Fits context) fs × Distinct fs
unfolding validate_tlvs
validate_tlvs_parts fs context e =
    let (_, _, e1) =
      >>=-eq-ok (fail_if (not (context == 0) && not (context == 1) && not (context == 2)) _) _ e in
    let (out, c, _) = >>=-eq-ok (collect_tlvs context [] fs) _ e1 in
    let (fits, d, _) = collected_parts context [] fs out c in (fits, d)

pub validate_tlvs-sort :
    (fs : List Tlv) (context : TlvContext)
    → validate_tlvs fs context ≡ ok tt
    → validate_tlvs (sort_tlvs fs) context ≡ ok tt
unfolding validate_tlvs
validate_tlvs-sort fs context e =
    let (fits, d) = validate_tlvs_parts fs context e in
    let sorted = sort_tlvs fs in
    let (_, t, e1) =
      >>=-eq-ok (fail_if (not (context == 0) && not (context == 1) && not (context == 2)) _) _ e in
    let (out, c, e2) = >>=-eq-ok (collect_tlvs context [] fs) _ e1 in
    let (out', c') =
      collected_of context [] sorted (sort_tlvs-All (Fits context) fs fits)
        (sort_tlvs-Distinct fs d) (nothing_seen sorted) in
    let same : (t : TlvType) → find_tlv out' t ≡ find_tlv out t = λ t.
      found_of context sorted out' t c' ∙ find-sort_tlvs fs t ∙ sym (found_of context fs out t c) in
    rw
      (
        t,
        c',
        same 0x8D,
        same 0x8E,
        same 0x88,
        same 0x89,
        check_required-same out' out (required context) same,
      )
      e2

abbrev NotIn : Option TlvType → List Tlv → Type 0
NotIn none fs = Unit {0}
NotIn (some p) fs = present (find_tlv fs p) ≡ false

sorted-IsCanonical :
    (previous : Option TlvType) (fs : List Tlv)
    → IsSorted previous fs
    → NotIn previous fs
    → Distinct fs
    → All IsField fs
    → IsCanonical previous fs
sorted-IsCanonical previous [] s n d w = tt
sorted-IsCanonical none (f ∷ fs) (a, s) n (d, ds) (w, ws) =
    (tt, w, sorted-IsCanonical (some f.type) fs s d ds ws)
sorted-IsCanonical (some p) (f ∷ fs) (a, s) n (d, ds) (w, ws) = elim (Bool-cases (f.type == p)) [
  | inl e ↦ let bad = rw (find_tlv_same f fs p e) at n in cc
  | inr e ↦ (ground arith, w, sorted-IsCanonical (some f.type) fs s d ds ws)
]

length-insert_tlv :
    (f : Tlv) (fs : List Tlv) → length (emit_tlvs (insert_tlv f fs)) ≡ length (emit_tlvs (f ∷ fs))
unfolding insert_tlv
length-insert_tlv f [] = refl
length-insert_tlv f (g ∷ gs) = elim (Bool-cases (leb f.type g.type)) [
  | inl e ↦ rw e refl
  | inr e ↦ rw e (
      omega (
        arith,
        length-emit_tlvs g (insert_tlv f gs),
        length-insert_tlv f gs,
        length-emit_tlvs f gs,
        length-emit_tlvs f (g ∷ gs),
        length-emit_tlvs g gs,
      ))
]

length-sort_tlvs : (fs : List Tlv) → length (emit_tlvs (sort_tlvs fs)) ≡ length (emit_tlvs fs)
unfolding sort_tlvs
length-sort_tlvs [] = refl
length-sort_tlvs (f ∷ fs) = omega (
  arith,
  length-insert_tlv f (sort_tlvs fs),
  length-emit_tlvs f (sort_tlvs fs),
  length-emit_tlvs f fs,
  length-sort_tlvs fs,
)

fields_of : (context : TlvContext) (fs : List Tlv) → All (Fits context) fs → All IsField fs
fields_of context [] a = tt
fields_of context (f ∷ fs) ((w, _), a) = (w, fields_of context fs a)

-- Fields that pass the check of a context and fit a stream are serialized for it, and the stream
-- parses for that context to the sorted fields.
pub marshal_tlvs_for-some :
    (fs : List Tlv) (context : TlvContext)
    → validate_tlvs fs context ≡ ok tt
    → length (emit_tlvs fs) ≤ 65535
    → (bytes : List ℕ) × (marshal_tlvs_for fs context ≡ ok bytes)
      × (parse_tlvs_for bytes context ≡ ok (sort_tlvs fs))
unfolding marshal_tlvs_for parse_tlvs_for
marshal_tlvs_for-some fs context e size =
    let (fits, d) = validate_tlvs_parts fs context e in
    let sorted = sort_tlvs fs in
    let canonical : IsCanonical none sorted =
      sorted-IsCanonical none sorted (sort_tlvs-IsSorted fs) tt (sort_tlvs-Distinct fs d)
        (sort_tlvs-All IsField fs (fields_of context fs fits)) in
    let marshals : marshal_tlvs fs ≡ ok (emit_tlvs sorted) =
      unfold marshal_tlvs in
      rw (check_tlvs_of none 0 sorted canonical (omega (arith, size, length-sort_tlvs fs))) refl in
    (
      emit_tlvs sorted,
      rw e marshals,
      rw (parse-marshal_tlvs fs (emit_tlvs sorted) marshals, validate_tlvs-sort fs context e) refl,
    )
