-- ===== src/Codec/Tlv/Sort.antt =====
-- The sort of the serializer of internal/codec/tlv.go, and what the serializer's checks give.
use wg.Prelude.{
  ℕ, ◌+◌, ◌≤◌, ◌≡◌, refl, ap, ◌∙◌, ◌==◌, if◌then◌else◌, List, [], ◌∷◌, length, All, arith, Option,
  inl, inr, none, some, ok, fail_if, ltb, leb, false, >>=-eq-ok, fail_if-eq-ok, Bool-cases,
}
use wg.Prelude.Int.{negsuc}
use wg.Codec.Tlv.{
  Tlv, TlvType, insert_tlv, sort_tlvs, check_tlvs, emit_tlvs, is_duplicate, validate_tlv_field,
}
use wg.Codec.Tlv.Context.{find_tlv}
use wg.Codec.Tlv.Stream.{After, IsCanonical, validate_tlv_field_ok, length-emit_tlvs}

-- Sorting is stable, so that it moves no field before another of the same type.
pub find-insert_tlv :
    (f : Tlv) (fs : List Tlv) (t : TlvType)
    → find_tlv (insert_tlv f fs) t ≡ (if f.type == t then some f.value else find_tlv fs t)
unfolding find_tlv insert_tlv
find-insert_tlv f [] t = refl
find-insert_tlv f (g ∷ gs) t = ground (arith, find-insert_tlv f gs t)

pub find-sort_tlvs : (fs : List Tlv) (t : TlvType) → find_tlv (sort_tlvs fs) t ≡ find_tlv fs t
unfolding find_tlv sort_tlvs
find-sort_tlvs [] t = refl
find-sort_tlvs (f ∷ fs) t =
    find-insert_tlv f (sort_tlvs fs) t
    ∙ ap (λ (o : Option (List ℕ)). if f.type == t then some f.value else o) (find-sort_tlvs fs t)

abbrev pub AtLeast : Option TlvType → TlvType → Type 0
AtLeast none t = Unit {0}
AtLeast (some previous) t = previous ≤ t

-- Weakly increasing types.
abbrev pub IsSorted : Option TlvType → List Tlv → Type 0
IsSorted previous [] = Unit {0}
IsSorted previous (field ∷ fields) = AtLeast previous field.type × IsSorted (some field.type) fields

pub insert_tlv-IsSorted :
    (previous : Option TlvType) (field : Tlv) (fields : List Tlv)
    → AtLeast previous field.type
    → IsSorted previous fields
    → IsSorted previous (insert_tlv field fields)
unfolding insert_tlv
insert_tlv-IsSorted previous field [] a s = (a, tt)
insert_tlv-IsSorted previous field (g ∷ gs) a (b, s) = elim (Bool-cases (leb field.type g.type)) [
  | inl e ↦ rw e (a, (ground (arith, e), s))
  | inr e ↦ rw e (b, insert_tlv-IsSorted (some g.type) field gs (ground arith) s)
]

pub sort_tlvs-IsSorted : (fields : List Tlv) → IsSorted none (sort_tlvs fields)
unfolding sort_tlvs
sort_tlvs-IsSorted [] = tt
sort_tlvs-IsSorted (field ∷ fields) =
    insert_tlv-IsSorted none field (sort_tlvs fields) tt (sort_tlvs-IsSorted fields)

module _ (P : Tlv → Type 0) where
  insert_tlv-All :
      (field : Tlv) (fields : List Tlv) → P field → All P fields → All P (insert_tlv field fields)
  unfolding insert_tlv
  insert_tlv-All field [] v s = (v, tt)
  insert_tlv-All field (g ∷ gs) v (w, s) = elim (Bool-cases (leb field.type g.type)) [
    | inl e ↦ rw e (v, (w, s))
    | inr e ↦ rw e (w, insert_tlv-All field gs v s)
  ]

  pub sort_tlvs-All : (fields : List Tlv) → All P fields → All P (sort_tlvs fields)
  unfolding sort_tlvs
  sort_tlvs-All [] v = tt
  sort_tlvs-All (field ∷ fields) (v, s) =
      insert_tlv-All field (sort_tlvs fields) v (sort_tlvs-All fields s)

insert_tlv_first :
    (field : Tlv) (fields : List Tlv)
    → IsCanonical (some field.type) fields
    → insert_tlv field fields ≡ field ∷ fields
unfolding insert_tlv
insert_tlv_first field [] c = refl
insert_tlv_first field (g ∷ gs) c = ground (arith, c.0)

-- Canonical fields are in place already.
pub sort_tlvs_canonical :
    (previous : Option TlvType) (fields : List Tlv)
    → IsCanonical previous fields
    → sort_tlvs fields ≡ fields
unfolding sort_tlvs
sort_tlvs_canonical previous [] c = refl
sort_tlvs_canonical previous (field ∷ fields) (a, v, c) =
    rw (sort_tlvs_canonical (some field.type) fields c) (insert_tlv_first field fields c)

nil_size : length (emit_tlvs []) ≡ 0
unfolding emit_tlvs
nil_size = refl

strict :
    (previous : Option TlvType) (t : TlvType)
    → AtLeast previous t
    → is_duplicate previous t ≡ false
    → After previous t
strict none t a d = tt
strict (some previous) t a d = ground arith

-- The checks of the serializer turn the weak order into the strict one.
pub check_tlvs_ok :
    (previous : Option TlvType) (total : ℕ) (fields : List Tlv)
    → IsSorted previous fields
    → total ≤ 65535
    → check_tlvs previous total fields ≡ ok tt
    → IsCanonical previous fields × (total + length (emit_tlvs fields) ≤ 65535)
unfolding check_tlvs
check_tlvs_ok previous total [] s t e = (tt, rw nil_size (omega arith))
check_tlvs_ok previous total (field ∷ fields) (a, s) t e =
    let (_, d, e1) = >>=-eq-ok (fail_if (is_duplicate previous field.type) _) _ e in
    let (_, v, e2) = >>=-eq-ok (validate_tlv_field field (negsuc 0)) _ e1 in
    let (_, l, e3) = >>=-eq-ok (fail_if (ltb 65535 (length field.value)) _) _ e2 in
    let (_, m, e4) = >>=-eq-ok (fail_if (ltb 65535 (total + 3 + length field.value)) _) _ e3 in
    let (c, fits) =
      check_tlvs_ok (some field.type) (total + 3 + length field.value) fields s (ground (arith, m))
        e4 in
    (
      (
        strict previous field.type a (fail_if-eq-ok _ _ d),
        validate_tlv_field_ok field (negsuc 0) v,
        c,
      ),
      omega (arith, fits, length-emit_tlvs field fields),
    )
