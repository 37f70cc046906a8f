-- ===== src/Codec/Tlv/Distinct.antt =====
-- The loop of `ValidateTLVs` of internal/codec/tlv.go: it ends well where each field has a place in
-- the context and no type stands twice, in any order.
use wg.Prelude.{
  ◌≡◌, refl, false, not, ◌&&◌, List, [], ◌∷◌, All, arith, leb, ◌==◌, ok, Bool-cases, inl, inr,
}
use wg.Prelude.Int.{negsuc}
use wg.Codec.Tlv.{Tlv, known_tlv, insert_tlv, sort_tlvs}
use wg.Codec.Tlv.Stream.{IsField, validate_tlv_field_of}
use wg.Codec.Tlv.Sort.{find-insert_tlv, find-sort_tlvs}
use wg.Codec.Tlv.Required.{round_ok, find_tlv_same, find_tlv_other, find_tlv_nil}
use wg.Codec.Tlv.Context.{TlvContext, allowed_in_context, find_tlv, present, collect_tlvs}

-- A field that is well formed and has a place in the context.
abbrev pub Fits : TlvContext → Tlv → Type 0
Fits context field =
    IsField field
    × ((not (context == 0) && known_tlv field.type && not (allowed_in_context field.type context))
        ≡ false)

-- No type stands twice.
abbrev pub Distinct : List Tlv → Type 0
Distinct [] = Unit {0}
Distinct (field ∷ fields) = (present (find_tlv fields field.type) ≡ false) × Distinct fields

abbrev pub New : List Tlv → Tlv → Type 0
New seen field = present (find_tlv seen field.type) ≡ false

unseen_after :
    (f : Tlv) (seen fs : List Tlv)
    → present (find_tlv fs f.type) ≡ false
    → All (New seen) fs
    → All (New (f ∷ seen)) fs
unseen_after f seen [] d ns = tt
unseen_after f seen (g ∷ gs) d (n, ns) = elim (Bool-cases (g.type == f.type)) [
  | inl e ↦ let bad = rw (find_tlv_same g gs f.type e) at d in cc
  | inr e ↦
      let e' : (f.type == g.type) ≡ false = ground arith in
      (
        rw (find_tlv_other f seen g.type e') n,
        unseen_after f seen gs (rw (find_tlv_other g gs f.type e) at d) ns,
      )
]

unseen_before :
    (f : Tlv) (seen fs : List Tlv)
    → All (New (f ∷ seen)) fs
    → (present (find_tlv fs f.type) ≡ false) × All (New seen) fs
unseen_before f seen [] ns = (rw (← find_tlv_nil f.type) refl, tt)
unseen_before f seen (g ∷ gs) (n, ns) = elim (Bool-cases (f.type == g.type)) [
  | inl e ↦ let bad = rw (find_tlv_same f seen g.type e) at n in cc
  | inr e ↦
      let e' : (g.type == f.type) ≡ false = ground arith in
      let (d, ms) = unseen_before f seen gs ns in
      (rw (find_tlv_other g gs f.type e') d, (rw (find_tlv_other f seen g.type e) at n, ms))
]

pub collected_of :
    (context : TlvContext) (seen fields : List Tlv)
    → All (Fits context) fields
    → Distinct fields
    → All (New seen) fields
    → (out : List Tlv) × (collect_tlvs context seen fields ≡ ok out)
unfolding collect_tlvs
collected_of context seen [] fits d ns = (seen, refl)
collected_of context seen (f ∷ fs) ((w, a), fits) (d, ds) (n, ns) =
    let (out, e) = collected_of context (f ∷ seen) fs fits ds (unseen_after f seen fs d ns) in
    (out, rw (n, validate_tlv_field_of f (negsuc 0) w, a) e)

pub collected_parts :
    (context : TlvContext) (seen fields out : List Tlv)
    → collect_tlvs context seen fields ≡ ok out
    → All (Fits context) fields × Distinct fields × All (New seen) fields
collected_parts context seen [] out e = (tt, tt, tt)
collected_parts context seen (f ∷ fs) out e =
    let r = round_ok context seen f fs out e in
    let (fits, ds, ns) = collected_parts context (f ∷ seen) fs out r.next in
    let (d, ms) = unseen_before f seen fs ns in (((r.valid, r.fitting), fits), (d, ds), (r.new, ms))

insert_tlv-Distinct :
    (f : Tlv) (fs : List Tlv)
    → present (find_tlv fs f.type) ≡ false
    → Distinct fs
    → Distinct (insert_tlv f fs)
unfolding insert_tlv
insert_tlv-Distinct f [] n d = (n, tt)
insert_tlv-Distinct f (g ∷ gs) n (d, ds) = elim (Bool-cases (leb f.type g.type)) [
  | inl e ↦ rw e (n, (d, ds))
  | inr e ↦
      let e' : (f.type == g.type) ≡ false = ground (arith, e) in
      let e'' : (g.type == f.type) ≡ false = ground (arith, e) in
      rw e (
        rw (find-insert_tlv f gs g.type, e') d,
        insert_tlv-Distinct f gs (rw (find_tlv_other g gs f.type e'') at n) ds,
      )
]

pub sort_tlvs-Distinct : (fs : List Tlv) → Distinct fs → Distinct (sort_tlvs fs)
unfolding sort_tlvs
sort_tlvs-Distinct [] d = tt
sort_tlvs-Distinct (f ∷ fs) (d, ds) =
    insert_tlv-Distinct f (sort_tlvs fs) (rw (find-sort_tlvs fs f.type) d)
      (sort_tlvs-Distinct fs ds)
