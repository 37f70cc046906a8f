-- ===== src/Codec/Tlv/Required.antt =====
-- The required fields of `ValidateTLVs` of internal/codec/tlv.go, as the code that reads the fields
-- finds them.
use wg.Prelude.{
  ℕ, ◌≡◌, refl, sym, ◌∙◌, true, false, not, ◌&&◌, Option, none, some, List, [], ◌∷◌, length, All,
  arith, ◌==◌, ok, fail_if, >>=-eq-ok, fail_if-eq-ok, Bool-cases, inl, inr,
}
use wg.Prelude.Int.{negsuc}
use wg.Codec.Tlv.{Tlv, TlvType, known_tlv, fixed_tlv_length, wrong_length, validate_tlv_field}
use wg.Codec.Tlv.Stream.{IsField, validate_tlv_field_ok}
use wg.Codec.Tlv.Context.{
  TlvContext, allowed_in_context, find_tlv, present, required, collect_tlvs, check_prefix,
  check_required, differ, validate_tlvs,
}

-- The first of two look-ups.
abbrev pub either : Option (List ℕ) → Option (List ℕ) → Option (List ℕ)
either none b = b
either (some v) b = some v

-- A round of the loop over the fields.
pub record Collects (context : TlvContext) (seen : List Tlv) (field : Tlv) (fields out : List Tlv)
    : Type 0 where
  pub new : present (find_tlv seen field.type) ≡ false
  pub valid : IsField field
  pub fitting :
      (not (context == 0) && known_tlv field.type && not (allowed_in_context field.type context))
      ≡ false
  pub next : collect_tlvs context (field ∷ seen) fields ≡ ok out

pub round_ok :
    (context : TlvContext) (seen : List Tlv) (field : Tlv) (fields out : List Tlv)
    → collect_tlvs context seen (field ∷ fields) ≡ ok out
    → Collects context seen field fields out
unfolding collect_tlvs
round_ok context seen field fields out e =
    let (_, d, e1) = >>=-eq-ok (fail_if (present (find_tlv seen field.type)) _) _ e in
    let (_, v, e2) = >>=-eq-ok (validate_tlv_field field (negsuc 0)) _ e1 in
    let (_, a, e3) =
      >>=-eq-ok
        (fail_if
          (not (context == 0)
            && known_tlv field.type
            && not (allowed_in_context field.type context))
          _)
        _ e2 in
    record {
      new = fail_if-eq-ok _ _ d;
      valid = validate_tlv_field_ok field (negsuc 0) v;
      fitting = fail_if-eq-ok _ _ a;
      next = e3;
    }

collect_tlvs_nil :
    (context : TlvContext) (seen out : List Tlv)
    → collect_tlvs context seen [] ≡ ok out
    → out ≡ seen
unfolding collect_tlvs
collect_tlvs_nil context seen out e = ground arith

pub collect_tlvs-All :
    (context : TlvContext) (seen fields out : List Tlv)
    → All IsField seen
    → collect_tlvs context seen fields ≡ ok out
    → All IsField out
collect_tlvs-All context seen [] out v e = rw (collect_tlvs_nil context seen out e) v
collect_tlvs-All context seen (field ∷ fields) out v e =
    let r = round_ok context seen field fields out e in
    collect_tlvs-All context (field ∷ seen) fields out (r.valid, v) r.next

pub absent : (o : Option (List ℕ)) → present o ≡ false → o ≡ none
absent none h = refl
absent (some v) h = cc

pub find_tlv_same :
    (field : Tlv) (fields : List Tlv) (t : TlvType)
    → (field.type == t) ≡ true
    → find_tlv (field ∷ fields) t ≡ some field.value
unfolding find_tlv
find_tlv_same field fields t e = rw e

pub find_tlv_other :
    (field : Tlv) (fields : List Tlv) (t : TlvType)
    → (field.type == t) ≡ false
    → find_tlv (field ∷ fields) t ≡ find_tlv fields t
unfolding find_tlv
find_tlv_other field fields t e = rw e

find_tlv-move :
    (seen : List Tlv) (field : Tlv) (fields : List Tlv) (t : TlvType)
    → present (find_tlv seen field.type) ≡ false
    → either (find_tlv (field ∷ seen) t) (find_tlv fields t)
      ≡ either (find_tlv seen t) (find_tlv (field ∷ fields) t)
find_tlv-move seen field fields t new = elim (Bool-cases (field.type == t)) [
  | inl e ↦
      let same : field.type ≡ t = ground (arith, e) in
      rw (
        find_tlv_same field seen t e,
        find_tlv_same field fields t e,
        absent (find_tlv seen t) (rw same at new),
      )
  | inr e ↦ rw (find_tlv_other field seen t e, find_tlv_other field fields t e)
]

pub find_tlv_nil : (t : TlvType) → none ≡ find_tlv [] t
unfolding find_tlv
find_tlv_nil t = refl

-- The map holds what the list holds.
pub find_tlv-collect :
    (context : TlvContext) (seen fields out : List Tlv) (t : TlvType)
    → collect_tlvs context seen fields ≡ ok out
    → find_tlv out t ≡ either (find_tlv seen t) (find_tlv fields t)
find_tlv-collect context seen [] out t e =
    rw (collect_tlvs_nil context seen out e) (nothing (find_tlv seen t))
  where
    nothing : (o : Option (List ℕ)) → o ≡ either o (find_tlv [] t)
    nothing none = find_tlv_nil t
    nothing (some v) = refl
find_tlv-collect context seen (field ∷ fields) out t e =
    let r = round_ok context seen field fields out e in
    find_tlv-collect context (field ∷ seen) fields out t r.next
    ∙ find_tlv-move seen field fields t r.new

-- A well-formed field that is found has the fixed length of its type.
pub find_tlv-length :
    (fields : List Tlv) (t : TlvType) (v : List ℕ)
    → All IsField fields
    → find_tlv fields t ≡ some v
    → wrong_length (fixed_tlv_length t) (length v) ≡ false
unfolding find_tlv
find_tlv-length [] t v w e = ground arith
find_tlv-length (field ∷ fields) t v (w, ws) e = elim (Bool-cases (field.type == t)) [
  | inl h ↦
      let same : field.type ≡ t = ground (arith, h) in
      let value : field.value ≡ v = cc (find_tlv_same field fields t h, e) in
      rw (same, value) at w.length_kept
  | inr h ↦ find_tlv-length fields t v ws (sym (find_tlv_other field fields t h) ∙ e)
]

-- A field of this type is found, and it has the length of its type.
abbrev pub Found : List Tlv → TlvType → Type 0
Found fields t =
    (v : List ℕ) × (find_tlv fields t ≡ some v)
    × (wrong_length (fixed_tlv_length t) (length v) ≡ false)

check_required-Found :
    (fields seen : List Tlv) (ts : List TlvType)
    → ((t : TlvType) → find_tlv seen t ≡ find_tlv fields t)
    → All IsField seen
    → check_required seen ts ≡ ok tt
    → All (Found fields) ts
unfolding check_required
check_required-Found fields seen [] same w e = tt
check_required-Found fields seen (t ∷ ts) same w e =
    let (_, d, e1) = >>=-eq-ok (fail_if (not (present (find_tlv seen t))) _) _ e in
    let (v, f) = found (find_tlv seen t) (fail_if-eq-ok _ _ d) in
    (
      (v, sym (same t) ∙ f, find_tlv-length seen t v w f),
      check_required-Found fields seen ts same w e1,
    )
  where
    found : (o : Option (List ℕ)) → not (present o) ≡ false → (v : List ℕ) × (o ≡ some v)
    found none h = cc
    found (some v) h = (v, refl)

-- The length of a field is that of its type, where that is fixed.
abbrev pub HasLength : Tlv → Type 0
HasLength field = wrong_length (fixed_tlv_length field.type) (length field.value) ≡ false

collect_tlvs-HasLength :
    (context : TlvContext) (seen fields out : List Tlv)
    → collect_tlvs context seen fields ≡ ok out
    → All HasLength fields
collect_tlvs-HasLength context seen [] out e = tt
collect_tlvs-HasLength context seen (field ∷ fields) out e =
    let r = round_ok context seen field fields out e in
    (r.valid.length_kept, collect_tlvs-HasLength context (field ∷ seen) fields out r.next)

-- What a successful `ValidateTLVs` checked, of the map that it built.
record Checked (fields : List Tlv) (context : TlvContext) : Type 0 where
  pub seen : List Tlv
  pub collected : collect_tlvs context [] fields ≡ ok seen
  pub complete : check_required seen (required context) ≡ ok tt

validate_tlvs_ok :
    (fields : List Tlv) (context : TlvContext)
    → validate_tlvs fields context ≡ ok tt
    → Checked fields context
unfolding validate_tlvs
validate_tlvs_ok fields context e =
    let (_, _, e1) =
      >>=-eq-ok (fail_if (not (context == 0) && not (context == 1) && not (context == 2)) _) _ e in
    let (seen, c, e2) = >>=-eq-ok (collect_tlvs context [] fields) _ e1 in
    let (_, _, e3) =
      >>=-eq-ok (fail_if (differ (present (find_tlv seen 0x8D)) (present (find_tlv seen 0x8E))) _) _
        e2 in
    let (_, _, e4) = >>=-eq-ok (check_prefix (find_tlv seen 0x88) 4 32 _) _ e3 in
    let (_, _, e5) = >>=-eq-ok (check_prefix (find_tlv seen 0x89) 16 128 _) _ e4 in
    let (_, q, _) = >>=-eq-ok (check_required seen (required context)) _ e5 in
    record { seen = seen; collected = c; complete = q }

-- Where `ValidateTLVs` accepts, `FindTLV` finds each field that the context requires, with the
-- length of its type where that is fixed, and every field given, required or not, has the length
-- of its type where that is fixed.
pub validate_tlvs-find_tlv :
    (fields : List Tlv) (context : TlvContext)
    → validate_tlvs fields context ≡ ok tt
    → All (Found fields) (required context) × All HasLength fields
validate_tlvs-find_tlv fields context e =
    let c = validate_tlvs_ok fields context e in
    (
      check_required-Found fields c.seen (required context)
          (λ t. moved t (find_tlv-collect context [] fields c.seen t c.collected))
          (collect_tlvs-All context [] fields c.seen tt c.collected) c.complete,
      collect_tlvs-HasLength context [] fields c.seen c.collected,
    )
  where
    moved :
        (t : TlvType) {o : Option (List ℕ)}
        → o ≡ either (find_tlv [] t) (find_tlv fields t)
        → o ≡ find_tlv fields t
    moved t h = rw (← find_tlv_nil t) at h
