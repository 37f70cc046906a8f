-- ===== src/Codec/Tlv/Parse.antt =====
-- What a successful parse of a stream of internal/codec/tlv.go says of the bytes.
use wg.Prelude.{
  ℕ, zero, suc, ◌+◌, ◌-◌, ◌≤◌, ◌≡◌, refl, sym, ap, ap₂, ◌∙◌, List, [], ◌∷◌, ◌++◌, length, take,
  drop, All, arith, append_assoc, append-nil, Option, some, ok, fail_if, ltb, length-take,
  take-append-drop, All-take, All-drop, >>=-eq-ok,
}
use wg.Prelude.Int.{pos}
use wg.Codec.Bytes.{IsBytes, be, put_be, byte_at, put_be-be}
use wg.Codec.Payload.{segment}
use wg.Codec.Tlv.{Tlv, TlvType, parse_tlvs_loop, emit_tlvs, check_order, validate_tlv_field}
use wg.Codec.Tlv.Stream.{IsField, After, IsCanonical, IsTlv, check_order_ok, validate_tlv_field_ok}

-- The field at the front of a stream.
abbrev pub size_at : List ℕ → ℕ
size_at rest = be (segment rest 1 2)

abbrev pub field_at : List ℕ → Tlv
field_at rest = record { type = byte_at rest 0; value = segment rest 3 (size_at rest) }

-- A round of the loop that led to success.
record Reads (fuel offset : ℕ) (previous : Option TlvType) (rest : List ℕ) (fields out : List Tlv)
    : Type 0 where
  pub long : 3 ≤ length rest
  pub enough : size_at rest ≤ length rest - 3
  pub order : After previous (field_at rest).type
  pub field_ok : IsField (field_at rest)
  pub next :
      parse_tlvs_loop fuel
        (offset + 3 + size_at rest)
        (some (field_at rest).type)
        (drop (size_at rest) (drop 3 rest))
        (fields ++ (field_at rest ∷ []))
      ≡ ok out

round_ok :
    (fuel offset : ℕ) (previous : Option TlvType) (b : ℕ) (bs : List ℕ) (fields out : List Tlv)
    → parse_tlvs_loop (suc fuel) offset previous (b ∷ bs) fields ≡ ok out
    → Reads fuel offset previous (b ∷ bs) fields out
unfolding parse_tlvs_loop
round_ok fuel offset previous b bs fields out e =
    let (_, long, e1) = >>=-eq-ok (fail_if (ltb (length (b ∷ bs)) 3) _) _ e in
    let (_, order, e2) = >>=-eq-ok (check_order previous b (pos offset)) _ e1 in
    let (_, enough, e3) =
      >>=-eq-ok (fail_if (ltb (length (b ∷ bs) - 3) (size_at (b ∷ bs))) _) _ e2 in
    let (_, valid, e4) = >>=-eq-ok (validate_tlv_field (field_at (b ∷ bs)) (pos offset)) _ e3 in
    record {
      long = ground (arith, long);
      enough = ground (arith, enough);
      order = check_order_ok previous b (pos offset) order;
      field_ok = validate_tlv_field_ok (field_at (b ∷ bs)) (pos offset) valid;
      next = e4;
    }

join_field :
    (rest : List ℕ) (fields : List Tlv)
    → IsBytes rest
    → 3 ≤ length rest
    → size_at rest ≤ length rest - 3
    → emit_tlvs fields ≡ drop (size_at rest) (drop 3 rest)
    → emit_tlvs (field_at rest ∷ fields) ≡ rest
unfolding emit_tlvs
join_field [] fields b long enough e = absurd (omega arith)
join_field (x ∷ []) fields b long enough e = absurd (omega arith)
join_field (x ∷ y ∷ []) fields b long enough e = absurd (omega arith)
join_field (x ∷ y ∷ z ∷ rest) fields (bx, (by, (bz, b))) long enough e =
    let n = size_at (x ∷ y ∷ z ∷ rest) in
    let size : length (take n rest) ≡ n = omega (arith, length-take n rest, enough) in
    ap (λ (t : List ℕ). x ∷ t)
      (ap₂ ◌++◌ (ap (put_be 2) size ∙ put_be-be 2 (y ∷ z ∷ []) (by, (bz, tt)) refl)
        (ap (λ (t : List ℕ). take n rest ++ t) e ∙ take-append-drop n rest))

-- A successful parse reads off canonical fields, whose encoding is the input.
pub record Stream (previous : Option TlvType) (rest : List ℕ) (fields out : List Tlv) : Type 0 where
  pub read : List Tlv
  pub out_is : out ≡ fields ++ read
  pub encoding : emit_tlvs read ≡ rest
  pub canonical : IsCanonical previous read
  pub ranges : All IsTlv read

empty-Stream :
    {previous : Option TlvType} (fields out : List Tlv)
    → out ≡ fields
    → Stream previous [] fields out
unfolding emit_tlvs
empty-Stream fields out e = record {
  read = [];
  out_is = e ∙ sym (append-nil fields);
  encoding = refl;
  canonical = tt;
  ranges = tt;
}

pub parse_tlvs_loop_ok :
    (fuel offset : ℕ) (previous : Option TlvType) (rest : List ℕ) (fields out : List Tlv)
    → IsBytes rest
    → parse_tlvs_loop fuel offset previous rest fields ≡ ok out
    → Stream previous rest fields out
unfolding parse_tlvs_loop
parse_tlvs_loop_ok zero offset previous [] fields out b e = empty-Stream fields out (ground arith)
parse_tlvs_loop_ok (suc fuel) offset previous [] fields out b e =
    empty-Stream fields out (ground arith)
parse_tlvs_loop_ok zero offset previous (x ∷ rest) fields out b e = ground arith
parse_tlvs_loop_ok (suc fuel) offset previous (x ∷ rest) fields out b e =
    let r = round_ok fuel offset previous x rest fields out e in
    let field = field_at (x ∷ rest) in
    let n = size_at (x ∷ rest) in
    let s =
      parse_tlvs_loop_ok fuel (offset + 3 + n) (some x) (drop n (drop 3 (x ∷ rest)))
        (fields ++ (field ∷ [])) out (All-drop _ n _ (All-drop _ 3 (x ∷ rest) b)) r.next in
    record {
      read = field ∷ s.read;
      out_is = s.out_is ∙ append_assoc fields (field ∷ []) s.read;
      encoding = join_field (x ∷ rest) s.read b r.long r.enough s.encoding;
      canonical = (r.order, r.field_ok, s.canonical);
      ranges = ((b.0, All-take _ n _ (All-drop _ 3 (x ∷ rest) b)), s.ranges);
    }
