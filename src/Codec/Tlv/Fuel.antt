-- ===== src/Codec/Tlv/Fuel.antt =====
-- The fuel of the loop of `ParseTLVs` in internal/codec/tlv.go.
use wg.Prelude.{
  ℕ, zero, suc, ◌+◌, ◌-◌, ◌≤◌, ◌≡◌, ◌≢◌, List, [], ◌∷◌, ◌++◌, length, drop, arith, Option, none,
  some, Bool, ok, err, ◌>>=◌, fail_if, ltb, true, false, length-drop,
}
use wg.Prelude.Int.{ℤ, pos}
use wg.Codec.Errors.{DecodeError, Decoded, stuck}
use wg.Codec.Tlv.{Tlv, TlvType, parse_tlvs_loop, parse_tlvs, check_order, validate_tlv_field}
use wg.Codec.Tlv.Parse.{size_at, field_at}

abbrev pub Finishes : {A : Type 0} → Decoded A → Type 0
Finishes (ok a) = Unit {0}
Finishes (err e) = e.kind ≢ stuck

pub >>=-Finishes :
    {A B : Type 0} (m : Decoded A) (f : A → Decoded B)
    → Finishes m
    → ((a : A) → Finishes (f a))
    → Finishes (m >>= f)
>>=-Finishes (ok a) f h k = k a
>>=-Finishes (err e) f h k = h

pub fail_if-Finishes : (b : Bool) (e : DecodeError) → e.kind ≢ stuck → Finishes (fail_if b e)
fail_if-Finishes true e h = h
fail_if-Finishes false e h = tt

check_order-Finishes :
    (previous : Option TlvType) (t : TlvType) (offset : ℤ)
    → Finishes (check_order previous t offset)
check_order-Finishes none t offset = tt
check_order-Finishes (some previous) t offset = ground arith

pub validate_tlv_field-Finishes :
    (field : Tlv) (offset : ℤ) → Finishes (validate_tlv_field field offset)
unfolding validate_tlv_field
validate_tlv_field-Finishes field offset = ground arith

parse_tlvs_loop-Finishes :
    (fuel offset : ℕ) (previous : Option TlvType) (rest : List ℕ) (fields : List Tlv)
    → length rest ≤ fuel
    → Finishes (parse_tlvs_loop fuel offset previous rest fields)
unfolding parse_tlvs_loop
parse_tlvs_loop-Finishes zero offset previous [] fields h = tt
parse_tlvs_loop-Finishes (suc fuel) offset previous [] fields h = tt
parse_tlvs_loop-Finishes zero offset previous (b ∷ bs) fields h = absurd (omega arith)
parse_tlvs_loop-Finishes (suc fuel) offset previous (b ∷ bs) fields h =
    >>=-Finishes (fail_if (ltb (length (b ∷ bs)) 3) _) _ (fail_if-Finishes _ _ (λ k. cc)) λ _.
      >>=-Finishes (check_order previous b (pos offset)) _
        (check_order-Finishes previous b (pos offset))
        λ _.
          >>=-Finishes (fail_if (ltb (length (b ∷ bs) - 3) (size_at (b ∷ bs))) _) _
            (fail_if-Finishes _ _ (λ k. cc))
            λ _.
              >>=-Finishes (validate_tlv_field (field_at (b ∷ bs)) (pos offset)) _
                (validate_tlv_field-Finishes _ _)
                λ _.
                  parse_tlvs_loop-Finishes fuel (offset + 3 + size_at (b ∷ bs)) (some b)
                    (drop (size_at (b ∷ bs)) (drop 3 (b ∷ bs))) (fields ++ (field_at (b ∷ bs) ∷ []))
                    (omega (arith, length-drop (size_at (b ∷ bs)) (drop 2 bs), length-drop 2 bs))

parse_tlvs-Finishes : (bytes : List ℕ) → Finishes (parse_tlvs bytes)
unfolding parse_tlvs
parse_tlvs-Finishes bytes =
    >>=-Finishes (fail_if (ltb 65535 (length bytes)) _) _ (fail_if-Finishes _ _ (λ k. cc))
      λ _. parse_tlvs_loop-Finishes (length bytes) 0 none bytes [] (omega arith)

-- The loop of `ParseTLVs` ends: an error that it returns is one of the source, never that the fuel
-- of the model ran out.
pub parse_tlvs_terminates :
    (bytes : List ℕ) (e : DecodeError) → parse_tlvs bytes ≡ err e → e.kind ≢ stuck
parse_tlvs_terminates bytes e h = rw h at (parse_tlvs-Finishes bytes)
