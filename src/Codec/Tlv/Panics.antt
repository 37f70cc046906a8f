-- ===== src/Codec/Tlv/Panics.antt =====
-- The indices of `ValidateTLVs` of internal/codec/tlv.go.
use wg.Prelude.{
  ℕ, ◌<◌, ◌≡◌, ◌≢◌, refl, false, not, ◌&&◌, Option, none, some, List, [], ◌∷◌, length, All, arith,
  ltb, leb, ◌==◌, ok, err, ◌>>=◌, fail_if,
}
use wg.Prelude.Int.{negsuc}
use wg.Codec.Bytes.{byte_at}
use wg.Codec.Errors.{DecodeError, Decoded, tlv_context_error, tlv_length, missing_tlv, stuck}
use wg.Codec.Tlv.{
  Tlv, TlvType, known_tlv, fixed_tlv_length, wrong_length, validate_tlv_field, tlv_ipv4_lease,
  tlv_ipv6_lease,
}
use wg.Codec.Tlv.Stream.{IsField}
use wg.Codec.Tlv.Context.{
  TlvContext, allowed_in_context, find_tlv, present, required, collect_tlvs, check_prefix,
  check_required, differ, validate_tlvs,
}
use wg.Codec.Tlv.Fuel.{Finishes, >>=-Finishes, fail_if-Finishes, validate_tlv_field-Finishes}
use wg.Codec.Tlv.Required.{collect_tlvs-All, find_tlv-length}

collect_tlvs-Finishes :
    (context : TlvContext) (seen fields : List Tlv) → Finishes (collect_tlvs context seen fields)
unfolding collect_tlvs
collect_tlvs-Finishes context seen [] = tt
collect_tlvs-Finishes context seen (field ∷ fields) =
    >>=-Finishes (fail_if (present (find_tlv seen field.type)) _) _ (fail_if-Finishes _ _ (λ k. cc))
      λ _.
        >>=-Finishes (validate_tlv_field field (negsuc 0)) _ (validate_tlv_field-Finishes _ _) λ _.
          >>=-Finishes
            (fail_if
              (not (context == 0)
                && known_tlv field.type
                && not (allowed_in_context field.type context))
              _)
            _ (fail_if-Finishes _ _ (λ k. cc))
            λ _. collect_tlvs-Finishes context (field ∷ seen) fields

check_required-Finishes : (seen : List Tlv) (ts : List TlvType) → Finishes (check_required seen ts)
unfolding check_required
check_required-Finishes seen [] = tt
check_required-Finishes seen (t ∷ ts) =
    >>=-Finishes (fail_if (not (present (find_tlv seen t))) _) _ (fail_if-Finishes _ _ (λ k. cc))
      λ _. check_required-Finishes seen ts

check_prefix-Finishes :
    (o : Option (List ℕ)) (i max : ℕ) (e : DecodeError)
    → e.kind ≢ stuck
    → ((v : List ℕ) → o ≡ some v → i < length v)
    → Finishes (check_prefix o i max e)
unfolding check_prefix
check_prefix-Finishes none i max e n h = tt
check_prefix-Finishes (some v) i max e n h =
    let fits : leb (length v) i ≡ false = ground (arith, h v refl) in
    rw fits (fail_if-Finishes (ltb max (byte_at v i)) e n)

bind-Finishes :
    {A B : Type 0} (m : Decoded A) (f : A → Decoded B)
    → Finishes m
    → ((a : A) → m ≡ ok a → Finishes (f a))
    → Finishes (m >>= f)
bind-Finishes (ok a) f h k = k a refl
bind-Finishes (err e) f h k = h

-- A lease in the map is long enough for the index of its prefix.
lease-lt :
    (seen : List Tlv) (t : TlvType) (n i : ℕ) (v : List ℕ)
    → fixed_tlv_length t ≡ some n
    → i < n
    → All IsField seen
    → find_tlv seen t ≡ some v
    → i < length v
lease-lt seen t n i v f l w e =
    let kept : wrong_length (some n) (length v) ≡ false = rw f at (find_tlv-length seen t v w e) in
    ground (arith, kept)

lengths : (fixed_tlv_length tlv_ipv4_lease ≡ some 5) × (fixed_tlv_length tlv_ipv6_lease ≡ some 17)
unfolding fixed_tlv_length
lengths = (refl, refl)

validate_tlvs-Finishes :
    (fields : List Tlv) (context : TlvContext) → Finishes (validate_tlvs fields context)
unfolding validate_tlvs
validate_tlvs-Finishes fields context =
    >>=-Finishes (fail_if (not (context == 0) && not (context == 1) && not (context == 2)) _) _
      (fail_if-Finishes _ _ different)
      λ _.
        bind-Finishes (collect_tlvs context [] fields) _ (collect_tlvs-Finishes context [] fields)
          λ seen c.
            let w = collect_tlvs-All context [] fields seen tt c in
            >>=-Finishes
              (fail_if (differ (present (find_tlv seen 0x8D)) (present (find_tlv seen 0x8E))) _) _
              (fail_if-Finishes _ _ different)
              λ _.
                >>=-Finishes (check_prefix (find_tlv seen 0x88) 4 32 _) _
                  (check_prefix-Finishes _ 4 32 _ different'
                    (λ v. lease-lt seen 0x88 5 4 v lengths.0 (omega arith) w))
                  λ _.
                    >>=-Finishes (check_prefix (find_tlv seen 0x89) 16 128 _) _
                      (check_prefix-Finishes _ 16 128 _ different'
                        (λ v. lease-lt seen 0x89 17 16 v lengths.1 (omega arith) w))
                      λ _.
                        >>=-Finishes (check_required seen (required context)) _
                          (check_required-Finishes seen _) λ _. fail_if-Finishes _ _ different''
  where
    different : tlv_context_error ≢ stuck
    different k = cc

    different' : tlv_length ≢ stuck
    different' k = cc

    different'' : missing_tlv ≢ stuck
    different'' k = cc

-- `ValidateTLVs` does not read past the end of a lease: an error that it returns is one of the
-- source, whatever the fields and the context.
pub validate_tlvs_terminates :
    (fields : List Tlv) (context : TlvContext) (e : DecodeError)
    → validate_tlvs fields context ≡ err e
    → e.kind ≢ stuck
validate_tlvs_terminates fields context e h = rw h at (validate_tlvs-Finishes fields context)
