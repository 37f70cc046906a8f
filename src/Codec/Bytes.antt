-- ===== src/Codec/Bytes.antt =====
-- What the codec of internal/codec uses of slices and of encoding/binary. Reads are made behind the
-- code's own checks of the length; out of range the model reads 0.
use native.Mathlib.Nat.{pow-suc}
use wg.Prelude.{
  ℕ, zero, suc, ◌+◌, ◌-◌, ◌*◌, ◌/◌, ◌%◌, ◌^◌, ◌<◌, ◌≡◌, refl, sym, ap, ap₂, ◌∙◌, List, [], ◌∷◌,
  ◌++◌, length, get_or, take, drop, All, arith, length-append, All-append,
}

abbrev pub IsBytes : List ℕ → Type 0
IsBytes = All (λ b. b < 256)

abbrev pub byte_at : List ℕ → ℕ → ℕ
byte_at bytes i = get_or bytes i 0

-- `bytes[from:to]`
abbrev pub slice : List ℕ → ℕ → ℕ → List ℕ
slice bytes from to = take (to - from) (drop from bytes)

be_from : ℕ → List ℕ → ℕ
be_from acc [] = acc
be_from acc (b ∷ bs) = be_from (acc * 256 + b) bs

-- `binary.BigEndian.Uint16`, `Uint32` and `Uint64`, on the bytes of the number.
unfoldable pub be : List ℕ → ℕ
unfolding be_from
be bytes = be_from 0 bytes

-- `binary.BigEndian.PutUint16` and its like: the lowest `width` bytes of a number.
unfoldable pub put_be : ℕ → ℕ → List ℕ
put_be zero v = []
put_be (suc width) v = put_be width (v / 256) ++ (v % 256 ∷ [])

be_from-append :
    (acc : ℕ) (xs : List ℕ) (b : ℕ) → be_from acc (xs ++ (b ∷ [])) ≡ be_from acc xs * 256 + b
unfolding be_from
be_from-append acc [] b = refl
be_from-append acc (x ∷ xs) b = be_from-append (acc * 256 + x) xs b

pub be-put_be : (width v : ℕ) → v < 256 ^ width → be (put_be width v) ≡ v
unfolding be put_be
be-put_be zero v h = omega arith
be-put_be (suc width) v h =
    be_from-append 0 (put_be width (v / 256)) (v % 256)
    ∙ omega (arith, be-put_be width (v / 256) (omega (arith, pow-suc 256 width)))

pub length-put_be : (width v : ℕ) → length (put_be width v) ≡ width
unfolding put_be
length-put_be zero v = refl
length-put_be (suc width) v =
    length-append (put_be width (v / 256)) (v % 256 ∷ [])
    ∙ omega (arith, length-put_be width (v / 256))

pub put_be-IsBytes : (width v : ℕ) → IsBytes (put_be width v)
unfolding put_be
put_be-IsBytes zero v = tt
put_be-IsBytes (suc width) v =
    All-append _ (put_be width (v / 256)) (v % 256 ∷ []) (put_be-IsBytes width (v / 256))
      (omega arith, tt)

-- Two rows of bytes of one length that give the same number are the same.
be_from-injective :
    (xs ys : List ℕ) (acc acc' : ℕ)
    → IsBytes xs
    → IsBytes ys
    → length xs ≡ length ys
    → be_from acc xs ≡ be_from acc' ys
    → (acc ≡ acc') × (xs ≡ ys)
unfolding be_from
be_from-injective [] [] acc acc' h k l e = (e, refl)
be_from-injective [] (y ∷ ys) acc acc' h k l e = absurd (omega arith)
be_from-injective (x ∷ xs) [] acc acc' h k l e = absurd (omega arith)
be_from-injective (x ∷ xs) (y ∷ ys) acc acc' (hx, h) (hy, k) l e =
    let (heads, tails) =
      be_from-injective xs ys (acc * 256 + x) (acc' * 256 + y) h k (omega arith) e in
    (omega arith, ap₂ ◌∷◌ (omega arith) tails)

be-lt : (xs : List ℕ) (acc n : ℕ) → IsBytes xs → acc < n → be_from acc xs < n * 256 ^ length xs
unfolding be_from
be-lt [] acc n h l = omega arith
be-lt (x ∷ xs) acc n (hx, h) l = omega (
  arith,
  be-lt xs (acc * 256 + x) (n * 256) h (omega arith),
  ap (λ (t : ℕ). n * t) (pow-suc 256 (length xs)),
)

pub be-lt-pow : (xs : List ℕ) → IsBytes xs → be xs < 256 ^ length xs
unfolding be
be-lt-pow xs h = omega (arith, be-lt xs 0 1 h (omega arith))

pub put_be-be :
    (width : ℕ) (xs : List ℕ) → IsBytes xs → length xs ≡ width → put_be width (be xs) ≡ xs
unfolding be
put_be-be width xs h l =
    (be_from-injective (put_be width (be xs)) xs 0 0 (put_be-IsBytes width (be xs)) h
      (length-put_be width (be xs) ∙ sym l) (be-put_be width (be xs) (rw (← l) (be-lt-pow xs h)))).1
