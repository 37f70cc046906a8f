-- ===== src/Prelude/Bits.antt =====
-- The binary digits of a number, and what `&`, `|` and the shifts of Go do to them.
use Prim.Native.Nat.{
  ℕ, zero, suc, ◌+◌, ◌-◌, ◌*◌, ◌/◌, ◌%◌, ◌^◌, ◌≤◌, ◌<◌, min, max, bit_and, bit_or, digits, bitwise,
  bit_and-bitwise, bit_or-bitwise,
}
use mathlib.Core.Path.{◌≡◌, refl, ap, ◌∙◌}
use mathlib.Core.Logic.{◌≢◌}
use native.Mathlib.Nat.{
  le_refl, pow-suc, pow-succ', one-le-pow, div-div-eq-div-mul, add-zero, add-suc, div-one,
  mul-add-mod_self_left, mod-eq_of_lt, div-add-mod, mod-lt, mul-one,
}
use native.Mathlib.Omega.{arith}

-- The digit of `a` at place `k`, counted from the lowest: 0 or 1.
pub bit_at : ℕ → ℕ → ℕ
bit_at zero a = a % 2
bit_at (suc k) a = bit_at k (a / 2)

pub bit_at-lt : (k a : ℕ) → bit_at k a < 2
unfolding bit_at
bit_at-lt zero a = omega arith
bit_at-lt (suc k) a = bit_at-lt k (a / 2)

bit_at-suc : (k a : ℕ) → bit_at (suc k) a ≡ bit_at k (a / 2)
unfolding bit_at
bit_at-suc k a = refl

-- The native operations mean a recursion on digits with fuel. More fuel than the first number gives
-- the same result.
module _ (base : ℕ → ℕ) (join : ℕ → ℕ → ℕ) where
  fuel_suc :
      (limit x y : ℕ) → x ≤ limit → digits base join (suc limit) x y ≡ digits base join limit x y
  fuel_suc zero zero y h = refl
  fuel_suc (suc limit) zero y h = refl
  fuel_suc zero (suc x) y h = absurd (omega arith)
  fuel_suc (suc limit) (suc x) y h = rw (fuel_suc limit (suc x / 2) (y / 2) (omega arith))

  spare_fuel :
      (spare fuel x y : ℕ) → fuel ≡ spare + x → digits base join fuel x y ≡ digits base join x x y
  spare_fuel zero fuel x y e = ap (λ (t : ℕ). digits base join t x y) (omega arith)
  spare_fuel (suc spare) fuel x y e =
      ap (λ (t : ℕ). digits base join t x y) {y = suc (spare + x)} (omega arith)
      ∙ fuel_suc (spare + x) x y (omega arith)
      ∙ spare_fuel spare (spare + x) x y refl

  lowest_digit :
      (x y : ℕ)
      → bitwise base join (suc x) y
        ≡ join (suc x % 2) (y % 2) + 2 * bitwise base join (suc x / 2) (y / 2)
  lowest_digit x y = omega (arith, spare_fuel (x - suc x / 2) x (suc x / 2) (y / 2) (omega arith))

bit_and_step : (x y : ℕ) → bit_and x y ≡ min (x % 2) (y % 2) + 2 * bit_and (x / 2) (y / 2)
bit_and_step zero y = simp bit_and-bitwise (omega arith)
bit_and_step (suc x) y = simp bit_and-bitwise (lowest_digit (λ t. 0) min x y)

bit_or_step : (x y : ℕ) → bit_or x y ≡ max (x % 2) (y % 2) + 2 * bit_or (x / 2) (y / 2)
bit_or_step zero y = simp bit_or-bitwise (omega arith)
bit_or_step (suc x) y = simp bit_or-bitwise (lowest_digit (λ t. t) max x y)

bit_or_half : (a b : ℕ) → bit_or a b / 2 ≡ bit_or (a / 2) (b / 2)
bit_or_half a b = omega (arith, bit_or_step a b)

bit_and_half : (a b : ℕ) → bit_and a b / 2 ≡ bit_and (a / 2) (b / 2)
bit_and_half a b = omega (arith, bit_and_step a b)

-- `|` takes the larger of the two digits, place by place.
pub bit_at-bit_or : (k a b : ℕ) → bit_at k (bit_or a b) ≡ max (bit_at k a) (bit_at k b)
unfolding bit_at
bit_at-bit_or zero a b = omega (arith, bit_or_step a b)
bit_at-bit_or (suc k) a b = rw bit_or_half (bit_at-bit_or k (a / 2) (b / 2))

bit_and-zero : (k a : ℕ) → a ≤ k → bit_and a 0 ≡ 0
bit_and-zero k zero h = refl
bit_and-zero zero (suc a) h = absurd (omega arith)
bit_and-zero (suc k) (suc a) h =
    omega (arith, bit_and_step (suc a) 0, bit_and-zero k (suc a / 2) (omega arith))

pow_half : (k : ℕ) → 2 ^ suc k / 2 ≡ 2 ^ k
pow_half k = omega (arith, pow-suc 2 k)

pow_even : (k : ℕ) → 2 ^ suc k % 2 ≡ 0
pow_even k = omega (arith, pow-suc 2 k)

-- `a & (1 << k)` is the digit at `k`, at its place.
pub bit_and-two-pow : (k a : ℕ) → bit_and a (2 ^ k) ≡ bit_at k a * 2 ^ k
unfolding bit_at
bit_and-two-pow zero a = omega (arith, bit_and_step a 1, bit_and-zero (a / 2) (a / 2) (le_refl _))
bit_and-two-pow (suc k) a = omega (
  arith,
  bit_and_step a (2 ^ suc k),
  ap (λ (t : ℕ). bit_and (a / 2) t) (pow_half k),
  pow_even k,
  bit_and-two-pow k (a / 2),
  ap (λ (t : ℕ). bit_at k (a / 2) * t) (pow-suc 2 k),
)

pub bit_at-zero : (k : ℕ) → bit_at k 0 ≡ 0
unfolding bit_at
bit_at-zero zero = refl
bit_at-zero (suc k) = bit_at-zero k

pub bit_at-two-pow_self : (k : ℕ) → bit_at k (2 ^ k) ≡ 1
unfolding bit_at
bit_at-two-pow_self zero = refl
bit_at-two-pow_self (suc k) = rw pow_half (bit_at-two-pow_self k)

pub bit_at-two-pow_ne : (j k : ℕ) → j ≢ k → bit_at j (2 ^ k) ≡ 0
unfolding bit_at
bit_at-two-pow_ne zero zero h = absurd (h refl)
bit_at-two-pow_ne zero (suc k) h = pow_even k
bit_at-two-pow_ne (suc j) zero h = bit_at-zero j
bit_at-two-pow_ne (suc j) (suc k) h = rw pow_half (bit_at-two-pow_ne j k (λ e. h (ap suc e)))

shl_half : (a s : ℕ) → a * 2 ^ suc s / 2 ≡ a * 2 ^ s
shl_half a s = omega (arith, ap (λ (t : ℕ). a * t) (pow-suc 2 s))

shl_even : (a s : ℕ) → a * 2 ^ suc s % 2 ≡ 0
shl_even a s = omega (arith, ap (λ (t : ℕ). a * t) (pow-suc 2 s))

-- A shift to the left brings in zeros below, and moves each digit up.
pub bit_at-shl_low : (s k a : ℕ) → k < s → bit_at k (a * 2 ^ s) ≡ 0
unfolding bit_at
bit_at-shl_low zero k a h = absurd (omega arith)
bit_at-shl_low (suc s) zero a h = shl_even a s
bit_at-shl_low (suc s) (suc k) a h = rw shl_half (bit_at-shl_low s k a (omega arith))

pub bit_at-shl : (s k a : ℕ) → bit_at (k + s) (a * 2 ^ s) ≡ bit_at k a
bit_at-shl zero k a = rw (add-zero, mul-one)
bit_at-shl (suc s) k a = rw (add-suc, bit_at-suc, shl_half) (bit_at-shl s k a)

-- A shift to the right moves each digit down.
pub bit_at-shr : (s k a : ℕ) → bit_at k (a / 2 ^ s) ≡ bit_at (k + s) a
bit_at-shr zero k a = rw (add-zero, div-one)
bit_at-shr (suc s) k a =
    rw (add-suc, bit_at-suc, pow-succ', ← div-div-eq-div-mul) (bit_at-shr s k (a / 2))

mod_half : (a m : ℕ) → 0 < m → (a % (2 * m) / 2 ≡ a / 2 % m) × (a % (2 * m) % 2 ≡ a % 2)
mod_half a m h = (omega (arith, e), omega (arith, e))
  where
    e : a % (2 * m) ≡ 2 * (a / 2 % m) + a % 2
    e =
        ap (λ (t : ℕ). t % (2 * m)) split
        ∙ mul-add-mod_self_left (2 * m) (a / 2 / m) _
        ∙ mod-eq_of_lt (omega (arith, mod-lt (a / 2) h))
      where
        split : a ≡ 2 * m * (a / 2 / m) + (2 * (a / 2 % m) + a % 2)
        split = omega (arith, div-add-mod (a / 2) m)

-- Cutting a word off at `n` digits keeps the digits below.
pub bit_at-mod : (n k a : ℕ) → k < n → bit_at k (a % 2 ^ n) ≡ bit_at k a
bit_at-mod zero k a h = absurd (omega arith)
bit_at-mod (suc n) zero a h =
    unfold bit_at in rw pow-succ' ((mod_half a (2 ^ n) (one-le-pow n 2 (omega arith))).1)
bit_at-mod (suc n) (suc k) a h =
    rw (pow-succ', bit_at-suc, bit_at-suc, (mod_half a (2 ^ n) (one-le-pow n 2 (omega arith))).0)
      (bit_at-mod n k (a / 2) (omega arith))

pub bit_at-eq-zero_of_lt : (n k a : ℕ) → a < 2 ^ n → n ≤ k → bit_at k a ≡ 0
unfolding bit_at
bit_at-eq-zero_of_lt zero k zero h p = bit_at-zero k
bit_at-eq-zero_of_lt zero k (suc a) h p = absurd (omega arith)
bit_at-eq-zero_of_lt (suc n) zero a h p = absurd (omega arith)
bit_at-eq-zero_of_lt (suc n) (suc k) a h p =
    bit_at-eq-zero_of_lt n k (a / 2) (omega (arith, pow-suc 2 n)) (omega arith)

-- `a | (1 << k)` sets the digit at `k`, and no other.
pub bit_at-set_self : (k a : ℕ) → bit_at k (bit_or a (2 ^ k)) ≡ 1
bit_at-set_self k a = rw (bit_at-bit_or, bit_at-two-pow_self) (omega (arith, bit_at-lt k a))

pub bit_at-set_ne : (j k a : ℕ) → j ≢ k → bit_at j (bit_or a (2 ^ k)) ≡ bit_at j a
bit_at-set_ne j k a h = rw (bit_at-bit_or, bit_at-two-pow_ne j k h) (omega arith)

-- A word stays a word.
pub bit_or-lt : (n a b : ℕ) → a < 2 ^ n → b < 2 ^ n → bit_or a b < 2 ^ n
bit_or-lt zero zero zero h p = omega (arith, bit_or_step 0 0)
bit_or-lt zero zero (suc b) h p = absurd (omega arith)
bit_or-lt zero (suc a) b h p = absurd (omega arith)
bit_or-lt (suc n) a b h p = omega (
  arith,
  pow-suc 2 n,
  bit_or_step a b,
  bit_or-lt n (a / 2) (b / 2) (omega (arith, pow-suc 2 n)) (omega (arith, pow-suc 2 n)),
)

pub two-pow-lt : (n k : ℕ) → k < n → 2 ^ k < 2 ^ n
two-pow-lt zero k h = absurd (omega arith)
two-pow-lt (suc n) zero h = omega (arith, pow-suc 2 n, one-le-pow n 2 (omega arith))
two-pow-lt (suc n) (suc k) h = omega (arith, pow-suc 2 n, pow-suc 2 k, two-pow-lt n k (omega arith))
