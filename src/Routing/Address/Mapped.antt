-- ===== src/Routing/Address/Mapped.antt =====
-- Masked prefixes of internal/routing and the addresses of IPv4 in IPv6: a mask leads no other address
-- to these.
use native.Mathlib.Nat.{pow-suc, pow-succ', div-div-eq-div-mul, div-one, mul-one}
use wg.Prelude.{
  ℕ, zero, suc, ◌+◌, ◌-◌, ◌*◌, ◌/◌, ◌^◌, ◌≤◌, ◌≡◌, refl, ap, false, ◌==◌, leb, inl, inr, Bool-cases,
  arith,
}
use wg.Routing.Address.{Addr, v4, v6, Prefix, is_4in6, clear_low, mask_addr, masked}

pow_33 : (i : ℕ) → 2 ^ (i + 33) ≡ 8589934592 * 2 ^ i
pow_33 zero = refl
pow_33 (suc i) =
    let e : suc i + 33 ≡ suc (i + 33) = omega arith in
    rw e (omega (arith, pow-suc 2 (i + 33), pow-suc 2 i, pow_33 i))

clear_low-div : (k j n : ℕ) → k ≤ j → clear_low k n / 2 ^ j ≡ n / 2 ^ j
clear_low-div zero j n h = rw (div-one, mul-one) refl
clear_low-div (suc k) zero n h = absurd (omega arith)
clear_low-div (suc k) (suc j) n h =
    let half : n / 2 / 2 ^ k * (2 * 2 ^ k) / 2 ≡ n / 2 / 2 ^ k * 2 ^ k = omega arith in
    let below : n / 2 ^ suc k ≡ n / 2 / 2 ^ k = rw (pow-succ', ← div-div-eq-div-mul) refl in
    let below' : n / 2 ^ suc j ≡ n / 2 / 2 ^ j = rw (pow-succ', ← div-div-eq-div-mul) refl in
    let above : n / 2 / 2 ^ k * 2 ^ suc k ≡ n / 2 / 2 ^ k * (2 * 2 ^ k) = rw pow-succ' refl in
    let two : 2 ^ suc j ≡ 2 * 2 ^ j = rw pow-succ' refl in
    let split : (a : ℕ) → a / 2 ^ suc j ≡ a / 2 / 2 ^ j =
      λ a. rw (two, div-div-eq-div-mul a 2 (2 ^ j)) refl in
    let apart = split (n / 2 / 2 ^ k * (2 * 2 ^ k)) in
    rw (below, below', above, apart, half) (clear_low-div k j (n / 2) (omega arith))

-- The digits above the last 32 are even in number.
high : (i n : ℕ) → (clear_low (i + 33) n / 4294967296 == 65535) ≡ false
high i n =
    let m = n / 2 ^ (i + 33) in
    let q : clear_low (i + 33) n ≡ 8589934592 * (m * 2 ^ i) =
      omega (arith, ap (λ (t : ℕ). m * t) (pow_33 i)) in
    rw q (ground arith)

clear_low-mapped :
    (k n : ℕ) → (n / 2 ^ 32 == 0xFFFF) ≡ false → (clear_low k n / 2 ^ 32 == 0xFFFF) ≡ false
clear_low-mapped k n h = elim (Bool-cases (leb k 32)) [
  | inl low ↦ rw (clear_low-div k 32 n (ground arith)) h
  | inr far ↦
      let e : k ≡ (k - 33) + 33 = ground arith in
      let away : (clear_low ((k - 33) + 33) n / 4294967296 == 65535) ≡ false = high (k - 33) n in
      rw (← e) at away
]

mask_addr-mapped : (a : Addr) (bits : ℕ) → is_4in6 a ≡ false → is_4in6 (mask_addr a bits) ≡ false
mask_addr-mapped (v4 n) bits h = refl
mask_addr-mapped (v6 n zone) bits h = clear_low-mapped (128 - bits) n h

pub masked-mapped : (p : Prefix) → is_4in6 p.addr ≡ false → is_4in6 (masked p).addr ≡ false
unfolding masked
masked-mapped p h = mask_addr-mapped p.addr p.bits h
