-- ===== src/Routing/Address/Masks.antt =====
-- Masked prefixes, as internal/routing uses them: the length and one address of such a prefix
-- determine it.
use wg.Prelude.{ℕ, ◌-◌, ◌*◌, ◌/◌, ◌^◌, ◌≡◌, sym, ap, ◌∙◌, true, [], ◌∷◌, arith, ==_iff}
use native.Mathlib.Nat.{mul-div_cancel, one-le-pow}
use wg.Routing.Address.{Addr, v4, v6, Prefix, clear_low, mask_addr, masked, same_network, contains}

clear_low_twice : (k n : ℕ) → clear_low k (clear_low k n) ≡ clear_low k n
clear_low_twice k n =
    ap (λ (t : ℕ). t * 2 ^ k) (mul-div_cancel (n / 2 ^ k) (one-le-pow k 2 (omega arith)))

mask_addr_twice : (a : Addr) (bits : ℕ) → mask_addr (mask_addr a bits) bits ≡ mask_addr a bits
mask_addr_twice (v4 n) bits = ap v4 (clear_low_twice (32 - bits) n)
mask_addr_twice (v6 n zone) bits = ap (λ (t : ℕ). v6 t []) (clear_low_twice (128 - bits) n)

pub masked_twice : (p : Prefix) → masked (masked p) ≡ masked p
unfolding masked
masked_twice p =
    ap (λ (a : Addr). record { addr = a; bits = p.bits }) (mask_addr_twice p.addr p.bits)

same_network-mask :
    (a b : Addr) (bits : ℕ) → same_network a bits b ≡ true → mask_addr a bits ≡ mask_addr b bits
same_network-mask (v4 n) (v4 m) bits h = ap (λ (t : ℕ). v4 (t * 2 ^ (32 - bits))) ((==_iff _ _).0 h)
same_network-mask (v6 n zone) (v6 m []) bits h =
    ap (λ (t : ℕ). v6 (t * 2 ^ (128 - bits)) []) ((==_iff _ _).0 h)
same_network-mask (v6 n zone) (v6 m (c ∷ zone')) bits h = cc
same_network-mask (v4 n) (v6 m zone) bits h = cc
same_network-mask (v6 n zone) (v4 m) bits h = cc

-- A masked prefix is its own masked form.
abbrev pub IsMasked : Prefix → Type 0
IsMasked p = masked p ≡ p

prefix_of :
    (p : Prefix) (a : Addr)
    → IsMasked p
    → contains p a ≡ true
    → p ≡ record { addr = mask_addr a p.bits; bits = p.bits }
unfolding masked contains
prefix_of p a m c =
    sym m
    ∙ ap (λ (b : Addr). record { addr = b; bits = p.bits }) (same_network-mask p.addr a p.bits c)

pub masked_unique :
    (p r : Prefix) (a : Addr)
    → IsMasked p
    → IsMasked r
    → contains p a ≡ true
    → contains r a ≡ true
    → p.bits ≡ r.bits
    → p ≡ r
masked_unique p r a m m' c c' e =
    prefix_of p a m c
    ∙ ap (λ (n : ℕ). record { addr = mask_addr a n; bits = n }) e
    ∙ sym (prefix_of r a m' c')
