-- ===== src/Routing/Matching.antt =====
-- `matchLocked` of internal/routing/routing.go on the rules of a valid engine.
pub mod Order
pub mod Prefixes
use wg.Prelude.{
  ℕ, ◌≡◌, refl, sym, ap, ◌∙◌, inl, inr, true, none, some, List, All, if◌then◌else◌, arith,
}
use wg.Prelude.Maps.{find, Unique, Listed, Listed-find, find-Listed, All-Listed}
use wg.Text.{Text, text_equality}
use wg.Routing.Address.{Addr, Prefix, Netip, contains}
use wg.Routing.Address.Masks.{IsMasked, masked_unique}
use wg.Routing.Target.{cidr_target}
use wg.Routing.Target.Canonical.{IsTarget}
use wg.Routing.Engine.{Rule, covering_bits, longest_match, target_key}
use wg.Routing.Engine.Longest.{Reaches, longest_match-most, longest_match-Comes}
use wg.Routing.Invariant.{IsEntry}

-- The rule is for a masked prefix of `n` bits that contains the address.
abbrev pub Covers : Netip → Addr → Rule → ℕ → Type 0
Covers net a r n =
    (p : Prefix) × (r.target ≡ cidr_target net p)
    × IsMasked p
    × (contains p a ≡ true)
    × (p.bits ≡ n)

module _ (net : Netip) where
  covering_bits-Covers :
      (a : Addr) (r : Rule) (n : ℕ)
      → IsTarget net r.target
      → covering_bits (some a) r ≡ some n
      → Covers net a r n
  unfolding covering_bits
  covering_bits-Covers a r n (inl (d, e, w)) h = let h' = rw e at h in cc
  covering_bits-Covers a r n (inr (inl (b, e, plain))) h = let h' = rw e at h in cc
  covering_bits-Covers a r n (inr (inr (p, e, (m, plain)))) h =
      let h' : (if contains p a then some p.bits else none) ≡ some n = rw e at h in
      (p, e, m, ground arith, ground arith)

  Covers-covering_bits :
      (a : Addr) (r : Rule) (n : ℕ) → Covers net a r n → covering_bits (some a) r ≡ some n
  unfolding covering_bits
  Covers-covering_bits a r n (p, e, m, c, b) = rw (e, c, b) refl

  same-Covers :
      (a : Addr) (k k' : Text) (r r' : Rule) (n : ℕ)
      → IsEntry net (k, r)
      → IsEntry net (k', r')
      → Covers net a r n
      → Covers net a r' n
      → k ≡ k'
  same-Covers a k k' r r' n i i' (p, e, m, c, b) (p', e', m', c', b') =
      let same : p ≡ p' = masked_unique p p' a m m' c c' (b ∙ sym b') in
      i.keyed ∙ ap target_key (e ∙ ap (cidr_target net) same ∙ sym e') ∙ sym i'.keyed

  -- A rule of the map that covers the address bounds the result of the loop from below.
  pub longest_match-Covers :
      (a : Addr) (m : List (Text × Rule)) (k : Text) (r : Rule) (n : ℕ)
      → Listed (k, r) m
      → Covers net a r n
      → Reaches (longest_match (some a) none m) n
  longest_match-Covers a m k r n l c =
      longest_match-most (some a) none m k r n l (Covers-covering_bits a r n c)

  -- What the loop returns is a rule of the map that covers the address.
  pub longest_match_found :
      (a : Addr) (m : List (Text × Rule)) (r : Rule) (n : ℕ)
      → All (IsEntry net) m
      → longest_match (some a) none m ≡ some (r, n)
      → (k : Text) × Listed (k, r) m × Covers net a r n
  longest_match_found a m r n v h = elim (longest_match-Comes (some a) none m r n h) [
    | inl started ↦ cc
    | inr (k, l, c) ↦
        (k, l, covering_bits-Covers a r n (All-Listed (IsEntry net) (k, r) m v l).canonical c)
  ]

  transfer :
      (m m' : List (Text × Rule)) (k : Text) (r : Rule)
      → Unique m
      → ((j : Text) → find j m ≡ find j m')
      → Listed (k, r) m
      → Listed (k, r) m'
  transfer m m' k r u same l = Listed-find k r m' (sym (same k) ∙ find-Listed k r m u l)

  module _ (a : Addr) (m m' : List (Text × Rule)) (u : Unique m) (u' : Unique m')
      (v : All (IsEntry net) m) (v' : All (IsEntry net) m')
      (same : (j : Text) → find j m ≡ find j m') where
    -- Of the same rules in another order the loop finds one of at least the length.
    pub no_shorter :
        (r : Rule) (n : ℕ)
        → longest_match (some a) none m ≡ some (r, n)
        → Reaches (longest_match (some a) none m') n
    no_shorter r n h =
        let (k, l, c) = longest_match_found a m r n v h in
        longest_match-Covers a m' k r n (transfer m m' k r u same l) c

    pub same_rule :
        (r r' : Rule) (n : ℕ)
        → longest_match (some a) none m ≡ some (r, n)
        → longest_match (some a) none m' ≡ some (r', n)
        → r ≡ r'
    same_rule r r' n h h' =
        let (k, l, c) = longest_match_found a m r n v h in
        let (k', l', c') = longest_match_found a m' r' n v' h' in
        let key : k ≡ k' =
          same-Covers a k k' r r' n (All-Listed (IsEntry net) (k, r) m v l)
            (All-Listed (IsEntry net) (k', r') m' v' l') c c' in
        let one : find k m' ≡ some r = sym (same k) ∙ find-Listed k r m u l in
        let other : find k' m' ≡ some r' = find-Listed k' r' m' u' l' in
        let both : some r ≡ some r' = sym one ∙ ap (λ (j : Text). find j m') key ∙ other in cc both
