-- ===== src/Routing/Engine/Longest.antt =====
-- The loop of `matchLocked` in internal/routing/routing.go over the rules of a map.
use wg.Prelude.{refl, ℕ, ◌≤◌, ◌≡◌, sym, ap, ◌⊎◌, inl, inr, Option, none, some, List, [], ◌∷◌, arith}
use wg.Prelude.Maps.{Listed, here, there}
use wg.Text.{Text, text_equality}
use wg.Routing.Address.{Addr, Prefix}
use wg.Routing.Engine.{Rule, Best, prefix_covers, improve, covering_bits, longest_match}

-- The best so far has at least `n` bits.
abbrev pub Reaches : Best → ℕ → Type 0
Reaches none n = ⊥
Reaches (some (r, m)) n = n ≤ m

Reaches-improve :
    (best : Best) (rule : Rule) (o : Option ℕ) (n : ℕ)
    → Reaches best n
    → Reaches (improve best rule o) n
Reaches-improve best rule none n h = h
Reaches-improve none rule (some bits) n h = absurd h
Reaches-improve (some (r, k)) rule (some bits) n h = ground arith

improve-Reaches : (best : Best) (rule : Rule) (n : ℕ) → Reaches (improve best rule (some n)) n
improve-Reaches none rule n = omega arith
improve-Reaches (some (r, k)) rule n = ground arith

pub longest_match-start :
    (a : Option Addr) (best : Best) (rules : List (Text × Rule)) (n : ℕ)
    → Reaches best n
    → Reaches (longest_match a best rules) n
unfolding longest_match
longest_match-start a best [] n h = h
longest_match-start a best ((key, rule) ∷ rules) n h =
    longest_match-start a (improve best rule (covering_bits a rule)) rules n
      (Reaches-improve best rule (covering_bits a rule) n h)

-- No rule of the map that covers the address has more bits than the result.
pub longest_match-most :
    (a : Option Addr) (best : Best) (rules : List (Text × Rule)) (key : Text) (rule : Rule) (n : ℕ)
    → Listed (key, rule) rules
    → covering_bits a rule ≡ some n
    → Reaches (longest_match a best rules) n
unfolding longest_match
longest_match-most a best [] key rule n h c = elim h [ ]
longest_match-most a best ((k, r) ∷ rules) key rule n (here e) c =
    let same : rule ≡ r = ap (λ (x : Text × Rule). x.1) e in
    let covered : covering_bits a r ≡ some n = rw same at c in
    longest_match-start a (improve best r (covering_bits a r)) rules n
      (rw covered (improve-Reaches best r n))
longest_match-most a best ((k, r) ∷ rules) key rule n (there h) c =
    longest_match-most a (improve best r (covering_bits a r)) rules key rule n h c

-- The result is the rule that the loop started with, or one of the map that covers the address.
abbrev pub Comes : Option Addr → Best → List (Text × Rule) → Rule → ℕ → Type 0
Comes a best rules rule n =
    (best ≡ some (rule, n))
    ⊎ ((key : Text) × Listed (key, rule) rules × (covering_bits a rule ≡ some n))

improve-eq :
    (best : Best) (r rule : Rule) (o : Option ℕ) (n : ℕ)
    → improve best r o ≡ some (rule, n)
    → (best ≡ some (rule, n)) ⊎ ((r ≡ rule) × (o ≡ some n))
improve-eq best r rule none n h = inl h
improve-eq none r rule (some bits) n h = ground arith
improve-eq (some (r', k)) r rule (some bits) n h = ground arith

pub longest_match-Comes :
    (a : Option Addr) (best : Best) (rules : List (Text × Rule)) (rule : Rule) (n : ℕ)
    → longest_match a best rules ≡ some (rule, n)
    → Comes a best rules rule n
unfolding longest_match
longest_match-Comes a best [] rule n h = inl h
longest_match-Comes a best ((k, r) ∷ rules) rule n h =
    elim (longest_match-Comes a (improve best r (covering_bits a r)) rules rule n h) [
      | inl e ↦ elim (improve-eq best r rule (covering_bits a r) n e) [
        | inl old ↦ inl old
        | inr (same, c) ↦ inr (k, here (ap (λ (x : Rule). (k, x)) (sym same)), rw same at c)
      ]
      | inr (key, l, c) ↦ inr (key, there l, c)
    ]

no_cover : (o : Option Prefix) → prefix_covers o none ≡ none
no_cover none = refl
no_cover (some p) = refl

-- Without an address no rule covers.
pub longest_match-none :
    (best : Best) (rules : List (Text × Rule)) → longest_match none best rules ≡ best
unfolding longest_match covering_bits
longest_match-none best [] = refl
longest_match-none best ((k, r) ∷ rules) =
    let c : covering_bits none r ≡ none = ground (arith, no_cover r.target.prefix) in
    rw c (longest_match-none best rules)
