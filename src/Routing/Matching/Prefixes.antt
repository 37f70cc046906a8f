-- ===== src/Routing/Matching/Prefixes.antt =====
-- `matchLocked` of internal/routing/routing.go: exact rules first, and then the longest prefix.
use wg.Prelude.{ℕ, ◌≤◌, ◌≡◌, refl, Option, none, some, List, All}
use wg.Prelude.Maps.{find, Listed}
use wg.Text.{Text, text_equality}
use wg.Routing.Address.{Addr, Netip}
use wg.Routing.Target.{ip_target}
use wg.Routing.Engine.{Rule, Best, best_rule, longest_match, match_other, match_locked, target_key}
use wg.Routing.Invariant.{IsEntry}
use wg.Routing.Matching.{Covers, longest_match-Covers, longest_match_found}

-- No rule of the map covers the address.
abbrev pub Uncovered : Netip → Addr → List (Text × Rule) → Type 0
Uncovered net a m = (k : Text) (r : Rule) (n : ℕ) → Listed (k, r) m → Covers net a r n → ⊥

-- The rule stands in the map and covers the address, and no rule of the map that covers it is longer.
abbrev pub Longest : Netip → Addr → List (Text × Rule) → Rule → Type 0
Longest net a m r =
    (k : Text) × (n : ℕ) × Listed (k, r) m
    × Covers net a r n
    × ((k' : Text) (r' : Rule) (n' : ℕ) → Listed (k', r') m → Covers net a r' n' → n' ≤ n)

-- The three ways to an answer, for an address.
abbrev pub Answers : Netip → Addr → List (Text × Rule) → Option Rule → Option Rule → Type 0
Answers net a m (some exact) answer = answer ≡ some exact
Answers net a m none (some r) = Longest net a m r
Answers net a m none none = Uncovered net a m

best_rule-Answers :
    (net : Netip) (a : Addr) (m : List (Text × Rule)) (b : Best)
    → All (IsEntry net) m
    → longest_match (some a) none m ≡ b
    → Answers net a m none (best_rule b)
best_rule-Answers net a m none v h = λ k r n l c. rw h at (longest_match-Covers net a m k r n l c)
best_rule-Answers net a m (some (r, n)) v h =
    let (k, l, c) = longest_match_found net a m r n v h in
    (k, n, l, c, λ k' r' n' l' c'. rw h at (longest_match-Covers net a m k' r' n' l' c'))

match_other-Answers :
    (net : Netip) (a : Addr) (m : List (Text × Rule)) (o : Option Rule)
    → All (IsEntry net) m
    → Answers net a m o (match_other (ip_target net a) m o)
match_other-Answers net a m (some exact) v = refl
match_other-Answers net a m none v =
    best_rule-Answers net a m (longest_match (some a) none m) v refl

-- For an address and a map of rules as the engine makes them, `matchLocked` gives the rule under
-- the exact key; where there is none, a rule of the map, whatever its action, whose masked prefix
-- contains the address and which no other such rule, whatever its action, exceeds in length; and
-- no rule only where no rule of the map covers the address.
pub match_locked-Answers :
    (net : Netip) (a : Addr) (m : List (Text × Rule))
    → All (IsEntry net) m
    → Answers net a m (find (target_key (ip_target net a)) m) (match_locked m (ip_target net a))
unfolding match_locked
match_locked-Answers net a m v =
    match_other-Answers net a m (find (target_key (ip_target net a)) m) v
