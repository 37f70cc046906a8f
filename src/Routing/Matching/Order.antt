-- ===== src/Routing/Matching/Order.antt =====
-- `matchLocked` of internal/routing/routing.go and the order in which Go ranges over its map.
use wg.Prelude.{ℕ, ◌≤◌, ◌≡◌, refl, sym, ap, ◌∙◌, Option, none, some, List, All, arith}
use wg.Prelude.Maps.{find, Unique}
use wg.Text.{Text, text_equality}
use wg.Routing.Address.{Addr, Netip}
use wg.Routing.Target.{target_domain, target_ip, target_cidr, TargetKind, Target}
use wg.Routing.Engine.{Rule, Best, best_rule, longest_match, match_other, match_locked, target_key}
use wg.Routing.Engine.Longest.{Reaches, longest_match-none}
use wg.Routing.Invariant.{IsEntry}
use wg.Routing.Matching.{no_shorter, same_rule}

-- Two results that bound each other in length, and agree where the lengths do.
same_best :
    (b b' : Best)
    → ((r : Rule) (n : ℕ) → b ≡ some (r, n) → Reaches b' n)
    → ((r : Rule) (n : ℕ) → b' ≡ some (r, n) → Reaches b n)
    → ((r r' : Rule) (n : ℕ) → b ≡ some (r, n) → b' ≡ some (r', n) → r ≡ r')
    → best_rule b ≡ best_rule b'
same_best none none f g h = refl
same_best none (some (r, n)) f g h = absurd (g r n refl)
same_best (some (r, n)) none f g h = absurd (f r n refl)
same_best (some (r, n)) (some (r', n')) f g h =
    let le : n ≤ n' = f r n refl in
    let ge : n' ≤ n = g r' n' refl in
    let e : n' ≡ n = omega arith in ap some (h r r' n refl (ap (λ (t : ℕ). some (r', t)) e))

module _ (net : Netip) (m m' : List (Text × Rule)) (u : Unique m) (u' : Unique m')
    (v : All (IsEntry net) m) (v' : All (IsEntry net) m')
    (same : (j : Text) → find j m ≡ find j m') where
  same_longest :
      (a : Option Addr) → best_rule (longest_match a none m) ≡ best_rule (longest_match a none m')
  same_longest none = rw (longest_match-none none m, longest_match-none none m') refl
  same_longest (some a) =
      let back = λ (j : Text). sym (same j) in
      same_best (longest_match (some a) none m) (longest_match (some a) none m')
        (no_shorter net a m m' u u' v v' same) (no_shorter net a m' m u' u v' v back)
        (same_rule net a m m' u u' v v' same)

  same_other :
      (t : Target) (kind : TargetKind) (o : Option Rule)
      → t.kind ≡ kind
      → match_other t m o ≡ match_other t m' o
  same_other t kind (some r) e = refl
  same_other t target_ip none e = rw e (same_longest t.addr)
  same_other t target_domain none e = rw e refl
  same_other t target_cidr none e = rw e refl

  -- Two maps of rules, as the engine makes them, that have the same rule under every key give a
  -- target the same rule, in whatever order their entries are visited.
  pub match_locked_order : (t : Target) → match_locked m t ≡ match_locked m' t
  unfolding match_locked
  match_locked_order t =
      ap (match_other t m) (same (target_key t)) ∙ same_other t t.kind (find (target_key t) m') refl
