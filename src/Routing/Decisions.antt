-- ===== src/Routing/Decisions.antt =====
-- The decisions of `Explain` in internal/routing/routing.go.
use wg.Prelude.{◌≡◌, refl, inl, inr, true, Option, none, some, List, Bool-cases, ok, >>=-eq-ok, All}
use wg.Prelude.Maps.{find, All-find, All-Listed}
use wg.Text.{Text, text_equality, Unicode}
use wg.Routing.Address.{Addr, Netip}
use wg.Routing.Target.{
  effective, TargetKind, target_ip, target_cidr, target_domain, Target, parse_target,
}
use wg.Routing.Engine.{
  AutoDecider, Decision, Rule, Engine, EngineOption, new_engine, Best, best_rule, longest_match,
  target_key, match_other, match_locked, classify, decide,
}
use wg.Routing.Engine.Longest.{longest_match-Comes}
use wg.Routing.Methods.{explain}
use wg.Routing.Invariant.{IsEntry, IsValid}
use wg.Routing.Policy.Calls.{Call, run, run-new_engine-IsValid}

module _ (net : Netip) where
  best_concrete :
      (a : Option Addr) (m : List (Text × Rule)) (b : Best) (r : Rule)
      → All (IsEntry net) m
      → longest_match a none m ≡ b
      → best_rule b ≡ some r
      → effective r.action ≡ true
  best_concrete a m none r v h e = cc
  best_concrete a m (some (s, n)) r v h e =
      let same : s ≡ r = cc in
      elim (longest_match-Comes a none m s n h) [
        | inl started ↦ cc
        | inr (k, l, c) ↦ rw same at (All-Listed (IsEntry net) (k, s) m v l).concrete
      ]

  other_concrete :
      (t : Target) (kind : TargetKind) (m : List (Text × Rule)) (o : Option Rule) (r : Rule)
      → t.kind ≡ kind
      → All (IsEntry net) m
      → find (target_key t) m ≡ o
      → match_other t m o ≡ some r
      → effective r.action ≡ true
  other_concrete t kind m (some s) r k v f e =
      let same : s ≡ r = cc in rw same at (All-find (IsEntry net) (target_key t) m s v f).concrete
  other_concrete t target_ip m none r k v f e =
      best_concrete t.addr m (longest_match t.addr none m) r v refl (rw k at e)
  other_concrete t target_domain m none r k v f e = let e' = rw k at e in cc
  other_concrete t target_cidr m none r k v f e = let e' = rw k at e in cc

classify_concrete :
    (e : Engine) (t : Target) (d : Option AutoDecider)
    → effective e.default_action ≡ true
    → effective (classify e t d).0 ≡ true
classify_concrete e t none h = h
classify_concrete e t (some decider) h = elim (Bool-cases (effective (decider t).0)) [
  | inl good ↦ rw good good
  | inr bad ↦ rw bad h
]

decide_concrete :
    (net : Netip) (e : Engine) (t : Target) (o : Option Rule)
    → IsValid net e
    → match_locked e.rules t ≡ o
    → effective (decide e t o).effective_action ≡ true
unfolding match_locked
decide_concrete net e t none v h = classify_concrete e t e.decider v.safe
decide_concrete net e t (some r) v h =
    other_concrete net t t.kind e.rules (find (target_key t) e.rules) r refl v.entries refl h

module _ (u : Unicode) (net : Netip) where
  -- Whatever the options, the calls and the classifier, the effective action of a decision of
  -- `Explain` is TUNNEL, DIRECT or BLOCK.
  pub explain_concrete :
      (options : List EngineOption) (cs : List Call) (value : Text) (d : Decision)
      → explain u net value (run u net cs (new_engine options)) ≡ ok d
      → effective d.effective_action ≡ true
  unfolding explain
  explain_concrete options cs value d h =
      let e = run u net cs (new_engine options) in
      let (t, parsed, out) = >>=-eq-ok (parse_target u net value) _ h in
      let same : decide e t (match_locked e.rules t) ≡ d = cc in
      rw same at (
        decide_concrete net e t (match_locked e.rules t) (run-new_engine-IsValid u net options cs)
          refl)
