-- ===== src/Routing/Policy.antt =====
-- What the calls of the engine of internal/routing/routing.go do to its rules, as a map from the key of
-- a target to an action.
pub mod Calls
pub mod Generation
use wg.Prelude.{
  ℕ, ◌+◌, ◌%◌, ◌^◌, ◌≡◌, refl, sym, ap, ◌∙◌, ◌⊎◌, inl, inr, Bool, true, false, Option, none, some,
  List, [], ◌∷◌, if◌then◌else◌, Bool-cases, Option-cases, Result-cases, Result, ok, err, ◌>>=◌,
  ◌>>◌, fail_if, not, arith,
}
use wg.Prelude.Equality.{◌=?◌, same_of, same_refl}
use wg.Prelude.Maps.{find, put, remove, find-put, find-remove}
use wg.Text.{Text, text_equality, Unicode}
use wg.Routing.Address.{Netip}
use wg.Routing.Target.{
  Action, tunnel, direct, block, auto, other_action, valid, effective, RoutingError, invalid_action,
  auto_rule, Target, parse_target,
}
use wg.Routing.Engine.{Rule, Engine, target_key}
use wg.Routing.Methods.{same_action, store_rule, set_rule, delete_rule, delete_key}
use wg.Routing.Invariant.{set_rule_cases}

abbrev pub action_under : Option Rule → Option Action
action_under none = none
action_under (some r) = some r.action

-- The action that stands under a key.
unfoldable pub policy : Engine → Text → Option Action
policy e k = action_under (find k e.rules)

same_action_eq : (a b : Action) → effective b ≡ true → same_action a b ≡ true → a ≡ b
same_action_eq tunnel tunnel g h = refl
same_action_eq direct direct g h = refl
same_action_eq block block g h = refl
same_action_eq _ tunnel g h = cc
same_action_eq _ direct g h = cc
same_action_eq _ block g h = cc
same_action_eq _ auto g h = cc
same_action_eq _ (other_action s) g h = cc

action_under-if :
    (b : Bool) (o p : Option Rule)
    → action_under (if b then o else p) ≡ (if b then action_under o else action_under p)
action_under-if true o p = refl
action_under-if false o p = refl

pub policy-store_rule :
    (now : ℕ) (t : Target) (action : Action) (e : Engine) (o : Option Rule) (k : Text)
    → find (target_key t) e.rules ≡ o
    → effective action ≡ true
    → policy (store_rule now t action e o).0 k
      ≡ (if target_key t =? k then some action else policy e k)
unfolding policy store_rule
policy-store_rule now t action e none k f g =
    ap action_under (find-put (target_key t) k _ e.rules) ∙ action_under-if (target_key t =? k) _ _
policy-store_rule now t action e (some old) k f g =
    elim (Bool-cases (same_action old.action action)) [
      | inl same ↦ rw same (elim (Bool-cases (target_key t =? k)) [
        | inl here ↦
            let key : target_key t ≡ k = same_of (target_key t) k here in
            let act : old.action ≡ action = same_action_eq old.action action g same in
            rw (here, ← key, f, act) refl
        | inr away ↦ rw away refl
      ])
      | inr differ ↦ rw differ (
          ap action_under (find-put (target_key t) k _ e.rules)
          ∙ action_under-if (target_key t =? k) _ _)
    ]

pub policy-delete_key :
    (key : Text) (e : Engine) (o : Option Rule) (k : Text)
    → find key e.rules ≡ o
    → policy (delete_key key e o) k ≡ (if key =? k then none else policy e k)
unfolding policy
policy-delete_key key e none k f = elim (Bool-cases (key =? k)) [
  | inl here ↦ let same : key ≡ k = same_of key k here in rw (here, ← same, f) refl
  | inr away ↦ rw away refl
]
policy-delete_key key e (some rule) k f =
    ap action_under (find-remove key k e.rules) ∙ action_under-if (key =? k) _ _
