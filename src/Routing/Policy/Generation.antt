-- ===== src/Routing/Policy/Generation.antt =====
-- `Generation` of internal/routing/routing.go: what its change tells of the rules.
use wg.Prelude.{
  ℕ, ◌+◌, ◌%◌, ◌^◌, ◌≡◌, ◌≢◌, refl, sym, ap, ◌∙◌, ◌⊎◌, inl, inr, true, Option, none, some, subst,
  Bool-cases, Result, ok, err,
}
use wg.Prelude.Equality.{same_refl}
use wg.Prelude.Maps.{find}
use wg.Text.{Text, text_equality, Unicode}
use wg.Routing.Address.{Netip}
use wg.Routing.Target.{
  Action, tunnel, direct, block, auto, other_action, effective, RoutingError, Target, parse_target,
}
use wg.Routing.Engine.{Rule, Engine, target_key}
use wg.Routing.Methods.{same_action, delete_target, set_rule, delete_rule, delete_key, store_rule}
use wg.Routing.Invariant.{set_rule_cases}
use wg.Routing.Policy.{action_under, policy, policy-store_rule, policy-delete_key}
use wg.Routing.Policy.Calls.{Call, set, delete, call}

-- The generation is one more, without the bits above 64, and a key has another action than before.
abbrev pub Changed : Engine → Engine → Type 0
Changed e e' =
    (e'.generation ≡ (e.generation + 1) % 2 ^ 64) × ((k : Text) × (policy e' k ≢ policy e k))

same_action_refl : (a : Action) → same_action a a ≡ true
same_action_refl tunnel = refl
same_action_refl direct = refl
same_action_refl block = refl
same_action_refl auto = refl
same_action_refl (other_action s) = same_refl s

store_rule-Changed :
    (now : ℕ) (t : Target) (action : Action) (e : Engine) (o : Option Rule)
    → find (target_key t) e.rules ≡ o
    → effective action ≡ true
    → ((store_rule now t action e o).0 ≡ e) ⊎ Changed e (store_rule now t action e o).0
unfolding store_rule policy
store_rule-Changed now t action e none f g =
    let now_some : policy (store_rule now t action e none).0 (target_key t) ≡ some action =
      rw (same_refl (target_key t)) at (policy-store_rule now t action e none (target_key t) f g) in
    inr (
      refl,
      (target_key t, λ h. let h' : some action ≡ none = sym now_some ∙ h ∙ ap action_under f in cc),
    )
store_rule-Changed now t action e (some old) f g =
    elim (Bool-cases (same_action old.action action)) [
      | inl same ↦ inl (rw same refl)
      | inr differ ↦
          let now_some : policy (store_rule now t action e (some old)).0 (target_key t)
              ≡ some action =
            rw (same_refl (target_key t)) at
              (policy-store_rule now t action e (some old) (target_key t) f g) in
          inr (
            rw differ refl,
            (
              target_key t,
              λ h.
                  let h' : some action ≡ some old.action = sym now_some ∙ h ∙ ap action_under f in
                  let a : action ≡ old.action = cc in
                  let r : same_action old.action action ≡ true =
                    rw a (same_action_refl old.action) in
                  cc,
            ),
          )
    ]

delete_key-Changed :
    (key : Text) (e : Engine) (o : Option Rule)
    → find key e.rules ≡ o
    → (delete_key key e o ≡ e) ⊎ Changed e (delete_key key e o)
unfolding policy
delete_key-Changed key e none f = inl refl
delete_key-Changed key e (some old) f =
    let gone : policy (delete_key key e (some old)) key ≡ none =
      rw (same_refl key) at (policy-delete_key key e (some old) key f) in
    inr (refl, (key, λ h. let h' : none ≡ some old.action = sym gone ∙ h ∙ ap action_under f in cc))

module _ (u : Unicode) (net : Netip) where
  deleted-Changed :
      (r : Result RoutingError Target) (e : Engine)
      → ((delete_target u net e r).0 ≡ e) ⊎ Changed e (delete_target u net e r).0
  deleted-Changed (err why) e = inl refl
  deleted-Changed (ok t) e = delete_key-Changed (target_key t) e _ refl

  -- A call of `SetRule` or `DeleteRule` leaves the engine as it is, or the generation goes one up,
  -- modulo 2 ^ 64, and some key has another action than before.
  pub call-Changed : (c : Call) (e : Engine) → (call u net c e ≡ e) ⊎ Changed e (call u net c e)
  unfolding call delete_rule
  call-Changed (set value action now) e = elim (set_rule_cases u net value action now e) [
    | inl (why, same) ↦ inl (ap (λ (x : Engine × Result RoutingError Rule). x.0) same)
    | inr (t, parsed, good, out) ↦
        let after : (set_rule u net value action now e).0
            ≡ (store_rule now t action e (find (target_key t) e.rules)).0 =
          ap (λ (x : Engine × Result RoutingError Rule). x.0) out in
        subst (λ (e' : Engine). (e' ≡ e) ⊎ Changed e e') (sym after)
          (store_rule-Changed now t action e (find (target_key t) e.rules) refl good)
  ]
  call-Changed (delete value) e = deleted-Changed (parse_target u net value) e
