-- ===== src/Routing/Policy/Calls.antt =====
-- Any sequence of calls of `SetRule` and `DeleteRule` of internal/routing/routing.go.
use wg.Prelude.{
  ℕ, ◌≡◌, refl, ap, ◌∙◌, true, Option, none, some, List, [], ◌∷◌, if◌then◌else◌, Result, ok, err,
  ◌>>=◌, arith,
}
use mathlib.Core.Path.{fun_ext}
use wg.Prelude.Equality.{◌=?◌}
use wg.Prelude.Maps.{find}
use wg.Text.{Text, text_equality, Unicode}
use wg.Routing.Address.{Netip}
use wg.Routing.Target.{
  Action, tunnel, direct, block, auto, other_action, effective, RoutingError, Target, parse_target,
}
use wg.Routing.Engine.{
  Rule, Engine, EngineOption, with_auto_decider, with_default_action, nil_option, apply_option,
  apply_options, new_engine, target_key,
}
use wg.Routing.Methods.{delete_target, set_rule, delete_rule, store_rule, keep_engine}
use wg.Routing.Invariant.{IsValid, new_engine-IsValid, set_rule-IsValid, delete_rule-IsValid}
use wg.Routing.Policy.{action_under, policy, policy-store_rule, policy-delete_key}

pub data Call : Type 0 where
  set : Text → Action → ℕ → Call
  delete : Text → Call

-- A finite map changed at one key.
abbrev pub update : Text → Option Action → (Text → Option Action) → Text → Option Action
update key o p k = if key =? k then o else p k

abbrev update_parsed :
    Result RoutingError Target → Option Action → (Text → Option Action) → Text → Option Action
update_parsed (err why) o p k = p k
update_parsed (ok t) o p k = update (target_key t) o p k

rules-apply_option : (o : EngineOption) (e : Engine) → (apply_option o e).rules ≡ e.rules
unfolding apply_option
rules-apply_option (with_auto_decider none) e = refl
rules-apply_option (with_auto_decider (some d)) e = refl
rules-apply_option (with_default_action a) e = ground arith
rules-apply_option nil_option e = refl

rules-apply_options : (os : List EngineOption) (e : Engine) → (apply_options os e).rules ≡ e.rules
unfolding apply_options
rules-apply_options [] e = refl
rules-apply_options (o ∷ os) e = rules-apply_options os (apply_option o e) ∙ rules-apply_option o e

module _ (u : Unicode) (net : Netip) where
  unfoldable pub call : Call → Engine → Engine
  call (set value action now) e = (set_rule u net value action now e).0
  call (delete value) e = (delete_rule u net value e).0

  unfoldable pub run : List Call → Engine → Engine
  run [] e = e
  run (c ∷ cs) e = run cs (call c e)

  -- What a call means: a concrete action is put under the key of the target that the text parses to,
  -- or taken away; any other call does nothing.
  abbrev pub meaning : Call → (Text → Option Action) → Text → Option Action
  meaning (set value action now) p k =
      if effective action then update_parsed (parse_target u net value) (some action) p k else p k
  meaning (delete value) p k = update_parsed (parse_target u net value) none p k

  unfoldable pub meanings : List Call → (Text → Option Action) → Text → Option Action
  meanings [] p = p
  meanings (c ∷ cs) p = meanings cs (meaning c p)

  parsed_policy :
      (r : Result RoutingError Target) (action : Action) (now : ℕ) (e : Engine) (k : Text)
      → effective action ≡ true
      → policy
          (keep_engine e
            (r >>= λ t. ok (store_rule now t action e (find (target_key t) e.rules)))).0
          k
        ≡ update_parsed r (some action) (policy e) k
  parsed_policy (err why) action now e k g = refl
  parsed_policy (ok t) action now e k g = policy-store_rule now t action e _ k refl g

  deleted_policy :
      (r : Result RoutingError Target) (e : Engine) (k : Text)
      → policy (delete_target u net e r).0 k ≡ update_parsed r none (policy e) k
  deleted_policy (err why) e k = refl
  deleted_policy (ok t) e k = policy-delete_key (target_key t) e _ k refl

  pub policy-call : (c : Call) (e : Engine) → policy (call c e) ≡ meaning c (policy e)
  unfolding call set_rule delete_rule
  policy-call (set value auto now) e = refl
  policy-call (set value (other_action s) now) e = refl
  policy-call (set value tunnel now) e =
      fun_ext (λ k. parsed_policy (parse_target u net value) tunnel now e k refl)
  policy-call (set value direct now) e =
      fun_ext (λ k. parsed_policy (parse_target u net value) direct now e k refl)
  policy-call (set value block now) e =
      fun_ext (λ k. parsed_policy (parse_target u net value) block now e k refl)
  policy-call (delete value) e = fun_ext (λ k. deleted_policy (parse_target u net value) e k)

  pub policy-run : (cs : List Call) (e : Engine) → policy (run cs e) ≡ meanings cs (policy e)
  unfolding run meanings
  policy-run [] e = refl
  policy-run (c ∷ cs) e = policy-run cs (call c e) ∙ ap (meanings cs) (policy-call c e)

  call-IsValid : (c : Call) (e : Engine) → IsValid net e → IsValid net (call c e)
  unfolding call
  call-IsValid (set value action now) e v = set_rule-IsValid u net value action now e v
  call-IsValid (delete value) e v = delete_rule-IsValid u net value e v

  pub run-IsValid : (cs : List Call) (e : Engine) → IsValid net e → IsValid net (run cs e)
  unfolding run
  run-IsValid [] e v = v
  run-IsValid (c ∷ cs) e v = run-IsValid cs (call c e) (call-IsValid c e v)

  -- After any calls on a new engine with any options, each key has one rule, which is manual, has
  -- the action TUNNEL, DIRECT or BLOCK, and is for the target of that key, and the default action
  -- is TUNNEL, DIRECT or BLOCK. The target of a rule is a domain of at most 253 bytes made of
  -- small letters, digits, hyphens and dots, whose labels are not empty, have at most 63 bytes and
  -- no hyphen at their ends; or an address that is not an IPv4 address in an IPv6 one; or a masked
  -- prefix of such an address.
  pub run-new_engine-IsValid :
      (options : List EngineOption) (cs : List Call) → IsValid net (run cs (new_engine options))
  run-new_engine-IsValid options cs =
      run-IsValid cs (new_engine options) (new_engine-IsValid net options)

  -- After any calls of `SetRule` and `DeleteRule` on a new engine, the action that stands under
  -- each key is the one that the calls mean, from an empty map on: `SetRule` with TUNNEL, DIRECT
  -- or BLOCK for a text that parses puts the action under the key of the target, `DeleteRule` of a
  -- text that parses takes the key away, and any other call does nothing.
  pub policy-run-new_engine :
      (options : List EngineOption) (cs : List Call)
      → policy (run cs (new_engine options)) ≡ meanings cs (λ k. none)
  unfolding new_engine policy find
  policy-run-new_engine options cs =
      policy-run cs (new_engine options)
      ∙ ap (meanings cs) (
          fun_ext (λ k.
            ap (λ (m : List (Text × Rule)). action_under (find k m))
              (rules-apply_options options _)))
