-- ===== src/Routing/Methods.antt =====
-- `SetRule`, `DeleteRule` and `Explain` of internal/routing/routing.go. `DeleteRule` gives up its lock
-- before it explains the target; in the model no other call comes between the two.
use wg.Prelude.{
  ℕ, ◌+◌, ◌%◌, ◌^◌, Bool, true, false, not, Option, none, some, if◌then◌else◌, Result, ok, err,
  ◌>>=◌, ◌>>◌, fail_if,
}
use wg.Prelude.Equality.{◌=?◌}
use wg.Prelude.Maps.{find, put, remove}
use wg.Text.{Text, text_equality, Unicode}
use wg.Routing.Address.{Netip}
use wg.Routing.Target.{
  Action, auto, valid, RoutingError, invalid_action, auto_rule, Target, parse_target,
}
use wg.Routing.Engine.{manual, Rule, Decision, Engine, target_key, match_locked, decide}

abbrev is_auto : Action → Bool
is_auto auto = true
is_auto _ = false

abbrev pub same_action : Action → Action → Bool
same_action Action.tunnel Action.tunnel = true
same_action Action.direct Action.direct = true
same_action Action.block Action.block = true
same_action Action.auto Action.auto = true
same_action (Action.other_action s) (Action.other_action t) = s =? t
same_action _ _ = false

-- The part of `SetRule` under the lock.
unfoldable pub store_rule : ℕ → Target → Action → Engine → Option Rule → Engine × Rule
store_rule now t action e (some existing) =
    if same_action existing.action action
    then (e, existing)
    else (let rule = record existing { action = action; updated_at = now } in
        (
          record e {
            rules = put (target_key t) rule e.rules;
            generation = (e.generation + 1) % 2 ^ 64;
          },
          rule,
        ))
store_rule now t action e none =
    let id = (e.next_id + 1) % 2 ^ 64 in
    let rule : Rule = record {
      id = id;
      target = t;
      action = action;
      source = manual;
      created_at = now;
      updated_at = now;
    } in
    (
      record e {
        rules = put (target_key t) rule e.rules;
        next_id = id;
        generation = (e.generation + 1) % 2 ^ 64;
      },
      rule,
    )

abbrev pub keep_engine :
    Engine → Result RoutingError (Engine × Rule) → Engine × Result RoutingError Rule
keep_engine e (ok (e', rule)) = (e', ok rule)
keep_engine e (err why) = (e, err why)

abbrev pub delete_key : Text → Engine → Option Rule → Engine
delete_key key e (some rule) = record e {
  rules = remove key e.rules;
  generation = (e.generation + 1) % 2 ^ 64;
}
delete_key key e none = e

module _ (u : Unicode) (net : Netip) where
  unfoldable pub explain : Text → Engine → Result RoutingError Decision
  explain value e = do t ← parse_target u net value; ok (decide e t (match_locked e.rules t))

  unfoldable pub set_rule : Text → Action → ℕ → Engine → Engine × Result RoutingError Rule
  set_rule value action now e = keep_engine e (do
    fail_if (not (valid action)) invalid_action
    fail_if (is_auto action) auto_rule
    t ← parse_target u net value
    ok (store_rule now t action e (find (target_key t) e.rules)))

  abbrev pub delete_target :
      Engine → Result RoutingError Target → Engine × Result RoutingError Decision
  delete_target e (err why) = (e, err why)
  delete_target e (ok t) =
      let e' = delete_key (target_key t) e (find (target_key t) e.rules) in (e', explain t.value e')

  unfoldable pub delete_rule : Text → Engine → Engine × Result RoutingError Decision
  delete_rule value e = delete_target e (parse_target u net value)
