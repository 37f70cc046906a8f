-- ===== src/Routing/Examples.antt =====
-- Runs of the engine of internal/routing/routing.go at concrete inputs.
use wg.Prelude.{
  leb, Bool-cases, ◌≡◌, refl, ◌⊎◌, inl, inr, true, false, Option, none, some, List, [], ◌∷◌,
  if◌then◌else◌, ok,
}
use wg.Prelude.Equality.{◌=?◌, same_of, same_sym}
use wg.Prelude.Maps.{find, remove, Unique}
use wg.Text.{
  Text, text_equality, Unicode, trim_space, trim_left, trim_right, is_space, contains_rune,
}
use wg.Routing.Address.{v4, Prefix, Netip, masked, unmap, contains}
use wg.Routing.Target.{
  Action, tunnel, direct, block, effective, Target, parse_target, ip_target, cidr_target,
  canonical_prefix,
}
use wg.Routing.Engine.{
  manual, Rule, Engine, Decision, new_engine, apply_options, target_key, match_locked, decide,
  longest_match, covering_bits,
}
use wg.Routing.Methods.{set_rule, explain, store_rule}
use wg.Routing.Invariant.{IsEntry, IsValid}
use wg.Routing.Matching.Prefixes.{Answers, match_locked-Answers}
use wg.Routing.Matching.Order.{match_locked_order}
use wg.Routing.Policy.{policy}
use wg.Routing.Policy.Calls.{
  Call, set, delete, call, run, meanings, run-new_engine-IsValid, policy-run-new_engine,
}
use wg.Routing.Policy.Generation.{Changed, call-Changed}
use wg.Routing.Decisions.{explain_concrete}

abbrev unicode : Unicode
unicode = record { lower_rune = λ c. c; upper_rune = λ c. c }

-- "10.0.0.1", "10.0.0.0/8" and "10.0.0.0/24"
abbrev host_text : Text
host_text = b'1' ∷ b'0' ∷ b'.' ∷ b'0' ∷ b'.' ∷ b'0' ∷ b'.' ∷ b'1' ∷ []

abbrev wide_text : Text
wide_text = b'1' ∷ b'0' ∷ b'.' ∷ b'0' ∷ b'.' ∷ b'0' ∷ b'.' ∷ b'0' ∷ b'/' ∷ b'8' ∷ []

abbrev narrow_text : Text
narrow_text = b'1' ∷ b'0' ∷ b'.' ∷ b'0' ∷ b'.' ∷ b'0' ∷ b'.' ∷ b'0' ∷ b'/' ∷ b'2' ∷ b'4' ∷ []

abbrev wide : Prefix
wide = record { addr = v4 0x0A000000; bits = 8 }

abbrev narrow : Prefix
narrow = record { addr = v4 0x0A000000; bits = 24 }

-- The parser and the printer on these texts alone.
abbrev netip : Netip
netip = record {
  parse_addr = λ s. if s =? host_text then some (v4 0x0A000001) else none;
  parse_prefix =
      λ s. if s =? wide_text then some wide else if s =? narrow_text then some narrow else none;
  show_addr = λ a. host_text;
  show_prefix = λ p. if leb p.bits 8 then wide_text else narrow_text;
}

-- A network through the tunnel and a direct part of it.
abbrev calls : List Call
calls = set wide_text tunnel 5 ∷ set narrow_text direct 6 ∷ []

abbrev engine : Engine
engine = run unicode netip calls (new_engine [])

abbrev host : Target
host = ip_target netip (v4 0x0A000001)

run-new_engine-IsValid_example : IsValid netip engine
run-new_engine-IsValid_example = run-new_engine-IsValid unicode netip [] calls

policy-run-new_engine_example : policy engine ≡ meanings unicode netip calls (λ k. none)
policy-run-new_engine_example = policy-run-new_engine unicode netip [] calls

match_locked-Answers_example :
    Answers netip
      (v4 0x0A000001)
      engine.rules
      (find (target_key host) engine.rules)
      (match_locked engine.rules host)
match_locked-Answers_example =
    match_locked-Answers netip (v4 0x0A000001) engine.rules
      (run-new_engine-IsValid unicode netip [] calls).entries

-- The longer prefix wins.
host_is_direct : policy engine (target_key (cidr_target netip narrow)) ≡ some direct
unfolding run call set_rule store_rule new_engine apply_options parse_target trim_space trim_left
    trim_right is_space contains_rune canonical_prefix masked find target_key policy remove
host_is_direct = refl

-- A blocked network and a direct part of it: the action plays no part in the choice of the rule.
abbrev blocking_engine : Engine
blocking_engine =
    run unicode netip (set wide_text block 5 ∷ set narrow_text direct 6 ∷ []) (new_engine [])

abbrev action_of_rule : Option Rule → Action
action_of_rule none = tunnel
action_of_rule (some r) = r.action

host_under_block : action_of_rule (match_locked blocking_engine.rules host) ≡ direct
unfolding run call set_rule store_rule new_engine apply_options parse_target trim_space trim_left
    trim_right is_space contains_rune canonical_prefix masked find target_key remove match_locked
    longest_match covering_bits contains
host_under_block = refl

call-Changed_example :
    (call unicode netip (delete wide_text) engine ≡ engine)
    ⊎ Changed engine (call unicode netip (delete wide_text) engine)
call-Changed_example = call-Changed unicode netip (delete wide_text) engine

host_parses : parse_target unicode netip host_text ≡ ok host
unfolding parse_target trim_space trim_left trim_right is_space contains_rune unmap
host_parses = refl

abbrev decision : Decision
decision = decide engine host (match_locked engine.rules host)

host_is_explained : explain unicode netip host_text engine ≡ ok decision
unfolding explain
host_is_explained = rw host_parses refl

explain_concrete_example : effective decision.effective_action ≡ true
explain_concrete_example =
    explain_concrete unicode netip [] calls host_text decision host_is_explained

-- The same two rules in both orders.
abbrev wide_rule : Rule
wide_rule = record {
  id = 1;
  target = cidr_target netip wide;
  action = tunnel;
  source = manual;
  created_at = 5;
  updated_at = 5;
}

abbrev narrow_rule : Rule
narrow_rule = record {
  id = 2;
  target = cidr_target netip narrow;
  action = direct;
  source = manual;
  created_at = 6;
  updated_at = 6;
}

abbrev wide_key : Text
wide_key = target_key wide_rule.target

abbrev narrow_key : Text
narrow_key = target_key narrow_rule.target

abbrev wide_first : List (Text × Rule)
wide_first = (wide_key, wide_rule) ∷ (narrow_key, narrow_rule) ∷ []

abbrev narrow_first : List (Text × Rule)
narrow_first = (narrow_key, narrow_rule) ∷ (wide_key, wide_rule) ∷ []

wide-IsEntry : IsEntry netip (wide_key, wide_rule)
unfolding masked
wide-IsEntry = record {
  keyed = refl;
  canonical = inr (inr (wide, refl, (refl, refl)));
  concrete = refl;
  by_hand = refl;
}

narrow-IsEntry : IsEntry netip (narrow_key, narrow_rule)
unfolding masked
narrow-IsEntry = record {
  keyed = refl;
  canonical = inr (inr (narrow, refl, (refl, refl)));
  concrete = refl;
  by_hand = refl;
}

wide_first-Unique : Unique wide_first
unfolding find target_key
wide_first-Unique = (refl, (refl, tt))

narrow_first-Unique : Unique narrow_first
unfolding find target_key
narrow_first-Unique = (refl, (refl, tt))

differ : (wide_key =? narrow_key) ≡ false
unfolding target_key
differ = refl

same_rules : (j : Text) → find j wide_first ≡ find j narrow_first
unfolding find
same_rules j = elim (Bool-cases (wide_key =? j)) [
  | inr away ↦ rw away refl
  | inl here ↦
      let same : wide_key ≡ j = same_of wide_key j here in
      let away : (narrow_key =? j) ≡ false = rw (same_sym wide_key narrow_key, same) at differ in
      rw (here, away) refl
]

match_locked_order_example : match_locked wide_first host ≡ match_locked narrow_first host
match_locked_order_example =
    match_locked_order netip wide_first narrow_first wide_first-Unique narrow_first-Unique
      (wide-IsEntry, (narrow-IsEntry, tt)) (narrow-IsEntry, (wide-IsEntry, tt)) same_rules host
