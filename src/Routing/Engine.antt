-- ===== src/Routing/Engine.antt =====
-- The engine of internal/routing/routing.go. A method that changes the engine returns the new one;
-- the lock that it holds makes it one step. The time that a method reads is an argument of it.
pub mod Longest
use wg.Prelude.{
  ℕ, Bool, true, false, ◌&&◌, Option, none, some, List, [], ◌∷◌, ◌++◌, ltb, if◌then◌else◌,
}
use wg.Prelude.Maps.{find}
use wg.Text.{Text, text_equality, is_empty, trim_space}
use wg.Routing.Address.{Addr, Prefix, contains}
use wg.Routing.Target.{
  Action, tunnel, auto, effective, TargetKind, target_domain, target_ip, target_cidr, Target,
}

pub data Source : Type 0 where
  manual automatic : Source

pub record Rule : Type 0 where
  pub id : ℕ  -- uint64
  pub target : Target
  pub action : Action
  pub source : Source
  pub created_at : ℕ
  pub updated_at : ℕ

-- The texts of the reasons, with what is put into them.
pub data Reason : Type 0 where
  longest_prefix : Text → Reason
  exact_match : TargetKind → Reason
  unclassified_default configured_default classifier_invalid : Reason
  classifier_text : Text → Reason
  classifier_selected : Action → Reason

pub record Decision : Type 0 where
  pub target : Target
  pub action : Action
  pub effective_action : Action
  pub source : Source
  pub reason : Reason
  pub matched_rule : Option Rule
  pub generation : ℕ

abbrev pub AutoDecider : Type 0
AutoDecider = Target → Action × Text

-- `decider` is `none` for nil.
pub record Engine : Type 0 where
  pub rules : List (Text × Rule)
  pub next_id : ℕ  -- uint64
  pub generation : ℕ  -- uint64
  pub default_action : Action
  pub decider : Option AutoDecider

-- An option that is nil changes nothing.
pub data EngineOption : Type 0 where
  with_auto_decider : Option AutoDecider → EngineOption
  with_default_action : Action → EngineOption
  nil_option : EngineOption

unfoldable pub apply_option : EngineOption → Engine → Engine
apply_option (with_auto_decider none) e = e
apply_option (with_auto_decider (some d)) e = record e { decider = some d }
apply_option (with_default_action a) e = if effective a then record e { default_action = a } else e
apply_option nil_option e = e

unfoldable pub apply_options : List EngineOption → Engine → Engine
apply_options [] e = e
apply_options (o ∷ os) e = apply_options os (apply_option o e)

abbrev empty_engine : Engine
empty_engine = record {
  rules = [];
  next_id = 0;
  generation = 0;
  default_action = tunnel;
  decider = none;
}

unfoldable pub new_engine : List EngineOption → Engine
new_engine options = apply_options options empty_engine

abbrev pub kind_text : TargetKind → Text
kind_text target_domain = b'D' ∷ b'O' ∷ b'M' ∷ b'A' ∷ b'I' ∷ b'N' ∷ []
kind_text target_ip = b'I' ∷ b'P' ∷ []
kind_text target_cidr = b'C' ∷ b'I' ∷ b'D' ∷ b'R' ∷ []

unfoldable pub target_key : Target → Text
target_key t = kind_text t.kind ++ (0 ∷ t.value)

abbrev kind_is_cidr : TargetKind → Bool
kind_is_cidr target_cidr = true
kind_is_cidr _ = false

abbrev kind_is_ip : TargetKind → Bool
kind_is_ip target_ip = true
kind_is_ip _ = false

-- The bits of a rule whose prefix contains the address, and `none` for other rules.
abbrev pub prefix_covers : Option Prefix → Option Addr → Option ℕ
prefix_covers (some p) (some a) = if contains p a then some p.bits else none
prefix_covers (some p) none = none
prefix_covers none a = none

unfoldable pub covering_bits : Option Addr → Rule → Option ℕ
covering_bits a rule =
    if kind_is_cidr rule.target.kind then prefix_covers rule.target.prefix a else none

-- `best` and `bestBits`, which starts below every number of bits.
abbrev pub Best : Type 0
Best = Option (Rule × ℕ)

abbrev pub improve : Best → Rule → Option ℕ → Best
improve best rule none = best
improve none rule (some bits) = some (rule, bits)
improve (some (r, n)) rule (some bits) = if ltb n bits then some (rule, bits) else some (r, n)

-- The loop over the map, in the order of the list.
unfoldable pub longest_match : Option Addr → Best → List (Text × Rule) → Best
longest_match a best [] = best
longest_match a best ((key, rule) ∷ rules) =
    longest_match a (improve best rule (covering_bits a rule)) rules

abbrev pub best_rule : Best → Option Rule
best_rule none = none
best_rule (some (rule, bits)) = some rule

abbrev pub match_other : Target → List (Text × Rule) → Option Rule → Option Rule
match_other t rules (some rule) = some rule
match_other t rules none =
    if kind_is_ip t.kind then best_rule (longest_match t.addr none rules) else none

unfoldable pub match_locked : List (Text × Rule) → Target → Option Rule
match_locked rules t = match_other t rules (find (target_key t) rules)

abbrev manual_reason : Rule → Target → Reason
manual_reason rule t =
    if kind_is_cidr rule.target.kind && kind_is_ip t.kind
    then longest_prefix rule.target.value
    else exact_match rule.target.kind

abbrev default_is_tunnel : Action → Bool
default_is_tunnel tunnel = true
default_is_tunnel _ = false

-- The effective action and the reason where no rule matches.
abbrev pub classify : Engine → Target → Option AutoDecider → Action × Reason
classify e t (some decider) =
    let (classified, text) = decider t in
    if effective classified
    then (
      classified,
      (if is_empty (trim_space text) then classifier_selected classified else classifier_text text),
    )
    else (e.default_action, classifier_invalid)
classify e t none = (
  e.default_action,
  (if default_is_tunnel e.default_action then unclassified_default else configured_default),
)

abbrev pub decide : Engine → Target → Option Rule → Decision
decide e t (some rule) = record {
  target = t;
  action = rule.action;
  effective_action = rule.action;
  source = manual;
  reason = manual_reason rule t;
  matched_rule = some rule;
  generation = e.generation;
}
decide e t none = record {
  target = t;
  action = auto;
  effective_action = (classify e t e.decider).0;
  source = automatic;
  reason = (classify e t e.decider).1;
  matched_rule = none;
  generation = e.generation;
}
