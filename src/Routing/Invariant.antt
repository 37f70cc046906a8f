-- ===== src/Routing/Invariant.antt =====
-- The invariant of the engine of internal/routing/routing.go.
use wg.Prelude.{
  ℕ, ◌≡◌, refl, ◌⊎◌, inl, inr, true, Option, none, some, List, [], ◌∷◌, All, Bool-cases,
  Result-cases, Result, ok, err, ◌>>=◌,
}
use wg.Prelude.Maps.{find, Unique, put-Unique, remove-Unique, All-remove, All-find}
use wg.Text.{Text, text_equality, Unicode}
use wg.Routing.Address.{Netip}
use wg.Routing.Target.{
  Action, tunnel, direct, block, auto, other_action, effective, RoutingError, invalid_action,
  auto_rule, Target, parse_target,
}
use wg.Routing.Target.Canonical.{IsTarget, parse_target-IsTarget}
use wg.Routing.Engine.{
  manual, Rule, Engine, EngineOption, with_auto_decider, with_default_action, nil_option,
  apply_option, apply_options, new_engine, target_key,
}
use wg.Routing.Methods.{keep_engine, same_action, store_rule, set_rule, delete_rule, delete_key}

-- A rule stands under the key of its target; it is manual, and its action is a concrete one.
pub record IsEntry (net : Netip) (x : Text × Rule) : Type 0 where
  pub keyed : x.0 ≡ target_key x.1.target
  pub canonical : IsTarget net x.1.target
  pub concrete : effective x.1.action ≡ true
  pub by_hand : x.1.source ≡ manual

-- A key has one rule, and what the engine falls back on is concrete.
pub record IsValid (net : Netip) (e : Engine) : Type 0 where
  pub unique : Unique e.rules
  pub entries : All (IsEntry net) e.rules
  pub safe : effective e.default_action ≡ true

apply_option-IsValid :
    (net : Netip) (o : EngineOption) (e : Engine) → IsValid net e → IsValid net (apply_option o e)
unfolding apply_option
apply_option-IsValid net (with_auto_decider none) e v = v
apply_option-IsValid net (with_auto_decider (some d)) e v = record {
  unique = v.unique;
  entries = v.entries;
  safe = v.safe;
}
apply_option-IsValid net (with_default_action a) e v = elim (Bool-cases (effective a)) [
  | inl good ↦ rw good (record { unique = v.unique; entries = v.entries; safe = good })
  | inr bad ↦ rw bad v
]
apply_option-IsValid net nil_option e v = v

apply_options-IsValid :
    (net : Netip) (os : List EngineOption) (e : Engine)
    → IsValid net e
    → IsValid net (apply_options os e)
unfolding apply_options
apply_options-IsValid net [] e v = v
apply_options-IsValid net (o ∷ os) e v =
    apply_options-IsValid net os (apply_option o e) (apply_option-IsValid net o e v)

pub new_engine-IsValid : (net : Netip) (os : List EngineOption) → IsValid net (new_engine os)
unfolding new_engine
new_engine-IsValid net os =
    apply_options-IsValid net os _ (record { unique = tt; entries = tt; safe = refl })

store_rule-IsValid :
    (net : Netip) (now : ℕ) (t : Target) (action : Action) (e : Engine) (o : Option Rule)
    → find (target_key t) e.rules ≡ o
    → effective action ≡ true
    → IsTarget net t
    → IsValid net e
    → IsValid net (store_rule now t action e o).0
unfolding store_rule
store_rule-IsValid net now t action e none f g c v = record {
  unique = put-Unique (target_key t) e.rules v.unique;
  entries = (
    record { keyed = refl; canonical = c; concrete = g; by_hand = refl },
    All-remove (IsEntry net) (target_key t) e.rules v.entries,
  );
  safe = v.safe;
}
store_rule-IsValid net now t action e (some existing) f g c v =
    elim (Bool-cases (same_action existing.action action)) [
      | inl same ↦ rw same v
      | inr differ ↦
          let old : IsEntry net (target_key t, existing) =
            All-find (IsEntry net) (target_key t) e.rules existing v.entries f in
          rw differ (record {
            unique = put-Unique (target_key t) e.rules v.unique;
            entries = (
              record {
                keyed = old.keyed;
                canonical = old.canonical;
                concrete = g;
                by_hand = old.by_hand;
              },
              All-remove (IsEntry net) (target_key t) e.rules v.entries,
            );
            safe = v.safe;
          })
    ]

delete_key-IsValid :
    (net : Netip) (key : Text) (e : Engine) (o : Option Rule)
    → IsValid net e
    → IsValid net (delete_key key e o)
delete_key-IsValid net key e none v = v
delete_key-IsValid net key e (some rule) v = record {
  unique = remove-Unique key e.rules v.unique;
  entries = All-remove (IsEntry net) key e.rules v.entries;
  safe = v.safe;
}

module _ (u : Unicode) (net : Netip) where
  -- A call of `SetRule` fails and changes nothing, or stores a concrete action for its target.
  abbrev pub Outcome : Text → Action → ℕ → Engine → Engine × Result RoutingError Rule → Type 0
  Outcome value action now e out =
      ((why : RoutingError) × (out ≡ (e, err why)))
      ⊎ ((t : Target) × (parse_target u net value ≡ ok t)
          × (effective action ≡ true)
          × (out ≡ (
            (store_rule now t action e (find (target_key t) e.rules)).0,
            ok (store_rule now t action e (find (target_key t) e.rules)).1,
          )))

  parsed-Outcome :
      (value : Text) (action : Action) (now : ℕ) (e : Engine) (r : Result RoutingError Target)
      → parse_target u net value ≡ r
      → effective action ≡ true
      → Outcome value action now e
          (keep_engine e (r >>= λ t. ok (store_rule now t action e (find (target_key t) e.rules))))
  parsed-Outcome value action now e (err why) parsed good = inl (why, refl)
  parsed-Outcome value action now e (ok t) parsed good = inr (t, parsed, good, refl)

  pub set_rule_cases :
      (value : Text) (action : Action) (now : ℕ) (e : Engine)
      → Outcome value action now e (set_rule u net value action now e)
  unfolding set_rule
  set_rule_cases value auto now e = inl (auto_rule, refl)
  set_rule_cases value (other_action s) now e = inl (invalid_action, refl)
  set_rule_cases value tunnel now e = parsed-Outcome value tunnel now e _ refl refl
  set_rule_cases value direct now e = parsed-Outcome value direct now e _ refl refl
  set_rule_cases value block now e = parsed-Outcome value block now e _ refl refl

  pub set_rule-IsValid :
      (value : Text) (action : Action) (now : ℕ) (e : Engine)
      → IsValid net e
      → IsValid net (set_rule u net value action now e).0
  set_rule-IsValid value action now e v = elim (set_rule_cases value action now e) [
    | inl (why, same) ↦ rw same v
    | inr (t, parsed, good, out) ↦ rw out (
        store_rule-IsValid net now t action e (find (target_key t) e.rules) refl good
          (parse_target-IsTarget u net value t parsed) v)
  ]

  pub delete_rule-IsValid :
      (value : Text) (e : Engine) → IsValid net e → IsValid net (delete_rule u net value e).0
  unfolding delete_rule
  delete_rule-IsValid value e v = elim (Result-cases (parse_target u net value)) [
    | inl (why, bad) ↦ rw bad v
    | inr (t, good) ↦
        rw good (delete_key-IsValid net (target_key t) e (find (target_key t) e.rules) v)
  ]
