-- ===== src/Handshake/Attempts/Bounds.antt =====
-- The bounds of the attempt cache of internal/handshake/cache.go.
use wg.Prelude.{
  ℕ, zero, suc, ◌+◌, ◌≤◌, ◌≡◌, refl, sym, ap, ◌∙◌, inl, inr, false, none, some, List, [], ◌∷◌,
  length, if◌then◌else◌, Bool-cases, arith,
}
use wg.Prelude.Int.{pos}
use wg.Prelude.Equality.{ℕ_equality, list_equality, ◌=?◌, same_of}
use wg.Prelude.Maps.{find, remove, Unique, remove_absent}
use wg.Handshake.Attempts.{
  AttemptPhase, attempt_building, attempt_ready, attempt_tombstone, attempt_failed, Bytes,
  AttemptEntry, Attempts, down, lower, is_active, Fate, stays, expires, forgotten, fate, Swept,
  swept, sweep, cleanup,
}

abbrev pub weight : AttemptEntry → ℕ
weight e = if is_active e.phase then 1 else 0

-- How many attempts are being built or wait for their confirmation.
unfoldable pub count_active : List (Bytes × AttemptEntry) → ℕ
count_active [] = 0
count_active ((k, e) ∷ m) = weight e + count_active m

-- The counter is right, and neither limit is exceeded.
pub record IsBounded (s : Attempts) : Type 0 where
  pub unique : Unique s.attempts
  pub counted : s.active ≡ pos (count_active s.attempts)
  pub pending : count_active s.attempts ≤ s.options.max_pending
  pub records : length s.attempts ≤ s.options.max_records

pub count_active-remove :
    (k : Bytes) (m : List (Bytes × AttemptEntry)) (e : AttemptEntry)
    → Unique m
    → find k m ≡ some e
    → count_active (remove k m) + weight e ≡ count_active m
unfolding count_active remove find
count_active-remove k [] e u h = cc
count_active-remove k ((j, d) ∷ m) e (a, u) h = elim (Bool-cases (j =? k)) [
  | inl here ↦
      let same : j ≡ k = same_of j k here in
      let gone : remove k m ≡ m = remove_absent k m (rw same at a) in
      let entry : some d ≡ some e = rw here at h in
      let entry' : d ≡ e = cc in rw (here, gone, entry') (omega arith)
  | inr away ↦
      let ih : count_active (remove k m) + weight e ≡ count_active m =
        count_active-remove k m e u (rw away at h) in
      rw away (omega arith)
]

lower_pos : (n c : ℕ) → lower n (pos (c + n)) ≡ pos c
lower_pos zero c = ap pos (omega arith)
lower_pos (suc n) c =
    let e : down (pos (c + suc n)) ≡ pos (c + n) = ground arith in rw e (lower_pos n c)

module _ (now retention : ℕ) where
  weight-fate :
      (e : AttemptEntry) (p : AttemptPhase) → e.phase ≡ p → fate now p e ≡ expires → weight e ≡ 1
  weight-fate e attempt_building q h = rw q refl
  weight-fate e attempt_ready q h = rw q refl
  weight-fate e attempt_tombstone q h = ground arith
  weight-fate e attempt_failed q h = cc

  weight-forgotten :
      (e : AttemptEntry) (p : AttemptPhase) → e.phase ≡ p → fate now p e ≡ forgotten → weight e ≡ 0
  weight-forgotten e attempt_building q h = ground arith
  weight-forgotten e attempt_ready q h = ground arith
  weight-forgotten e attempt_tombstone q h = rw q refl
  weight-forgotten e attempt_failed q h = rw q refl

  -- What a step of the loop does to the number of active attempts and of records.
  swept_counts :
      (k : Bytes) (e : AttemptEntry) (f : Fate) (w : Swept)
      → fate now e.phase e ≡ f
      → (count_active (swept now retention k e f w).left + (swept now retention k e f w).released
          ≡ weight e + count_active w.left + w.released)
        × (length (swept now retention k e f w).left ≤ suc (length w.left))
  unfolding count_active
  swept_counts k e stays w h = omega arith
  swept_counts k e expires w h = omega (arith, weight-fate e e.phase refl h)
  swept_counts k e forgotten w h = omega (arith, weight-forgotten e e.phase refl h)

  sweep_counts :
      (m : List (Bytes × AttemptEntry))
      → (count_active (sweep now retention m).left + (sweep now retention m).released
          ≡ count_active m)
        × (length (sweep now retention m).left ≤ length m)
  unfolding sweep count_active
  sweep_counts [] = omega arith
  sweep_counts ((k, e) ∷ m) =
      let ih = sweep_counts m in
      let here = swept_counts k e (fate now e.phase e) (sweep now retention m) refl in omega arith

  pub find-swept :
      (k j : Bytes) (e : AttemptEntry) (f : Fate) (w : Swept)
      → (j =? k) ≡ false
      → find k (swept now retention j e f w).left ≡ find k w.left
  unfolding find
  find-swept k j e stays w h = rw h refl
  find-swept k j e expires w h = rw h refl
  find-swept k j e forgotten w h = refl

  pub find-sweep-none :
      (k : Bytes) (m : List (Bytes × AttemptEntry))
      → find k m ≡ none
      → find k (sweep now retention m).left ≡ none
  unfolding sweep find
  find-sweep-none k [] h = refl
  find-sweep-none k ((j, e) ∷ m) h = elim (Bool-cases (j =? k)) [
    | inl here ↦ let bad = rw here at h in cc
    | inr away ↦
        find-swept k j e (fate now e.phase e) (sweep now retention m) away
        ∙ find-sweep-none k m (rw away at h)
  ]

  swept-Unique :
      (k : Bytes) (e : AttemptEntry) (f : Fate) (w : Swept)
      → find k w.left ≡ none
      → Unique w.left
      → Unique (swept now retention k e f w).left
  swept-Unique k e stays w h u = (h, u)
  swept-Unique k e expires w h u = (h, u)
  swept-Unique k e forgotten w h u = u

  sweep-Unique : (m : List (Bytes × AttemptEntry)) → Unique m → Unique (sweep now retention m).left
  unfolding sweep
  sweep-Unique [] u = tt
  sweep-Unique ((k, e) ∷ m) (a, u) =
      swept-Unique k e (fate now e.phase e) (sweep now retention m) (find-sweep-none k m a)
        (sweep-Unique m u)

pub cleanup-IsBounded : (now : ℕ) (s : Attempts) → IsBounded s → IsBounded (cleanup now s).0
unfolding cleanup
cleanup-IsBounded now s b =
    let r = s.options.replay_retention in
    let c = sweep_counts now r s.attempts in
    let start : s.active
        ≡ pos (count_active (sweep now r s.attempts).left + (sweep now r s.attempts).released) =
      b.counted ∙ ap pos (sym c.0) in
    record {
      unique = sweep-Unique now r s.attempts b.unique;
      counted =
          ap (lower (sweep now r s.attempts).released) start
          ∙ lower_pos (sweep now r s.attempts).released _;
      pending = omega arith;
      records = omega arith;
    }
