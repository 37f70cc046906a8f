-- ===== src/Handshake/Attempts/Replay.antt =====
-- The tombstones of internal/handshake/cache.go.
use wg.Prelude.{
  ℕ, ◌<◌, ◌≡◌, refl, sym, ap, ◌∙◌, inl, inr, true, false, ◌&&◌, ◌||◌, Option, none, some, List, [],
  ◌∷◌, length, ltb, leb, Bool-cases, arith,
}
use wg.Prelude.Equality.{ℕ_equality, list_equality, ◌=?◌, same_ne}
use wg.Prelude.Maps.{find, put, remove, find-put, find-remove}
use wg.Handshake.Attempts.{
  AttemptPhase, attempt_building, attempt_ready, attempt_tombstone, attempt_failed, AttemptError,
  err_transcript, err_attempt_expired, Bytes, AttemptEntry, Attempts, is_active, tombstone_attempt,
  stays, fate, sweep, cleanup, at_least,
}
use wg.Handshake.Attempts.Methods.{
  refused, reason_or_expired, is_own, is_of, acquire_found, acquire, publish_found, publish,
  fail_found, fail, promote_found, promote, grace_found, confirm_grace_active, remove_found,
  remove_attempt,
}
use wg.Handshake.Attempts.Events.{
  Event, acquire_event, publish_event, fail_event, promote_event, grace_event, remove_event,
  cleanup_event, step, run,
}
use wg.Handshake.Attempts.Bounds.{find-swept}

some_reason : (o : Option AttemptError) → (why : AttemptError) × (reason_or_expired o ≡ some why)
some_reason none = (err_attempt_expired, refl)
some_reason (some why) = (why, refl)

-- What the sweep leaves alone it keeps under its key.
pub find-sweep :
    (now retention : ℕ) (k : Bytes) (m : List (Bytes × AttemptEntry)) (e : AttemptEntry)
    → find k m ≡ some e
    → fate now e.phase e ≡ stays
    → find k (sweep now retention m).left ≡ some e
unfolding sweep find
find-sweep now retention k [] e h stay = cc
find-sweep now retention k ((j, d) ∷ m) e h stay = elim (Bool-cases (j =? k)) [
  | inl here ↦
      let entry : some d ≡ some e = rw here at h in
      let entry' : d ≡ e = cc in rw (entry', stay, here) refl
  | inr away ↦
      find-swept now retention k j d (fate now d.phase d) (sweep now retention m) away
      ∙ find-sweep now retention k m e (rw away at h) stay
]

-- Every call comes before the time.
abbrev pub Before : ℕ → List (ℕ × Event) → Type 0
Before t [] = Unit {0}
Before t ((now, v) ∷ vs) = (now < t) × Before t vs

module _ (key : Bytes) (e : AttemptEntry) where
  -- An acquisition changes no entry that stands under a key.
  pub acquire_kept :
      (j initial : Bytes) (now : ℕ) (s : Attempts) (o : Option AttemptEntry)
      → find key s.attempts ≡ some e
      → find j s.attempts ≡ o
      → find key (acquire_found j initial now s o).0.attempts ≡ some e
  unfolding acquire_found
  acquire_kept j initial now s (some d) f g = elim (Bool-cases (d.initial =? initial)) [
    | inl same ↦ rw same f
    | inr differ ↦ rw differ f
  ]
  acquire_kept j initial now s none f g =
      elim (Bool-cases (
        at_least s.active s.options.max_pending || leb s.options.max_records (length s.attempts))) [
          | inl full ↦ rw full f
          | inr room ↦
              let away : (j =? key) ≡ false = same_ne j key (λ same.
                let both : none ≡ some e = sym g ∙ ap (λ (k : Bytes). find k s.attempts) same ∙ f in
                cc) in
              rw room (find-put j key _ s.attempts ∙ rw away f)
        ]

module _ (key : Bytes) (e : AttemptEntry) (dead : e.phase ≡ attempt_tombstone) where
  -- The key of an active entry is another one.
  other_key :
      (j : Bytes) (d : AttemptEntry) (m : List (Bytes × AttemptEntry))
      → find key m ≡ some e
      → find j m ≡ some d
      → is_active d.phase ≡ true
      → (j =? key) ≡ false
  other_key j d m f g active = same_ne j key (λ same.
      let both : some d ≡ some e = sym g ∙ ap (λ (k : Bytes). find k m) same ∙ f in
      let entry : d ≡ e = cc in
      let phase : is_active attempt_tombstone ≡ true =
        ap is_active (sym dead) ∙ rw entry at active in
      cc)

  kept_put :
      (j : Bytes) (d d' : AttemptEntry) (m : List (Bytes × AttemptEntry))
      → find key m ≡ some e
      → find j m ≡ some d
      → is_active d.phase ≡ true
      → find key (put j d' m) ≡ some e
  kept_put j d d' m f g active = find-put j key d' m ∙ rw (other_key j d m f g active) f

  kept_remove :
      (j : Bytes) (d : AttemptEntry) (m : List (Bytes × AttemptEntry))
      → find key m ≡ some e
      → find j m ≡ some d
      → is_active d.phase ≡ true
      → find key (remove j m) ≡ some e
  kept_remove j d m f g active = find-remove j key m ∙ rw (other_key j d m f g active) f

  own_active :
      (id : ℕ) (d : AttemptEntry) (p : AttemptPhase)
      → d.phase ≡ p
      → is_own id d ≡ true
      → is_active d.phase ≡ true
  own_active id d attempt_building q h = rw q refl
  own_active id d attempt_ready q h = rw q refl
  own_active id d attempt_tombstone q h = ground arith
  own_active id d attempt_failed q h = ground arith

  of_active :
      (session : ℕ) (d : AttemptEntry) (p : AttemptPhase)
      → d.phase ≡ p
      → is_of session d ≡ true
      → is_active d.phase ≡ true
  of_active session d attempt_building q h = rw q refl
  of_active session d attempt_ready q h = rw q refl
  of_active session d attempt_tombstone q h = ground arith
  of_active session d attempt_failed q h = ground arith

  pub cleanup_kept :
      (now : ℕ) (s : Attempts)
      → find key s.attempts ≡ some e
      → now < e.forget_at
      → find key (cleanup now s).0.attempts ≡ some e
  unfolding cleanup
  cleanup_kept now s f young =
      find-sweep now s.options.replay_retention key s.attempts e f (rw dead (ground arith))

  publish_kept :
      (id : ℕ) (j : Bytes) (session : ℕ) (response : Bytes) (now : ℕ) (s : Attempts)
      (o : Option AttemptEntry)
      → find key s.attempts ≡ some e
      → find j s.attempts ≡ o
      → find key (publish_found id j session response now s o).0.attempts ≡ some e
  unfolding publish_found
  publish_kept id j session response now s none f g = f
  publish_kept id j session response now s (some d) f g = elim (Bool-cases (is_own id d)) [
    | inl own ↦ rw own (kept_put j d _ s.attempts f g (own_active id d d.phase refl own))
    | inr other ↦ rw other f
  ]

  fail_kept :
      (id : ℕ) (j : Bytes) (failure : AttemptError) (s : Attempts) (o : Option AttemptEntry)
      → find key s.attempts ≡ some e
      → find j s.attempts ≡ o
      → find key (fail_found id j failure s o).attempts ≡ some e
  unfolding fail_found
  fail_kept id j failure s none f g = f
  fail_kept id j failure s (some d) f g = elim (Bool-cases (is_own id d)) [
    | inl own ↦ rw own (kept_remove j d s.attempts f g (own_active id d d.phase refl own))
    | inr other ↦ rw other f
  ]

  promote_kept :
      (j : Bytes) (session now : ℕ) (s : Attempts) (o : Option AttemptEntry)
      → find key s.attempts ≡ some e
      → find j s.attempts ≡ o
      → find key (promote_found j session now s o).0.attempts ≡ some e
  unfolding promote_found tombstone_attempt
  promote_kept j session now s none f g = f
  promote_kept j session now s (some d) f g = elim (Bool-cases (is_of session d)) [
    | inr other ↦ rw other f
    | inl own ↦
        let active = of_active session d d.phase refl own in
        elim (Bool-cases (ltb now d.expires_at)) [
          | inl young ↦ rw (own, young) (kept_put j d _ s.attempts f g active)
          | inr old ↦ rw (own, old) (kept_put j d _ s.attempts f g active)
        ]
  ]

  grace_kept :
      (j : Bytes) (session now : ℕ) (s : Attempts) (o : Option AttemptEntry)
      → find key s.attempts ≡ some e
      → find j s.attempts ≡ o
      → find key (grace_found j session now s o).0.attempts ≡ some e
  unfolding grace_found tombstone_attempt
  grace_kept j session now s none f g = f
  grace_kept j session now s (some d) f g = elim (Bool-cases (is_of session d && d.confirmed)) [
    | inr other ↦ rw other f
    | inl own ↦
        let of : is_of session d ≡ true = ground arith in
        elim (Bool-cases (ltb now d.expires_at)) [
          | inl young ↦ rw (own, young) f
          | inr old ↦
              rw (own, old) (kept_put j d _ s.attempts f g (of_active session d d.phase refl of))
        ]
  ]

  remove_kept :
      (j : Bytes) (session : ℕ) (reason : Option AttemptError) (now : ℕ) (s : Attempts)
      (o : Option AttemptEntry)
      → find key s.attempts ≡ some e
      → find j s.attempts ≡ o
      → find key (remove_found j session reason now s o).attempts ≡ some e
  unfolding remove_found tombstone_attempt
  remove_kept j session reason now s none f g = f
  remove_kept j session reason now s (some d) f g = elim (Bool-cases (is_of session d)) [
    | inl own ↦ rw own (kept_put j d _ s.attempts f g (of_active session d d.phase refl own))
    | inr other ↦ rw other f
  ]

  step_kept :
      (now : ℕ) (v : Event) (s : Attempts)
      → find key s.attempts ≡ some e
      → now < e.forget_at
      → find key (step now v s).attempts ≡ some e
  unfolding step acquire publish fail promote confirm_grace_active remove_attempt
  step_kept now (acquire_event j initial) s f y =
      acquire_kept key e j initial now (cleanup now s).0 _ (cleanup_kept now s f y) refl
  step_kept now (publish_event id j session response) s f y =
      publish_kept id j session response now s _ f refl
  step_kept now (fail_event id j failure) s f y = fail_kept id j failure s _ f refl
  step_kept now (promote_event j session) s f y = promote_kept j session now s _ f refl
  step_kept now (grace_event j session) s f y = grace_kept j session now s _ f refl
  step_kept now (remove_event j session reason) s f y = remove_kept j session reason now s _ f refl
  step_kept now cleanup_event s f y = cleanup_kept now s f y

  run_kept :
      (vs : List (ℕ × Event)) (s : Attempts)
      → find key s.attempts ≡ some e
      → Before e.forget_at vs
      → find key (run vs s).attempts ≡ some e
  unfolding run
  run_kept [] s f b = f
  run_kept ((now, v) ∷ vs) s f (y, b) = run_kept vs (step now v s) (step_kept now v s f y) b

  refused_found :
      (initial : Bytes) (now : ℕ) (s : Attempts)
      → (why : AttemptError) × ((acquire_found key initial now s (some e)).1 ≡ refused (some why))
  unfolding acquire_found
  refused_found initial now s = elim (Bool-cases (e.initial =? initial)) [
    | inr differ ↦ (err_transcript, rw differ refl)
    | inl same ↦ let (why, is) = some_reason e.error in (why, rw (same, dead) (ap refused is))
  ]

  -- A key under which a tombstone stands until a time stays refused until then: whatever calls
  -- before that time come in between, an acquisition of the key before that time gets an error,
  -- and the tombstone stands under the key as before.
  pub acquire_refused :
      (initial : Bytes) (now : ℕ) (vs : List (ℕ × Event)) (s : Attempts)
      → find key s.attempts ≡ some e
      → Before e.forget_at vs
      → now < e.forget_at
      → (why : AttemptError) × ((acquire key initial now (run vs s)).1 ≡ refused (some why))
        × (find key (acquire key initial now (run vs s)).0.attempts ≡ some e)
  unfolding acquire
  acquire_refused initial now vs s f b y =
      let f' = cleanup_kept now (run vs s) (run_kept vs s f b) y in
      let (why, is) = refused_found initial now (cleanup now (run vs s)).0 in
      (why, rw f' is, acquire_kept key e key initial now (cleanup now (run vs s)).0 _ f' refl)
