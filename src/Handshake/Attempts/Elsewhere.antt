-- ===== src/Handshake/Attempts/Elsewhere.antt =====
-- Calls of internal/handshake/cache.go that leave the live entry of a key alone: acquisitions, sweeps
-- and what is done for other keys.
use wg.Prelude.{
  ℕ, ◌<◌, ◌≡◌, refl, ◌∙◌, inl, inr, false, ◌&&◌, Option, none, some, List, [], ◌∷◌, ltb, Bool-cases,
}
use wg.Prelude.Equality.{ℕ_equality, list_equality, ◌=?◌}
use wg.Prelude.Maps.{find, find-put, find-remove}
use wg.Handshake.Attempts.{
  AttemptError, Bytes, AttemptEntry, Attempts, tombstone_attempt, stays, fate, cleanup,
}
use wg.Handshake.Attempts.Methods.{
  is_own, is_of, acquire, publish_found, publish, fail_found, fail, promote_found, promote,
  grace_found, confirm_grace_active, remove_found, remove_attempt,
}
use wg.Handshake.Attempts.Events.{
  Event, acquire_event, publish_event, fail_event, promote_event, grace_event, remove_event,
  cleanup_event, step, run,
}
use wg.Handshake.Attempts.Replay.{find-sweep, acquire_kept}

-- The call is an acquisition, a sweep, or about another key.
abbrev pub Elsewhere : Bytes → Event → Type 0
Elsewhere key (acquire_event j initial) = Unit {0}
Elsewhere key (publish_event id j session response) = (j =? key) ≡ false
Elsewhere key (fail_event id j failure) = (j =? key) ≡ false
Elsewhere key (promote_event j session) = (j =? key) ≡ false
Elsewhere key (grace_event j session) = (j =? key) ≡ false
Elsewhere key (remove_event j session reason) = (j =? key) ≡ false
Elsewhere key cleanup_event = Unit {0}

-- Such calls, each before the time.
abbrev pub Passing : Bytes → ℕ → List (ℕ × Event) → Type 0
Passing key t [] = Unit {0}
Passing key t ((now, v) ∷ vs) = (now < t) × Elsewhere key v × Passing key t vs

module _ (key j : Bytes) (away : (j =? key) ≡ false) where
  publish_away :
      (id session : ℕ) (response : Bytes) (now : ℕ) (s : Attempts) (o : Option AttemptEntry)
      → find key (publish_found id j session response now s o).0.attempts ≡ find key s.attempts
  unfolding publish_found
  publish_away id session response now s none = refl
  publish_away id session response now s (some d) = elim (Bool-cases (is_own id d)) [
    | inl own ↦ rw own (find-put j key _ s.attempts ∙ rw away refl)
    | inr other ↦ rw other refl
  ]

  fail_away :
      (id : ℕ) (failure : AttemptError) (s : Attempts) (o : Option AttemptEntry)
      → find key (fail_found id j failure s o).attempts ≡ find key s.attempts
  unfolding fail_found
  fail_away id failure s none = refl
  fail_away id failure s (some d) = elim (Bool-cases (is_own id d)) [
    | inl own ↦ rw own (find-remove j key s.attempts ∙ rw away refl)
    | inr other ↦ rw other refl
  ]

  promote_away :
      (session now : ℕ) (s : Attempts) (o : Option AttemptEntry)
      → find key (promote_found j session now s o).0.attempts ≡ find key s.attempts
  unfolding promote_found tombstone_attempt
  promote_away session now s none = refl
  promote_away session now s (some d) = elim (Bool-cases (is_of session d)) [
    | inr other ↦ rw other refl
    | inl own ↦ elim (Bool-cases (ltb now d.expires_at)) [
      | inl young ↦ rw (own, young) (find-put j key _ s.attempts ∙ rw away refl)
      | inr old ↦ rw (own, old) (find-put j key _ s.attempts ∙ rw away refl)
    ]
  ]

  grace_away :
      (session now : ℕ) (s : Attempts) (o : Option AttemptEntry)
      → find key (grace_found j session now s o).0.attempts ≡ find key s.attempts
  unfolding grace_found tombstone_attempt
  grace_away session now s none = refl
  grace_away session now s (some d) = elim (Bool-cases (is_of session d && d.confirmed)) [
    | inr other ↦ rw other refl
    | inl own ↦ elim (Bool-cases (ltb now d.expires_at)) [
      | inl young ↦ rw (own, young) refl
      | inr old ↦ rw (own, old) (find-put j key _ s.attempts ∙ rw away refl)
    ]
  ]

  remove_away :
      (session : ℕ) (reason : Option AttemptError) (now : ℕ) (s : Attempts)
      (o : Option AttemptEntry)
      → find key (remove_found j session reason now s o).attempts ≡ find key s.attempts
  unfolding remove_found tombstone_attempt
  remove_away session reason now s none = refl
  remove_away session reason now s (some d) = elim (Bool-cases (is_of session d)) [
    | inl own ↦ rw own (find-put j key _ s.attempts ∙ rw away refl)
    | inr other ↦ rw other refl
  ]

module _ (key : Bytes) (e : AttemptEntry) where
  swept_kept :
      (now : ℕ) (s : Attempts)
      → find key s.attempts ≡ some e
      → fate now e.phase e ≡ stays
      → find key (cleanup now s).0.attempts ≡ some e
  unfolding cleanup
  swept_kept now s f young = find-sweep now s.options.replay_retention key s.attempts e f young

  step_passing :
      (now : ℕ) (v : Event) (s : Attempts)
      → find key s.attempts ≡ some e
      → fate now e.phase e ≡ stays
      → Elsewhere key v
      → find key (step now v s).attempts ≡ some e
  unfolding step acquire publish fail promote confirm_grace_active remove_attempt
  step_passing now (acquire_event j initial) s f y a =
      acquire_kept key e j initial now (cleanup now s).0 _ (swept_kept now s f y) refl
  step_passing now (publish_event id j session response) s f y a =
      publish_away key j a id session response now s _ ∙ f
  step_passing now (fail_event id j failure) s f y a = fail_away key j a id failure s _ ∙ f
  step_passing now (promote_event j session) s f y a = promote_away key j a session now s _ ∙ f
  step_passing now (grace_event j session) s f y a = grace_away key j a session now s _ ∙ f
  step_passing now (remove_event j session reason) s f y a =
      remove_away key j a session reason now s _ ∙ f
  step_passing now cleanup_event s f y a = swept_kept now s f y

  -- An entry that no sweep before a time touches stands where it stood after such calls.
  pub run-Passing :
      (t : ℕ) (vs : List (ℕ × Event)) (s : Attempts)
      → find key s.attempts ≡ some e
      → ((now : ℕ) → now < t → fate now e.phase e ≡ stays)
      → Passing key t vs
      → find key (run vs s).attempts ≡ some e
  unfolding run
  run-Passing t [] s f young p = f
  run-Passing t ((now, v) ∷ vs) s f young (y, a, p) =
      run-Passing t vs (step now v s) (step_passing now v s f (young now y) a) young p
