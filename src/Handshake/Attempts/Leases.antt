-- ===== src/Handshake/Attempts/Leases.antt =====
-- The leases of internal/handshake/cache.go: one builder for a key, and its response for all others.
use wg.Prelude.{
  ℕ, ◌+◌, ◌<◌, ◌≡◌, ◌≢◌, refl, ap, ◌∙◌, inl, inr, true, ◌||◌, Option, none, some, List, length, leb,
  Bool-cases, arith,
}
use wg.Prelude.Equality.{ℕ_equality, list_equality, ◌=?◌, same_refl}
use wg.Prelude.Maps.{find}
use wg.Handshake.Attempts.{
  AttemptPhase, attempt_building, attempt_ready, attempt_tombstone, attempt_failed, Bytes,
  AttemptEntry, AttemptOptions, Attempts, stays, fate, cleanup, at_least,
}
use wg.Handshake.Attempts.Methods.{
  builds, waits, served, acquire_existing, is_own, new_entry, acquire_found, acquire, publish_found,
  publish,
}
use wg.Handshake.Attempts.Events.{Event, run}
use wg.Handshake.Attempts.Options.{options-acquire_found, options-run}
use wg.Handshake.Attempts.Replay.{find-sweep}
use wg.Handshake.Attempts.Elsewhere.{Passing, run-Passing}

abbrev pub with_response : AttemptEntry → ℕ → Bytes → ℕ → AttemptEntry
with_response e session response deadline = record e {
  phase = attempt_ready;
  session = some session;
  response = response;
  expires_at = deadline;
  closed = true;
}

existing-builds : (e : AttemptEntry) (p : AttemptPhase) (id : ℕ) → acquire_existing e p ≢ builds id
existing-builds e attempt_building id h = cc
existing-builds e attempt_ready id h = cc
existing-builds e attempt_tombstone id h = cc
existing-builds e attempt_failed id h = cc

-- Who becomes the builder has a new entry under the key.
built :
    (key initial : Bytes) (now : ℕ) (s : Attempts) (o : Option AttemptEntry) (id : ℕ)
    → (acquire_found key initial now s o).1 ≡ builds id
    → find key (acquire_found key initial now s o).0.attempts
      ≡ some (new_entry id initial (now + s.options.pending_timeout))
unfolding acquire_found find
built key initial now s (some e) id h = elim (Bool-cases (e.initial =? initial)) [
  | inl same ↦ absurd (existing-builds e e.phase id (rw same at h))
  | inr differ ↦ let bad = rw differ at h in cc
]
built key initial now s none id h =
    elim (Bool-cases
      (at_least s.active s.options.max_pending || leb s.options.max_records (length s.attempts))) [
        | inl full ↦ let bad = rw full at h in cc
        | inr room ↦
            let h' : builds s.next_id ≡ builds id = rw room at h in
            let same : s.next_id ≡ id = cc in rw (room, same_refl key, same) refl
      ]

-- An entry that the cleanup leaves alone is what `acquireAttempt` finds.
acquired :
    (key initial : Bytes) (now : ℕ) (s : Attempts) (e : AttemptEntry)
    → find key s.attempts ≡ some e
    → fate now e.phase e ≡ stays
    → e.initial ≡ initial
    → (acquire key initial now s).1 ≡ acquire_existing e e.phase
unfolding acquire cleanup acquire_found
acquired key initial now s e f stay i =
    rw (find-sweep now s.options.replay_retention key s.attempts e f stay, i, same_refl initial)
      refl

publish_own :
    (id : ℕ) (key : Bytes) (session : ℕ) (response : Bytes) (now : ℕ) (s : Attempts)
    (e : AttemptEntry)
    → find key s.attempts ≡ some e
    → is_own id e ≡ true
    → ((publish id key session response now s).1 ≡ none)
      × (find key (publish id key session response now s).0.attempts
          ≡ some (with_response e session response (now + s.options.pending_timeout)))
unfolding publish publish_found find
publish_own id key session response now s e f own =
    (rw (f, own) refl, rw (f, own, same_refl key) refl)

module _ (key initial : Bytes) (now : ℕ) (s : Attempts) (id : ℕ)
    (first : (acquire key initial now s).1 ≡ builds id) where
  found :
      find key (acquire key initial now s).0.attempts
      ≡ some (new_entry id initial (now + s.options.pending_timeout))
  unfolding acquire cleanup
  found = built key initial now (cleanup now s).0 (find key (cleanup now s).0.attempts) id first

  options : (acquire key initial now s).0.options ≡ s.options
  unfolding acquire cleanup
  options =
      options-acquire_found key initial now (cleanup now s).0 (find key (cleanup now s).0.attempts)

  -- The entry after calls that leave it alone.
  still_building :
      (vs : List (ℕ × Event))
      → Passing key (now + s.options.pending_timeout) vs
      → find key (run vs (acquire key initial now s).0).attempts
        ≡ some (new_entry id initial (now + s.options.pending_timeout))
  still_building vs p =
      run-Passing key _ (now + s.options.pending_timeout) vs _ found (λ t y. ground arith) p

  still_options :
      (vs : List (ℕ × Event)) → (run vs (acquire key initial now s).0).options ≡ s.options
  still_options vs = options-run vs _ ∙ options

  -- While its first caller builds the entry of a key, any other with the same INITIAL waits for it.
  acquire-acquire :
      (vs : List (ℕ × Event)) (later : ℕ)
      → Passing key (now + s.options.pending_timeout) vs
      → later < now + s.options.pending_timeout
      → (acquire key initial later (run vs (acquire key initial now s).0)).1 ≡ waits id
  acquire-acquire vs later p y =
      acquired key initial later _ _ (still_building vs p) (ground arith) refl

  -- Once the builder has published, a retransmitted INITIAL gets the same session and response.
  acquire-published :
      (vs ws : List (ℕ × Event)) (session : ℕ) (response : Bytes) (published later : ℕ)
      → Passing key (now + s.options.pending_timeout) vs
      → Passing key (published + s.options.pending_timeout) ws
      → later < published + s.options.pending_timeout
      → let s' = run vs (acquire key initial now s).0 in
        let (s'', error) = publish id key session response published s' in
        (error ≡ none)
        × ((acquire key initial later (run ws s'')).1 ≡ served id (some session) response)
  acquire-published vs ws session response published later p q y =
      let s' = run vs (acquire key initial now s).0 in
      let (done, stored) =
        publish_own id key session response published s' _ (still_building vs p) (ground arith) in
      let timeout : s'.options.pending_timeout ≡ s.options.pending_timeout =
        ap (λ (o : AttemptOptions). o.pending_timeout) (still_options vs) in
      let e = new_entry id initial (now + s.options.pending_timeout) in
      let s'' = (publish id key session response published s').0 in
      let stored' : find key s''.attempts
          ≡ some (with_response e session response (published + s.options.pending_timeout)) =
        stored ∙ ap (λ (t : ℕ). some (with_response e session response (published + t))) timeout in
      let kept =
        run-Passing key _ (published + s.options.pending_timeout) ws _ stored' (λ t z. ground arith)
          q in
      (done, acquired key initial later _ _ kept (ground arith) refl)

-- Where an acquisition makes its caller the builder, whatever acquisitions, cleanups and calls for
-- other keys follow before the pending timeout ends: another acquisition with the same key and
-- INITIAL, before that time, waits for that entry, and a publication by the builder succeeds.
-- Whatever acquisitions, cleanups and calls for other keys follow the publication before the
-- pending timeout that it starts ends, an acquisition with the same key and INITIAL, before that
-- time, gets the published session and response.
pub acquire-publish :
    (key initial : Bytes) (now : ℕ) (s : Attempts) (id session : ℕ) (response : Bytes)
    (vs ws : List (ℕ × Event)) (waiting published later : ℕ)
    → (acquire key initial now s).1 ≡ builds id
    → Passing key (now + s.options.pending_timeout) vs
    → waiting < now + s.options.pending_timeout
    → Passing key (published + s.options.pending_timeout) ws
    → later < published + s.options.pending_timeout
    → let s' = run vs (acquire key initial now s).0 in
      let (s'', error) = publish id key session response published s' in
      ((acquire key initial waiting s').1 ≡ waits id)
      × (error ≡ none)
      × ((acquire key initial later (run ws s'')).1 ≡ served id (some session) response)
acquire-publish key initial now s id session response vs ws waiting published later first p y q z =
    let (done, again) =
      acquire-published key initial now s id first vs ws session response published later p q z in
    (acquire-acquire key initial now s id first vs waiting p y, done, again)
