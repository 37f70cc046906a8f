-- ===== src/Handshake/Attempts/Bounded.antt =====
-- The calls of internal/handshake/cache.go keep the bounds of the attempt cache.
use wg.Prelude.{
  ℕ, ◌≡◌, refl, ap, ◌∙◌, inl, inr, false, ◌&&◌, ◌||◌, Option, none, some, List, [], ◌∷◌, length,
  ltb, leb, if◌then◌else◌, Bool-cases, arith,
}
use wg.Prelude.Int.{pos}
use wg.Prelude.Equality.{ℕ_equality, list_equality, ◌=?◌}
use wg.Prelude.Maps.{
  find, put, remove, put-Unique, remove-Unique, length-remove, length-remove-le, remove_absent,
}
use wg.Handshake.Attempts.{
  AttemptError, Bytes, AttemptEntry, AttemptOptions, Attempts, up, down, at_least, is_active,
  tombstone_attempt, cleanup, new_attempts,
}
use wg.Handshake.Attempts.Methods.{
  is_own, is_of, acquire_found, acquire, publish_found, publish, fail_found, fail, promote_found,
  promote, grace_found, confirm_grace_active, remove_found, remove_attempt,
}
use wg.Handshake.Attempts.Events.{
  Event, acquire_event, publish_event, fail_event, promote_event, grace_event, remove_event,
  cleanup_event, step, run,
}
use wg.Handshake.Attempts.Bounds.{
  weight, count_active, count_active-remove, IsBounded, cleanup-IsBounded,
}

-- The entry under a key gives way to one that weighs as much.
replaced-IsBounded :
    (s : Attempts) (key : Bytes) (e e' : AttemptEntry) (owners : List (ℕ × Bytes))
    → IsBounded s
    → find key s.attempts ≡ some e
    → weight e' ≡ weight e
    → IsBounded (record s { attempts = put key e' s.attempts; owners = owners })
unfolding count_active
replaced-IsBounded s key e e' owners b f w =
    let c = count_active-remove key s.attempts e b.unique f in
    let l = length-remove key s.attempts e b.unique f in
    record {
      unique = put-Unique key s.attempts b.unique;
      counted = b.counted ∙ ap pos (omega arith);
      pending = omega arith;
      records = omega arith;
    }

tombstone_attempt-IsBounded :
    (s : Attempts) (key : Bytes) (e : AttemptEntry) (reason : Option AttemptError) (now : ℕ)
    → IsBounded s
    → find key s.attempts ≡ some e
    → IsBounded (tombstone_attempt key e reason now s)
unfolding tombstone_attempt count_active
tombstone_attempt-IsBounded s key e reason now b f =
    let c = count_active-remove key s.attempts e b.unique f in
    let l = length-remove key s.attempts e b.unique f in
    let counted : (if is_active e.phase then down s.active else s.active)
        ≡ pos (count_active (remove key s.attempts)) =
      rw b.counted (ground arith) in
    record {
      unique = put-Unique key s.attempts b.unique;
      counted = counted ∙ ap pos (omega arith);
      pending = omega arith;
      records = omega arith;
    }

acquire_found-IsBounded :
    (key initial : Bytes) (now : ℕ) (s : Attempts) (o : Option AttemptEntry)
    → IsBounded s
    → find key s.attempts ≡ o
    → IsBounded (acquire_found key initial now s o).0
unfolding acquire_found count_active
acquire_found-IsBounded key initial now s (some e) b f = elim (Bool-cases (e.initial =? initial)) [
  | inl same ↦ rw same b
  | inr differ ↦ rw differ b
]
acquire_found-IsBounded key initial now s none b f =
    elim (Bool-cases
      (at_least s.active s.options.max_pending || leb s.options.max_records (length s.attempts))) [
        | inl full ↦ rw full b
        | inr room ↦
            let room' : (at_least (pos (count_active s.attempts)) s.options.max_pending
                  || leb s.options.max_records (length s.attempts))
                ≡ false =
              rw b.counted at room in
            let gone : remove key s.attempts ≡ s.attempts = remove_absent key s.attempts f in
            rw room (record {
              unique = put-Unique key s.attempts b.unique;
              counted = ap up b.counted ∙ ap pos (rw gone (omega arith));
              pending = rw gone (ground arith);
              records = rw gone (ground arith);
            })
      ]

publish_found-IsBounded :
    (id : ℕ) (key : Bytes) (session : ℕ) (response : Bytes) (now : ℕ) (s : Attempts)
    (o : Option AttemptEntry)
    → IsBounded s
    → find key s.attempts ≡ o
    → IsBounded (publish_found id key session response now s o).0
unfolding publish_found
publish_found-IsBounded id key session response now s none b f = b
publish_found-IsBounded id key session response now s (some e) b f =
    elim (Bool-cases (is_own id e)) [
      | inl own ↦ rw own (replaced-IsBounded s key e _ _ b f (ground arith))
      | inr other ↦ rw other b
    ]

fail_found-IsBounded :
    (id : ℕ) (key : Bytes) (failure : AttemptError) (s : Attempts) (o : Option AttemptEntry)
    → IsBounded s
    → find key s.attempts ≡ o
    → IsBounded (fail_found id key failure s o)
unfolding fail_found
fail_found-IsBounded id key failure s none b f = b
fail_found-IsBounded id key failure s (some e) b f = elim (Bool-cases (is_own id e)) [
  | inl own ↦
      let c = count_active-remove key s.attempts e b.unique f in
      let w : weight e ≡ 1 = ground arith in
      rw own (record {
        unique = remove-Unique key s.attempts b.unique;
        counted = rw b.counted (ground arith);
        pending = omega arith;
        records = omega (arith, length-remove-le key s.attempts);
      })
  | inr other ↦ rw other b
]

promote_found-IsBounded :
    (key : Bytes) (session now : ℕ) (s : Attempts) (o : Option AttemptEntry)
    → IsBounded s
    → find key s.attempts ≡ o
    → IsBounded (promote_found key session now s o).0
unfolding promote_found
promote_found-IsBounded key session now s none b f = b
promote_found-IsBounded key session now s (some e) b f = elim (Bool-cases (is_of session e)) [
  | inr other ↦ rw other b
  | inl own ↦ elim (Bool-cases (ltb now e.expires_at)) [
    | inl young ↦ rw (own, young) (replaced-IsBounded s key e _ s.owners b f refl)
    | inr old ↦ rw (own, old) (tombstone_attempt-IsBounded s key e _ now b f)
  ]
]

grace_found-IsBounded :
    (key : Bytes) (session now : ℕ) (s : Attempts) (o : Option AttemptEntry)
    → IsBounded s
    → find key s.attempts ≡ o
    → IsBounded (grace_found key session now s o).0
unfolding grace_found
grace_found-IsBounded key session now s none b f = b
grace_found-IsBounded key session now s (some e) b f =
    elim (Bool-cases (is_of session e && e.confirmed)) [
      | inr other ↦ rw other b
      | inl own ↦ elim (Bool-cases (ltb now e.expires_at)) [
        | inl young ↦ rw (own, young) b
        | inr old ↦ rw (own, old) (tombstone_attempt-IsBounded s key e _ now b f)
      ]
    ]

remove_found-IsBounded :
    (key : Bytes) (session : ℕ) (reason : Option AttemptError) (now : ℕ) (s : Attempts)
    (o : Option AttemptEntry)
    → IsBounded s
    → find key s.attempts ≡ o
    → IsBounded (remove_found key session reason now s o)
unfolding remove_found
remove_found-IsBounded key session reason now s none b f = b
remove_found-IsBounded key session reason now s (some e) b f = elim (Bool-cases (is_of session e)) [
  | inl own ↦ rw own (tombstone_attempt-IsBounded s key e reason now b f)
  | inr other ↦ rw other b
]

step-IsBounded : (now : ℕ) (e : Event) (s : Attempts) → IsBounded s → IsBounded (step now e s)
unfolding step acquire publish fail promote confirm_grace_active remove_attempt
step-IsBounded now (acquire_event key initial) s b =
    acquire_found-IsBounded key initial now (cleanup now s).0 _ (cleanup-IsBounded now s b) refl
step-IsBounded now (publish_event id key session response) s b =
    publish_found-IsBounded id key session response now s _ b refl
step-IsBounded now (fail_event id key failure) s b = fail_found-IsBounded id key failure s _ b refl
step-IsBounded now (promote_event key session) s b =
    promote_found-IsBounded key session now s _ b refl
step-IsBounded now (grace_event key session) s b = grace_found-IsBounded key session now s _ b refl
step-IsBounded now (remove_event key session reason) s b =
    remove_found-IsBounded key session reason now s _ b refl
step-IsBounded now cleanup_event s b = cleanup-IsBounded now s b

run-IsBounded : (es : List (ℕ × Event)) (s : Attempts) → IsBounded s → IsBounded (run es s)
unfolding run
run-IsBounded [] s b = b
run-IsBounded ((now, e) ∷ es) s b = run-IsBounded es (step now e s) (step-IsBounded now e s b)

-- After any calls the counter is the number of active attempts, which is at most the limit, and so is the number of
-- records; no key has two.
pub run-new_attempts-IsBounded :
    (options : AttemptOptions) (es : List (ℕ × Event)) → IsBounded (run es (new_attempts options))
unfolding new_attempts count_active
run-new_attempts-IsBounded options es =
    run-IsBounded es _
      (record { unique = tt; counted = refl; pending = omega arith; records = omega arith })
