-- ===== src/Handshake/Attempts/Methods.antt =====
-- The methods of the attempt cache of internal/handshake/cache.go, and what they return.
use wg.Prelude.{
  ℕ, ◌+◌, Bool, true, false, not, ◌&&◌, ◌||◌, Option, none, some, [], length, ltb, leb, ◌==◌,
  if◌then◌else◌,
}
use wg.Prelude.Equality.{ℕ_equality, list_equality, ◌=?◌}
use wg.Prelude.Maps.{find, put, remove}
use wg.Handshake.Attempts.{
  AttemptPhase, attempt_building, attempt_ready, attempt_tombstone, attempt_failed, AttemptError,
  err_transcript, err_attempt_expired, err_attempt_capacity, err_state, Bytes, AttemptEntry,
  Attempts, up, down, at_least, is_building, is_ready, same_session, tombstone_attempt, cleanup,
}

-- What `acquireAttempt` comes to: a lease, the wait for the builder of an entry, or an error.
pub data Acquired : Type 0 where
  builds : ℕ → Acquired
  served : ℕ → Option ℕ → Bytes → Acquired
  waits : ℕ → Acquired
  refused : Option AttemptError → Acquired

abbrev pub reason_or_expired : Option AttemptError → Option AttemptError
reason_or_expired none = some err_attempt_expired
reason_or_expired (some e) = some e

abbrev pub acquire_existing : AttemptEntry → AttemptPhase → Acquired
acquire_existing e attempt_building = waits e.id
acquire_existing e attempt_ready = served e.id e.session e.response
acquire_existing e attempt_tombstone = refused (reason_or_expired e.error)
acquire_existing e attempt_failed = refused e.error

abbrev pub new_entry : ℕ → Bytes → ℕ → AttemptEntry
new_entry id initial deadline = record {
  id = id;
  initial = initial;
  phase = attempt_building;
  closed = false;
  response = [];
  session = none;
  expires_at = deadline;
  forget_at = 0;
  confirmed = false;
  error = none;
}

-- `acquireAttempt` after the cleanup, on what stands under the key.
unfoldable pub acquire_found :
    Bytes → Bytes → ℕ → Attempts → Option AttemptEntry → Attempts × Acquired
acquire_found key initial now s (some e) =
    if e.initial =? initial
    then (s, acquire_existing e e.phase)
    else (s, refused (some err_transcript))
acquire_found key initial now s none =
    if at_least s.active s.options.max_pending || leb s.options.max_records (length s.attempts)
    then (s, refused (some err_attempt_capacity))
    else (
      record s {
        attempts =
            put key (new_entry s.next_id initial (now + s.options.pending_timeout)) s.attempts;
        active = up s.active;
        next_id = s.next_id + 1;
      },
      builds s.next_id,
    )

unfoldable pub acquire : Bytes → Bytes → ℕ → Attempts → Attempts × Acquired
acquire key initial now s =
    let s' = (cleanup now s).0 in acquire_found key initial now s' (find key s'.attempts)

-- The entry behind a pointer: in the map under its key, or detached.
abbrev pub entry_of : ℕ → Option AttemptEntry → Option AttemptEntry → Option AttemptEntry
entry_of id none gone = gone
entry_of id (some e) gone = if e.id == id then some e else gone

unfoldable pub entry_at : ℕ → Bytes → Attempts → Option AttemptEntry
entry_at id key s = entry_of id (find key s.attempts) (find id s.detached)

abbrev pub late_reason : Option AttemptError → AttemptError
late_reason none = err_attempt_expired
late_reason (some why) = why

-- The error of a publication that comes too late.
abbrev pub late : Option AttemptEntry → AttemptError
late none = err_attempt_expired
late (some e) = late_reason e.error

abbrev pub is_own : ℕ → AttemptEntry → Bool
is_own id e = e.id == id && is_building e.phase

-- `publishAttempt` by the builder that has the entry `id` for the key.
unfoldable pub publish_found :
    ℕ → Bytes → ℕ → Bytes → ℕ → Attempts → Option AttemptEntry → Attempts × Option AttemptError
publish_found id key session response now s none = (s, some (late (entry_at id key s)))
publish_found id key session response now s (some e) =
    if is_own id e
    then (
      record s {
        attempts =
            put key
              (record e {
                phase = attempt_ready;
                session = some session;
                response = response;
                expires_at = now + s.options.pending_timeout;
                closed = true;
              })
              s.attempts;
        owners = put session key s.owners;
      },
      none,
    )
    else (s, some (late (entry_at id key s)))

unfoldable pub publish : ℕ → Bytes → ℕ → Bytes → ℕ → Attempts → Attempts × Option AttemptError
publish id key session response now s =
    publish_found id key session response now s (find key s.attempts)

unfoldable pub fail_found : ℕ → Bytes → AttemptError → Attempts → Option AttemptEntry → Attempts
fail_found id key failure s none = s
fail_found id key failure s (some e) =
    if is_own id e
    then record s {
      attempts = remove key s.attempts;
      active = down s.active;
      detached =
          put id (record e { phase = attempt_failed; error = some failure; closed = true })
            s.detached;
    }
    else s

unfoldable pub fail : ℕ → Bytes → AttemptError → Attempts → Attempts
fail id key failure s = fail_found id key failure s (find key s.attempts)

abbrev pub is_of : ℕ → AttemptEntry → Bool
is_of session e = is_ready e.phase && same_session e.session session

unfoldable pub promote_found : Bytes → ℕ → ℕ → Attempts → Option AttemptEntry → Attempts × Bool
promote_found key session now s none = (s, false)
promote_found key session now s (some e) =
    if not (is_of session e)
    then (s, false)
    else if ltb now e.expires_at
    then (
      record s {
        attempts =
            put key (record e { confirmed = true; expires_at = now + s.options.confirm_grace })
              s.attempts;
      },
      true,
    )
    else (tombstone_attempt key e (some err_attempt_expired) now s, false)

unfoldable pub promote : Bytes → ℕ → ℕ → Attempts → Attempts × Bool
promote key session now s = promote_found key session now s (find key s.attempts)

unfoldable pub grace_found : Bytes → ℕ → ℕ → Attempts → Option AttemptEntry → Attempts × Bool
grace_found key session now s none = (s, false)
grace_found key session now s (some e) =
    if not (is_of session e && e.confirmed)
    then (s, false)
    else if ltb now e.expires_at
    then (s, true)
    else (tombstone_attempt key e (some err_attempt_expired) now s, false)

unfoldable pub confirm_grace_active : Bytes → ℕ → ℕ → Attempts → Attempts × Bool
confirm_grace_active key session now s = grace_found key session now s (find key s.attempts)

unfoldable pub remove_found :
    Bytes → ℕ → Option AttemptError → ℕ → Attempts → Option AttemptEntry → Attempts
remove_found key session reason now s none = s
remove_found key session reason now s (some e) =
    if is_of session e then tombstone_attempt key e reason now s else s

unfoldable pub remove_attempt : Bytes → ℕ → Option AttemptError → ℕ → Attempts → Attempts
remove_attempt key session reason now s =
    remove_found key session reason now s (find key s.attempts)

-- `resultOfAttempt`, on the entry behind a pointer.
unfoldable pub result_of : AttemptPhase → AttemptEntry → Acquired
result_of attempt_ready e = served e.id e.session e.response
result_of attempt_tombstone e = refused (reason_or_expired e.error)
result_of attempt_failed e = refused (reason_or_expired e.error)
result_of attempt_building e = refused (some err_state)
