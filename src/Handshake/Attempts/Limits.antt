-- ===== src/Handshake/Attempts/Limits.antt =====
-- The limits of internal/handshake/cache.go, for a cache that starts empty.
use wg.Prelude.{ℕ, ◌≤◌, ◌≡◌, List, length}
use wg.Prelude.Int.{pos}
use wg.Prelude.Equality.{ℕ_equality, list_equality}
use wg.Prelude.Maps.{Unique}
use wg.Handshake.Attempts.{AttemptOptions, new_attempts}
use wg.Handshake.Attempts.Events.{Event, run}
use wg.Handshake.Attempts.Options.{options-run}
use wg.Handshake.Attempts.Bounds.{count_active}
use wg.Handshake.Attempts.Bounded.{run-new_attempts-IsBounded}

options-new_attempts :
    (options : AttemptOptions) (vs : List (ℕ × Event))
    → (run vs (new_attempts options)).options ≡ options
unfolding new_attempts
options-new_attempts options vs = options-run vs _

-- After any calls on a new attempt cache no key has two records, the counter is the number of
-- attempts that are being built or ready, that number is at most `maxPendingAttempts`, and the
-- number of records is at most `maxAttemptRecords`.
pub run-limits :
    (options : AttemptOptions) (vs : List (ℕ × Event))
    → let s = run vs (new_attempts options) in
      Unique s.attempts
      × (s.active ≡ pos (count_active s.attempts))
      × (count_active s.attempts ≤ options.max_pending)
      × (length s.attempts ≤ options.max_records)
run-limits options vs =
    let b = run-new_attempts-IsBounded options vs in
    let e = options-new_attempts options vs in
    (b.unique, b.counted, rw e at b.pending, rw e at b.records)
