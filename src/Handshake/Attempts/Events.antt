-- ===== src/Handshake/Attempts/Events.antt =====
-- Calls of the attempt cache of internal/handshake/cache.go, in any order.
use wg.Prelude.{ℕ, Option, List, [], ◌∷◌}
use wg.Handshake.Attempts.{Bytes, AttemptError, Attempts, cleanup}
use wg.Handshake.Attempts.Methods.{
  acquire, publish, fail, promote, confirm_grace_active, remove_attempt,
}

-- The builder of an entry names it by its pointer and its key.
pub data Event : Type 0 where
  acquire_event : Bytes → Bytes → Event
  publish_event : ℕ → Bytes → ℕ → Bytes → Event
  fail_event : ℕ → Bytes → AttemptError → Event
  promote_event grace_event : Bytes → ℕ → Event
  remove_event : Bytes → ℕ → Option AttemptError → Event
  cleanup_event : Event

unfoldable pub step : ℕ → Event → Attempts → Attempts
step now (acquire_event key initial) s = (acquire key initial now s).0
step now (publish_event id key session response) s = (publish id key session response now s).0
step now (fail_event id key failure) s = fail id key failure s
step now (promote_event key session) s = (promote key session now s).0
step now (grace_event key session) s = (confirm_grace_active key session now s).0
step now (remove_event key session reason) s = remove_attempt key session reason now s
step now cleanup_event s = (cleanup now s).0

unfoldable pub run : List (ℕ × Event) → Attempts → Attempts
run [] s = s
run ((now, e) ∷ es) s = run es (step now e s)
