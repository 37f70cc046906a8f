-- ===== src/Handshake/Attempts.antt =====
-- internal/handshake/cache.go: the attempt cache and its cleanup. A method returns the new cache; the
-- lock that it holds makes it one step. The time that a method reads is an argument of it, in
-- nanoseconds since the zero time.
pub mod Methods
pub mod Events
pub mod Bounds
pub mod Bounded
pub mod Replay
pub mod Options
pub mod Elsewhere
pub mod Leases
pub mod Limits
use wg.Prelude.{
  ℕ, zero, suc, ◌+◌, Bool, true, false, not, ◌&&◌, ◌||◌, Option, none, some, List, [], ◌∷◌, length,
  ltb, leb, ◌==◌, if◌then◌else◌,
}
use wg.Prelude.Int.{ℤ, pos, negsuc}
use wg.Prelude.Equality.{ℕ_equality, list_equality, ◌=?◌}
use wg.Prelude.Maps.{find, put, remove}

pub data AttemptPhase : Type 0 where
  attempt_building attempt_ready attempt_tombstone attempt_failed : AttemptPhase

-- `failure_of` is any other error that a caller hands over.
pub data AttemptError : Type 0 where
  err_transcript err_attempt_expired err_attempt_capacity err_state : AttemptError
  failure_of : ℕ → AttemptError

-- A SHA-256 value or a datagram.
abbrev pub Bytes : Type 0
Bytes = List ℕ

-- `id` stands for the pointer, a session is the number of its pointer, and `closed` says that the
-- channel `done` is closed.
pub record AttemptEntry : Type 0 where
  pub id : ℕ
  pub initial : Bytes
  pub phase : AttemptPhase
  pub closed : Bool
  pub response : Bytes
  pub session : Option ℕ
  pub expires_at : ℕ
  pub forget_at : ℕ
  pub confirmed : Bool
  pub error : Option AttemptError

pub record AttemptOptions : Type 0 where
  pub pending_timeout : ℕ
  pub confirm_grace : ℕ
  pub replay_retention : ℕ
  pub max_pending : ℕ
  pub max_records : ℕ

-- What the server keeps of attempts. `detached` has the entries that are not in the map any more, by
-- their pointers, and `owners` the attempt keys of the sessions that have one.
pub record Attempts : Type 0 where
  pub options : AttemptOptions
  pub attempts : List (Bytes × AttemptEntry)
  pub active : ℤ
  pub detached : List (ℕ × AttemptEntry)
  pub owners : List (ℕ × Bytes)
  pub next_id : ℕ

abbrev pub up : ℤ → ℤ
up (pos n) = pos (n + 1)
up (negsuc zero) = pos 0
up (negsuc (suc n)) = negsuc n

abbrev pub down : ℤ → ℤ
down (pos zero) = negsuc 0
down (pos (suc n)) = pos n
down (negsuc n) = negsuc (suc n)

abbrev pub at_least : ℤ → ℕ → Bool
at_least (pos n) limit = leb limit n
at_least (negsuc n) limit = false

abbrev pub lower : ℕ → ℤ → ℤ
lower zero a = a
lower (suc n) a = lower n (down a)

abbrev pub is_active : AttemptPhase → Bool
is_active attempt_building = true
is_active attempt_ready = true
is_active _ = false

abbrev pub is_building : AttemptPhase → Bool
is_building attempt_building = true
is_building _ = false

abbrev pub is_ready : AttemptPhase → Bool
is_ready attempt_ready = true
is_ready _ = false

abbrev pub same_session : Option ℕ → ℕ → Bool
same_session none session = false
same_session (some s) session = s == session

-- The entry as `tombstoneAttemptLocked` leaves it.
abbrev pub tombstone : Option AttemptError → ℕ → ℕ → AttemptEntry → AttemptEntry
tombstone reason now retention e = record e {
  phase = attempt_tombstone;
  closed = true;
  response = [];
  session = none;
  expires_at = 0;
  forget_at = now + retention;
  confirmed = false;
  error = reason;
}

-- `tombstoneAttemptLocked` on the entry of a key of the map.
unfoldable pub tombstone_attempt :
    Bytes → AttemptEntry → Option AttemptError → ℕ → Attempts → Attempts
tombstone_attempt key e reason now s = record s {
  attempts = put key (tombstone reason now s.options.replay_retention e) s.attempts;
  active = if is_active e.phase then down s.active else s.active;
}

-- What the loop of `cleanupAttemptsLocked` does to one entry.
pub data Fate : Type 0 where
  stays expires forgotten : Fate

abbrev pub fate : ℕ → AttemptPhase → AttemptEntry → Fate
fate now attempt_building e = if ltb now e.expires_at then stays else expires
fate now attempt_ready e = if ltb now e.expires_at then stays else expires
fate now attempt_tombstone e = if ltb now e.forget_at then stays else forgotten
fate now attempt_failed e = forgotten

pub record Swept : Type 0 where
  pub left : List (Bytes × AttemptEntry)
  pub gone : List (ℕ × AttemptEntry)
  pub closing : List ℕ
  pub changed : ℕ
  pub released : ℕ

abbrev pub closing_session : AttemptEntry → List ℕ → Option ℕ → List ℕ
closing_session e ss none = ss
closing_session e ss (some session) =
    if is_ready e.phase && not e.confirmed then session ∷ ss else ss

abbrev pub swept : ℕ → ℕ → Bytes → AttemptEntry → Fate → Swept → Swept
swept now retention k e stays w = record w { left = (k, e) ∷ w.left }
swept now retention k e expires w = record w {
  left = (k, tombstone (some err_attempt_expired) now retention e) ∷ w.left;
  closing = closing_session e w.closing e.session;
  changed = w.changed + 1;
  released = w.released + 1;
}
swept now retention k e forgotten w = record w {
  gone = (e.id, e) ∷ w.gone;
  changed = w.changed + 1;
}

unfoldable pub sweep : ℕ → ℕ → List (Bytes × AttemptEntry) → Swept
sweep now retention [] = record { left = []; gone = []; closing = []; changed = 0; released = 0 }
sweep now retention ((k, e) ∷ m) =
    swept now retention k e (fate now e.phase e) (sweep now retention m)

abbrev pub append_gone : List (ℕ × AttemptEntry) → List (ℕ × AttemptEntry) → List (ℕ × AttemptEntry)
append_gone [] d = d
append_gone ((i, e) ∷ g) d = (i, e) ∷ append_gone g d

-- `cleanupAttemptsLocked`: the cache after it, the sessions to close and the number of changes.
unfoldable pub cleanup : ℕ → Attempts → Attempts × List ℕ × ℕ
cleanup now s =
    let w = sweep now s.options.replay_retention s.attempts in
    (
      record s {
        attempts = w.left;
        active = lower w.released s.active;
        detached = append_gone w.gone s.detached;
      },
      w.closing,
      w.changed,
    )

unfoldable pub new_attempts : AttemptOptions → Attempts
new_attempts options = record {
  options = options;
  attempts = [];
  active = pos 0;
  detached = [];
  owners = [];
  next_id = 0;
}
