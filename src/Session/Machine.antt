-- ===== src/Session/Machine.antt =====
-- The session state machine of internal/session/machine.go. A method is a function of the machine
-- that returns the machine it leaves behind and its result; the mutex makes each method one step.
-- A `time.Time` is the number of nanoseconds since Go's zero time, which is 0 here; times before it
-- do not occur. The `Snapshot` method copies the fields and has no counterpart.
pub mod Methods
pub mod Invariant
pub mod Effects
pub mod Keeps
pub mod Atomic
pub mod Calls
use wg.Prelude.{
  ℕ, zero, suc, ◌+◌, ◌-◌, ◌%◌, Bool, true, false, not, ◌&&◌, ◌||◌, Option, none, some, ltb, leb,
  ◌==◌, if◌then◌else◌, Result, ok, err,
}
use wg.Prelude.Int.{ℤ, pos, negsuc}
use wg.Session.State.{
  Role, State, Event, SessionError, client, server, valid_role, idle, initial_sent, pending_confirm,
  established, rekeying, draining, closed, begin_handshake_event, retry_received,
  retransmit_initial, handshake_complete_event, issue_ping_event, retransmit_ping, pong,
  confirm_ping, activity, begin_rekey_event, begin_drain_event, timeout, close_event,
  illegal_transition, invalid_role, time_regression, state_timed_out, retries_exhausted,
  ping_outstanding, no_outstanding_ping, confirm_grace_expired, pong_mismatch, confirm_mismatch,
  next_state,
}
use wg.Session.Policy.{
  TimeoutPolicy, validate, default_timeout_policy, initial_backoff, control_backoff,
}

pub record Machine : Type 0 where
  pub role : Role
  pub state : State
  pub policy : TimeoutPolicy
  pub entered_at : ℕ
  pub last_event_at : ℕ
  pub deadline : ℕ  -- 0 where the source has the zero time
  pub initial_retries : ℕ  -- uint8
  pub control_retries : ℕ  -- uint8
  pub has_outstanding_ping : Bool
  pub outstanding_ping_id : ℕ  -- uint64
  pub rekey_handshake_ready : Bool
  pub has_last_confirm_id : Bool
  pub last_confirm_id : ℕ  -- uint64
  pub confirm_grace_until : ℕ

-- `now.Add(d)`
unfoldable pub add : ℕ → ℤ → ℕ
add now (pos d) = now + d
add now (negsuc d) = now - (d + 1)

abbrev pub M : Type 0 → Type 0
M A = Machine → Machine × Result SessionError A

infixl 5 ◌>>=◌ ◌>>◌
abbrev pub ◌>>=◌ : {A B : Type 0} → M A → (A → M B) → M B
◌>>=◌ m f s = elim (m s).1 [ ok a ↦ f a (m s).0 | err e ↦ ((m s).0, err e) ]

abbrev pub ◌>>◌ : {A B : Type 0} → M A → M B → M B
m >> k = m >>= λ _. k

abbrev modify : (Machine → Machine) → M (Unit {0})
modify f s = (f s, ok tt)

-- A check that returns an error where the test of the machine holds.
abbrev check : (Machine → Bool) → (Machine → SessionError) → M (Unit {0})
check test e s = if test s then (s, err (e s)) else (s, ok tt)

unfoldable pub new_machine : Role → TimeoutPolicy → ℕ → Result SessionError Machine
new_machine role policy now =
    if not (valid_role role) then err (invalid_role role) else elim (validate policy) [
      | err e ↦ err e
      | ok _ ↦ ok (record {
        role = role;
        state = idle;
        policy = policy;
        entered_at = now;
        last_event_at = now;
        deadline = 0;
        initial_retries = 0;
        control_retries = 0;
        has_outstanding_ping = false;
        outstanding_ping_id = 0;
        rekey_handshake_ready = false;
        has_last_confirm_id = false;
        last_confirm_id = 0;
        confirm_grace_until = 0;
      })
    ]

unfoldable pub new_default_machine : Role → ℕ → Result SessionError Machine
new_default_machine role now = new_machine role default_timeout_policy now

require_time : ℕ → M (Unit {0})
require_time now = check (λ m. ltb now m.last_event_at) (λ m. time_regression)

require_before_deadline : ℕ → M (Unit {0})
require_before_deadline now =
    check (λ m. not (m.deadline == 0) && not (ltb now m.deadline)) (λ m. state_timed_out)

require_event : Event → M State
require_event event m = elim (next_state m.role m.state event) [
  | some next ↦ (m, ok next)
  | none ↦ (m, err (illegal_transition m.role m.state event))
]

clear_ping : Machine → Machine
clear_ping m = record m {
  has_outstanding_ping = false;
  outstanding_ping_id = 0;
  control_retries = 0;
}

-- The switch of `setStateLocked`, behind its three assignments.
enter : State → ℕ → Machine → Machine
unfolding clear_ping
enter idle now m = record m { deadline = 0 }
enter initial_sent now m =
    clear_ping (record m { deadline = add now m.policy.initial_sent; initial_retries = 0 })
enter pending_confirm now m =
    clear_ping (record m { deadline = add now m.policy.pending_confirm; control_retries = 0 })
enter established now m = record m {
  deadline = add now m.policy.established_idle;
  rekey_handshake_ready = false;
}
enter rekeying now m = clear_ping (record m {
  deadline = add now m.policy.pending_confirm;
  rekey_handshake_ready = false;
  control_retries = 0;
})
enter draining now m =
    clear_ping (record m { deadline = add now m.policy.draining; rekey_handshake_ready = false })
enter closed now m = clear_ping (record m { deadline = 0; rekey_handshake_ready = false })

set_state : State → ℕ → M (Unit {0})
unfolding enter
set_state next now =
    modify (λ m. enter next now (record m { state = next; entered_at = now; last_event_at = now }))

is_rekeying : State → Bool
is_rekeying rekeying = true
is_rekeying _ = false

is_established : State → Bool
is_established established = true
is_established _ = false

is_closed : State → Bool
is_closed closed = true
is_closed _ = false
