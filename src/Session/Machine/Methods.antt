-- ===== src/Session/Machine/Methods.antt =====
-- The methods of the machine, each with its checks in the source's order. In `begin_handshake`,
-- `begin_drain`, `check_timeout` and `close` the source makes no check of the deadline.
use wg.Prelude.{ℕ, ◌+◌, ◌%◌, Bool, true, false, not, ◌&&◌, ◌||◌, ltb, leb, ◌==◌, if◌then◌else◌, ok}
use wg.Prelude.Int.{ℤ}
use wg.Session.State.{
  begin_handshake_event, retry_received, retransmit_initial, handshake_complete_event,
  issue_ping_event, retransmit_ping, pong, confirm_ping, activity, begin_rekey_event,
  begin_drain_event, timeout, close_event, illegal_transition, retries_exhausted, ping_outstanding,
  no_outstanding_ping, confirm_grace_expired, pong_mismatch, confirm_mismatch,
}
use wg.Session.Policy.{initial_backoff, control_backoff}
use wg.Session.Machine.{
  M, ◌>>=◌, ◌>>◌, modify, check, add, require_time, require_before_deadline, require_event,
  clear_ping, set_state, is_rekeying, is_established, is_closed,
}

unfoldable pub begin_handshake : ℕ → M (Unit {0})
unfolding require_time require_event set_state
begin_handshake now = do
  require_time now
  next ← require_event begin_handshake_event
  set_state next now

unfoldable pub handle_retry : ℕ → M (Unit {0})
unfolding require_time require_before_deadline require_event
handle_retry now = do
  require_time now
  require_before_deadline now
  require_event retry_received
  modify (λ m. record m { initial_retries = 0; last_event_at = now })

unfoldable pub record_initial_retransmission : ℕ → M ℤ
unfolding require_time require_before_deadline require_event
record_initial_retransmission now = do
  require_time now
  require_before_deadline now
  require_event retransmit_initial
  check (λ m. leb m.policy.max_initial_retries m.initial_retries) (λ m. retries_exhausted)
  λ m. (
    record m { initial_retries = (m.initial_retries + 1) % 256; last_event_at = now },
    ok (initial_backoff m.policy m.initial_retries),
  )

unfoldable pub handshake_complete : ℕ → M (Unit {0})
unfolding require_time require_before_deadline require_event set_state is_rekeying clear_ping
handshake_complete now = do
  require_time now
  require_before_deadline now
  next ← require_event handshake_complete_event
  λ m.
      if is_rekeying m.state
      then (
        record (clear_ping (record m { rekey_handshake_ready = true })) {
          deadline = add now m.policy.pending_confirm;
          last_event_at = now;
        },
        ok tt,
      )
      else set_state next now m

unfoldable pub issue_ping : ℕ → ℕ → M (Unit {0})
unfolding require_time require_before_deadline require_event is_rekeying
issue_ping operation_id now = do
  require_time now
  require_before_deadline now
  require_event issue_ping_event
  check (λ m. is_rekeying m.state && not m.rekey_handshake_ready)
      (λ m. illegal_transition m.role m.state issue_ping_event)
  check (λ m. m.has_outstanding_ping) (λ m. ping_outstanding)
  modify (λ m. record m {
    has_outstanding_ping = true;
    outstanding_ping_id = operation_id;
    control_retries = 0;
    last_event_at = now;
  })

unfoldable pub record_ping_retransmission : ℕ → ℕ → M ℤ
unfolding require_time require_before_deadline require_event
record_ping_retransmission operation_id now = do
  require_time now
  require_before_deadline now
  require_event retransmit_ping
  check (λ m. not m.has_outstanding_ping) (λ m. no_outstanding_ping)
  check (λ m. not (operation_id == m.outstanding_ping_id))
      (λ m. pong_mismatch m.outstanding_ping_id operation_id)
  check (λ m. leb m.policy.max_control_retries m.control_retries) (λ m. retries_exhausted)
  λ m. (
    record m { control_retries = (m.control_retries + 1) % 256; last_event_at = now },
    ok (control_backoff m.policy m.control_retries),
  )

unfoldable pub accept_pong : ℕ → ℕ → M (Unit {0})
unfolding require_time require_before_deadline require_event set_state clear_ping
accept_pong operation_id now = do
  require_time now
  require_before_deadline now
  next ← require_event pong
  check (λ m. not m.has_outstanding_ping) (λ m. no_outstanding_ping)
  check (λ m. not (operation_id == m.outstanding_ping_id))
      (λ m. pong_mismatch m.outstanding_ping_id operation_id)
  modify clear_ping
  set_state next now

-- The result says whether the operation is a duplicate.
unfoldable pub accept_confirm_ping : ℕ → ℕ → M Bool
unfolding require_time require_before_deadline require_event set_state is_rekeying is_established
accept_confirm_ping operation_id now = do
  require_time now
  require_before_deadline now
  next ← require_event confirm_ping
  check (λ m. is_rekeying m.state && not m.rekey_handshake_ready)
      (λ m. illegal_transition m.role m.state confirm_ping)
  λ m.
      if is_established m.state
      then (do
        check (λ m. not m.has_last_confirm_id || not (operation_id == m.last_confirm_id))
            (λ m. confirm_mismatch m.last_confirm_id operation_id)
        check (λ m. ltb m.confirm_grace_until now) (λ m. confirm_grace_expired)
        λ m. (
          record m { last_event_at = now; deadline = add now m.policy.established_idle },
          ok true,
        ))
          m
      else (do
        modify (λ m. record m {
          has_last_confirm_id = true;
          last_confirm_id = operation_id;
          confirm_grace_until = add now m.policy.confirm_grace;
        })
        set_state next now
        λ m. (m, ok false))
          m

unfoldable pub begin_rekey : ℕ → M (Unit {0})
unfolding require_time require_before_deadline require_event set_state
begin_rekey now = do
  require_time now
  require_before_deadline now
  next ← require_event begin_rekey_event
  set_state next now

unfoldable pub touch : ℕ → M (Unit {0})
unfolding require_time require_before_deadline require_event
touch now = do
  require_time now
  require_before_deadline now
  require_event activity
  modify (λ m. record m { last_event_at = now; deadline = add now m.policy.established_idle })

unfoldable pub begin_drain : ℕ → M (Unit {0})
unfolding require_time require_event set_state
begin_drain now = do require_time now; next ← require_event begin_drain_event; set_state next now

-- The result says whether a deadline was applied.
unfoldable pub check_timeout : ℕ → M Bool
unfolding require_time require_event set_state
check_timeout now = do
  require_time now
  λ m.
      if m.deadline == 0 || ltb now m.deadline
      then (m, ok false)
      else (do next ← require_event timeout; set_state next now; λ m. (m, ok true)) m

unfoldable pub close : ℕ → M (Unit {0})
unfolding require_time require_event set_state is_closed
close now = do
  require_time now
  λ m.
      if is_closed m.state
      then (m, ok tt)
      else (do next ← require_event close_event; set_state next now) m
