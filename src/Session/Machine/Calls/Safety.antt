-- ===== src/Session/Machine/Calls/Safety.antt =====
-- Every call of a method of internal/session/machine.go, and every sequence of calls.
use wg.Prelude.{◌≤◌, ◌≡◌, List, [], ◌∷◌, Result, ok, err, arith}
use wg.Session.State.{SessionError}
use wg.Session.Machine.{Machine}
use wg.Session.Machine.Invariant.{IsValid}
use wg.Session.Machine.Keeps.{
  begin_handshake-IsValid, handle_retry-IsValid, record_initial_retransmission-IsValid,
  handshake_complete-IsValid, begin_rekey-IsValid, touch-IsValid, begin_drain-IsValid,
  check_timeout-IsValid, close-IsValid, issue_ping-IsValid, record_ping_retransmission-IsValid,
  accept_pong-IsValid, accept_confirm_ping-IsValid,
}
use wg.Session.Machine.Atomic.{
  begin_handshake_unchanged, handle_retry_unchanged, record_initial_retransmission_unchanged,
  handshake_complete_unchanged, begin_rekey_unchanged, touch_unchanged, begin_drain_unchanged,
  check_timeout_unchanged, close_unchanged, issue_ping_unchanged,
  record_ping_retransmission_unchanged, accept_pong_unchanged, accept_confirm_ping_unchanged,
}
use wg.Session.Machine.Effects.{
  begin_handshake_effect, handle_retry_effect, record_initial_retransmission_effect,
  handshake_complete_effect, begin_rekey_effect, touch_effect, begin_drain_effect,
  check_timeout_effect, close_effect, issue_ping_effect, record_ping_retransmission_effect,
  accept_pong_effect, accept_confirm_ping_effect,
}
use wg.Session.Machine.Calls.{
  Call, call_begin_handshake, call_handle_retry, call_record_initial_retransmission,
  call_handshake_complete, call_begin_rekey, call_touch, call_begin_drain, call_check_timeout,
  call_close, call_issue_ping, call_record_ping_retransmission, call_accept_pong,
  call_accept_confirm_ping, Reply, reply, perform, run,
}

-- Every call, also one that returns an error, keeps the invariant.
pub perform-IsValid : (c : Call) (m : Machine) → IsValid m → IsValid (perform c m).0
unfolding perform
perform-IsValid (call_begin_handshake now) m v = begin_handshake-IsValid now m v
perform-IsValid (call_handle_retry now) m v = handle_retry-IsValid now m v
perform-IsValid (call_record_initial_retransmission now) m v =
    record_initial_retransmission-IsValid now m v
perform-IsValid (call_handshake_complete now) m v = handshake_complete-IsValid now m v
perform-IsValid (call_begin_rekey now) m v = begin_rekey-IsValid now m v
perform-IsValid (call_touch now) m v = touch-IsValid now m v
perform-IsValid (call_begin_drain now) m v = begin_drain-IsValid now m v
perform-IsValid (call_check_timeout now) m v = check_timeout-IsValid now m v
perform-IsValid (call_close now) m v = close-IsValid now m v
perform-IsValid (call_issue_ping id now) m v = issue_ping-IsValid now m v id
perform-IsValid (call_record_ping_retransmission id now) m v =
    record_ping_retransmission-IsValid now m v id
perform-IsValid (call_accept_pong id now) m v = accept_pong-IsValid now m v id
perform-IsValid (call_accept_confirm_ping id now) m v = accept_confirm_ping-IsValid now m v id

-- Every machine that any sequence of calls leads to from a valid one is valid.
pub run-IsValid : (m : Machine) (cs : List Call) → IsValid m → IsValid (run m cs)
unfolding run
run-IsValid m [] v = v
run-IsValid m (c ∷ cs) v = run-IsValid (perform c m).0 cs (perform-IsValid c m v)

reply_error :
    {A : Type 0} (f : A → Reply) (r : Result SessionError A) {e : SessionError}
    → reply f r ≡ err e
    → r ≡ err e
reply_error f (ok a) h = cc
reply_error f (err e) h = cc

-- A call that returns an error leaves the machine as it was, whatever the machine.
pub perform_error_unchanged :
    (c : Call) (m : Machine) {e : SessionError} → (perform c m).1 ≡ err e → (perform c m).0 ≡ m
unfolding perform
perform_error_unchanged (call_begin_handshake now) m h =
    begin_handshake_unchanged now m (reply_error _ _ h)
perform_error_unchanged (call_handle_retry now) m h =
    handle_retry_unchanged now m (reply_error _ _ h)
perform_error_unchanged (call_record_initial_retransmission now) m h =
    record_initial_retransmission_unchanged now m (reply_error _ _ h)
perform_error_unchanged (call_handshake_complete now) m h =
    handshake_complete_unchanged now m (reply_error _ _ h)
perform_error_unchanged (call_begin_rekey now) m h = begin_rekey_unchanged now m (reply_error _ _ h)
perform_error_unchanged (call_touch now) m h = touch_unchanged now m (reply_error _ _ h)
perform_error_unchanged (call_begin_drain now) m h = begin_drain_unchanged now m (reply_error _ _ h)
perform_error_unchanged (call_check_timeout now) m h =
    check_timeout_unchanged now m (reply_error _ _ h)
perform_error_unchanged (call_close now) m h = close_unchanged now m (reply_error _ _ h)
perform_error_unchanged (call_issue_ping id now) m h =
    issue_ping_unchanged now m id (reply_error _ _ h)
perform_error_unchanged (call_record_ping_retransmission id now) m h =
    record_ping_retransmission_unchanged now m id (reply_error _ _ h)
perform_error_unchanged (call_accept_pong id now) m h =
    accept_pong_unchanged now m id (reply_error _ _ h)
perform_error_unchanged (call_accept_confirm_ping id now) m h =
    accept_confirm_ping_unchanged now m id (reply_error _ _ h)

-- Time never runs backwards in a machine.
pub perform_monotone : (c : Call) (m : Machine) → m.last_event_at ≤ (perform c m).0.last_event_at
unfolding perform
perform_monotone (call_begin_handshake now) m = ground (arith, begin_handshake_effect now m)
perform_monotone (call_handle_retry now) m = ground (arith, handle_retry_effect now m)
perform_monotone (call_record_initial_retransmission now) m =
    ground (arith, record_initial_retransmission_effect now m)
perform_monotone (call_handshake_complete now) m = ground (arith, handshake_complete_effect now m)
perform_monotone (call_begin_rekey now) m = ground (arith, begin_rekey_effect now m)
perform_monotone (call_touch now) m = ground (arith, touch_effect now m)
perform_monotone (call_begin_drain now) m = ground (arith, begin_drain_effect now m)
perform_monotone (call_check_timeout now) m = ground (arith, check_timeout_effect now m)
perform_monotone (call_close now) m = ground (arith, close_effect now m)
perform_monotone (call_issue_ping id now) m = ground (arith, issue_ping_effect now m id)
perform_monotone (call_record_ping_retransmission id now) m =
    ground (arith, record_ping_retransmission_effect now m id)
perform_monotone (call_accept_pong id now) m = ground (arith, accept_pong_effect now m id)
perform_monotone (call_accept_confirm_ping id now) m =
    ground (arith, accept_confirm_ping_effect now m id)
