-- ===== src/Session/Machine/Calls/Lifetime.antt =====
-- How the sessions of internal/session/machine.go are established, how long their states last, and
-- how they end.
use wg.Prelude.{◌≡◌, ◌≢◌, ◌⊎◌, true, List, [], ◌∷◌, arith}
use wg.Session.State.{
  State, client, server, initial_sent, pending_confirm, established, rekeying, draining, closed,
}
use wg.Session.Machine.{Machine}
use wg.Session.Machine.Effects.{
  begin_handshake_effect, handle_retry_effect, record_initial_retransmission_effect,
  handshake_complete_effect, begin_rekey_effect, touch_effect, begin_drain_effect,
  check_timeout_effect, close_effect, issue_ping_effect, record_ping_retransmission_effect,
  accept_pong_effect, accept_confirm_ping_effect,
}
use wg.Session.Machine.Calls.{
  Call, call_begin_handshake, call_handle_retry, call_record_initial_retransmission,
  call_handshake_complete, call_begin_rekey, call_touch, call_begin_drain, call_check_timeout,
  call_close, call_issue_ping, call_record_ping_retransmission, call_accept_pong,
  call_accept_confirm_ping, perform, run,
}

-- The calls that may establish a session, with what they have to match.
abbrev pub Confirms : Call → Machine → Type 0
Confirms (call_accept_pong id now) m =
    (m.role ≡ client) × (m.has_outstanding_ping ≡ true) × (id ≡ m.outstanding_ping_id)
Confirms (call_accept_confirm_ping id now) m =
    (m.role ≡ server)
    × ((m.state ≡ pending_confirm) ⊎ ((m.state ≡ rekeying) × (m.rekey_handshake_ready ≡ true)))
Confirms _ m = ⊥

-- A machine gets to Established only by a confirmation: on a client by a PONG that carries the
-- identifier of the outstanding PING, on a server by a CONFIRM after the handshake was completed.
pub established_by_confirmation :
    (c : Call) (m : Machine)
    → m.state ≢ established
    → (perform c m).0.state ≡ established
    → Confirms c m
unfolding perform
established_by_confirmation (call_begin_handshake now) m h e =
    ground (arith, begin_handshake_effect now m)
established_by_confirmation (call_handle_retry now) m h e =
    ground (arith, handle_retry_effect now m)
established_by_confirmation (call_record_initial_retransmission now) m h e =
    ground (arith, record_initial_retransmission_effect now m)
established_by_confirmation (call_handshake_complete now) m h e =
    ground (arith, handshake_complete_effect now m)
established_by_confirmation (call_begin_rekey now) m h e = ground (arith, begin_rekey_effect now m)
established_by_confirmation (call_touch now) m h e = ground (arith, touch_effect now m)
established_by_confirmation (call_begin_drain now) m h e = ground (arith, begin_drain_effect now m)
established_by_confirmation (call_check_timeout now) m h e =
    ground (arith, check_timeout_effect now m)
established_by_confirmation (call_close now) m h e = ground (arith, close_effect now m)
established_by_confirmation (call_issue_ping id now) m h e =
    ground (arith, issue_ping_effect now m id)
established_by_confirmation (call_record_ping_retransmission id now) m h e =
    ground (arith, record_ping_retransmission_effect now m id)
established_by_confirmation (call_accept_pong id now) m h e =
    ground (arith, accept_pong_effect now m id)
established_by_confirmation (call_accept_confirm_ping id now) m h e =
    ground (arith, accept_confirm_ping_effect now m id)

-- The states whose deadline is a hard bound.
abbrev pub IsBounded : State → Type 0
IsBounded s = (s ≡ initial_sent) ⊎ (s ≡ pending_confirm) ⊎ (s ≡ draining)

-- No call changes the deadline of InitialSent, PendingConfirm or Draining while the state stays.
pub bounded_deadline :
    (c : Call) (m : Machine)
    → IsBounded m.state
    → (perform c m).0.state ≡ m.state
    → (perform c m).0.deadline ≡ m.deadline
unfolding perform
bounded_deadline (call_begin_handshake now) m b e = ground (arith, begin_handshake_effect now m)
bounded_deadline (call_handle_retry now) m b e = ground (arith, handle_retry_effect now m)
bounded_deadline (call_record_initial_retransmission now) m b e =
    ground (arith, record_initial_retransmission_effect now m)
bounded_deadline (call_handshake_complete now) m b e =
    ground (arith, handshake_complete_effect now m)
bounded_deadline (call_begin_rekey now) m b e = ground (arith, begin_rekey_effect now m)
bounded_deadline (call_touch now) m b e = ground (arith, touch_effect now m)
bounded_deadline (call_begin_drain now) m b e = ground (arith, begin_drain_effect now m)
bounded_deadline (call_check_timeout now) m b e = ground (arith, check_timeout_effect now m)
bounded_deadline (call_close now) m b e = ground (arith, close_effect now m)
bounded_deadline (call_issue_ping id now) m b e = ground (arith, issue_ping_effect now m id)
bounded_deadline (call_record_ping_retransmission id now) m b e =
    ground (arith, record_ping_retransmission_effect now m id)
bounded_deadline (call_accept_pong id now) m b e = ground (arith, accept_pong_effect now m id)
bounded_deadline (call_accept_confirm_ping id now) m b e =
    ground (arith, accept_confirm_ping_effect now m id)

pub perform_closed : (c : Call) (m : Machine) → m.state ≡ closed → (perform c m).0.state ≡ closed
unfolding perform
perform_closed (call_begin_handshake now) m e = ground (arith, begin_handshake_effect now m)
perform_closed (call_handle_retry now) m e = ground (arith, handle_retry_effect now m)
perform_closed (call_record_initial_retransmission now) m e =
    ground (arith, record_initial_retransmission_effect now m)
perform_closed (call_handshake_complete now) m e = ground (arith, handshake_complete_effect now m)
perform_closed (call_begin_rekey now) m e = ground (arith, begin_rekey_effect now m)
perform_closed (call_touch now) m e = ground (arith, touch_effect now m)
perform_closed (call_begin_drain now) m e = ground (arith, begin_drain_effect now m)
perform_closed (call_check_timeout now) m e = ground (arith, check_timeout_effect now m)
perform_closed (call_close now) m e = ground (arith, close_effect now m)
perform_closed (call_issue_ping id now) m e = ground (arith, issue_ping_effect now m id)
perform_closed (call_record_ping_retransmission id now) m e =
    ground (arith, record_ping_retransmission_effect now m id)
perform_closed (call_accept_pong id now) m e = ground (arith, accept_pong_effect now m id)
perform_closed (call_accept_confirm_ping id now) m e =
    ground (arith, accept_confirm_ping_effect now m id)

-- A closed machine stays closed, whatever is called.
pub run_closed : (m : Machine) (cs : List Call) → m.state ≡ closed → (run m cs).state ≡ closed
unfolding run
run_closed m [] e = e
run_closed m (c ∷ cs) e = run_closed (perform c m).0 cs (perform_closed c m e)
