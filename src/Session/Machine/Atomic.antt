-- ===== src/Session/Machine/Atomic.antt =====
-- The methods of internal/session/machine.go where they return an error.
use wg.Prelude.{ℕ, ◌≡◌, err, arith}
use wg.Session.State.{SessionError}
use wg.Session.Machine.{Machine}
use wg.Session.Machine.Methods.{
  begin_handshake, handle_retry, record_initial_retransmission, handshake_complete, issue_ping,
  record_ping_retransmission, accept_pong, accept_confirm_ping, begin_rekey, touch, begin_drain,
  check_timeout, close,
}

module _ (now : ℕ) (m : Machine) {e : SessionError} where
  pub begin_handshake_unchanged : (begin_handshake now m).1 ≡ err e → (begin_handshake now m).0 ≡ m
  unfolding begin_handshake
  begin_handshake_unchanged h = ground arith

  pub handle_retry_unchanged : (handle_retry now m).1 ≡ err e → (handle_retry now m).0 ≡ m
  unfolding handle_retry
  handle_retry_unchanged h = ground arith

  pub record_initial_retransmission_unchanged :
      (record_initial_retransmission now m).1 ≡ err e → (record_initial_retransmission now m).0 ≡ m
  unfolding record_initial_retransmission
  record_initial_retransmission_unchanged h = ground arith

  pub handshake_complete_unchanged :
      (handshake_complete now m).1 ≡ err e → (handshake_complete now m).0 ≡ m
  unfolding handshake_complete
  handshake_complete_unchanged h = ground arith

  pub begin_rekey_unchanged : (begin_rekey now m).1 ≡ err e → (begin_rekey now m).0 ≡ m
  unfolding begin_rekey
  begin_rekey_unchanged h = ground arith

  pub touch_unchanged : (touch now m).1 ≡ err e → (touch now m).0 ≡ m
  unfolding touch
  touch_unchanged h = ground arith

  pub begin_drain_unchanged : (begin_drain now m).1 ≡ err e → (begin_drain now m).0 ≡ m
  unfolding begin_drain
  begin_drain_unchanged h = ground arith

  pub check_timeout_unchanged : (check_timeout now m).1 ≡ err e → (check_timeout now m).0 ≡ m
  unfolding check_timeout
  check_timeout_unchanged h = ground arith

  pub close_unchanged : (close now m).1 ≡ err e → (close now m).0 ≡ m
  unfolding close
  close_unchanged h = ground arith

  pub issue_ping_unchanged :
      (id : ℕ) → (issue_ping id now m).1 ≡ err e → (issue_ping id now m).0 ≡ m
  unfolding issue_ping
  issue_ping_unchanged id h = ground arith

  pub record_ping_retransmission_unchanged :
      (id : ℕ)
      → (record_ping_retransmission id now m).1 ≡ err e
      → (record_ping_retransmission id now m).0 ≡ m
  unfolding record_ping_retransmission
  record_ping_retransmission_unchanged id h = ground arith

  pub accept_pong_unchanged :
      (id : ℕ) → (accept_pong id now m).1 ≡ err e → (accept_pong id now m).0 ≡ m
  unfolding accept_pong
  accept_pong_unchanged id h = ground arith

  pub accept_confirm_ping_unchanged :
      (id : ℕ) → (accept_confirm_ping id now m).1 ≡ err e → (accept_confirm_ping id now m).0 ≡ m
  unfolding accept_confirm_ping
  accept_confirm_ping_unchanged id h = ground arith
