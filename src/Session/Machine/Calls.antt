-- ===== src/Session/Machine/Calls.antt =====
-- One type for a call of any method of internal/session/machine.go, to state what holds of all of
-- them and of sequences of them.
pub mod Safety
pub mod Lifetime
pub mod Timeouts
use wg.Prelude.{ℕ, Bool, List, [], ◌∷◌, Result, ok, err}
use wg.Prelude.Int.{ℤ}
use wg.Session.State.{SessionError}
use wg.Session.Machine.{Machine, M}
use wg.Session.Machine.Methods.{
  begin_handshake, handle_retry, record_initial_retransmission, handshake_complete, issue_ping,
  record_ping_retransmission, accept_pong, accept_confirm_ping, begin_rekey, touch, begin_drain,
  check_timeout, close,
}

-- The last argument of each call is the time.
pub data Call : Type 0 where
  call_begin_handshake call_handle_retry call_record_initial_retransmission call_handshake_complete
        call_begin_rekey call_touch call_begin_drain call_check_timeout call_close :
      ℕ → Call
  call_issue_ping call_record_ping_retransmission call_accept_pong call_accept_confirm_ping :
      ℕ → ℕ → Call

pub data Reply : Type 0 where
  done : Reply
  delay : ℤ → Reply
  flag : Bool → Reply

abbrev reply {ℓ} : {A : Type ℓ} → (A → Reply) → Result SessionError A → Result SessionError Reply
reply f (ok a) = ok (f a)
reply f (err e) = err e

abbrev answer :
    {A : Type 0}
    → (A → Reply)
    → Machine × Result SessionError A
    → Machine × Result SessionError Reply
answer f (m, r) = (m, reply f r)

unfoldable pub perform : Call → M Reply
perform (call_begin_handshake now) m = answer (λ _. done) (begin_handshake now m)
perform (call_handle_retry now) m = answer (λ _. done) (handle_retry now m)
perform (call_record_initial_retransmission now) m =
    answer delay (record_initial_retransmission now m)
perform (call_handshake_complete now) m = answer (λ _. done) (handshake_complete now m)
perform (call_begin_rekey now) m = answer (λ _. done) (begin_rekey now m)
perform (call_touch now) m = answer (λ _. done) (touch now m)
perform (call_begin_drain now) m = answer (λ _. done) (begin_drain now m)
perform (call_check_timeout now) m = answer flag (check_timeout now m)
perform (call_close now) m = answer (λ _. done) (close now m)
perform (call_issue_ping id now) m = answer (λ _. done) (issue_ping id now m)
perform (call_record_ping_retransmission id now) m =
    answer delay (record_ping_retransmission id now m)
perform (call_accept_pong id now) m = answer (λ _. done) (accept_pong id now m)
perform (call_accept_confirm_ping id now) m = answer flag (accept_confirm_ping id now m)

-- The machine after a sequence of calls, whatever they return.
unfoldable pub run : Machine → List Call → Machine
run m [] = m
run m (c ∷ cs) = run (perform c m).0 cs
