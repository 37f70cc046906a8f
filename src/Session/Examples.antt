-- ===== src/Session/Examples.antt =====
-- Runs of the replay window, the allocator and the machine of internal/session at concrete inputs.
use Prim.Native.Nat.{min}
use wg.Prelude.{
  ◌-◌, ◌*◌, ◌^◌, ◌≤◌, ◌<◌, ◌≡◌, ◌≢◌, refl, ◌↔◌, ◌⊎◌, inl, true, false, some, List, [], ◌∷◌, ok, err,
  arith,
}
use wg.Prelude.Int.{pos}
use wg.Session.Replay.{
  ReplayWindow, replay_too_old, zero_window, precheck, accept_authenticated, set_bit, shift_locked,
  new_packet_numbers,
}
use wg.Session.Replay.History.{judge, remember, Refines}
use wg.Session.Replay.Window.{zero_window-Refines, accept_authenticated-Refines}
use wg.Session.Replay.Once.{accepted, Distinct, accepted_once, precheck-accept_authenticated}
use wg.Session.Replay.Numbers.{allocated, count_up, allocated-count_up}
use wg.Session.State.{
  Role, client, server, idle, initial_sent, pending_confirm, established, rekeying, closed,
  next_state, illegal_transition, pong, confirm_mismatch,
}
use wg.Session.Policy.{default_timeout_policy, validate, initial_backoff, control_backoff}
use wg.Session.Policy.Backoff.{backoff_of_validate}
use wg.Session.Machine.{Machine, new_machine, add}
use wg.Session.Machine.Invariant.{IsValid, new_machine-IsValid}
use wg.Session.Machine.Effects.{shut, drained, touched}
use wg.Session.Machine.Methods.{
  begin_handshake, handle_retry, handshake_complete, issue_ping, accept_pong, close, check_timeout,
  accept_confirm_ping,
}
use wg.Session.Machine.Calls.{
  Call, call_begin_handshake, call_handshake_complete, call_issue_ping, call_accept_pong,
  call_handle_retry, call_close, perform, run,
}
use wg.Session.Machine.Calls.Safety.{perform-IsValid, run-IsValid, perform_error_unchanged}
use wg.Session.Machine.Calls.Lifetime.{Confirms, established_by_confirmation, bounded_deadline}
use wg.Session.Machine.Calls.Timeouts.{
  IsHandshake, check_timeout_due, timeouts_close, accept_confirm_ping_again,
}

-- A window that has accepted 5, asked for 3.
abbrev window5 : ReplayWindow
window5 = (accept_authenticated zero_window 5).0

window5-Refines : Refines (remember [] 5) window5
window5-Refines = (accept_authenticated-Refines [] zero_window 5 zero_window-Refines).0

accept_authenticated-Refines_example :
    Refines (remember (remember [] 5) 3) (accept_authenticated window5 3).0
    × ((accept_authenticated window5 3).1 ≡ judge (remember [] 5) 3)
accept_authenticated-Refines_example =
    accept_authenticated-Refines (remember [] 5) window5 3 window5-Refines

accepted_once_example : Distinct (accepted zero_window (5 ∷ 3 ∷ 5 ∷ 3000 ∷ 3 ∷ 2999 ∷ []))
accepted_once_example = accepted_once (5 ∷ 3 ∷ 5 ∷ 3000 ∷ 3 ∷ 2999 ∷ [])

-- The second 5 and the second 3 are refused.
accepted_arrivals :
    accepted zero_window (5 ∷ 3 ∷ 5 ∷ 3000 ∷ 3 ∷ 2999 ∷ []) ≡ 5 ∷ 3 ∷ 3000 ∷ 2999 ∷ []
unfolding accepted accept_authenticated zero_window set_bit shift_locked
accepted_arrivals = refl

precheck-accept_authenticated_example : (precheck window5 3 ≡ false) ↔ (
    (accept_authenticated window5 3).1
    ≡ some (record { kind = replay_too_old; packet_number = 3; highest = window5.highest }))
precheck-accept_authenticated_example = precheck-accept_authenticated window5 3

allocated-count_up_example :
    allocated 4 (new_packet_numbers (2 ^ 64 - 2))
    ≡ count_up (2 ^ 64 - 2) (min 4 (2 ^ 64 - (2 ^ 64 - 2)))
allocated-count_up_example = allocated-count_up 4 (2 ^ 64 - 2) (omega arith)

default_valid : validate default_timeout_policy ≡ ok tt
unfolding validate default_timeout_policy
default_valid = refl

backoff_of_validate_example :
    (initial_backoff default_timeout_policy 2 ≡ pos (min (500_000_000 * 2 ^ 2) 4_000_000_000))
    × (control_backoff default_timeout_policy 2 ≡ pos (min (500_000_000 * 2 ^ 2) 4_000_000_000))
unfolding default_timeout_policy
backoff_of_validate_example =
    backoff_of_validate default_timeout_policy 500_000_000 500_000_000 4_000_000_000 2 default_valid
      refl refl refl (omega arith)

-- A machine with the default policy, made at the time 1000.
abbrev start : Role → Machine
start role = record {
  role = role;
  state = idle;
  policy = default_timeout_policy;
  entered_at = 1000;
  last_event_at = 1000;
  deadline = 0;
  initial_retries = 0;
  control_retries = 0;
  has_outstanding_ping = false;
  outstanding_ping_id = 0;
  rekey_handshake_ready = false;
  has_last_confirm_id = false;
  last_confirm_id = 0;
  confirm_grace_until = 0;
}

start_client : new_machine client default_timeout_policy 1000 ≡ ok (start client)
unfolding new_machine validate default_timeout_policy
start_client = refl

few :
    (default_timeout_policy.max_initial_retries < 256)
    × (default_timeout_policy.max_control_retries < 256)
unfolding default_timeout_policy
few = (omega arith, omega arith)

start-IsValid :
    (role : Role)
    → new_machine role default_timeout_policy 1000 ≡ ok (start role)
    → IsValid (start role)
start-IsValid role e =
    (new_machine-IsValid role default_timeout_policy 1000 (start role) few.0 few.1 e).0

-- A client that opens a session, and one that confirms it.
abbrev opened : Machine
opened = (perform (call_begin_handshake 2000) (start client)).0

abbrev calls : List Call
calls = call_begin_handshake 2000 ∷ call_handshake_complete 3000 ∷ call_issue_ping 7 4000 ∷ []

abbrev pinging : Machine
pinging = run (start client) calls

run-IsValid_example : IsValid (run (start client) calls)
run-IsValid_example = run-IsValid (start client) calls (start-IsValid client start_client)

pong_refused :
    (perform (call_accept_pong 7 2000) (start client)).1 ≡ err (illegal_transition client idle pong)
unfolding perform accept_pong next_state
pong_refused = refl

perform_error_unchanged_example :
    (perform (call_accept_pong 7 2000) (start client)).0 ≡ start client
perform_error_unchanged_example =
    perform_error_unchanged (call_accept_pong 7 2000) (start client) pong_refused

pinging_state : pinging.state ≡ pending_confirm
unfolding run perform begin_handshake handshake_complete issue_ping next_state add
    default_timeout_policy
pinging_state = refl

ponged_state : (perform (call_accept_pong 7 5000) pinging).0.state ≡ established
unfolding run perform begin_handshake handshake_complete issue_ping accept_pong next_state add
    default_timeout_policy
ponged_state = refl

not_established : pending_confirm ≢ established
not_established h = cc

established_by_confirmation_example : Confirms (call_accept_pong 7 5000) pinging
established_by_confirmation_example =
    established_by_confirmation (call_accept_pong 7 5000) pinging (rw pinging_state not_established)
      ponged_state

opened_state : opened.state ≡ initial_sent
unfolding perform begin_handshake next_state
opened_state = refl

retried_state : (perform (call_handle_retry 3000) opened).0.state ≡ opened.state
unfolding perform begin_handshake handle_retry next_state add default_timeout_policy
retried_state = refl

bounded_deadline_example : (perform (call_handle_retry 3000) opened).0.deadline ≡ opened.deadline
bounded_deadline_example =
    bounded_deadline (call_handle_retry 3000) opened (inl opened_state) retried_state

abbrev shut_down : Machine
shut_down = (perform (call_close 9000) pinging).0

shut_down_state : shut_down.state ≡ closed
unfolding run perform begin_handshake handshake_complete issue_ping close next_state add
    default_timeout_policy
shut_down_state = refl

opened-IsValid : IsValid opened
opened-IsValid =
    perform-IsValid (call_begin_handshake 2000) (start client) (start-IsValid client start_client)

opened_deadline : opened.deadline ≡ 10_000_002_000
unfolding perform begin_handshake next_state add default_timeout_policy
opened_deadline = refl

opened_active : (opened.state ≢ idle) × (opened.state ≢ closed)
opened_active = rw opened_state ((λ h. cc), (λ h. cc))

check_timeout_due_example :
    (IsHandshake opened.state
      × (check_timeout 10_000_002_000 opened ≡ (shut 10_000_002_000 opened, ok true)))
    ⊎ (((opened.state ≡ established) ⊎ (opened.state ≡ rekeying))
        × (check_timeout 10_000_002_000 opened ≡ (drained 10_000_002_000 opened, ok true)))
check_timeout_due_example =
    check_timeout_due 10_000_002_000 opened opened-IsValid opened_active.0 opened_active.1
      (rw opened_deadline (omega arith))

timed_out_deadline : (check_timeout 10_000_002_000 opened).0.deadline ≤ 20_000_000_000
unfolding perform begin_handshake check_timeout next_state add default_timeout_policy
timed_out_deadline = omega arith

timeouts_close_example :
    (check_timeout 20_000_000_000 (check_timeout 10_000_002_000 opened).0).0.state ≡ closed
timeouts_close_example =
    timeouts_close 10_000_002_000 20_000_000_000 opened opened-IsValid opened_active.0
      opened_active.1 (rw opened_deadline (omega arith)) timed_out_deadline

-- A server that waits for a confirmation.
abbrev waiting : Machine
waiting = (perform (call_handshake_complete 2000) (start server)).0

first_confirm : (accept_confirm_ping 7 3000 waiting).1 ≡ ok false
unfolding perform handshake_complete accept_confirm_ping next_state add default_timeout_policy
first_confirm = refl

confirmed_times :
    ((accept_confirm_ping 7 3000 waiting).0.last_event_at ≤ 4000)
    × (4000 < (accept_confirm_ping 7 3000 waiting).0.deadline)
    × (4000 ≤ (accept_confirm_ping 7 3000 waiting).0.confirm_grace_until)
unfolding perform handshake_complete accept_confirm_ping next_state add default_timeout_policy
confirmed_times = (omega arith, omega arith, omega arith)

accept_confirm_ping_again_example :
    let m' = (accept_confirm_ping 7 3000 waiting).0 in
    (accept_confirm_ping 7 4000 m' ≡ (touched 4000 m', ok true))
    × (accept_confirm_ping 8 4000 m' ≡ (m', err (confirm_mismatch 7 8)))
accept_confirm_ping_again_example =
    accept_confirm_ping_again 7 8 3000 4000 waiting first_confirm confirmed_times.0
      confirmed_times.1 confirmed_times.2 (omega arith)
