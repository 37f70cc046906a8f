-- ===== src/Session/Machine/Effects.antt =====
-- What each method of internal/session/machine.go does to the machine, when it changes it.
use wg.Prelude.{◌%◌, ℕ, ◌+◌, ◌≤◌, ◌<◌, ◌≡◌, ◌⊎◌, true, false, arith}
use wg.Session.State.{
  client, server, idle, initial_sent, pending_confirm, established, rekeying, draining, closed,
}
use wg.Session.Machine.{Machine, add}
use wg.Session.Machine.Methods.{
  begin_handshake, handle_retry, record_initial_retransmission, handshake_complete, issue_ping,
  record_ping_retransmission, accept_pong, accept_confirm_ping, begin_rekey, touch, begin_drain,
  check_timeout, close,
}
use wg.Session.State.Events.{
  next_begin_handshake, next_retry_received, next_retransmit_initial, next_handshake_complete,
  next_issue_ping, next_retransmit_ping, next_pong, next_confirm_ping, next_activity,
  next_begin_rekey, next_begin_drain, next_timeout, next_close,
}

-- The time of an event that is let through: not before the last one, and before any deadline.
abbrev pub InTime : ℕ → Machine → Type 0
InTime now m = (m.last_event_at ≤ now) × ((m.deadline ≡ 0) ⊎ (now < m.deadline))

abbrev pub opening : ℕ → Machine → Machine
opening now m = record m {
  state = initial_sent;
  entered_at = now;
  last_event_at = now;
  deadline = add now m.policy.initial_sent;
  initial_retries = 0;
  has_outstanding_ping = false;
  outstanding_ping_id = 0;
  control_retries = 0;
}

abbrev pub retried : ℕ → Machine → Machine
retried now m = record m { initial_retries = 0; last_event_at = now }

abbrev pub retransmitted : ℕ → Machine → Machine
retransmitted now m = record m {
  initial_retries = (m.initial_retries + 1) % 256;
  last_event_at = now;
}

abbrev pub rekey_completed : ℕ → Machine → Machine
rekey_completed now m = record m {
  rekey_handshake_ready = true;
  deadline = add now m.policy.pending_confirm;
  last_event_at = now;
  has_outstanding_ping = false;
  outstanding_ping_id = 0;
  control_retries = 0;
}

abbrev pub completed : ℕ → Machine → Machine
completed now m = record m {
  state = pending_confirm;
  entered_at = now;
  last_event_at = now;
  deadline = add now m.policy.pending_confirm;
  has_outstanding_ping = false;
  outstanding_ping_id = 0;
  control_retries = 0;
}

abbrev pub rekeyed : ℕ → Machine → Machine
rekeyed now m = record m {
  state = rekeying;
  entered_at = now;
  last_event_at = now;
  deadline = add now m.policy.pending_confirm;
  rekey_handshake_ready = false;
  has_outstanding_ping = false;
  outstanding_ping_id = 0;
  control_retries = 0;
}

abbrev pub touched : ℕ → Machine → Machine
touched now m = record m { last_event_at = now; deadline = add now m.policy.established_idle }

abbrev pub drained : ℕ → Machine → Machine
drained now m = record m {
  state = draining;
  entered_at = now;
  last_event_at = now;
  deadline = add now m.policy.draining;
  rekey_handshake_ready = false;
  has_outstanding_ping = false;
  outstanding_ping_id = 0;
  control_retries = 0;
}

abbrev pub shut : ℕ → Machine → Machine
shut now m = record m {
  state = closed;
  entered_at = now;
  last_event_at = now;
  deadline = 0;
  rekey_handshake_ready = false;
  has_outstanding_ping = false;
  outstanding_ping_id = 0;
  control_retries = 0;
}

abbrev pub pinged : ℕ → ℕ → Machine → Machine
pinged id now m = record m {
  has_outstanding_ping = true;
  outstanding_ping_id = id;
  control_retries = 0;
  last_event_at = now;
}

abbrev pub ping_repeated : ℕ → Machine → Machine
ping_repeated now m = record m {
  control_retries = (m.control_retries + 1) % 256;
  last_event_at = now;
}

abbrev pub ponged : ℕ → Machine → Machine
ponged now m = record m {
  state = established;
  entered_at = now;
  last_event_at = now;
  deadline = add now m.policy.established_idle;
  rekey_handshake_ready = false;
  has_outstanding_ping = false;
  outstanding_ping_id = 0;
  control_retries = 0;
}

abbrev pub confirmed : ℕ → ℕ → Machine → Machine
confirmed id now m = record m {
  state = established;
  entered_at = now;
  last_event_at = now;
  deadline = add now m.policy.established_idle;
  rekey_handshake_ready = false;
  has_last_confirm_id = true;
  last_confirm_id = id;
  confirm_grace_until = add now m.policy.confirm_grace;
}

module _ (now : ℕ) (m : Machine) where
  pub begin_handshake_effect :
      ((begin_handshake now m).0 ≡ m)
      ⊎ ((m.last_event_at ≤ now)
          × (m.role ≡ client)
          × (m.state ≡ idle)
          × ((begin_handshake now m).0 ≡ opening now m))
  unfolding begin_handshake
  begin_handshake_effect = ground (arith, next_begin_handshake m.role m.state)

  pub handle_retry_effect :
      ((handle_retry now m).0 ≡ m)
      ⊎ (InTime now m
          × (m.role ≡ client)
          × (m.state ≡ initial_sent)
          × ((handle_retry now m).0 ≡ retried now m))
  unfolding handle_retry
  handle_retry_effect = ground (arith, next_retry_received m.role m.state)

  pub record_initial_retransmission_effect :
      ((record_initial_retransmission now m).0 ≡ m)
      ⊎ (InTime now m
          × (m.role ≡ client)
          × (m.state ≡ initial_sent)
          × (m.initial_retries < m.policy.max_initial_retries)
          × ((record_initial_retransmission now m).0 ≡ retransmitted now m))
  unfolding record_initial_retransmission
  record_initial_retransmission_effect = ground (arith, next_retransmit_initial m.role m.state)

  pub handshake_complete_effect :
      ((handshake_complete now m).0 ≡ m)
      ⊎ (InTime now m
          × (m.state ≡ rekeying)
          × ((handshake_complete now m).0 ≡ rekey_completed now m))
      ⊎ (InTime now m
          × ((m.state ≡ initial_sent) ⊎ (m.state ≡ idle))
          × ((handshake_complete now m).0 ≡ completed now m))
  unfolding handshake_complete
  handshake_complete_effect = ground (arith, next_handshake_complete m.role m.state)

  pub begin_rekey_effect :
      ((begin_rekey now m).0 ≡ m)
      ⊎ (InTime now m × (m.state ≡ established) × ((begin_rekey now m).0 ≡ rekeyed now m))
  unfolding begin_rekey
  begin_rekey_effect = ground (arith, next_begin_rekey m.role m.state)

  pub touch_effect :
      ((touch now m).0 ≡ m)
      ⊎ (InTime now m × (m.state ≡ established) × ((touch now m).0 ≡ touched now m))
  unfolding touch
  touch_effect = ground (arith, next_activity m.role m.state)

  pub begin_drain_effect :
      ((begin_drain now m).0 ≡ m)
      ⊎ ((m.last_event_at ≤ now)
          × ((m.state ≡ established) ⊎ (m.state ≡ rekeying))
          × ((begin_drain now m).0 ≡ drained now m))
  unfolding begin_drain
  begin_drain_effect = ground (arith, next_begin_drain m.role m.state)

  pub check_timeout_effect :
      ((check_timeout now m).0 ≡ m)
      ⊎ ((m.last_event_at ≤ now)
          × (m.deadline ≤ now)
          × ((m.state ≡ established) ⊎ (m.state ≡ rekeying))
          × ((check_timeout now m).0 ≡ drained now m))
      ⊎ ((m.last_event_at ≤ now)
          × (m.deadline ≤ now)
          × ((m.state ≡ initial_sent) ⊎ (m.state ≡ pending_confirm) ⊎ (m.state ≡ draining))
          × ((check_timeout now m).0 ≡ shut now m))
  unfolding check_timeout
  check_timeout_effect = ground (arith, next_timeout m.role m.state)

  pub close_effect :
      ((close now m).0 ≡ m) ⊎ ((m.last_event_at ≤ now) × ((close now m).0 ≡ shut now m))
  unfolding close
  close_effect = ground (arith, next_close m.role m.state)

  pub issue_ping_effect :
      (id : ℕ)
      → ((issue_ping id now m).0 ≡ m)
        ⊎ (InTime now m
            × (m.role ≡ client)
            × ((m.state ≡ pending_confirm)
                ⊎ ((m.state ≡ rekeying) × (m.rekey_handshake_ready ≡ true)))
            × (m.has_outstanding_ping ≡ false)
            × ((issue_ping id now m).0 ≡ pinged id now m))
  unfolding issue_ping
  issue_ping_effect id = ground (arith, next_issue_ping m.role m.state)

  pub record_ping_retransmission_effect :
      (id : ℕ)
      → ((record_ping_retransmission id now m).0 ≡ m)
        ⊎ (InTime now m
            × (m.has_outstanding_ping ≡ true)
            × (id ≡ m.outstanding_ping_id)
            × (m.control_retries < m.policy.max_control_retries)
            × ((record_ping_retransmission id now m).0 ≡ ping_repeated now m))
  unfolding record_ping_retransmission
  record_ping_retransmission_effect id = ground (arith, next_retransmit_ping m.role m.state)

  pub accept_pong_effect :
      (id : ℕ)
      → ((accept_pong id now m).0 ≡ m)
        ⊎ (InTime now m
            × (m.role ≡ client)
            × ((m.state ≡ pending_confirm) ⊎ (m.state ≡ rekeying))
            × (m.has_outstanding_ping ≡ true)
            × (id ≡ m.outstanding_ping_id)
            × ((accept_pong id now m).0 ≡ ponged now m))
  unfolding accept_pong
  accept_pong_effect id = ground (arith, next_pong m.role m.state)

  pub accept_confirm_ping_effect :
      (id : ℕ)
      → ((accept_confirm_ping id now m).0 ≡ m)
        ⊎ (InTime now m
            × (m.state ≡ established)
            × (m.role ≡ server)
            × (id ≡ m.last_confirm_id)
            × (now ≤ m.confirm_grace_until)
            × ((accept_confirm_ping id now m).0 ≡ touched now m))
        ⊎ (InTime now m
            × (m.role ≡ server)
            × ((m.state ≡ pending_confirm)
                ⊎ ((m.state ≡ rekeying) × (m.rekey_handshake_ready ≡ true)))
            × ((accept_confirm_ping id now m).0 ≡ confirmed id now m))
  unfolding accept_confirm_ping
  accept_confirm_ping_effect id = ground (arith, next_confirm_ping m.role m.state)
