-- ===== src/Session/State/Events.antt =====
-- The transition table of internal/session/state.go read by events: from which states each is
-- legal, and where it leads.
use wg.Prelude.{◌≢◌, ◌≡◌, ◌⊎◌, none, some, arith}
use wg.Session.State.{
  Role, State, client, server, idle, initial_sent, pending_confirm, established, rekeying, draining,
  closed, begin_handshake_event, retry_received, retransmit_initial, handshake_complete_event,
  issue_ping_event, retransmit_ping, pong, confirm_ping, activity, begin_rekey_event,
  begin_drain_event, timeout, close_event, next_state,
}

module _ (r : Role) (s : State) where
  pub next_begin_handshake :
      (next_state r s begin_handshake_event ≡ none)
      ⊎ ((r ≡ client) × (s ≡ idle) × (next_state r s begin_handshake_event ≡ some initial_sent))
  unfolding next_state
  next_begin_handshake = ground arith

  pub next_retry_received :
      (next_state r s retry_received ≡ none)
      ⊎ ((r ≡ client) × (s ≡ initial_sent) × (next_state r s retry_received ≡ some initial_sent))
  unfolding next_state
  next_retry_received = ground arith

  pub next_retransmit_initial :
      (next_state r s retransmit_initial ≡ none)
      ⊎ ((r ≡ client)
          × (s ≡ initial_sent)
          × (next_state r s retransmit_initial ≡ some initial_sent))
  unfolding next_state
  next_retransmit_initial = ground arith

  pub next_handshake_complete :
      (next_state r s handshake_complete_event ≡ none)
      ⊎ ((r ≡ client)
          × (s ≡ initial_sent)
          × (next_state r s handshake_complete_event ≡ some pending_confirm))
      ⊎ ((r ≡ server)
          × (s ≡ idle)
          × (next_state r s handshake_complete_event ≡ some pending_confirm))
      ⊎ ((r ≡ client) × (s ≡ rekeying) × (next_state r s handshake_complete_event ≡ some rekeying))
      ⊎ ((r ≡ server) × (s ≡ rekeying) × (next_state r s handshake_complete_event ≡ some rekeying))
  unfolding next_state
  next_handshake_complete = ground arith

  pub next_issue_ping :
      (next_state r s issue_ping_event ≡ none)
      ⊎ ((r ≡ client)
          × (s ≡ pending_confirm)
          × (next_state r s issue_ping_event ≡ some pending_confirm))
      ⊎ ((r ≡ client) × (s ≡ rekeying) × (next_state r s issue_ping_event ≡ some rekeying))
  unfolding next_state
  next_issue_ping = ground arith

  pub next_retransmit_ping :
      (next_state r s retransmit_ping ≡ none)
      ⊎ ((r ≡ client)
          × (s ≡ pending_confirm)
          × (next_state r s retransmit_ping ≡ some pending_confirm))
      ⊎ ((r ≡ client) × (s ≡ rekeying) × (next_state r s retransmit_ping ≡ some rekeying))
  unfolding next_state
  next_retransmit_ping = ground arith

  pub next_pong :
      (next_state r s pong ≡ none)
      ⊎ ((r ≡ client) × (s ≡ pending_confirm) × (next_state r s pong ≡ some established))
      ⊎ ((r ≡ client) × (s ≡ rekeying) × (next_state r s pong ≡ some established))
  unfolding next_state
  next_pong = ground arith

  pub next_confirm_ping :
      (next_state r s confirm_ping ≡ none)
      ⊎ ((r ≡ server) × (s ≡ pending_confirm) × (next_state r s confirm_ping ≡ some established))
      ⊎ ((r ≡ server) × (s ≡ established) × (next_state r s confirm_ping ≡ some established))
      ⊎ ((r ≡ server) × (s ≡ rekeying) × (next_state r s confirm_ping ≡ some established))
  unfolding next_state
  next_confirm_ping = ground arith

  pub next_activity :
      (next_state r s activity ≡ none)
      ⊎ ((s ≡ established) × (next_state r s activity ≡ some established))
  unfolding next_state
  next_activity = ground arith

  pub next_begin_rekey :
      (next_state r s begin_rekey_event ≡ none)
      ⊎ ((s ≡ established) × (next_state r s begin_rekey_event ≡ some rekeying))
  unfolding next_state
  next_begin_rekey = ground arith

  pub next_begin_drain :
      (next_state r s begin_drain_event ≡ none)
      ⊎ ((s ≡ established) × (next_state r s begin_drain_event ≡ some draining))
      ⊎ ((s ≡ rekeying) × (next_state r s begin_drain_event ≡ some draining))
  unfolding next_state
  next_begin_drain = ground arith

  -- A timeout closes the states of a handshake and the draining one, and drains the others.
  pub next_timeout :
      (next_state r s timeout ≡ none)
      ⊎ (((s ≡ initial_sent) ⊎ (s ≡ pending_confirm) ⊎ (s ≡ draining))
          × (next_state r s timeout ≡ some closed))
      ⊎ (((s ≡ established) ⊎ (s ≡ rekeying)) × (next_state r s timeout ≡ some draining))
  unfolding next_state
  next_timeout = ground arith

  pub next_close : next_state r s close_event ≡ some closed
  unfolding next_state
  next_close = ground arith

-- A timeout is legal in every state of a client or a server between the first and the last. A
-- server has no InitialSent.
pub next_timeout_live :
    (r : Role) (s : State)
    → (r ≡ client) ⊎ (r ≡ server)
    → s ≢ idle
    → s ≢ closed
    → (s ≡ initial_sent → r ≡ client)
    → (((s ≡ initial_sent) ⊎ (s ≡ pending_confirm) ⊎ (s ≡ draining))
        × (next_state r s timeout ≡ some closed))
      ⊎ (((s ≡ established) ⊎ (s ≡ rekeying)) × (next_state r s timeout ≡ some draining))
unfolding next_state
next_timeout_live r s k i c n = ground arith
