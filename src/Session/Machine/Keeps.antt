-- ===== src/Session/Machine/Keeps.antt =====
-- The methods of internal/session/machine.go and the invariant.
use wg.Prelude.{ℕ, ◌≤◌, ◌<◌, ◌≡◌, ◌⊎◌, inl, inr, true, false, arith}
use wg.Session.State.{client, server, idle, initial_sent, pending_confirm, established, rekeying}
use wg.Session.Machine.{Machine}
use wg.Session.Machine.Methods.{
  begin_handshake, handle_retry, record_initial_retransmission, handshake_complete, issue_ping,
  record_ping_retransmission, accept_pong, accept_confirm_ping, begin_rekey, touch, begin_drain,
  check_timeout, close,
}
use wg.Session.Machine.Invariant.{IsValid, add_later}
use wg.Session.Machine.Effects.{
  InTime, opening, retried, retransmitted, rekey_completed, completed, rekeyed, touched, drained,
  shut, pinged, ping_repeated, ponged, confirmed, begin_handshake_effect, handle_retry_effect,
  record_initial_retransmission_effect, handshake_complete_effect, begin_rekey_effect, touch_effect,
  begin_drain_effect, check_timeout_effect, close_effect, issue_ping_effect,
  record_ping_retransmission_effect, accept_pong_effect, accept_confirm_ping_effect,
}

module _ (now : ℕ) (m : Machine) (v : IsValid m) where
  opening-IsValid :
      (m.last_event_at ≤ now) → (m.role ≡ client) → (m.state ≡ idle) → IsValid (opening now m)
  opening-IsValid h0 h1 h2 = ground (arith, add_later now m.policy.initial_sent)

  retried-IsValid :
      InTime now m → (m.role ≡ client) → (m.state ≡ initial_sent) → IsValid (retried now m)
  retried-IsValid h0 h1 h2 = ground (arith)

  retransmitted-IsValid :
      InTime now m
      → (m.role ≡ client)
      → (m.state ≡ initial_sent)
      → (m.initial_retries < m.policy.max_initial_retries)
      → IsValid (retransmitted now m)
  retransmitted-IsValid h0 h1 h2 h3 = ground (arith)

  rekey_completed-IsValid : InTime now m → (m.state ≡ rekeying) → IsValid (rekey_completed now m)
  rekey_completed-IsValid h0 h1 = ground (arith, add_later now m.policy.pending_confirm)

  completed-IsValid :
      InTime now m → ((m.state ≡ initial_sent) ⊎ (m.state ≡ idle)) → IsValid (completed now m)
  completed-IsValid h0 h1 = ground (arith, add_later now m.policy.pending_confirm)

  rekeyed-IsValid : InTime now m → (m.state ≡ established) → IsValid (rekeyed now m)
  rekeyed-IsValid h0 h1 = ground (arith, add_later now m.policy.pending_confirm)

  touched-IsValid : InTime now m → (m.state ≡ established) → IsValid (touched now m)
  touched-IsValid h0 h1 = ground (arith, add_later now m.policy.established_idle)

  drained-IsValid :
      (m.last_event_at ≤ now)
      → ((m.state ≡ established) ⊎ (m.state ≡ rekeying))
      → IsValid (drained now m)
  drained-IsValid h0 h1 = ground (arith, add_later now m.policy.draining)

  shut-IsValid : (m.last_event_at ≤ now) → IsValid (shut now m)
  shut-IsValid h0 = ground (arith)

  pinged-IsValid :
      (id : ℕ)
      → InTime now m
      → (m.role ≡ client)
      → ((m.state ≡ pending_confirm) ⊎ ((m.state ≡ rekeying) × (m.rekey_handshake_ready ≡ true)))
      → (m.has_outstanding_ping ≡ false)
      → IsValid (pinged id now m)
  pinged-IsValid id h0 h1 h2 h3 = ground (arith)

  ping_repeated-IsValid :
      (id : ℕ)
      → InTime now m
      → (m.has_outstanding_ping ≡ true)
      → (id ≡ m.outstanding_ping_id)
      → (m.control_retries < m.policy.max_control_retries)
      → IsValid (ping_repeated now m)
  ping_repeated-IsValid id h0 h1 h2 h3 = ground (arith)

  ponged-IsValid :
      (id : ℕ)
      → InTime now m
      → (m.role ≡ client)
      → ((m.state ≡ pending_confirm) ⊎ (m.state ≡ rekeying))
      → (m.has_outstanding_ping ≡ true)
      → (id ≡ m.outstanding_ping_id)
      → IsValid (ponged now m)
  ponged-IsValid id h0 h1 h2 h3 h4 = ground (arith, add_later now m.policy.established_idle)

  confirmed-IsValid :
      (id : ℕ)
      → InTime now m
      → (m.role ≡ server)
      → ((m.state ≡ pending_confirm) ⊎ ((m.state ≡ rekeying) × (m.rekey_handshake_ready ≡ true)))
      → IsValid (confirmed id now m)
  confirmed-IsValid id h0 h1 h2 = ground (arith, add_later now m.policy.established_idle)

  pub begin_handshake-IsValid : IsValid (begin_handshake now m).0
  begin_handshake-IsValid = elim (begin_handshake_effect now m) [
    | inl same ↦ rw same v
    | inr (h0, h1, h2, e) ↦ rw e (opening-IsValid h0 h1 h2)
  ]

  pub handle_retry-IsValid : IsValid (handle_retry now m).0
  handle_retry-IsValid = elim (handle_retry_effect now m) [
    | inl same ↦ rw same v
    | inr (h0, h1, h2, e) ↦ rw e (retried-IsValid h0 h1 h2)
  ]

  pub record_initial_retransmission-IsValid : IsValid (record_initial_retransmission now m).0
  record_initial_retransmission-IsValid = elim (record_initial_retransmission_effect now m) [
    | inl same ↦ rw same v
    | inr (h0, h1, h2, h3, e) ↦ rw e (retransmitted-IsValid h0 h1 h2 h3)
  ]

  pub handshake_complete-IsValid : IsValid (handshake_complete now m).0
  handshake_complete-IsValid = elim (handshake_complete_effect now m) [
    | inl same ↦ rw same v
    | inr (inl (h0, h1, e)) ↦ rw e (rekey_completed-IsValid h0 h1)
    | inr (inr (h0, h1, e)) ↦ rw e (completed-IsValid h0 h1)
  ]

  pub begin_rekey-IsValid : IsValid (begin_rekey now m).0
  begin_rekey-IsValid = elim (begin_rekey_effect now m) [
    | inl same ↦ rw same v
    | inr (h0, h1, e) ↦ rw e (rekeyed-IsValid h0 h1)
  ]

  pub touch-IsValid : IsValid (touch now m).0
  touch-IsValid = elim (touch_effect now m) [
    | inl same ↦ rw same v
    | inr (h0, h1, e) ↦ rw e (touched-IsValid h0 h1)
  ]

  pub begin_drain-IsValid : IsValid (begin_drain now m).0
  begin_drain-IsValid = elim (begin_drain_effect now m) [
    | inl same ↦ rw same v
    | inr (h0, h1, e) ↦ rw e (drained-IsValid h0 h1)
  ]

  pub check_timeout-IsValid : IsValid (check_timeout now m).0
  check_timeout-IsValid = elim (check_timeout_effect now m) [
    | inl same ↦ rw same v
    | inr (inl (h0, h1, h2, e)) ↦ rw e (drained-IsValid h0 h2)
    | inr (inr (h0, h1, h2, e)) ↦ rw e (shut-IsValid h0)
  ]

  pub close-IsValid : IsValid (close now m).0
  close-IsValid = elim (close_effect now m) [
    | inl same ↦ rw same v
    | inr (h0, e) ↦ rw e (shut-IsValid h0)
  ]

  pub issue_ping-IsValid : (id : ℕ) → IsValid (issue_ping id now m).0
  issue_ping-IsValid id = elim (issue_ping_effect now m id) [
    | inl same ↦ rw same v
    | inr (h0, h1, h2, h3, e) ↦ rw e (pinged-IsValid id h0 h1 h2 h3)
  ]

  pub record_ping_retransmission-IsValid :
      (id : ℕ) → IsValid (record_ping_retransmission id now m).0
  record_ping_retransmission-IsValid id = elim (record_ping_retransmission_effect now m id) [
    | inl same ↦ rw same v
    | inr (h0, h1, h2, h3, e) ↦ rw e (ping_repeated-IsValid id h0 h1 h2 h3)
  ]

  pub accept_pong-IsValid : (id : ℕ) → IsValid (accept_pong id now m).0
  accept_pong-IsValid id = elim (accept_pong_effect now m id) [
    | inl same ↦ rw same v
    | inr (h0, h1, h2, h3, h4, e) ↦ rw e (ponged-IsValid id h0 h1 h2 h3 h4)
  ]

  pub accept_confirm_ping-IsValid : (id : ℕ) → IsValid (accept_confirm_ping id now m).0
  accept_confirm_ping-IsValid id = elim (accept_confirm_ping_effect now m id) [
    | inl same ↦ rw same v
    | inr (inl (h0, h1, h2, h3, h4, e)) ↦ rw e (touched-IsValid h0 h1)
    | inr (inr (h0, h1, h2, e)) ↦ rw e (confirmed-IsValid id h0 h1 h2)
  ]
