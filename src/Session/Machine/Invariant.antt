-- ===== src/Session/Machine/Invariant.antt =====
-- The invariant of the machine of internal/session/machine.go, and `NewMachine`.
use wg.Prelude.{ℕ, ◌≤◌, ◌<◌, ◌≡◌, ◌⊎◌, true, ok, arith}
use wg.Prelude.Int.{ℤ, pos, ◌≤ℤ◌}
use wg.Session.State.{
  Role, client, server, idle, initial_sent, pending_confirm, established, rekeying, draining,
  closed,
}
use wg.Session.Policy.Backoff.{IsPolicy, validate-IsPolicy}
use wg.Session.Policy.{TimeoutPolicy}
use wg.Session.Machine.{Machine, add, new_machine}

pub record IsValid (m : Machine) : Type 0 where
  pub policy_valid : IsPolicy m.policy
  pub initial_limit : m.policy.max_initial_retries < 256
  pub control_limit : m.policy.max_control_retries < 256
  pub known_role : (m.role ≡ client) ⊎ (m.role ≡ server)
  pub initial_capped : m.initial_retries ≤ m.policy.max_initial_retries
  pub control_capped : m.control_retries ≤ m.policy.max_control_retries
  pub entered_before : m.entered_at ≤ m.last_event_at
  pub idle_quiet : m.state ≡ idle → m.deadline ≡ 0
  pub closed_quiet : m.state ≡ closed → m.deadline ≡ 0
  pub initial_deadline :
      m.state ≡ initial_sent
      → (m.role ≡ client)
        × (m.deadline ≡ add m.entered_at m.policy.initial_sent)
        × (m.last_event_at < m.deadline)
  pub pending_deadline :
      m.state ≡ pending_confirm
      → (m.deadline ≡ add m.entered_at m.policy.pending_confirm) × (m.last_event_at < m.deadline)
  pub established_deadline :
      m.state ≡ established
      → (m.deadline ≡ add m.last_event_at m.policy.established_idle)
        × (m.last_event_at < m.deadline)
  pub rekeying_deadline : m.state ≡ rekeying → m.last_event_at < m.deadline
  pub draining_deadline :
      m.state ≡ draining
      → (m.deadline ≡ add m.entered_at m.policy.draining) × (m.last_event_at < m.deadline)
  pub ping_needed :
      m.has_outstanding_ping ≡ true
      → (m.role ≡ client)
        × ((m.state ≡ pending_confirm) ⊎ ((m.state ≡ rekeying) × (m.rekey_handshake_ready ≡ true)))
  pub ready_rekeying : m.rekey_handshake_ready ≡ true → m.state ≡ rekeying
  pub server_confirmed : m.role ≡ server → m.state ≡ established → m.has_last_confirm_id ≡ true

pub add_later : (now : ℕ) (d : ℤ) → pos 1 ≤ℤ d → now < add now d
unfolding add
add_later now d h = ground arith

-- A machine that `NewMachine` makes, with retry limits that are uint8s, starts valid, idle and at
-- the given time.
pub new_machine-IsValid :
    (role : Role) (policy : TimeoutPolicy) (now : ℕ) (m : Machine)
    → policy.max_initial_retries < 256
    → policy.max_control_retries < 256
    → new_machine role policy now ≡ ok m
    → IsValid m × (m.state ≡ idle) × (m.last_event_at ≡ now)
unfolding new_machine
new_machine-IsValid role policy now m hi hc e = ground (arith, validate-IsPolicy policy)
