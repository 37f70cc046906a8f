-- ===== src/Session/Machine/Calls/Timeouts.antt =====
-- The end of a session of internal/session/machine.go by timeouts, and the server's answer to a
-- repeated confirmation.
use wg.Prelude.{ℕ, ◌≤◌, ◌<◌, ◌≡◌, ◌≢◌, refl, ◌⊎◌, inl, inr, true, false, some, ok, err, arith}
use wg.Session.State.{
  confirm_ping, State, server, idle, initial_sent, pending_confirm, established, rekeying, draining,
  timeout, next_state, closed, confirm_mismatch,
}
use wg.Session.Machine.{Machine}
use wg.Session.Machine.Methods.{check_timeout, accept_confirm_ping}
use wg.Session.Machine.Invariant.{IsValid}
use wg.Session.Machine.Effects.{shut, drained, touched, confirmed, check_timeout_effect}
use wg.Session.Machine.Keeps.{check_timeout-IsValid}
use wg.Session.State.Events.{next_timeout_live, next_confirm_ping}

live_deadline :
    (m : Machine) → IsValid m → m.state ≢ idle → m.state ≢ closed → m.last_event_at < m.deadline
live_deadline m v i c = ground arith

module _ (now : ℕ) (m : Machine) (set : m.deadline ≢ 0) (due : m.deadline ≤ now)
    (later : m.last_event_at ≤ now) where
  check_timeout_shuts :
      next_state m.role m.state timeout ≡ some closed → check_timeout now m ≡ (shut now m, ok true)
  unfolding check_timeout
  check_timeout_shuts e = ground arith

  check_timeout_drains :
      next_state m.role m.state timeout ≡ some draining
      → check_timeout now m ≡ (drained now m, ok true)
  unfolding check_timeout
  check_timeout_drains e = ground arith

-- The states that a timeout closes at once.
abbrev pub IsHandshake : State → Type 0
IsHandshake s = (s ≡ initial_sent) ⊎ (s ≡ pending_confirm) ⊎ (s ≡ draining)

-- `CheckTimeout` at or after the deadline of a valid machine that is neither idle nor closed
-- applies it: it closes InitialSent, PendingConfirm and Draining, and drains Established and
-- Rekeying.
pub check_timeout_due :
    (now : ℕ) (m : Machine)
    → IsValid m
    → m.state ≢ idle
    → m.state ≢ closed
    → m.deadline ≤ now
    → (IsHandshake m.state × (check_timeout now m ≡ (shut now m, ok true)))
      ⊎ (((m.state ≡ established) ⊎ (m.state ≡ rekeying))
          × (check_timeout now m ≡ (drained now m, ok true)))
check_timeout_due now m v i c d =
    let live = live_deadline m v i c in
    elim (next_timeout_live m.role m.state v.known_role i c (λ e. (v.initial_deadline e).0)) [
      | inl (s, e) ↦ inl (s, check_timeout_shuts now m (λ z. omega arith) d (omega arith) e)
      | inr (s, e) ↦ inr (s, check_timeout_drains now m (λ z. omega arith) d (omega arith) e)
    ]

check_timeout_closed :
    (now : ℕ) (m : Machine) → m.state ≡ closed → (check_timeout now m).0.state ≡ closed
check_timeout_closed now m e = ground (arith, check_timeout_effect now m)

-- A valid machine, neither idle nor closed, that is left alone closes: two calls of
-- `CheckTimeout`, each at or after the deadline that is then set, are enough.
pub timeouts_close :
    (first second : ℕ) (m : Machine)
    → IsValid m
    → m.state ≢ idle
    → m.state ≢ closed
    → m.deadline ≤ first
    → (check_timeout first m).0.deadline ≤ second
    → (check_timeout second (check_timeout first m).0).0.state ≡ closed
timeouts_close first second m v i c d d' = elim (check_timeout_due first m v i c d) [
  | inl (s, e) ↦ check_timeout_closed second (check_timeout first m).0 (rw e)
  | inr (s, e) ↦
      elim (check_timeout_due second (drained first m) (rw e at (check_timeout-IsValid first m v))
        (λ z. cc) (λ z. cc) (rw e at d')) [
          | inl (s', e') ↦ rw (e, e')
          | inr (s', e') ↦ absurd (elim s' [ inl z ↦ cc | inr z ↦ cc ])
        ]
]

accept_confirm_ping_first :
    (id now : ℕ) (m : Machine)
    → (accept_confirm_ping id now m).1 ≡ ok false
    → (m.role ≡ server) × ((accept_confirm_ping id now m).0 ≡ confirmed id now m)
unfolding accept_confirm_ping
accept_confirm_ping_first id now m e = ground (arith, next_confirm_ping m.role m.state)

confirm_established : next_state server established confirm_ping ≡ some established
unfolding next_state
confirm_established = refl

module _ (id then : ℕ) (m : Machine) (role : m.role ≡ server) (state : m.state ≡ established)
    (known : m.has_last_confirm_id ≡ true) (lo : m.last_event_at ≤ then) (hi : then < m.deadline)
    (grace : then ≤ m.confirm_grace_until) where
  legal : next_state m.role m.state confirm_ping ≡ some established
  legal = rw (role, state) confirm_established

  accept_confirm_ping_same :
      id ≡ m.last_confirm_id → accept_confirm_ping id then m ≡ (touched then m, ok true)
  unfolding accept_confirm_ping
  accept_confirm_ping_same same = ground (arith, legal)

  accept_confirm_ping_other :
      id ≢ m.last_confirm_id
      → accept_confirm_ping id then m ≡ (m, err (confirm_mismatch m.last_confirm_id id))
  unfolding accept_confirm_ping
  accept_confirm_ping_other other = ground (arith, legal)

-- After a server took a confirmation, the same one again, before the deadline and not after the
-- end of the grace period, is answered as a duplicate and only refreshes the idle deadline;
-- another identifier is refused and changes nothing.
pub accept_confirm_ping_again :
    (id other now then : ℕ) (m : Machine)
    → (accept_confirm_ping id now m).1 ≡ ok false
    → (accept_confirm_ping id now m).0.last_event_at ≤ then
    → then < (accept_confirm_ping id now m).0.deadline
    → then ≤ (accept_confirm_ping id now m).0.confirm_grace_until
    → other ≢ id
    → let m' = (accept_confirm_ping id now m).0 in
      (accept_confirm_ping id then m' ≡ (touched then m', ok true))
      × (accept_confirm_ping other then m' ≡ (m', err (confirm_mismatch id other)))
accept_confirm_ping_again id other now then m e lo hi grace ne =
    let (role, f) = accept_confirm_ping_first id now m e in
    let m' = confirmed id now m in
    let lo' : m'.last_event_at ≤ then = rw f at lo in
    let hi' : then < m'.deadline = rw f at hi in
    let grace' : then ≤ m'.confirm_grace_until = rw f at grace in
    rw f (
      accept_confirm_ping_same id then m' role refl refl lo' hi' grace' refl,
      accept_confirm_ping_other other then m' role refl refl lo' hi' grace' ne,
    )
