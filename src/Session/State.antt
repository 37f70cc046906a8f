-- ===== src/Session/State.antt =====
-- Roles, states, events, errors and the transition table of internal/session/state.go. The
-- machine only holds the named states; a role is any uint8, hence `other_role`.
pub mod Events
use wg.Prelude.{ℕ, Bool, true, false, Option, none, some, if◌then◌else◌}

pub data Role : Type 0 where
  client server : Role
  other_role : ℕ → Role

abbrev pub valid_role : Role → Bool
valid_role client = true
valid_role server = true
valid_role (other_role n) = false

pub data State : Type 0 where
  idle initial_sent pending_confirm established rekeying draining closed : State

pub data Event : Type 0 where
  begin_handshake_event retry_received retransmit_initial handshake_complete_event issue_ping_event
        retransmit_ping pong confirm_ping activity begin_rekey_event begin_drain_event timeout
        close_event :
      Event

-- The durations of a policy, by the names that `Validate` reports.
pub data PolicyField : Type 0 where
  initial_sent_field pending_confirm_field established_idle_field path_validation_field
        draining_field retry_token_field confirm_grace_field initial_retry_base_field
        control_retry_base_field max_retry_backoff_field :
      PolicyField

-- The error values, with the fields that their types carry. Message texts are left out.
pub data SessionError : Type 0 where
  illegal_transition : Role → State → Event → SessionError
  not_positive : PolicyField → SessionError
  zero_retry_limit base_exceeds_backoff : SessionError
  invalid_role : Role → SessionError
  time_regression state_timed_out retries_exhausted ping_outstanding no_outstanding_ping
        confirm_grace_expired :
      SessionError
  pong_mismatch confirm_mismatch : ℕ → ℕ → SessionError

abbrev is_close : Event → Bool
is_close close_event = true
is_close _ = false

-- The arms of the client's switch; the last clause is the `return 0, false` behind it.
abbrev pub client_next : State → Event → Option State
client_next idle begin_handshake_event = some initial_sent
client_next initial_sent retry_received = some initial_sent
client_next initial_sent retransmit_initial = some initial_sent
client_next initial_sent handshake_complete_event = some pending_confirm
client_next initial_sent timeout = some closed
client_next pending_confirm issue_ping_event = some pending_confirm
client_next pending_confirm retransmit_ping = some pending_confirm
client_next pending_confirm pong = some established
client_next pending_confirm timeout = some closed
client_next established activity = some established
client_next established begin_rekey_event = some rekeying
client_next established begin_drain_event = some draining
client_next established timeout = some draining
client_next rekeying handshake_complete_event = some rekeying
client_next rekeying issue_ping_event = some rekeying
client_next rekeying retransmit_ping = some rekeying
client_next rekeying pong = some established
client_next rekeying begin_drain_event = some draining
client_next rekeying timeout = some draining
client_next draining timeout = some closed
client_next _ _ = none

abbrev pub server_next : State → Event → Option State
server_next idle handshake_complete_event = some pending_confirm
server_next pending_confirm confirm_ping = some established
server_next pending_confirm timeout = some closed
server_next established activity = some established
server_next established confirm_ping = some established
server_next established begin_rekey_event = some rekeying
server_next established begin_drain_event = some draining
server_next established timeout = some draining
server_next rekeying handshake_complete_event = some rekeying
server_next rekeying confirm_ping = some established
server_next rekeying begin_drain_event = some draining
server_next rekeying timeout = some draining
server_next draining timeout = some closed
server_next _ _ = none

abbrev pub role_next : Role → State → Event → Option State
role_next client from event = client_next from event
role_next server from event = server_next from event
role_next (other_role n) from event = none

unfoldable pub next_state : Role → State → Event → Option State
next_state role from event = if is_close event then some closed else role_next role from event
