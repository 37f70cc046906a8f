-- ===== src/Handshake/Examples.antt =====
-- Runs of the attempt cache and of the configurations of internal/handshake at concrete inputs.
use wg.Prelude.{
  inr, replicate, ℕ, ◌≤◌, ◌<◌, ◌≡◌, refl, true, false, none, some, List, [], ◌∷◌, length, ok, arith,
}
use wg.Prelude.Int.{pos}
use wg.Prelude.Equality.{ℕ_equality, list_equality}
use wg.Prelude.Maps.{find, remove, Unique}
use wg.Handshake.Attempts.{
  AttemptError, err_state, Bytes, AttemptEntry, attempt_tombstone, AttemptOptions, Attempts,
  cleanup, sweep, tombstone_attempt, new_attempts,
}
use wg.Handshake.Attempts.Methods.{
  builds, waits, served, refused, acquire_found, acquire, publish_found, publish, remove_found,
  remove_attempt,
}
use wg.Handshake.Attempts.Events.{
  Event, acquire_event, publish_event, fail_event, remove_event, run, step,
}
use wg.Handshake.Attempts.Bounds.{count_active}
use wg.Handshake.Attempts.Limits.{run-limits}
use wg.Handshake.Attempts.Replay.{acquire_refused}
use wg.Handshake.Attempts.Elsewhere.{Passing}
use wg.Handshake.Attempts.Leases.{acquire-publish}
use wg.Codec.Tlv.{Tlv}
use wg.Codec.Tlv.Context.{
  tlv_context_initial, tlv_context_handshake, marshal_tlvs_for, parse_tlvs_for,
}
use wg.Handshake.Config.{
  ClientConfig, ClientOptions, ServerConfig, ServerOptions, normalize_client_config,
  normalize_server_config, server_sizes, check_leases, server_limits,
}
use wg.Handshake.Config.Bounds.{
  IsServerOptions, normalize_client_config-IsClientOptions, normalize_server_config-IsServerOptions,
}
use wg.Handshake.Negotiation.{
  Selected, Unicast, is_registered, initial_fields, validate_initial_fields, select,
  handshake_fields, validate_handshake_fields,
}
use wg.Handshake.Negotiation.Agreement.{agreed}
use wg.Handshake.Negotiation.Exchange.{asked, fields_exchanged}

abbrev options : AttemptOptions
options = record {
  pending_timeout = 50;
  confirm_grace = 100;
  replay_retention = 300;
  max_pending = 2;
  max_records = 8;
}

abbrev key : Bytes
key = 1 ∷ 2 ∷ []

abbrev initial : Bytes
initial = 7 ∷ 7 ∷ []

-- One attempt that is published and then closed, and another.
abbrev events : List (ℕ × Event)
events =
    (10, acquire_event key initial)
    ∷ (20, publish_event 0 key 4 (9 ∷ []))
    ∷ (30, remove_event key 4 (some err_state))
    ∷ []

abbrev cache : Attempts
cache = run events (new_attempts options)

run-limits_example :
    Unique cache.attempts
    × (cache.active ≡ pos (count_active cache.attempts))
    × (count_active cache.attempts ≤ 2)
    × (length cache.attempts ≤ 8)
run-limits_example = run-limits options events

abbrev entry : AttemptEntry
entry = record {
  id = 0;
  initial = initial;
  phase = attempt_tombstone;
  closed = true;
  response = [];
  session = none;
  expires_at = 0;
  forget_at = 330;
  confirmed = false;
  error = some err_state;
}

entry_found : find key cache.attempts ≡ some entry
unfolding run step acquire acquire_found cleanup sweep new_attempts publish publish_found
    remove_attempt remove_found tombstone_attempt find remove
entry_found = refl

abbrev later : List (ℕ × Event)
later = (40, acquire_event (3 ∷ []) initial) ∷ (200, acquire_event key initial) ∷ []

acquire_refused_example :
    (why : AttemptError) × ((acquire key initial 329 (run later cache)).1 ≡ refused (some why))
    × (find key (acquire key initial 329 (run later cache)).0.attempts ≡ some entry)
acquire_refused_example =
    acquire_refused key entry refl initial 329 later cache entry_found (omega arith) (omega arith)

first_builds : (acquire key initial 10 (new_attempts options)).1 ≡ builds 0
unfolding acquire acquire_found cleanup sweep new_attempts find
first_builds = refl

-- A copy of the INITIAL and another client, which fails.
abbrev meanwhile : List (ℕ × Event)
meanwhile =
    (15, acquire_event key initial)
    ∷ (16, acquire_event (3 ∷ []) initial)
    ∷ (17, fail_event 1 (3 ∷ []) err_state)
    ∷ []

meanwhile-Passing : (t : ℕ) → 17 < t → Passing key t meanwhile
meanwhile-Passing t h = (omega arith, tt, (omega arith, tt, (omega arith, refl, tt)))

acquire-publish_example :
    let s' = run meanwhile (acquire key initial 10 (new_attempts options)).0 in
    let (s'', error) = publish 0 key 4 (9 ∷ []) 20 s' in
    ((acquire key initial 30 s').1 ≡ waits 0)
    × (error ≡ none)
    × ((acquire key initial 60 (run meanwhile s'')).1 ≡ served 0 (some 4) (9 ∷ []))
unfolding new_attempts
acquire-publish_example =
    acquire-publish key initial 10 (new_attempts options) 0 4 (9 ∷ []) meanwhile meanwhile 30 20 60
      first_builds (meanwhile-Passing 60 (omega arith)) (omega arith)
      (meanwhile-Passing 70 (omega arith)) (omega arith)

abbrev config : ServerConfig
config = record {
  deployment_id = replicate 16 1;
  static_private = some (replicate 32 1);
  registered_clients = replicate 32 2 ∷ [];
  capabilities = 0;
  address_families = 0;
  max_datagram_size = 0;
  tunnel_mtu = 1000;
  lease_seconds = 0;
  ipv4_lease = 10 ∷ 0 ∷ 0 ∷ 2 ∷ 24 ∷ [];
  ipv6_lease = [];
  egress_policy = 0;
  dns_parameters = [];
  pending_attempt_timeout = pos 0;
  confirm_grace_period = pos 0;
  attempt_replay_retention = pos 0;
  max_pending_attempts = pos 0;
  max_attempt_records = pos 0;
}

abbrev server_options : ServerOptions
server_options = record {
  address_families = 1;
  max_datagram_size = 1400;
  tunnel_mtu = 1000;
  lease_seconds = 600;
  capabilities = 0;
  ipv4_lease = 10 ∷ 0 ∷ 0 ∷ 2 ∷ 24 ∷ [];
  ipv6_lease = [];
  egress_policy = 0;
  dns_parameters = [];
  pending_attempt_timeout = pos 5000000000;
  confirm_grace_period = pos 10000000000;
  attempt_replay_retention = pos 30000000000;
  max_pending_attempts = pos 1024;
  max_attempt_records = pos 4096;
}

config_normalizes : normalize_server_config config ≡ ok server_options
unfolding normalize_server_config server_sizes check_leases server_limits
config_normalizes = refl

normalize_server_config-IsServerOptions_example : IsServerOptions server_options
normalize_server_config-IsServerOptions_example =
    normalize_server_config-IsServerOptions config server_options (omega arith) config_normalizes

abbrev client_config : ClientConfig
client_config = record {
  deployment_id = replicate 16 1;
  static_private = some (replicate 32 3);
  retry_token = [];
  capabilities = 0;
  address_families = 1;
  max_datagram_size = 1300;
  min_tunnel_mtu = 0;
  max_tunnel_mtu = 0;
}

abbrev client_options : ClientOptions
client_options = record {
  address_families = 1;
  max_datagram_size = 1300;
  min_tunnel_mtu = 576;
  max_tunnel_mtu = 1248;
  capabilities = 0;
  retry_token = [];
}

client_config_normalizes : normalize_client_config client_config ≡ ok client_options
unfolding normalize_client_config
client_config_normalizes = refl

-- Every address is acceptable.
abbrev unicast : Unicast
unicast = record { unicast_ipv4 = λ a. true; unicast_ipv6 = λ a. true }

abbrev selected : Selected
selected = record { families = 1; datagram = 1300; mtu = 1000 }

server_selects : select server_options (asked client_options (replicate 32 2)) ≡ ok selected
unfolding select
server_selects = refl

abbrev deployment : List ℕ
deployment = replicate 16 1

abbrev asking_fields : List Tlv
asking_fields = initial_fields client_options deployment (replicate 32 2) 7

abbrev answer_fields : List Tlv
answer_fields = handshake_fields server_options deployment 7 9 selected

is_known : is_registered (replicate 32 2) (replicate 32 2 ∷ []) ≡ true
unfolding is_registered
is_known = refl

fields_exchanged_example :
    ((question : List ℕ) × (asking : List Tlv) × (marshal_tlvs_for asking_fields tlv_context_initial
        ≡ ok question)
      × (parse_tlvs_for question tlv_context_initial ≡ ok asking)
      × (validate_initial_fields deployment (replicate 32 2 ∷ []) asking 7
          ≡ ok (asked client_options (replicate 32 2))))
    × ((answer : List ℕ) × (answering : List Tlv) × (marshal_tlvs_for answer_fields
            tlv_context_handshake
          ≡ ok answer)
        × (parse_tlvs_for answer tlv_context_handshake ≡ ok answering)
        × (validate_handshake_fields unicast client_options deployment 7 answering 9
            ≡ ok (agreed server_options 9 selected)))
fields_exchanged_example =
    fields_exchanged client_options deployment (replicate 32 2) (replicate 32 2 ∷ []) 7
      (normalize_client_config-IsClientOptions client_config client_options
        client_config_normalizes)
      (omega arith) (omega arith) is_known unicast server_options 9 selected refl refl
      (normalize_server_config-IsServerOptions config server_options (omega arith)
        config_normalizes)
      (omega arith) server_selects (omega arith) (omega arith) (inr refl) (inr refl)
