-- ===== src/Handshake/Config.antt =====
-- `normalizeClientConfig` and `normalizeServerConfig` of internal/handshake/types.go, for an `int` of 64
-- bits. The sources of randomness and of time are left out.
pub mod Bounds
use wg.Prelude.{
  ℕ, ◌+◌, ◌-◌, ◌*◌, ◌/◌, ◌%◌, ◌^◌, Bool, true, false, not, ◌&&◌, ◌||◌, Option, none, some, List, [],
  ◌∷◌, length, get_or, ltb, leb, ◌==◌, if◌then◌else◌, Result, ok, err, ◌>>=◌, ◌>>◌, fail_if,
  replicate,
}
use wg.Prelude.Int.{ℤ, pos, negsuc, pos_part, ltb_ℤ}
use wg.Prelude.Equality.{ℕ_equality, list_equality, ◌=?◌}
use wg.Codec.Header.{header_size, aead_tag_size, default_max_datagram_size}
use wg.Handshake.Attempts.{AttemptOptions}
use wg.Codec.Frame.{frame_header_size}

-- A private key is `none` where it is missing; its value does not matter here.
pub record ClientConfig : Type 0 where
  pub deployment_id : List ℕ
  pub static_private : Option (List ℕ)
  pub retry_token : List ℕ
  pub capabilities : ℕ  -- uint64
  pub address_families : ℕ  -- uint8
  pub max_datagram_size : ℕ  -- uint16
  pub min_tunnel_mtu : ℕ  -- uint16
  pub max_tunnel_mtu : ℕ  -- uint16

pub record ServerConfig : Type 0 where
  pub deployment_id : List ℕ
  pub static_private : Option (List ℕ)
  pub registered_clients : List (List ℕ)
  pub capabilities : ℕ  -- uint64
  pub address_families : ℕ  -- uint8
  pub max_datagram_size : ℕ  -- uint16
  pub tunnel_mtu : ℕ  -- uint16
  pub lease_seconds : ℕ  -- uint32
  pub ipv4_lease : List ℕ
  pub ipv6_lease : List ℕ
  pub egress_policy : ℕ  -- uint64
  pub dns_parameters : List ℕ
  pub pending_attempt_timeout : ℤ  -- time.Duration
  pub confirm_grace_period : ℤ  -- time.Duration
  pub attempt_replay_retention : ℤ  -- time.Duration
  pub max_pending_attempts : ℤ  -- int
  pub max_attempt_records : ℤ  -- int

pub record ClientOptions : Type 0 where
  pub address_families : ℕ
  pub max_datagram_size : ℕ
  pub min_tunnel_mtu : ℕ
  pub max_tunnel_mtu : ℕ
  pub capabilities : ℕ
  pub retry_token : List ℕ

pub record ServerOptions : Type 0 where
  pub address_families : ℕ
  pub max_datagram_size : ℕ
  pub tunnel_mtu : ℕ
  pub lease_seconds : ℕ
  pub capabilities : ℕ
  pub ipv4_lease : List ℕ
  pub ipv6_lease : List ℕ
  pub egress_policy : ℕ
  pub dns_parameters : List ℕ
  pub pending_attempt_timeout : ℤ
  pub confirm_grace_period : ℤ
  pub attempt_replay_retention : ℤ
  pub max_pending_attempts : ℤ
  pub max_attempt_records : ℤ

-- All the errors are `ErrConfiguration`, with texts that are left out.
pub data ConfigError : Type 0 where
  err_configuration : ConfigError

abbrev pub is_missing : Option (List ℕ) → Bool
is_missing none = true
is_missing (some key) = false

-- The number of bytes of a datagram that are no tunnel packet.
abbrev pub overhead : ℕ
overhead = header_size + aead_tag_size + frame_header_size

abbrev pub or_default : ℕ → ℕ → ℕ
or_default default n = if n == 0 then default else n

abbrev pub is_zero : ℤ → Bool
is_zero (pos n) = n == 0
is_zero (negsuc n) = false

abbrev pub or_default_ℤ : ℕ → ℤ → ℤ
or_default_ℤ default z = if is_zero z then pos default else z

abbrev pub is_negative : ℤ → Bool
is_negative (pos n) = false
is_negative (negsuc n) = true

-- `families &^ 0x03 != 0`
abbrev pub has_other_families : ℕ → Bool
has_other_families families = not (families / 4 == 0)

-- A subtraction of uint16 values.
abbrev pub tunnel_room : ℕ → ℕ
tunnel_room size = (size + 2 ^ 16 - overhead) % 2 ^ 16

unfoldable pub normalize_client_config : ClientConfig → Result ConfigError ClientOptions
normalize_client_config config = do
  fail_if (is_missing config.static_private) err_configuration
  fail_if (config.deployment_id =? replicate 16 0) err_configuration
  let families = or_default 0x03 config.address_families
  fail_if (has_other_families families) err_configuration
  let size = or_default default_max_datagram_size config.max_datagram_size
  fail_if (ltb size (overhead + 576)) err_configuration
  let min_mtu = or_default 576 config.min_tunnel_mtu
  let max_mtu = or_default (tunnel_room size) config.max_tunnel_mtu
  fail_if (ltb max_mtu min_mtu) err_configuration
  ok (record {
    address_families = families;
    max_datagram_size = size;
    min_tunnel_mtu = min_mtu;
    max_tunnel_mtu = max_mtu;
    capabilities = config.capabilities;
    retry_token = config.retry_token;
  })

abbrev pub is_bad_lease : ℕ → ℕ → List ℕ → Bool
is_bad_lease size bits lease =
    not (length lease == 0) && (not (length lease == size) || ltb bits (get_or lease (size - 1) 0))

-- The limit on the records, which by default is four times that on the pending attempts.
abbrev pub record_limit : ℕ → ℤ → Result ConfigError ℤ
record_limit pending records =
    if is_zero records
    then (if ltb ((2 ^ 63 - 1) / 4) pending then err err_configuration else ok (pos (pending * 4)))
    else ok records

-- The parts of `normalizeServerConfig`, in its order: the families and sizes, the leases, and the
-- timeouts and limits of attempts.
pub record Sizes : Type 0 where
  pub families : ℕ
  pub datagram : ℕ
  pub mtu : ℕ

unfoldable pub server_sizes : ServerConfig → Result ConfigError Sizes
server_sizes config = do
  let families = or_default 0x01 config.address_families
  fail_if (has_other_families families) err_configuration
  let size = or_default default_max_datagram_size config.max_datagram_size
  fail_if (ltb size (overhead + 576)) err_configuration
  let mtu = or_default (tunnel_room size) config.tunnel_mtu
  fail_if (ltb mtu 576 || ltb (tunnel_room size) mtu) err_configuration
  ok (record { families = families; datagram = size; mtu = mtu })

unfoldable pub check_leases : List ℕ → List ℕ → Result ConfigError (Unit {0})
check_leases ipv4 ipv6 = do
  fail_if (length ipv4 == 0 && length ipv6 == 0) err_configuration
  fail_if (is_bad_lease 5 32 ipv4) err_configuration
  fail_if (is_bad_lease 17 128 ipv6) err_configuration

pub record Limits : Type 0 where
  pub timeout : ℤ
  pub grace : ℤ
  pub retention : ℤ
  pub pending : ℤ
  pub records : ℤ

unfoldable pub server_limits : ServerConfig → Result ConfigError Limits
server_limits config = do
  let timeout = or_default_ℤ (5 * 10 ^ 9) config.pending_attempt_timeout
  let grace = or_default_ℤ (10 * 10 ^ 9) config.confirm_grace_period
  let retention = or_default_ℤ (30 * 10 ^ 9) config.attempt_replay_retention
  fail_if (is_negative timeout || is_negative grace || is_negative retention) err_configuration
  let pending = or_default_ℤ 1024 config.max_pending_attempts
  fail_if (is_negative pending) err_configuration
  records ← record_limit (pos_part pending) config.max_attempt_records
  fail_if (ltb_ℤ records pending) err_configuration
  ok (record {
    timeout = timeout;
    grace = grace;
    retention = retention;
    pending = pending;
    records = records;
  })

unfoldable pub normalize_server_config : ServerConfig → Result ConfigError ServerOptions
normalize_server_config config = do
  fail_if (is_missing config.static_private) err_configuration
  fail_if (config.deployment_id =? replicate 16 0) err_configuration
  fail_if (length config.registered_clients == 0) err_configuration
  sizes ← server_sizes config
  check_leases config.ipv4_lease config.ipv6_lease
  limits ← server_limits config
  ok (record {
    address_families = sizes.families;
    max_datagram_size = sizes.datagram;
    tunnel_mtu = sizes.mtu;
    lease_seconds = or_default 600 config.lease_seconds;
    capabilities = config.capabilities;
    ipv4_lease = config.ipv4_lease;
    ipv6_lease = config.ipv6_lease;
    egress_policy = config.egress_policy;
    dns_parameters = config.dns_parameters;
    pending_attempt_timeout = limits.timeout;
    confirm_grace_period = limits.grace;
    attempt_replay_retention = limits.retention;
    max_pending_attempts = limits.pending;
    max_attempt_records = limits.records;
  })

-- What the attempt cache of a server with these options goes by.
unfoldable pub attempt_options : ServerOptions → AttemptOptions
attempt_options o = record {
  pending_timeout = pos_part o.pending_attempt_timeout;
  confirm_grace = pos_part o.confirm_grace_period;
  replay_retention = pos_part o.attempt_replay_retention;
  max_pending = pos_part o.max_pending_attempts;
  max_records = pos_part o.max_attempt_records;
}
