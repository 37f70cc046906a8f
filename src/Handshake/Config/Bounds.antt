-- ===== src/Handshake/Config/Bounds.antt =====
-- The bounds of the options that internal/handshake/types.go makes of a configuration.
use wg.Prelude.{ℕ, ◌+◌, ◌^◌, ◌≤◌, ◌<◌, ◌≡◌, ◌⊎◌, inl, inr, List, length, ok, Result-cases, arith}
use wg.Prelude.Int.{ℤ, pos_part, neg_part}
use wg.Prelude.Equality.{ℕ_equality, list_equality}
use wg.Prelude.Maps.{find}
use wg.Handshake.Attempts.{Bytes, cleanup, sweep, new_attempts}
use wg.Handshake.Attempts.Methods.{acquire, acquire_found, builds}
use wg.Handshake.Config.{
  Sizes, server_sizes, check_leases, Limits, server_limits, attempt_options, ClientConfig,
  ServerConfig, ClientOptions, ServerOptions, overhead, normalize_client_config,
  normalize_server_config,
}

pub record IsClientOptions (o : ClientOptions) : Type 0 where
  pub families_some : 0 < o.address_families
  pub families_known : o.address_families < 4
  pub datagram : overhead + 576 ≤ o.max_datagram_size
  pub least_mtu : 0 < o.min_tunnel_mtu
  pub interval : o.min_tunnel_mtu ≤ o.max_tunnel_mtu

-- The options of a client: families IPv4 or IPv6 or both, a datagram with room for a packet of 576
-- bytes, and an interval of tunnel MTUs that is not empty.
pub normalize_client_config-IsClientOptions :
    (config : ClientConfig) (o : ClientOptions)
    → normalize_client_config config ≡ ok o
    → IsClientOptions o
unfolding normalize_client_config
normalize_client_config-IsClientOptions config o h = ground arith

-- A positive number of a signed type.
abbrev pub Positive : ℤ → Type 0
Positive z = (neg_part z ≡ 0) × (0 < pos_part z)

abbrev IsSizes : Sizes → Type 0
IsSizes z = (0 < z.families) × (z.families < 4) × (576 ≤ z.mtu) × (z.mtu + overhead ≤ z.datagram)

server_sizes-IsSizes :
    (config : ServerConfig) (z : Sizes)
    → config.max_datagram_size < 2 ^ 16
    → server_sizes config ≡ ok z
    → IsSizes z
unfolding server_sizes
server_sizes-IsSizes config z w h = ground arith

-- A prefix of an address: its bytes and its length.
abbrev pub IsLease : ℕ → List ℕ → Type 0
IsLease size lease = (length lease ≡ 0) ⊎ (length lease ≡ size)

check_leases-IsLease :
    (ipv4 ipv6 : List ℕ)
    → check_leases ipv4 ipv6 ≡ ok tt
    → (0 < length ipv4 + length ipv6) × IsLease 5 ipv4 × IsLease 17 ipv6
unfolding check_leases
check_leases-IsLease ipv4 ipv6 h = ground arith

abbrev IsLimits : Limits → Type 0
IsLimits l =
    Positive l.timeout
    × Positive l.grace
    × Positive l.retention
    × Positive l.pending
    × (pos_part l.pending ≤ pos_part l.records)

server_limits-IsLimits :
    (config : ServerConfig) (l : Limits) → server_limits config ≡ ok l → IsLimits l
unfolding server_limits
server_limits-IsLimits config l h = ground arith

pub record IsServerOptions (o : ServerOptions) : Type 0 where
  pub families_some : 0 < o.address_families
  pub families_known : o.address_families < 4
  pub least_mtu : 576 ≤ o.tunnel_mtu
  pub room : o.tunnel_mtu + overhead ≤ o.max_datagram_size
  pub lease_time : 0 < o.lease_seconds
  pub lease : 0 < length o.ipv4_lease + length o.ipv6_lease
  pub ipv4 : IsLease 5 o.ipv4_lease
  pub ipv6 : IsLease 17 o.ipv6_lease
  pub timeout : Positive o.pending_attempt_timeout
  pub grace : Positive o.confirm_grace_period
  pub retention : Positive o.attempt_replay_retention
  pub pending : Positive o.max_pending_attempts
  pub records : pos_part o.max_pending_attempts ≤ pos_part o.max_attempt_records

-- For a datagram size that is a uint16, the options that `normalizeServerConfig` accepts have a
-- known address family, a tunnel MTU of at least 576 that fits with the overhead into the
-- datagram, a lease, no lease of a wrong length, a lease time, positive timeouts and a positive
-- limit on pending attempts that is at most that on records.
pub normalize_server_config-IsServerOptions :
    (config : ServerConfig) (o : ServerOptions)
    → config.max_datagram_size < 2 ^ 16
    → normalize_server_config config ≡ ok o
    → IsServerOptions o
unfolding normalize_server_config
normalize_server_config-IsServerOptions config o w h = elim (Result-cases (server_sizes config)) [
  | inl (e, bad) ↦ ground arith
  | inr (z, sizes) ↦ elim (Result-cases (server_limits config)) [
    | inl (e, bad) ↦ ground arith
    | inr (l, limits) ↦
        let iz = server_sizes-IsSizes config z w sizes in
        let il = server_limits-IsLimits config l limits in
        ground (arith, check_leases-IsLease config.ipv4_lease config.ipv6_lease)
  ]
]

-- A server of any configuration that `normalizeServerConfig` accepts, with a datagram size that is
-- a uint16, makes the first caller of `acquireAttempt` a builder.
pub acquire-normalize_server_config :
    (config : ServerConfig) (o : ServerOptions) (key initial : Bytes) (now : ℕ)
    → config.max_datagram_size < 2 ^ 16
    → normalize_server_config config ≡ ok o
    → (acquire key initial now (new_attempts (attempt_options o))).1 ≡ builds 0
unfolding acquire acquire_found cleanup sweep new_attempts attempt_options find
acquire-normalize_server_config config o key initial now w h =
    let b = normalize_server_config-IsServerOptions config o w h in ground arith
