-- ===== src/PrivateDns.antt =====
-- internal/privatedns/manager.go: the private copy of the resolver configuration, and its cache. A
-- method returns the new manager; the lock that it holds makes it one step. A time is the number of
-- nanoseconds since the zero time, and the time that a method reads is an argument of it.
pub mod Cache
pub mod Content
pub mod Invariant
pub mod History
pub mod Counters
pub mod Health
pub mod Examples
use wg.Prelude.{
  ℕ, suc, ◌+◌, ◌%◌, ◌^◌, Bool, true, false, not, ◌&&◌, ◌||◌, Option, none, some, List, [], ◌∷◌,
  length, ltb, ◌==◌, ==_iff, if◌then◌else◌, Result, ok, err, ◌>>=◌, ◌>>◌, fail_if, ◌≡◌, ◌↔◌, refl,
  arith,
}
use wg.Prelude.Int.{ℤ, pos, negsuc}
use wg.Prelude.Equality.{Equality, ◌=?◌}
use wg.Prelude.Maps.{find, put, remove}
use wg.Text.{Text, text_equality, is_empty, trim_space, Unicode, to_lower, trim_dot}

pub record Upstream : Type 0 where
  pub address : Text
  pub port : ℕ  -- uint16
  pub transport : Text
  pub interface_name : Text
  pub interface_index : ℤ
  pub scope : Text

-- A copy of a value is the value.
pub record Snapshot : Type 0 where
  pub captured_at : ℕ
  pub network_generation : ℕ  -- uint64
  pub upstreams : List Upstream
  pub search_domains : List Text
  pub routing_domains : List Text
  pub metadata : Option (List (Text × Text))

-- `type` is `Type` and `class` is `Class` of the source.
pub record CacheKey : Type 0 where
  pub name : Text
  pub type : ℕ  -- uint16
  pub class : ℕ  -- uint16

abbrev pub same_key : CacheKey → CacheKey → Bool
same_key a b = a.name =? b.name && a.type == b.type && a.class == b.class

pub same_key_iff : (a b : CacheKey) → (same_key a b ≡ true) ↔ (a ≡ b)
same_key_iff a b = (
  λ h. ground (arith, text_equality.same_iff a.name b.name),
  λ e. rw e (ground (arith, text_equality.same_iff b.name b.name)),
)

instance abbrev pub key_equality : Equality CacheKey
key_equality = record { same = same_key; same_iff = same_key_iff }

pub record CacheRecord : Type 0 where
  pub values : List Text
  pub stored_at : ℕ
  pub expires_at : ℕ
  pub generation : ℕ  -- uint64

pub record CacheStats : Type 0 where
  pub entries : ℕ
  pub stores : ℕ
  pub hits : ℕ
  pub misses : ℕ
  pub expired : ℕ

pub record Status : Type 0 where
  pub generation : ℕ
  pub network_generation : ℕ
  pub refreshed_at : ℕ
  pub upstream_count : ℕ
  pub search_domain_count : ℕ
  pub routing_domain_count : ℕ
  pub degraded : Bool
  pub last_error : Text
  pub cache : CacheStats

pub record Manager : Type 0 where
  pub snapshot : Snapshot
  pub generation : ℕ  -- uint64
  pub refreshed_at : ℕ
  pub degraded : Bool
  pub last_error : Text
  pub cache : List (CacheKey × CacheRecord)
  pub stores : ℕ  -- uint64
  pub hits : ℕ  -- uint64
  pub misses : ℕ  -- uint64
  pub expired : ℕ  -- uint64

-- The errors of `Put`; message texts are left out.
pub data DnsError : Type 0 where
  empty_cache_name ttl_not_positive : DnsError

-- A uint64 that goes up.
abbrev pub bump : ℕ → ℕ
bump n = (n + 1) % 2 ^ 64

abbrev pub no_upstreams : Text
no_upstreams =
    b'n' ∷ b'o' ∷ 0x20 ∷ b'r' ∷ b'e' ∷ b's' ∷ b'o' ∷ b'l' ∷ b'v' ∷ b'e' ∷ b'r' ∷ 0x20 ∷ b'u' ∷ b'p'
    ∷ b's' ∷ b't' ∷ b'r' ∷ b'e' ∷ b'a' ∷ b'm' ∷ b's' ∷ 0x20 ∷ b'a' ∷ b'v' ∷ b'a' ∷ b'i' ∷ b'l'
    ∷ b'a' ∷ b'b' ∷ b'l' ∷ b'e' ∷ 0x20 ∷ b'i' ∷ b'n' ∷ 0x20 ∷ b't' ∷ b'h' ∷ b'e' ∷ 0x20 ∷ b'c'
    ∷ b'o' ∷ b'p' ∷ b'i' ∷ b'e' ∷ b'd' ∷ 0x20 ∷ b's' ∷ b'n' ∷ b'a' ∷ b'p' ∷ b's' ∷ b'h' ∷ b'o'
    ∷ b't' ∷ []

abbrev nil_source : Text
nil_source =
    b'p' ∷ b'r' ∷ b'i' ∷ b'v' ∷ b'a' ∷ b't' ∷ b'e' ∷ b'd' ∷ b'n' ∷ b's' ∷ b':' ∷ 0x20 ∷ b'n' ∷ b'i'
    ∷ b'l' ∷ 0x20 ∷ b's' ∷ b'n' ∷ b'a' ∷ b'p' ∷ b's' ∷ b'h' ∷ b'o' ∷ b't' ∷ 0x20 ∷ b's' ∷ b'o'
    ∷ b'u' ∷ b'r' ∷ b'c' ∷ b'e' ∷ []

abbrev is_nil : List Upstream → Bool
is_nil [] = true
is_nil (x ∷ xs) = false

unfoldable pub update_health : Text → Manager → Manager
update_health error m =
    let degraded = is_nil m.snapshot.upstreams in
    record m {
      degraded = degraded;
      last_error = if degraded && is_empty error then no_upstreams else error;
    }

-- A snapshot that has no time of its own has the time of the copy.
abbrev pub dated : ℕ → Snapshot → Snapshot
dated now s = if s.captured_at == 0 then record s { captured_at = now } else s

unfoldable pub new_manager : Snapshot → ℕ → Manager
new_manager initial now = update_health [] (record {
  snapshot = dated now initial;
  generation = 1;
  refreshed_at = now;
  degraded = false;
  last_error = [];
  cache = [];
  stores = 0;
  hits = 0;
  misses = 0;
  expired = 0;
})

unfoldable pub cache_stats : Manager → CacheStats
cache_stats m = record {
  entries = length m.cache % 2 ^ 64;
  stores = m.stores;
  hits = m.hits;
  misses = m.misses;
  expired = m.expired;
}

unfoldable pub status : Manager → Status
status m = record {
  generation = m.generation;
  network_generation = m.snapshot.network_generation;
  refreshed_at = m.refreshed_at;
  upstream_count = length m.snapshot.upstreams;
  search_domain_count = length m.snapshot.search_domains;
  routing_domain_count = length m.snapshot.routing_domains;
  degraded = m.degraded;
  last_error = m.last_error;
  cache = cache_stats m;
}

-- The manager after `Refresh`; what the method returns is its `status`.
unfoldable pub refresh : Snapshot → ℕ → Manager → Manager
refresh next now m = update_health [] (record m {
  snapshot = dated now next;
  generation = bump m.generation;
  refreshed_at = now;
  cache = [];
})

unfoldable pub record_refresh_error : Text → Manager → Manager
record_refresh_error error m = record m { degraded = true; last_error = error }

-- What the source is and returns: `none` for nil, and its snapshot or the text of its error.
unfoldable pub refresh_from :
    Option (Result Text Snapshot) → ℕ → Manager → Manager × Result Text Status
refresh_from none now m = (record_refresh_error nil_source m, err nil_source)
refresh_from (some (err error)) now m = (record_refresh_error error m, err error)
refresh_from (some (ok next)) now m = let m' = refresh next now m in (m', ok (status m'))
