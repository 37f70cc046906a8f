-- ===== src/PrivateDns/Examples.antt =====
-- Runs of the manager of internal/privatedns/manager.go at concrete inputs.
use wg.Prelude.{ℕ, ◌≡◌, refl, none, some, List, [], ◌∷◌, length, ok, arith}
use wg.Prelude.Int.{pos}
use wg.Text.{Unicode, trim_space, trim_left, trim_right, is_space, to_lower, trim_dot}
use wg.PrivateDns.{Snapshot, CacheKey, new_manager}
use wg.PrivateDns.Cache.{normalize_cache_key, lookup}
use wg.PrivateDns.History.{
  Event, put_event, lookup_event, refresh_event, run, meanings, shown, lookup-run,
}
use wg.PrivateDns.Counters.{IsCounted, lookups_in, run-new_manager-IsCounted}
use wg.PrivateDns.Health.{IsHealthy, run-new_manager-IsHealthy}

abbrev unicode : Unicode
unicode = record { lower_rune = λ c. c; upper_rune = λ c. c }

abbrev snapshot : Snapshot
snapshot = record {
  captured_at = 0;
  network_generation = 1;
  upstreams = [];
  search_domains = [];
  routing_domains = [];
  metadata = none;
}

-- "A." and what it normalizes to.
abbrev key : CacheKey
key = record { name = b'A' ∷ b'.' ∷ []; type = 1; class = 0 }

abbrev normalized : CacheKey
normalized = record { name = b'a' ∷ []; type = 1; class = 1 }

key_normalizes : normalize_cache_key unicode key ≡ ok normalized
unfolding normalize_cache_key trim_space trim_left trim_right is_space to_lower trim_dot
key_normalizes = refl

-- A record for ten nanoseconds, a lookup that it answers, one that comes too late, and a refresh that fails.
abbrev events : List (ℕ × Event)
events =
    (5, put_event key ((b'x' ∷ []) ∷ []) (pos 10))
    ∷ (7, lookup_event key)
    ∷ (9, refresh_event none)
    ∷ []

lookup-run_example :
    shown (lookup unicode key 14 (run unicode events (new_manager snapshot 1))).1
    ≡ meanings unicode 14 events (λ k. none) normalized
lookup-run_example =
    lookup-run unicode snapshot 1 events key normalized 14 key_normalizes (omega arith)

-- The value is there at time 14 and gone at time 15.
found_values : meanings unicode 14 events (λ k. none) normalized ≡ some ((b'x' ∷ []) ∷ [], 15)
unfolding meanings normalize_cache_key trim_space trim_left trim_right is_space to_lower trim_dot
found_values = refl

late_values : meanings unicode 15 events (λ k. none) normalized ≡ none
unfolding meanings normalize_cache_key trim_space trim_left trim_right is_space to_lower trim_dot
late_values = refl

run-new_manager-IsCounted_example :
    IsCounted (run unicode events (new_manager snapshot 1)) (length events) (lookups_in events)
run-new_manager-IsCounted_example =
    run-new_manager-IsCounted unicode snapshot 1 events (omega arith)

run-new_manager-IsHealthy_example : IsHealthy (run unicode events (new_manager snapshot 1))
run-new_manager-IsHealthy_example = run-new_manager-IsHealthy unicode snapshot 1 events
