-- ===== src/PrivateDns/Cache.antt =====
-- The cache of internal/privatedns/manager.go: `Put`, `Lookup`, `PurgeExpired` and `ClearCache`.
use wg.Prelude.{
  ℕ, suc, ◌+◌, ◌%◌, ◌^◌, Bool, not, ◌||◌, Option, none, some, List, [], ◌∷◌, ltb, ◌==◌,
  if◌then◌else◌, Result, ok, err, ◌>>=◌, ◌>>◌, fail_if,
}
use wg.Prelude.Int.{ℤ, pos}
use wg.Prelude.Maps.{find, put, remove}
use wg.Text.{Text, text_equality, is_empty, trim_space, Unicode, to_lower, trim_dot}
use wg.PrivateDns.{
  CacheKey, key_equality, CacheRecord, Manager, DnsError, empty_cache_name, ttl_not_positive, bump,
}

unfoldable pub normalize_cache_key : Unicode → CacheKey → Result DnsError CacheKey
normalize_cache_key u key = do
  let name = trim_dot (to_lower u (trim_space key.name))
  fail_if (is_empty name) empty_cache_name
  ok (record key { name = name; class = if key.class == 0 then 1 else key.class })

-- A time to live that is positive.
abbrev pub positive : ℤ → Result DnsError ℕ
positive (pos (suc n)) = ok (suc n)
positive _ = err ttl_not_positive

abbrev pub store : Manager → CacheKey → List Text → ℕ → ℕ → Manager
store m key values ttl now = record m {
  cache =
      put key
        (record {
          values = values;
          stored_at = now;
          expires_at = now + ttl;
          generation = m.generation;
        })
        m.cache;
  stores = bump m.stores;
}

abbrev pub kept : Manager → Result DnsError Manager → Manager × Option DnsError
kept m (ok m') = (m', none)
kept m (err why) = (m, some why)

unfoldable pub put_record :
    Unicode → CacheKey → List Text → ℤ → ℕ → Manager → Manager × Option DnsError
put_record u key values ttl now m = kept m (do
  normalized ← normalize_cache_key u key
  ttl' ← positive ttl
  ok (store m normalized values ttl' now))

abbrev pub missed : Manager → Manager × Option CacheRecord
missed m = (record m { misses = bump m.misses }, none)

-- The part of `Lookup` under the lock, on what stands under the key.
unfoldable pub answer : CacheKey → ℕ → Manager → Option CacheRecord → Manager × Option CacheRecord
answer key now m none = missed m
answer key now m (some r) =
    if not (r.generation == m.generation)
    then missed m
    else if not (ltb now r.expires_at)
    then missed (record m { cache = remove key m.cache; expired = bump m.expired })
    else (record m { hits = bump m.hits }, some r)

abbrev pub lookup_normalized : ℕ → Manager → Result DnsError CacheKey → Manager × Option CacheRecord
lookup_normalized now m (err why) = missed m
lookup_normalized now m (ok key) = answer key now m (find key m.cache)

unfoldable pub lookup : Unicode → CacheKey → ℕ → Manager → Manager × Option CacheRecord
lookup u key now m = lookup_normalized now m (normalize_cache_key u key)

abbrev pub stale : ℕ → ℕ → CacheRecord → Bool
stale generation now r = not (r.generation == generation) || not (ltb now r.expires_at)

-- The loop of `PurgeExpired`: what is left, and how many entries it deletes.
unfoldable pub purge_loop :
    ℕ → ℕ → List (CacheKey × CacheRecord) → List (CacheKey × CacheRecord) × ℕ
purge_loop generation now [] = ([], 0)
purge_loop generation now ((k, r) ∷ m) =
    let (left, removed) = purge_loop generation now m in
    if stale generation now r then (left, removed + 1) else ((k, r) ∷ left, removed)

unfoldable pub purge_expired : ℕ → Manager → Manager × ℕ
purge_expired now m =
    let (left, removed) = purge_loop m.generation now m.cache in
    (record m { cache = left; expired = (m.expired + removed) % 2 ^ 64 }, removed)

unfoldable pub clear_cache : Manager → Manager
clear_cache m = record m { cache = [] }
