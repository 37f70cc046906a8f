-- ===== src/PrivateDns/Counters.antt =====
-- The counters of the cache of internal/privatedns/manager.go.
use wg.Prelude.{
  ℕ, ◌+◌, ◌^◌, ◌≤◌, ◌<◌, ◌≡◌, refl, Option, none, some, List, [], ◌∷◌, length, Result, ok, err,
  ◌>>=◌, arith,
}
use wg.Prelude.Maps.{find, length-remove, length-remove-le}
use wg.Text.{Text, text_equality, Unicode}
use wg.PrivateDns.{
  Snapshot, CacheKey, key_equality, CacheRecord, Manager, DnsError, update_health, new_manager,
  record_refresh_error, refresh, refresh_from,
}
use wg.PrivateDns.Cache.{
  normalize_cache_key, positive, store, kept, put_record, answer, lookup_normalized, lookup,
  purge_loop, purge_expired, clear_cache,
}
use wg.PrivateDns.Invariant.{IsValid}
use wg.PrivateDns.History.{
  Event, put_event, lookup_event, purge_event, clear_event, refresh_event, step, run, step-IsValid,
  new_manager-IsValid,
}

-- After `calls` calls, of which `lookups` were of `Lookup`.
pub record IsCounted (m : Manager) (calls lookups : ℕ) : Type 0 where
  pub stored : m.stores ≤ calls
  pub looked : lookups ≤ calls
  pub answered : m.hits + m.misses ≡ lookups
  pub accounted : length m.cache + m.expired ≤ m.stores

abbrev pub lookups_of : Event → ℕ
lookups_of (lookup_event key) = 1
lookups_of _ = 0

unfoldable pub lookups_in : List (ℕ × Event) → ℕ
lookups_in [] = 0
lookups_in ((now, e) ∷ es) = lookups_of e + lookups_in es

length-purge_loop :
    (g now : ℕ) (m : List (CacheKey × CacheRecord))
    → length (purge_loop g now m).0 + (purge_loop g now m).1 ≡ length m
unfolding purge_loop
length-purge_loop g now [] = omega arith
length-purge_loop g now ((k, r) ∷ m) = ground (arith, length-purge_loop g now m)

module _ (m : Manager) (n l : ℕ) (c : IsCounted m n l) (fits : n + 1 < 2 ^ 64) where
  skipped : IsCounted m (n + 1) l
  skipped = omega arith

  stored-IsCounted :
      (values : List Text) (now : ℕ) (r : Result DnsError CacheKey) (t : Result DnsError ℕ)
      → IsCounted (kept m (do key ← r; ttl ← t; ok (store m key values ttl now))).0 (n + 1) l
  stored-IsCounted values now (err why) t = skipped
  stored-IsCounted values now (ok key) (err why) = skipped
  stored-IsCounted values now (ok key) (ok ttl) = omega (arith, length-remove-le key m.cache)

  answer-IsCounted :
      (key : CacheKey) (now : ℕ) (o : Option CacheRecord)
      → IsValid m
      → find key m.cache ≡ o
      → IsCounted (answer key now m o).0 (n + 1) (l + 1)
  unfolding answer
  answer-IsCounted key now none v f = omega arith
  answer-IsCounted key now (some r) v f = ground (arith, length-remove key m.cache r)

  found-IsCounted :
      (now : ℕ) (r : Result DnsError CacheKey)
      → IsValid m
      → IsCounted (lookup_normalized now m r).0 (n + 1) (l + 1)
  found-IsCounted now (err why) v = omega arith
  found-IsCounted now (ok key) v = answer-IsCounted key now (find key m.cache) v refl

  refreshed-IsCounted :
      (source : Option (Result Text Snapshot)) (now : ℕ)
      → IsCounted (refresh_from source now m).0 (n + 1) l
  unfolding refresh_from refresh record_refresh_error update_health
  refreshed-IsCounted none now = omega arith
  refreshed-IsCounted (some (err why)) now = omega arith
  refreshed-IsCounted (some (ok next)) now = omega arith

new_manager-IsCounted : (initial : Snapshot) (start : ℕ) → IsCounted (new_manager initial start) 0 0
unfolding new_manager update_health
new_manager-IsCounted initial start = omega arith

module _ (u : Unicode) where
  step-IsCounted :
      (now : ℕ) (e : Event) (m : Manager) (n l : ℕ)
      → IsValid m
      → IsCounted m n l
      → n + 1 < 2 ^ 64
      → IsCounted (step u (now, e) m) (n + 1) (l + lookups_of e)
  unfolding step put_record lookup clear_cache purge_expired
  step-IsCounted now (put_event key values ttl) m n l v c fits =
      let c' =
        stored-IsCounted m n l c fits values now (normalize_cache_key u key) (positive ttl) in
      omega arith
  step-IsCounted now (lookup_event key) m n l v c fits =
      found-IsCounted m n l c fits now (normalize_cache_key u key) v
  step-IsCounted now purge_event m n l v c fits =
      omega (arith, length-purge_loop m.generation now m.cache)
  step-IsCounted now clear_event m n l v c fits = omega arith
  step-IsCounted now (refresh_event source) m n l v c fits =
      let c' = refreshed-IsCounted m n l c fits source now in omega arith

  run-IsCounted :
      (es : List (ℕ × Event)) (m : Manager) (n l : ℕ)
      → IsValid m
      → IsCounted m n l
      → n + length es < 2 ^ 64
      → IsCounted (run u es m) (n + length es) (l + lookups_in es)
  unfolding run lookups_in
  run-IsCounted [] m n l v c fits = omega arith
  run-IsCounted ((now, e) ∷ es) m n l v c fits =
      let ih =
        run-IsCounted es (step u (now, e) m) (n + 1) (l + lookups_of e)
          (step-IsValid u (now, e) m v) (step-IsCounted now e m n l v c (omega arith))
          (omega arith) in
      omega arith

  -- After fewer than 2 ^ 64 calls on a new manager, the hits and misses add up to the lookups, the
  -- entries and the expired ones together are at most the stores, and stores and lookups are at
  -- most the calls.
  pub run-new_manager-IsCounted :
      (initial : Snapshot) (start : ℕ) (es : List (ℕ × Event))
      → length es < 2 ^ 64
      → IsCounted (run u es (new_manager initial start)) (length es) (lookups_in es)
  run-new_manager-IsCounted initial start es fits =
      let c =
        run-IsCounted es (new_manager initial start) 0 0 (new_manager-IsValid initial start)
          (new_manager-IsCounted initial start) (omega arith) in
      omega arith
