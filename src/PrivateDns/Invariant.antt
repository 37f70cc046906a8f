-- ===== src/PrivateDns/Invariant.antt =====
-- The invariant of the cache of internal/privatedns/manager.go.
use wg.Prelude.{
  ℕ, ◌≡◌, refl, inl, inr, Option, none, some, List, [], ◌∷◌, All, ltb, ◌==◌, Bool-cases, Result, ok,
  err, ◌>>=◌, arith,
}
use wg.Prelude.Maps.{find, Unique, put-Unique, remove-Unique, All-remove}
use wg.Text.{Text, text_equality}
use wg.PrivateDns.{
  Snapshot, CacheKey, key_equality, CacheRecord, Manager, DnsError, update_health,
  record_refresh_error, refresh, refresh_from,
}
use wg.PrivateDns.Cache.{store, kept, answer, lookup_normalized, stale, purge_loop}

-- Each key of the cache stands once, and each record has the present generation.
pub record IsValid (m : Manager) : Type 0 where
  pub unique : Unique m.cache
  pub current : All (λ x. x.1.generation ≡ m.generation) m.cache

pub kept-IsValid :
    (m : Manager) (values : List Text) (now : ℕ) (r : Result DnsError CacheKey)
    (t : Result DnsError ℕ)
    → IsValid m
    → IsValid (kept m (do key ← r; ttl ← t; ok (store m key values ttl now))).0
kept-IsValid m values now (err why) t v = v
kept-IsValid m values now (ok key) (err why) v = v
kept-IsValid m values now (ok key) (ok ttl) v = record {
  unique = put-Unique key m.cache v.unique;
  current = (refl, All-remove (λ x. x.1.generation ≡ m.generation) key m.cache v.current);
}

answer-IsValid :
    (key : CacheKey) (now : ℕ) (m : Manager) (o : Option CacheRecord)
    → IsValid m
    → IsValid (answer key now m o).0
unfolding answer
answer-IsValid key now m none v = record { unique = v.unique; current = v.current }
answer-IsValid key now m (some r) v = elim (Bool-cases (r.generation == m.generation)) [
  | inr other ↦ rw other (record { unique = v.unique; current = v.current })
  | inl mine ↦ elim (Bool-cases (ltb now r.expires_at)) [
    | inl young ↦ rw (mine, young) (record { unique = v.unique; current = v.current })
    | inr old ↦
        rw (mine, old)
          (record {
            unique = remove-Unique key m.cache v.unique;
            current = All-remove (λ x. x.1.generation ≡ m.generation) key m.cache v.current;
          })
  ]
]

pub found-IsValid :
    (now : ℕ) (m : Manager) (r : Result DnsError CacheKey)
    → IsValid m
    → IsValid (lookup_normalized now m r).0
found-IsValid now m (err why) v = record { unique = v.unique; current = v.current }
found-IsValid now m (ok key) v = answer-IsValid key now m (find key m.cache) v

find-purged :
    (g now : ℕ) (m : List (CacheKey × CacheRecord)) (k : CacheKey)
    → find k m ≡ none
    → find k (purge_loop g now m).0 ≡ none
unfolding purge_loop find
find-purged g now [] k h = refl
find-purged g now ((j, r) ∷ m) k h = ground (arith, find-purged g now m k)

pub purge_loop-Unique :
    (g now : ℕ) (m : List (CacheKey × CacheRecord)) → Unique m → Unique (purge_loop g now m).0
unfolding purge_loop
purge_loop-Unique g now [] v = tt
purge_loop-Unique g now ((j, r) ∷ m) (a, v) = elim (Bool-cases (stale g now r)) [
  | inl old ↦ rw old (purge_loop-Unique g now m v)
  | inr young ↦ rw young (find-purged g now m j a, purge_loop-Unique g now m v)
]

pub purge_loop-All :
    (P : CacheKey × CacheRecord → Type 0) (g now : ℕ) (m : List (CacheKey × CacheRecord))
    → All P m
    → All P (purge_loop g now m).0
unfolding purge_loop
purge_loop-All P g now [] v = tt
purge_loop-All P g now ((j, r) ∷ m) (a, v) = elim (Bool-cases (stale g now r)) [
  | inl old ↦ rw old (purge_loop-All P g now m v)
  | inr young ↦ rw young (a, purge_loop-All P g now m v)
]

pub refreshed-IsValid :
    (source : Option (Result Text Snapshot)) (now : ℕ) (m : Manager)
    → IsValid m
    → IsValid (refresh_from source now m).0
unfolding refresh_from refresh record_refresh_error update_health
refreshed-IsValid none now m v = record { unique = v.unique; current = v.current }
refreshed-IsValid (some (err why)) now m v = record { unique = v.unique; current = v.current }
refreshed-IsValid (some (ok next)) now m v = record { unique = tt; current = tt }
