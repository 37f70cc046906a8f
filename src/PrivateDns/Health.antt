-- ===== src/PrivateDns/Health.antt =====
-- What `Degraded` and `LastError` of internal/privatedns/manager.go say.
use wg.Prelude.{
  ◌&&◌, ℕ, ◌≡◌, ◌≢◌, refl, ◌⊎◌, inl, inr, Bool, true, false, Option, none, some, List, [], ◌∷◌,
  if◌then◌else◌, Bool-cases, Result, ok, err, ◌>>=◌, ltb, ◌==◌,
}
use wg.Prelude.Maps.{find}
use wg.Text.{Text, text_equality, Unicode}
use wg.PrivateDns.{
  no_upstreams, Upstream, Snapshot, CacheKey, key_equality, CacheRecord, Manager, DnsError, is_nil,
  update_health, new_manager, record_refresh_error, refresh, refresh_from,
}
use wg.PrivateDns.Cache.{
  normalize_cache_key, positive, store, kept, put_record, answer, lookup_normalized, lookup,
  purge_expired, clear_cache,
}
use wg.PrivateDns.History.{
  Event, put_event, lookup_event, purge_event, clear_event, refresh_event, step, run,
}

-- A manager that is not degraded has a resolver and no error.
abbrev pub Healthy : Bool → Text → List Upstream → Type 0
Healthy degraded error upstreams =
    (degraded ≡ true) ⊎ ((degraded ≡ false) × (error ≡ []) × (upstreams ≢ []))

abbrev pub IsHealthy : Manager → Type 0
IsHealthy m = Healthy m.degraded m.last_error m.snapshot.upstreams

update_health-IsHealthy : (m : Manager) → IsHealthy (update_health [] m)
unfolding update_health
update_health-IsHealthy m = upstreams_health m.snapshot.upstreams
  where
    upstreams_health :
        (us : List Upstream)
        → Healthy (is_nil us) (if is_nil us && true then no_upstreams else []) us
    upstreams_health [] = inl refl
    upstreams_health (x ∷ xs) = inr (refl, refl, λ h. cc)

kept-IsHealthy :
    (m : Manager) (values : List Text) (now : ℕ) (r : Result DnsError CacheKey)
    (t : Result DnsError ℕ)
    → IsHealthy m
    → IsHealthy (kept m (do key ← r; ttl ← t; ok (store m key values ttl now))).0
kept-IsHealthy m values now (err why) t h = h
kept-IsHealthy m values now (ok key) (err why) h = h
kept-IsHealthy m values now (ok key) (ok ttl) h = h

answer-IsHealthy :
    (key : CacheKey) (now : ℕ) (m : Manager) (o : Option CacheRecord)
    → IsHealthy m
    → IsHealthy (answer key now m o).0
unfolding answer
answer-IsHealthy key now m none h = h
answer-IsHealthy key now m (some r) h = elim (Bool-cases (r.generation == m.generation)) [
  | inr other ↦ rw other h
  | inl mine ↦ elim (Bool-cases (ltb now r.expires_at)) [
    | inl young ↦ rw (mine, young) h
    | inr old ↦ rw (mine, old) h
  ]
]

found-IsHealthy :
    (now : ℕ) (m : Manager) (r : Result DnsError CacheKey)
    → IsHealthy m
    → IsHealthy (lookup_normalized now m r).0
found-IsHealthy now m (err why) h = h
found-IsHealthy now m (ok key) h = answer-IsHealthy key now m (find key m.cache) h

refreshed-IsHealthy :
    (source : Option (Result Text Snapshot)) (now : ℕ) (m : Manager)
    → IsHealthy (refresh_from source now m).0
unfolding refresh_from refresh record_refresh_error
refreshed-IsHealthy none now m = inl refl
refreshed-IsHealthy (some (err why)) now m = inl refl
refreshed-IsHealthy (some (ok next)) now m = update_health-IsHealthy _

module _ (u : Unicode) where
  step-IsHealthy : (e : ℕ × Event) (m : Manager) → IsHealthy m → IsHealthy (step u e m)
  unfolding step put_record lookup clear_cache purge_expired
  step-IsHealthy (now, put_event key values ttl) m h =
      kept-IsHealthy m values now (normalize_cache_key u key) (positive ttl) h
  step-IsHealthy (now, lookup_event key) m h = found-IsHealthy now m (normalize_cache_key u key) h
  step-IsHealthy (now, purge_event) m h = h
  step-IsHealthy (now, clear_event) m h = h
  step-IsHealthy (now, refresh_event source) m h = refreshed-IsHealthy source now m

  run-IsHealthy : (es : List (ℕ × Event)) (m : Manager) → IsHealthy m → IsHealthy (run u es m)
  unfolding run
  run-IsHealthy [] m h = h
  run-IsHealthy (e ∷ es) m h = run-IsHealthy es (step u e m) (step-IsHealthy e m h)

  -- After any calls on a new manager it is degraded, or it has an upstream resolver and no last
  -- error.
  pub run-new_manager-IsHealthy :
      (initial : Snapshot) (start : ℕ) (es : List (ℕ × Event))
      → IsHealthy (run u es (new_manager initial start))
  unfolding new_manager
  run-new_manager-IsHealthy initial start es = run-IsHealthy es _ (update_health-IsHealthy _)
