-- ===== src/PrivateDns/History.antt =====
-- Any sequence of calls of the manager of internal/privatedns/manager.go.
use mathlib.Core.Path.{fun_ext}
use wg.Prelude.{
  ℕ, ◌+◌, ◌≤◌, ◌≡◌, refl, ap, ◌∙◌, inl, inr, Option, none, some, List, [], ◌∷◌, ltb, if◌then◌else◌,
  Bool-cases, Result, ok, err, ◌>>=◌, arith,
}
use wg.Prelude.Int.{ℤ}
use wg.Prelude.Equality.{◌=?◌}
use wg.Prelude.Maps.{find, find-remove}
use wg.Text.{Text, text_equality, Unicode}
use wg.PrivateDns.{
  Snapshot, CacheKey, key_equality, CacheRecord, Manager, DnsError, update_health, new_manager,
  record_refresh_error, refresh_from,
}
use wg.PrivateDns.Cache.{
  normalize_cache_key, positive, store, kept, put_record, answer, lookup_normalized, lookup,
  purge_expired, clear_cache,
}
use wg.PrivateDns.Content.{
  fresh, visible, visible-refresh, visible-clear, visible-purge, visible-answer, answer_visible,
}
use wg.PrivateDns.Invariant.{
  IsValid, kept-IsValid, found-IsValid, purge_loop-Unique, purge_loop-All, refreshed-IsValid,
}

pub data Event : Type 0 where
  put_event : CacheKey → List Text → ℤ → Event
  lookup_event : CacheKey → Event
  purge_event clear_event : Event
  refresh_event : Option (Result Text Snapshot) → Event

-- The values under a key, and when they expire.
abbrev pub Seen : Type 0
Seen = Option (List Text × ℕ)

abbrev pub shown : Option CacheRecord → Seen
shown none = none
shown (some r) = some (r.values, r.expires_at)

unfoldable pub seen : Manager → CacheKey → ℕ → Seen
seen m k now = shown (visible m k now)

pub new_manager-IsValid : (initial : Snapshot) (start : ℕ) → IsValid (new_manager initial start)
unfolding new_manager update_health
new_manager-IsValid initial start = record { unique = tt; current = tt }

seen-new_manager :
    (now : ℕ) (initial : Snapshot) (start : ℕ) (k : CacheKey)
    → seen (new_manager initial start) k now ≡ none
unfolding new_manager update_health seen visible find
seen-new_manager now initial start k = refl

module _ (u : Unicode) where
  unfoldable pub step : ℕ × Event → Manager → Manager
  step (now, put_event key values ttl) m = (put_record u key values ttl now m).0
  step (now, lookup_event key) m = (lookup u key now m).0
  step (now, purge_event) m = (purge_expired now m).0
  step (now, clear_event) m = clear_cache m
  step (now, refresh_event source) m = (refresh_from source now m).0

  unfoldable pub run : List (ℕ × Event) → Manager → Manager
  run [] m = m
  run (e ∷ es) m = run es (step e m)

  abbrev pub put_meaning :
      ℕ
      → ℕ
      → List Text
      → Result DnsError CacheKey
      → Result DnsError ℕ
      → (CacheKey → Seen)
      → CacheKey
      → Seen
  put_meaning later now values (ok key) (ok ttl) p k =
      if key =? k then (if ltb later (now + ttl) then some (values, now + ttl) else none) else p k
  put_meaning later now values (ok key) (err why) p k = p k
  put_meaning later now values (err why) ttl p k = p k

  abbrev pub refresh_meaning : Option (Result Text Snapshot) → (CacheKey → Seen) → CacheKey → Seen
  refresh_meaning (some (ok next)) p k = none
  refresh_meaning _ p k = p k

  -- What a call means for a reader at the time `later`.
  abbrev pub meaning : ℕ → ℕ × Event → (CacheKey → Seen) → CacheKey → Seen
  meaning later (now, put_event key values ttl) p k =
      put_meaning later now values (normalize_cache_key u key) (positive ttl) p k
  meaning later (now, lookup_event key) p k = p k
  meaning later (now, purge_event) p k = p k
  meaning later (now, clear_event) p k = none
  meaning later (now, refresh_event source) p k = refresh_meaning source p k

  unfoldable pub meanings : ℕ → List (ℕ × Event) → (CacheKey → Seen) → CacheKey → Seen
  meanings later [] p = p
  meanings later (e ∷ es) p = meanings later es (meaning later e p)

  pub step-IsValid : (e : ℕ × Event) (m : Manager) → IsValid m → IsValid (step e m)
  unfolding step put_record lookup clear_cache purge_expired
  step-IsValid (now, put_event key values ttl) m v =
      kept-IsValid m values now (normalize_cache_key u key) (positive ttl) v
  step-IsValid (now, lookup_event key) m v = found-IsValid now m (normalize_cache_key u key) v
  step-IsValid (now, purge_event) m v = record {
    unique = purge_loop-Unique m.generation now m.cache v.unique;
    current =
        purge_loop-All (λ x. x.1.generation ≡ m.generation) m.generation now m.cache v.current;
  }
  step-IsValid (now, clear_event) m v = record { unique = tt; current = tt }
  step-IsValid (now, refresh_event source) m v = refreshed-IsValid source now m v

  pub run-IsValid : (es : List (ℕ × Event)) (m : Manager) → IsValid m → IsValid (run es m)
  unfolding run
  run-IsValid [] m v = v
  run-IsValid (e ∷ es) m v = run-IsValid es (step e m) (step-IsValid e m v)

  pub run-new_manager-IsValid :
      (initial : Snapshot) (start : ℕ) (es : List (ℕ × Event))
      → IsValid (run es (new_manager initial start))
  run-new_manager-IsValid initial start es =
      run-IsValid es (new_manager initial start) (new_manager-IsValid initial start)

  -- No call is later than the reader.
  abbrev pub Before : ℕ → List (ℕ × Event) → Type 0
  Before later [] = Unit {0}
  Before later ((now, e) ∷ es) = (now ≤ later) × Before later es

  seen-put :
      (later now : ℕ) (values : List Text) (m : Manager) (r : Result DnsError CacheKey)
      (t : Result DnsError ℕ) (k : CacheKey)
      → seen (kept m (do key ← r; ttl ← t; ok (store m key values ttl now))).0 k later
        ≡ put_meaning later now values r t (λ j. seen m j later) k
  unfolding seen visible find
  seen-put later now values m (err why) t k = refl
  seen-put later now values m (ok key) (err why) k = refl
  seen-put later now values m (ok key) (ok ttl) k = elim (Bool-cases (key =? k)) [
    | inl e ↦ rw e (ground arith)
    | inr e ↦ rw e (
        ap (λ (o : Option CacheRecord). shown (fresh m.generation later o))
          (rw e at (find-remove key k m.cache)))
  ]

  seen-refresh :
      (later now : ℕ) (m : Manager) (source : Option (Result Text Snapshot)) (k : CacheKey)
      → seen (refresh_from source now m).0 k later ≡ refresh_meaning source (λ j. seen m j later) k
  unfolding seen visible refresh_from record_refresh_error
  seen-refresh later now m none k = refl
  seen-refresh later now m (some (err why)) k = refl
  seen-refresh later now m (some (ok next)) k = ap shown (visible-refresh k later next now m)

  seen-lookup :
      (later now : ℕ) (m : Manager) (r : Result DnsError CacheKey) (k : CacheKey)
      → now ≤ later
      → seen (lookup_normalized now m r).0 k later ≡ seen m k later
  unfolding seen visible
  seen-lookup later now m (err why) k le = refl
  seen-lookup later now m (ok key) k le =
      ap shown (visible-answer k later key now m (find key m.cache) refl le)

  seen-step :
      (later : ℕ) (e : ℕ × Event) (m : Manager) (k : CacheKey)
      → IsValid m
      → e.0 ≤ later
      → seen (step e m) k later ≡ meaning later e (λ j. seen m j later) k
  unfolding step put_record lookup seen
  seen-step later (now, put_event key values ttl) m k v le =
      seen-put later now values m (normalize_cache_key u key) (positive ttl) k
  seen-step later (now, lookup_event key) m k v le =
      seen-lookup later now m (normalize_cache_key u key) k le
  seen-step later (now, purge_event) m k v le = ap shown (visible-purge k later now m v.unique le)
  seen-step later (now, clear_event) m k v le = ap shown (visible-clear k later m)
  seen-step later (now, refresh_event source) m k v le = seen-refresh later now m source k

  seen-run :
      (later : ℕ) (es : List (ℕ × Event)) (m : Manager)
      → IsValid m
      → Before later es
      → (λ k. seen (run es m) k later) ≡ meanings later es (λ k. seen m k later)
  unfolding run meanings
  seen-run later [] m v b = refl
  seen-run later (e ∷ es) m v (le, b) =
      seen-run later es (step e m) (step-IsValid e m v) b
      ∙ ap (meanings later es) (fun_ext (λ k. seen-step later e m k v le))

  seen-lookup_result :
      (now : ℕ) (m : Manager) (key : CacheKey)
      → shown (answer key now m (find key m.cache)).1 ≡ seen m key now
  unfolding seen visible
  seen-lookup_result now m key = ap shown (answer_visible key now m (find key m.cache))

  -- The lookup of a key that normalizes, after any calls on a new manager none of which is later
  -- than the lookup, shows what the calls mean for a reader at that time, from an empty cache on:
  -- a `Put` shows its values until they expire, `ClearCache` and a refresh that succeeds hide all,
  -- and no other call changes anything.
  pub lookup-run :
      (initial : Snapshot) (start : ℕ) (es : List (ℕ × Event)) (key k : CacheKey) (now : ℕ)
      → normalize_cache_key u key ≡ ok k
      → Before now es
      → shown (lookup u key now (run es (new_manager initial start))).1
        ≡ meanings now es (λ j. none) k
  unfolding lookup
  lookup-run initial start es key k now n b =
      let m = run es (new_manager initial start) in
      rw n (
        seen-lookup_result now m k
        ∙ ap (λ (p : CacheKey → Seen). p k)
            (seen-run now es (new_manager initial start) (new_manager-IsValid initial start) b
              ∙ ap (meanings now es) (fun_ext (seen-new_manager now initial start))))
