-- ===== src/PrivateDns/Content.antt =====
-- What a lookup can see of the cache of internal/privatedns/manager.go.
use wg.Prelude.{
  ℕ, ◌≤◌, ◌≡◌, refl, sym, ap, ◌∙◌, inl, inr, Bool, true, false, ◌&&◌, Option, none, some, List, [],
  ◌∷◌, ltb, ◌==◌, if◌then◌else◌, Bool-cases, arith,
}
use wg.Prelude.Equality.{◌=?◌, same_of}
use wg.Prelude.Maps.{find, Unique, find-remove}
use wg.Text.{text_equality}
use wg.PrivateDns.{Snapshot, CacheKey, key_equality, CacheRecord, Manager, update_health, refresh}
use wg.PrivateDns.Cache.{answer, stale, purge_loop, purge_expired, clear_cache}

-- A record of the present generation that has not expired at the time.
abbrev pub fresh : ℕ → ℕ → Option CacheRecord → Option CacheRecord
fresh generation now none = none
fresh generation now (some r) =
    if r.generation == generation && ltb now r.expires_at then some r else none

-- The record under a normalized key that a lookup at the time may return.
unfoldable pub visible : Manager → CacheKey → ℕ → Option CacheRecord
visible m k now = fresh m.generation now (find k m.cache)

fresh-if :
    (b : Bool) (g now : ℕ) (o p : Option CacheRecord)
    → fresh g now (if b then o else p) ≡ (if b then fresh g now o else fresh g now p)
fresh-if true g now o p = refl
fresh-if false g now o p = refl

-- What is stale at a time is not fresh at a later one.
fresh-stale :
    (g now later : ℕ) (r : CacheRecord)
    → stale g now r ≡ true
    → now ≤ later
    → fresh g later (some r) ≡ none
fresh-stale g now later r s le = ground arith

find-purge_loop :
    (g now later : ℕ) (m : List (CacheKey × CacheRecord)) (k : CacheKey)
    → Unique m
    → now ≤ later
    → fresh g later (find k (purge_loop g now m).0) ≡ fresh g later (find k m)
unfolding purge_loop find
find-purge_loop g now later [] k u le = refl
find-purge_loop g now later ((j, r) ∷ m) k (a, u) le =
    let ih : fresh g later (find k (purge_loop g now m).0) ≡ fresh g later (find k m) =
      find-purge_loop g now later m k u le in
    elim (Bool-cases (stale g now r)) [
      | inl old ↦ elim (Bool-cases (j =? k)) [
        | inl e ↦
            let same : j ≡ k = same_of j k e in
            let gone : find k m ≡ none = rw same at a in
            rw (old, e) (ih ∙ ap (fresh g later) gone ∙ sym (fresh-stale g now later r old le))
        | inr e ↦ rw (old, e) ih
      ]
      | inr young ↦ elim (Bool-cases (j =? k)) [
        | inl e ↦ rw (young, e) refl
        | inr e ↦ rw (young, e) ih
      ]
    ]

module _ (k : CacheKey) (later : ℕ) where
  pub visible-refresh :
      (next : Snapshot) (now : ℕ) (m : Manager) → visible (refresh next now m) k later ≡ none
  unfolding visible refresh update_health find
  visible-refresh next now m = refl

  pub visible-clear : (m : Manager) → visible (clear_cache m) k later ≡ none
  unfolding visible clear_cache find
  visible-clear m = refl

  pub visible-purge :
      (now : ℕ) (m : Manager)
      → Unique m.cache
      → now ≤ later
      → visible (purge_expired now m).0 k later ≡ visible m k later
  unfolding visible purge_expired
  visible-purge now m u le = find-purge_loop m.generation now later m.cache k u le

  pub visible-answer :
      (key : CacheKey) (now : ℕ) (m : Manager) (o : Option CacheRecord)
      → find key m.cache ≡ o
      → now ≤ later
      → visible (answer key now m o).0 k later ≡ visible m k later
  unfolding visible answer
  visible-answer key now m none f le = refl
  visible-answer key now m (some r) f le = elim (Bool-cases (r.generation == m.generation)) [
    | inr other ↦ rw other refl
    | inl mine ↦ elim (Bool-cases (ltb now r.expires_at)) [
      | inl young ↦ rw (mine, young) refl
      | inr old ↦
          rw (mine, old)
            (ap (fresh m.generation later) (find-remove key k m.cache)
              ∙ fresh-if (key =? k) m.generation later none (find k m.cache)
              ∙ elim (Bool-cases (key =? k)) [
                | inl e ↦
                    let same : key ≡ k = same_of key k e in
                    let there' : find k m.cache ≡ some r = rw same at f in
                    rw (e, there')
                      (sym (fresh-stale m.generation now later r (rw (mine, old) refl) le))
                | inr e ↦ rw e refl
              ])
    ]
  ]

pub answer_visible :
    (key : CacheKey) (now : ℕ) (m : Manager) (o : Option CacheRecord)
    → (answer key now m o).1 ≡ fresh m.generation now o
unfolding answer
answer_visible key now m none = refl
answer_visible key now m (some r) = ground arith
