-- ===== src/Prelude/Maps.antt =====
-- Go's maps as lists of pairs of a key and a value, in any order.
use Prim.Native.Nat.{◌+◌, ◌≤◌}
use mathlib.Core.Path.{ap, ap₂, sym, ◌∙◌, ◌≡◌, refl}
use mathlib.Core.Logic.{inl, inr}
use mathlib.Core.Option.{Option, none, some}
use mathlib.Core.List.{List, [], ◌∷◌}
use native.Mathlib.Omega.{arith}
use wg.Prelude.Tests.{if◌then◌else◌, Bool-cases}
use wg.Prelude.Lists.{length, All}
use wg.Prelude.Equality.{Equality, ◌=?◌, same_refl, same_of}

none_not_some {ℓ} : {A : Type ℓ} {a : A} → ◌≡◌ {A = Option A} none (some a) → ⊥
none_not_some h = cc

-- An entry stands in the list.
pub data Listed {ℓ} {A : Type ℓ} (x : A) : List A → Type ℓ where
  here : {y : A} {m : List A} → x ≡ y → Listed x (y ∷ m)
  there : {y : A} {m : List A} → Listed x m → Listed x (y ∷ m)

pub All-Listed {ℓ κ} :
    {A : Type ℓ} (P : A → Type κ) (x : A) (m : List A) → All P m → Listed x m → P x
All-Listed P x [] a h = elim h [ ]
All-Listed P x (y ∷ m) (p, a) (here e) = rw e p
All-Listed P x (y ∷ m) (p, a) (there h) = All-Listed P x m a h

module _ {ℓ κ} {K : Type ℓ} {V : Type κ} ⦃q : Equality K⦄ where
  unfoldable pub find : K → List (K × V) → Option V
  find k [] = none
  find k ((j, v) ∷ m) = let rest = find k m in if j =? k then some v else rest

  unfoldable pub remove : K → List (K × V) → List (K × V)
  remove k [] = []
  remove k ((j, v) ∷ m) = let rest = remove k m in if j =? k then rest else (j, v) ∷ rest

  abbrev pub put : K → V → List (K × V) → List (K × V)
  put k v m = (k, v) ∷ remove k m

  -- Each key stands once.
  abbrev pub Unique : List (K × V) → Type κ
  Unique [] = Unit {κ}
  Unique ((k, v) ∷ m) = (find k m ≡ none) × Unique m

  pub find-remove :
      (k j : K) (m : List (K × V)) → find j (remove k m) ≡ (if k =? j then none else find j m)
  unfolding find remove
  find-remove k j [] = ground arith
  find-remove k j ((i, v) ∷ m) =
      ground (arith, find-remove k j m, q.same_iff i k, q.same_iff i j, q.same_iff k j)

  pub find-put :
      (k j : K) (v : V) (m : List (K × V))
      → find j (put k v m) ≡ (if k =? j then some v else find j m)
  unfolding find
  find-put k j v m = ground (arith, find-remove k j m)

  pub remove-Unique : (k : K) (m : List (K × V)) → Unique m → Unique (remove k m)
  unfolding remove
  remove-Unique k [] u = tt
  remove-Unique k ((i, v) ∷ m) (a, u) = ground (arith, remove-Unique k m, find-remove k i m)

  -- Whatever value is put under the key.
  pub put-Unique :
      (k : K) (m : List (K × V)) → Unique m → (find k (remove k m) ≡ none) × Unique (remove k m)
  put-Unique k m u = (ground (arith, find-remove k k m, same_refl k), remove-Unique k m u)

  pub remove_absent : (k : K) (m : List (K × V)) → find k m ≡ none → remove k m ≡ m
  unfolding find remove
  remove_absent k [] h = refl
  remove_absent k ((i, v) ∷ m) h = ground (arith, remove_absent k m)

  pub length-remove :
      (k : K) (m : List (K × V)) (v : V)
      → Unique m
      → find k m ≡ some v
      → length (remove k m) + 1 ≡ length m
  unfolding find remove
  length-remove k [] v u h = cc
  length-remove k ((i, w) ∷ m) v (a, u) h = elim (Bool-cases (i =? k)) [
    | inl e ↦
        let same : i ≡ k = same_of i k e in
        let gone : remove k m ≡ m = remove_absent k m (rw same at a) in rw (e, gone) (omega arith)
    | inr e ↦
        let h' : find k m ≡ some v = ground arith in rw e (omega (arith, length-remove k m v u h'))
  ]

  pub length-remove-le : (k : K) (m : List (K × V)) → length (remove k m) ≤ length m
  unfolding remove
  length-remove-le k [] = omega arith
  length-remove-le k ((i, v) ∷ m) = ground (arith, length-remove-le k m)

  -- What holds of each entry of a map holds after a removal and a put.
  module _ {μ} (P : K × V → Type μ) where
    pub All-remove : (k : K) (m : List (K × V)) → All P m → All P (remove k m)
    unfolding remove
    All-remove k [] a = tt
    All-remove k ((i, v) ∷ m) (p, a) = elim (Bool-cases (i =? k)) [
      | inl e ↦ rw e (All-remove k m a)
      | inr e ↦ rw e (p, All-remove k m a)
    ]

    pub All-find : (k : K) (m : List (K × V)) (v : V) → All P m → find k m ≡ some v → P (k, v)
    unfolding find
    All-find k [] v a h = cc
    All-find k ((i, w) ∷ m) v (p, a) h = elim (Bool-cases (i =? k)) [
      | inl e ↦
          let same : i ≡ k = same_of i k e in
          let value : w ≡ v = ground arith in rw (same, value) at p
      | inr e ↦ All-find k m v a (ground arith)
    ]

  pub Listed-find : (k : K) (v : V) (m : List (K × V)) → find k m ≡ some v → Listed (k, v) m
  unfolding find
  Listed-find k v [] h = cc
  Listed-find k v ((i, w) ∷ m) h = elim (Bool-cases (i =? k)) [
    | inl e ↦
        let value : some w ≡ some v = rw e at h in
        here (ap₂ (λ (a : K) (b : V). (a, b)) (sym (same_of i k e)) (cc value))
    | inr e ↦ there (Listed-find k v m (rw e at h))
  ]

  pub find-Listed :
      (k : K) (v : V) (m : List (K × V)) → Unique m → Listed (k, v) m → find k m ≡ some v
  unfolding find
  find-Listed k v [] u h = elim h [ ]
  find-Listed k v ((i, w) ∷ m) (a, u) (here e) =
      let key : k ≡ i = ap (λ (x : K × V). x.0) e in
      let value : v ≡ w = ap (λ (x : K × V). x.1) e in rw (key, value, same_refl i) refl
  find-Listed k v ((i, w) ∷ m) (a, u) (there h) =
      let rest = find-Listed k v m u h in
      elim (Bool-cases (i =? k)) [
        | inl e ↦
            let same : i ≡ k = same_of i k e in
            let gone : find k m ≡ none = rw same at a in absurd (none_not_some (sym gone ∙ rest))
        | inr e ↦ rw e rest
      ]
