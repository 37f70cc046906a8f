-- ===== src/Prelude/Equality.antt =====
-- Types with a decidable `==`, as an instance argument: numbers, and lists of what has one.
use Prim.Native.Nat.{ℕ}
use mathlib.Core.Path.{◌≡◌, refl}
use mathlib.Core.Logic.{◌↔◌, ◌≢◌}
use mathlib.Core.Bool.{Bool, true, false, ◌&&◌}
use mathlib.Core.List.{List, [], ◌∷◌}
use native.Mathlib.Omega.{arith}
use wg.Prelude.Tests.{◌==◌, ==_iff}

pub record Equality {ℓ} (A : Type ℓ) : Type ℓ where
  pub same : A → A → Bool
  pub same_iff : (a b : A) → (same a b ≡ true) ↔ (a ≡ b)

infix 50 ◌=?◌
abbrev pub ◌=?◌ {ℓ} : {A : Type ℓ} ⦃q : Equality A⦄ → A → A → Bool
◌=?◌ ⦃q⦄ a b = q.same a b

instance abbrev pub ℕ_equality : Equality ℕ
ℕ_equality = record { same = λ a b. a == b; same_iff = ==_iff }

module _ {ℓ} {A : Type ℓ} ⦃q : Equality A⦄ where
  abbrev pub same_list : List A → List A → Bool
  same_list [] [] = true
  same_list [] (y ∷ ys) = false
  same_list (x ∷ xs) [] = false
  same_list (x ∷ xs) (y ∷ ys) = q.same x y && same_list xs ys

  pub same_list_iff : (xs ys : List A) → (same_list xs ys ≡ true) ↔ (xs ≡ ys)
  same_list_iff [] [] = (λ h. refl, λ h. refl)
  same_list_iff [] (y ∷ ys) = (λ h. cc, λ h. cc)
  same_list_iff (x ∷ xs) [] = (λ h. cc, λ h. cc)
  same_list_iff (x ∷ xs) (y ∷ ys) = (
    λ h. ground (arith, q.same_iff x y, same_list_iff xs ys),
    λ h. ground (arith, q.same_iff x y, same_list_iff xs ys),
  )

  instance abbrev pub list_equality : Equality (List A)
  list_equality = record { same = same_list; same_iff = same_list_iff }

  pub same_refl : (a : A) → (a =? a) ≡ true
  same_refl a = (q.same_iff a a).1 refl

  pub same_of : (a b : A) → (a =? b) ≡ true → a ≡ b
  same_of a b h = (q.same_iff a b).0 h

  pub differ_of : (a b : A) → (a =? b) ≡ false → a ≢ b
  differ_of a b h e = let t = (q.same_iff a b).1 e in cc

  pub same_ne : (a b : A) → a ≢ b → (a =? b) ≡ false
  same_ne a b n = ground (arith, q.same_iff a b)

  pub same_sym : (a b : A) → (a =? b) ≡ (b =? a)
  same_sym a b = ground (arith, q.same_iff a b, q.same_iff b a)
