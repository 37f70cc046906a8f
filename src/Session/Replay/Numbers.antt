-- ===== src/Session/Replay/Numbers.antt =====
-- The numbers that the allocator of internal/session/replay.go gives.
use Prim.Native.Nat.{min}
use wg.Prelude.{
  ℕ, zero, suc, ◌+◌, ◌-◌, ◌^◌, ◌≤◌, ◌<◌, ◌≡◌, refl, ap, ◌∙◌, List, [], ◌∷◌, true, arith,
}
use native.Mathlib.Decide.{ℕ_discrete}
use wg.Session.Replay.{
  PacketNumbers, NextResult, number, packet_number_exhausted, new_packet_numbers, next_number,
  max_uint64,
}

abbrev keep_number : NextResult → List ℕ → List ℕ
keep_number (number n) rest = n ∷ rest
keep_number packet_number_exhausted rest = rest

-- The numbers that `calls` calls of `Next` give.
unfoldable pub allocated : ℕ → PacketNumbers → List ℕ
allocated zero p = []
allocated (suc calls) p = keep_number (next_number p).1 (allocated calls (next_number p).0)

-- `k` numbers from `n` on.
abbrev pub count_up : ℕ → ℕ → List ℕ
count_up n zero = []
count_up n (suc k) = n ∷ count_up (n + 1) k

abbrev used_up : ℕ → PacketNumbers
used_up n = record { next = n; exhausted = true }

allocated-used_up : (calls n : ℕ) → allocated calls (used_up n) ≡ []
unfolding allocated next_number
allocated-used_up zero n = refl
allocated-used_up (suc calls) n = allocated-used_up calls n

next_number_last :
    (n : ℕ) → n ≡ max_uint64 → next_number (new_packet_numbers n) ≡ (used_up n, number n)
unfolding next_number new_packet_numbers
next_number_last n e = ground arith

next_number_more :
    (n : ℕ)
    → n < max_uint64
    → next_number (new_packet_numbers n) ≡ (new_packet_numbers (n + 1), number n)
unfolding next_number new_packet_numbers
next_number_more n h = ground arith

count_up_eq : (n k m : ℕ) → k ≡ m → count_up n k ≡ count_up n m
count_up_eq n k m e = ap (count_up n) e

-- Any number of calls on a new allocator give the consecutive numbers from `first`, a uint64, on,
-- as many as there were calls, but none after the largest uint64.
pub allocated-count_up :
    (calls first : ℕ)
    → first ≤ max_uint64
    → allocated calls (new_packet_numbers first) ≡ count_up first (min calls (2 ^ 64 - first))
unfolding allocated
allocated-count_up zero first fits = count_up_eq first zero _ (omega arith)
allocated-count_up (suc calls) first fits = elim (ℕ_discrete first max_uint64) [
  | yes last ↦
      rw (next_number_last first last, allocated-used_up calls first)
        (count_up_eq first 1 _ (omega arith))
  | no more ↦ rw (next_number_more first (omega arith)) (
      ap (λ (l : List ℕ). first ∷ l) (allocated-count_up calls (first + 1) (omega arith))
      ∙ count_up_eq first (suc (min calls (2 ^ 64 - (first + 1)))) _ (omega arith))
]
