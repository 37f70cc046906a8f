-- ===== src/Session/Policy/Backoff.antt =====
-- `Validate` and the delays between retransmissions, of internal/session/state.go.
use Prim.Native.Nat.{min}
use native.Mathlib.Nat.{pow-succ', one-le-pow}
use native.Mathlib.Decide.{dec_le}
use wg.Prelude.{
  false, ◌>>◌, fail_if, sym, ◌||◌, ◌==◌, ℕ, zero, suc, ◌*◌, ◌/◌, ◌^◌, ◌≤◌, ◌<◌, ◌≡◌, ap, ◌∙◌, ok,
  arith,
}
use wg.Prelude.Int.{ℤ, pos, ◌≤ℤ◌, leb_ℤ, ltb_ℤ}
use wg.Session.State.{zero_retry_limit, base_exceeds_backoff}
use wg.Session.Policy.{TimeoutPolicy, validate, bounded_backoff, initial_backoff, control_backoff}

-- A policy that `Validate` accepts: every duration is positive, both retry limits are, and no
-- base exceeds the largest backoff.
pub record IsPolicy (p : TimeoutPolicy) : Type 0 where
  pub initial_sent_pos : pos 1 ≤ℤ p.initial_sent
  pub pending_confirm_pos : pos 1 ≤ℤ p.pending_confirm
  pub established_idle_pos : pos 1 ≤ℤ p.established_idle
  pub path_validation_pos : pos 1 ≤ℤ p.path_validation
  pub draining_pos : pos 1 ≤ℤ p.draining
  pub retry_token_pos : pos 1 ≤ℤ p.retry_token
  pub confirm_grace_pos : pos 1 ≤ℤ p.confirm_grace
  pub initial_base_pos : pos 1 ≤ℤ p.initial_retry_base
  pub control_base_pos : pos 1 ≤ℤ p.control_retry_base
  pub max_backoff_pos : pos 1 ≤ℤ p.max_retry_backoff
  pub initial_limit_pos : 1 ≤ p.max_initial_retries
  pub control_limit_pos : 1 ≤ p.max_control_retries
  pub initial_base_le : p.initial_retry_base ≤ℤ p.max_retry_backoff
  pub control_base_le : p.control_retry_base ≤ℤ p.max_retry_backoff

pub validate-IsPolicy : (p : TimeoutPolicy) → validate p ≡ ok tt → IsPolicy p
unfolding validate
validate-IsPolicy p e = ground arith

positive_test : (v : ℤ) → pos 1 ≤ℤ v → leb_ℤ v (pos 0) ≡ false
positive_test v h = ground arith

pub validate_of_IsPolicy : (p : TimeoutPolicy) → IsPolicy p → validate p ≡ ok tt
unfolding validate
validate_of_IsPolicy p v =
    rw
      (
        positive_test p.initial_sent v.initial_sent_pos,
        positive_test p.pending_confirm v.pending_confirm_pos,
        positive_test p.established_idle v.established_idle_pos,
        positive_test p.path_validation v.path_validation_pos,
        positive_test p.draining v.draining_pos,
        positive_test p.retry_token v.retry_token_pos,
        positive_test p.confirm_grace v.confirm_grace_pos,
        positive_test p.initial_retry_base v.initial_base_pos,
        positive_test p.control_retry_base v.control_base_pos,
        positive_test p.max_retry_backoff v.max_backoff_pos,
      )
      (limits v)
  where
    limits :
        IsPolicy p
        → (fail_if (p.max_initial_retries == 0 || p.max_control_retries == 0) zero_retry_limit
            >> fail_if
                (ltb_ℤ p.max_retry_backoff p.initial_retry_base
                  || ltb_ℤ p.max_retry_backoff p.control_retry_base)
                base_exceeds_backoff)
          ≡ ok tt
    limits v = ground arith

doubled_pow : (base k : ℕ) → base * 2 ^ suc k ≡ 2 * base * 2 ^ k
doubled_pow base k = omega (arith, ap (λ (t : ℕ). base * t) (pow-succ' 2 k))

doubled_le : (base k : ℕ) → 2 * base ≤ 2 * base * 2 ^ k
doubled_le base k = grind (arith, one-le-pow k 2)

backoff_stop :
    (retry base maximum : ℕ)
    → maximum / 2 < base
    → bounded_backoff (pos base) (suc retry) (pos maximum) ≡ pos maximum
unfolding bounded_backoff
backoff_stop retry base maximum h = ground arith

backoff_go :
    (retry base maximum : ℕ)
    → base ≤ maximum / 2
    → base < maximum
    → maximum < 2 ^ 63
    → bounded_backoff (pos base) (suc retry) (pos maximum)
      ≡ bounded_backoff (pos (2 * base)) retry (pos maximum)
unfolding bounded_backoff
backoff_go retry base maximum h lt fits = ground arith

-- The loop doubles the delay while it fits under the maximum, and never passes an int64.
pub bounded_backoff-min :
    (retry base maximum : ℕ)
    → 1 ≤ base
    → base ≤ maximum
    → maximum < 2 ^ 63
    → bounded_backoff (pos base) retry (pos maximum) ≡ pos (min (base * 2 ^ retry) maximum)
bounded_backoff-min zero base maximum lo le fits = unfold bounded_backoff in ground arith
bounded_backoff-min (suc retry) base maximum lo le fits = elim (dec_le base (maximum / 2)) [
  | yes room ↦
      backoff_go retry base maximum room (omega arith) fits
      ∙ bounded_backoff-min retry (2 * base) maximum (omega arith) (omega arith) fits
      ∙ ap (λ (t : ℕ). pos (min t maximum)) (sym (doubled_pow base retry))
  | no full ↦
      backoff_stop retry base maximum (omega arith)
      ∙ ap pos {x = maximum} (omega (arith, doubled_pow base retry, doubled_le base retry))
]

-- With a policy that `Validate` accepts, whose largest backoff is below 2 ^ 63, the delay before
-- retransmission `retry` is the base doubled `retry` times, or the largest backoff if that is
-- less; so for both kinds of retries.
pub backoff_of_validate :
    (p : TimeoutPolicy) (initial control largest retry : ℕ)
    → validate p ≡ ok tt
    → p.initial_retry_base ≡ pos initial
    → p.control_retry_base ≡ pos control
    → p.max_retry_backoff ≡ pos largest
    → largest < 2 ^ 63
    → (initial_backoff p retry ≡ pos (min (initial * 2 ^ retry) largest))
      × (control_backoff p retry ≡ pos (min (control * 2 ^ retry) largest))
unfolding initial_backoff control_backoff
backoff_of_validate p initial control largest retry v i c l fits = (
  rw (i, l) (bounded_backoff-min retry initial largest (bases v).0 (bases v).1 fits),
  rw (c, l) (bounded_backoff-min retry control largest (bases v).2 (bases v).3 fits),
)
  where
    bases :
        validate p ≡ ok tt
        → (1 ≤ initial) × (initial ≤ largest) × (1 ≤ control) × (control ≤ largest)
    bases v = ground (arith, validate-IsPolicy p v)
