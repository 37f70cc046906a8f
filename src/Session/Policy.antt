-- ===== src/Session/Policy.antt =====
-- `TimeoutPolicy` of internal/session/state.go. A `time.Duration` is an int64 of nanoseconds,
-- modelled as an integer; where the code multiplies, the result is cut to an int64.
pub mod Backoff
use wg.Prelude.{
  ℕ, zero, suc, ◌+◌, ◌-◌, ◌*◌, ◌/◌, ◌%◌, ◌^◌, Bool, ◌||◌, List, [], ◌∷◌, ltb, leb, ◌==◌,
  if◌then◌else◌, Result, ok, err, ◌>>=◌, ◌>>◌, fail_if,
}
use wg.Prelude.Int.{ℤ, pos, negsuc, ltb_ℤ, leb_ℤ}
use wg.Session.State.{
  PolicyField, initial_sent_field, pending_confirm_field, established_idle_field,
  path_validation_field, draining_field, retry_token_field, confirm_grace_field,
  initial_retry_base_field, control_retry_base_field, max_retry_backoff_field, SessionError,
  not_positive, zero_retry_limit, base_exceeds_backoff,
}

pub record TimeoutPolicy : Type 0 where
  pub initial_sent : ℤ
  pub pending_confirm : ℤ
  pub established_idle : ℤ
  pub path_validation : ℤ
  pub draining : ℤ
  pub retry_token : ℤ
  pub confirm_grace : ℤ
  pub initial_retry_base : ℤ
  pub control_retry_base : ℤ
  pub max_retry_backoff : ℤ
  pub max_initial_retries : ℕ  -- uint8
  pub max_control_retries : ℕ  -- uint8

abbrev second : ℕ
second = 1_000_000_000

abbrev millisecond : ℕ
millisecond = 1_000_000

unfoldable pub default_timeout_policy : TimeoutPolicy
default_timeout_policy = record {
  initial_sent = pos (10 * second);
  pending_confirm = pos (5 * second);
  established_idle = pos (5 * 60 * second);
  path_validation = pos (3 * second);
  draining = pos (30 * second);
  retry_token = pos (30 * second);
  confirm_grace = pos (10 * second);
  initial_retry_base = pos (500 * millisecond);
  control_retry_base = pos (500 * millisecond);
  max_retry_backoff = pos (4 * second);
  max_initial_retries = 3;
  max_control_retries = 3;
}

abbrev durations : TimeoutPolicy → List (PolicyField × ℤ)
durations p =
    (initial_sent_field, p.initial_sent)
    ∷ (pending_confirm_field, p.pending_confirm)
    ∷ (established_idle_field, p.established_idle)
    ∷ (path_validation_field, p.path_validation)
    ∷ (draining_field, p.draining)
    ∷ (retry_token_field, p.retry_token)
    ∷ (confirm_grace_field, p.confirm_grace)
    ∷ (initial_retry_base_field, p.initial_retry_base)
    ∷ (control_retry_base_field, p.control_retry_base)
    ∷ (max_retry_backoff_field, p.max_retry_backoff)
    ∷ []

-- The loop of `Validate` over the durations.
abbrev check_positive : List (PolicyField × ℤ) → Result SessionError (Unit {0})
check_positive [] = ok tt
check_positive ((name, value) ∷ items) =
    if leb_ℤ value (pos 0) then err (not_positive name) else check_positive items

unfoldable pub validate : TimeoutPolicy → Result SessionError (Unit {0})
validate p = do
  check_positive (durations p)
  fail_if (p.max_initial_retries == 0 || p.max_control_retries == 0) zero_retry_limit
  fail_if
      (ltb_ℤ p.max_retry_backoff p.initial_retry_base
        || ltb_ℤ p.max_retry_backoff p.control_retry_base)
      base_exceeds_backoff

-- The int64 that an integer leaves behind.
abbrev wrap_int64 : ℤ → ℤ
wrap_int64 (pos n) = let r = n % 2 ^ 64 in if ltb r (2 ^ 63) then pos r else negsuc (2 ^ 64 - r - 1)
wrap_int64 (negsuc n) =
    let r = n % 2 ^ 64 in if ltb r (2 ^ 63) then negsuc r else pos (2 ^ 64 - r - 1)

abbrev double : ℤ → ℤ
double (pos n) = pos (2 * n)
double (negsuc n) = negsuc (2 * n + 1)

-- Go's `/ 2` cuts towards zero.
abbrev half : ℤ → ℤ
half (pos n) = pos (n / 2)
half (negsuc n) = if n == 0 then pos 0 else negsuc ((n + 1) / 2 - 1)

-- The loop of `boundedBackoff`, with `steps` rounds left.
unfoldable pub bounded_backoff : ℤ → ℕ → ℤ → ℤ
bounded_backoff delay zero maximum = if ltb_ℤ maximum delay then maximum else delay
bounded_backoff delay (suc steps) maximum =
    if leb_ℤ maximum delay || ltb_ℤ (half maximum) delay
    then maximum
    else bounded_backoff (wrap_int64 (double delay)) steps maximum

unfoldable pub initial_backoff : TimeoutPolicy → ℕ → ℤ
initial_backoff p retry = bounded_backoff p.initial_retry_base retry p.max_retry_backoff

unfoldable pub control_backoff : TimeoutPolicy → ℕ → ℤ
control_backoff p retry = bounded_backoff p.control_retry_base retry p.max_retry_backoff
