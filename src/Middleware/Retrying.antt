-- ===== src/Middleware/Retrying.antt =====
-- `WithRetry` of tool/middleware.go.
--
-- The handler's answer to each attempt, and what the wait after it returns, are arguments: how long a
-- wait is, in floating point and with a jitter, decides nothing else.
pub mod Attempts
use wombat_go.Common.{
  ℕ, zero, suc, ◌+◌, ◌-◌, Bool, true, false, String, Option, none, some, ◌=?◌, if◌then◌else◌,
}
use wombat_go.Middleware.{Failure, ended_by, Outcome, failing}

-- `MaxAttempts` of `withDefaults`; one that is not positive is 0.
abbrev pub attempts_of : ℕ → ℕ
attempts_of max_attempts = if max_attempts =? 0 then 3 else max_attempts

-- What the middleware returns, and how often it called the handler.
pub record Retried : Type 0 where
  pub outcome : Outcome
  pub calls : ℕ

-- `err == nil || !d.Retryable(err)` is false.
abbrev pub is_worth : (Failure → Bool) → Option Failure → Bool
is_worth retryable none = false
is_worth retryable (some e) = retryable e

abbrev pub return_at : ℕ → Outcome → Retried
return_at attempt o = record { outcome = o; calls = attempt + 1 }

-- After the wait: the cause, or the next attempt.
abbrev pub wait_or : Option String → ℕ → Retried → Retried
wait_or (some cause) attempt rest = return_at attempt (failing (ended_by cause))
wait_or none attempt rest = rest

abbrev pub repeat_if : Bool → Option String → ℕ → Outcome → Retried → Retried
repeat_if false slept attempt o rest = return_at attempt o
repeat_if true slept attempt o rest = wait_or slept attempt rest

-- The loop, with the attempts that are left after this one.
unfoldable pub attempt_from :
    (Failure → Bool) → (ℕ → Outcome) → (ℕ → Option String) → ℕ → ℕ → Retried
attempt_from retryable handler sleep zero attempt = return_at attempt (handler attempt)
attempt_from retryable handler sleep (suc left) attempt =
    repeat_if (is_worth retryable (handler attempt).error) (sleep attempt) attempt (handler attempt)
      (attempt_from retryable handler sleep left (attempt + 1))

-- `WithRetry`: a tool that is not idempotent, or classifies no error, is called once.
unfoldable pub with_retry :
    ℕ → Bool → Option (Failure → Bool) → (ℕ → Outcome) → (ℕ → Option String) → Retried
unfolding attempt_from
with_retry max_attempts false retryable handler sleep = return_at 0 (handler 0)
with_retry max_attempts true none handler sleep = return_at 0 (handler 0)
with_retry max_attempts true (some retryable) handler sleep =
    attempt_from retryable handler sleep (attempts_of max_attempts - 1) 0
