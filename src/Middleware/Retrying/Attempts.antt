-- ===== src/Middleware/Retrying/Attempts.antt =====
-- How often a tool is called, and what is returned.
use wombat_go.Common.{
  add_one_sub, ℕ, zero, suc, ◌+◌, ◌-◌, ◌≤◌, ◌<◌, Bool, true, false, ◌≡◌, refl, ◌⊎◌, inl, inr,
  String, Option, none, some, arith,
}
use wombat_go.Middleware.{Failure, ended_by, Outcome, failing}
use wombat_go.Middleware.Retrying.{
  attempts_of, Retried, is_worth, return_at, wait_or, repeat_if, attempt_from, with_retry,
}

-- Whether an answer may be followed by another attempt.
abbrev pub may_repeat : Bool → Option (Failure → Bool) → Outcome → Bool
may_repeat false retryable o = false
may_repeat true none o = false
may_repeat true (some retryable) o = is_worth retryable o.error

-- `r` is a result of the attempts from `first` on, of `total` at most.
pub record IsRetried (worth : Outcome → Bool) (handler : ℕ → Outcome) (sleep : ℕ → Option String)
    (first total : ℕ) (r : Retried) : Type 0 where
  pub called : first < r.calls
  pub bounded : r.calls ≤ total
  pub earlier :
      (k : ℕ) → first ≤ k → k + 1 < r.calls → (worth (handler k) ≡ true) × (sleep k ≡ none)
  pub last :
      ((r.outcome ≡ handler (r.calls - 1))
        × ((worth (handler (r.calls - 1)) ≡ false) ⊎ (r.calls ≡ total)))
      ⊎ ((cause : String) × (r.outcome ≡ failing (ended_by cause))
          × (worth (handler (r.calls - 1)) ≡ true)
          × (sleep (r.calls - 1) ≡ some cause))

module _ (worth : Outcome → Bool) (handler : ℕ → Outcome) (sleep : ℕ → Option String) where
  return_at-IsRetried :
      (attempt total : ℕ)
      → attempt + 1 ≤ total
      → (worth (handler attempt) ≡ false) ⊎ (attempt + 1 ≡ total)
      → IsRetried worth handler sleep attempt total (return_at attempt (handler attempt))
  return_at-IsRetried attempt total le why = record {
    called = omega arith;
    bounded = le;
    earlier = λ k h l. absurd (omega (arith, h, l));
    last = inl (rw (add_one_sub attempt) (refl, why));
  }

  wait_or-IsRetried :
      (slept : Option String) (attempt total : ℕ) (rest : Retried)
      → sleep attempt ≡ slept
      → attempt + 1 ≤ total
      → worth (handler attempt) ≡ true
      → IsRetried worth handler sleep (attempt + 1) total rest
      → IsRetried worth handler sleep attempt total (wait_or slept attempt rest)
  wait_or-IsRetried (some cause) attempt total rest s le w r = record {
    called = omega arith;
    bounded = le;
    earlier = λ k h l. absurd (omega (arith, h, l));
    last = inr (cause, refl, rw (add_one_sub attempt) w, rw (add_one_sub attempt) s);
  }
  wait_or-IsRetried none attempt total rest s le w r = record {
    called = omega (arith, r.called);
    bounded = r.bounded;
    earlier = λ k h l. at k (first_or attempt k h) l;
    last = r.last;
  }
    where
      first_or : (n k : ℕ) → n ≤ k → (k ≡ n) ⊎ (n + 1 ≤ k)
      first_or n k h = ground (arith, h)

      at :
          (k : ℕ)
          → (k ≡ attempt) ⊎ (attempt + 1 ≤ k)
          → k + 1 < rest.calls
          → (worth (handler k) ≡ true) × (sleep k ≡ none)
      at k (inl e) l = rw e (w, s)
      at k (inr h) l = r.earlier k h l

  repeat_if-IsRetried :
      (b : Bool) (attempt total : ℕ) (rest : Retried)
      → worth (handler attempt) ≡ b
      → attempt + 1 ≤ total
      → IsRetried worth handler sleep (attempt + 1) total rest
      → IsRetried worth handler sleep attempt total
          (repeat_if b (sleep attempt) attempt (handler attempt) rest)
  repeat_if-IsRetried false attempt total rest w le r = return_at-IsRetried attempt total le (inl w)
  repeat_if-IsRetried true attempt total rest w le r =
      wait_or-IsRetried (sleep attempt) attempt total rest refl le w r

attempt_from-IsRetried :
    (retryable : Failure → Bool) (handler : ℕ → Outcome) (sleep : ℕ → Option String)
    (left attempt total : ℕ)
    → total ≡ attempt + 1 + left
    → IsRetried
        (λ o. is_worth retryable o.error)
        handler
        sleep
        attempt
        total
        (attempt_from retryable handler sleep left attempt)
unfolding attempt_from
attempt_from-IsRetried retryable handler sleep zero attempt total e =
    return_at-IsRetried (λ o. is_worth retryable o.error) handler sleep attempt total
      (omega (arith, e)) (inr (omega (arith, e)))
attempt_from-IsRetried retryable handler sleep (suc left) attempt total e =
    repeat_if-IsRetried (λ o. is_worth retryable o.error) handler sleep _ attempt total _ refl
      (omega (arith, e))
      (attempt_from-IsRetried retryable handler sleep left (attempt + 1) total (omega (arith, e)))

positive : (n : ℕ) → 1 ≤ attempts_of n
positive n = ground arith

-- `WithRetry` calls a tool at least once and at most as often as the policy allows, and again only where
-- the tool is idempotent, its own classifier calls the failure before worth it, and the wait was not
-- cut short. It returns the last answer, which is none of those or used up the attempts; or, where the
-- context ended in the wait after such a failure, its cause.
pub with_retry-IsRetried :
    (max_attempts : ℕ) (idempotent : Bool) (retryable : Option (Failure → Bool))
    (handler : ℕ → Outcome) (sleep : ℕ → Option String)
    → IsRetried
        (may_repeat idempotent retryable)
        handler
        sleep
        0
        (attempts_of max_attempts)
        (with_retry max_attempts idempotent retryable handler sleep)
unfolding with_retry
with_retry-IsRetried n false retryable handler sleep =
    return_at-IsRetried (may_repeat false retryable) handler sleep 0 (attempts_of n) (positive n)
      (inl refl)
with_retry-IsRetried n true none handler sleep =
    return_at-IsRetried (may_repeat true none) handler sleep 0 (attempts_of n) (positive n)
      (inl refl)
with_retry-IsRetried n true (some retryable) handler sleep =
    attempt_from-IsRetried retryable handler sleep (attempts_of n - 1) 0 (attempts_of n)
      (omega (arith, positive n))
