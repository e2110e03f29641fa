-- ===== src/Retry/Examples.antt =====
-- A policy of four attempts, and an upstream that is overloaded twice before it answers.
use wombat_go.Common.{ℕ, zero, suc, ◌*◌, ◌^◌, min, ◌≡◌, [], ◌∷◌, arith, none}
use wombat_go.Llm.{text, stop_end_turn, Response}
use wombat_go.Retry.{
  overloaded, ApiError, RetryPolicy, normalized, backoff, Answer, responded, api_failed, Upstream,
  with_retry,
}
use wombat_go.Retry.Backoff.{backoff-eq-min}
use wombat_go.Retry.Attempts.{Tried, with_retry-Tried}

abbrev policy : RetryPolicy
policy = record { max_attempts = 4; base = 1000000000; longest = 30000000000 }

abbrev busy : ApiError
busy = record { class = overloaded; status = 529; message = []; retry_after = 5 }

abbrev done : Response
done = record { content = text "done" ∷ []; stop_reason = stop_end_turn }

abbrev answers : ℕ → Answer
answers zero = api_failed busy
answers (suc zero) = api_failed busy
answers (suc (suc n)) = responded done

abbrev upstream : Upstream
upstream = record { answer = answers; ended = λ k. none; ends_in = λ k d. none }

abbrev no_jitter : ℕ → ℕ → ℕ
no_jitter attempt d = 0

backoff-eq-min_example :
    backoff policy 70 ≡ min ((normalized policy).base * 2 ^ 70) (normalized policy).longest
unfolding normalized
backoff-eq-min_example = backoff-eq-min policy 70 (omega arith)

with_retry-Tried_example :
    Tried (normalized policy) no_jitter upstream 0 4 (with_retry policy no_jitter upstream)
with_retry-Tried_example = with_retry-Tried policy no_jitter upstream
