-- ===== src/Retry.antt =====
-- llm/errors.go and the retry middleware of llm/middleware.go.
--
-- A `time.Duration` that the policy uses is a number of nanoseconds; a negative one takes the
-- branches of 0 in the code. What `rand` adds to a wait is an argument, as are `strings.ToLower`,
-- the client, and the end of the context. The loop is recursion on the attempts that are left.
pub mod Backoff
pub mod Attempts
mod Examples
use wombat_go.Common.{
  ℕ, zero, suc, ◌+◌, ◌-◌, ◌*◌, ◌/◌, ◌%◌, ◌^◌, max, String, Bool, true, false, not, ◌&&◌, ◌||◌, List,
  [], ◌∷◌, Option, none, some, Result, ok, err, codes, ltb, leb, ◌=?◌, if◌then◌else◌,
}
use wombat_go.Llm.{Response}
use wombat_go.Paths.{Text, has_prefix}

-- The sentinels, in their order.
pub data FailureClass : Type 0 where
  rate_limit overloaded server transport bad_request auth not_found context_window : FailureClass

-- Without the transport cause, which only the text of the error shows.
pub record ApiError : Type 0 where
  pub class : FailureClass
  pub status : ℕ
  pub message : Text
  pub retry_after : ℕ

unfoldable pub is_retryable : FailureClass → Bool
is_retryable rate_limit = true
is_retryable overloaded = true
is_retryable server = true
is_retryable transport = true
is_retryable bad_request = false
is_retryable auth = false
is_retryable not_found = false
is_retryable context_window = false

unfoldable pub context_window_markers : List Text
context_window_markers =
    codes "context window"
    ∷ codes "input is too long"
    ∷ codes "prompt is too long"
    ∷ codes "exceeds the maximum"
    ∷ codes "max_tokens_to_sample"
    ∷ codes "too many tokens"
    ∷ codes "maximum context length"
    ∷ codes "context_length_exceeded"
    ∷ codes "reduce the length of the messages"
    ∷ []

-- `strings.Contains`.
abbrev pub contains_text : Text → Text → Bool
contains_text [] sub = has_prefix sub []
contains_text (c ∷ s) sub = has_prefix sub (c ∷ s) || contains_text s sub

abbrev pub contains_marker : Text → List Text → Bool
contains_marker body [] = false
contains_marker body (m ∷ markers) = contains_text body m || contains_marker body markers

-- The `switch` on the status but for success.
unfoldable pub class_of_status : (Text → Text) → ℕ → Text → FailureClass
unfolding context_window_markers
class_of_status to_lower status body =
    if status =? 400
    then (if contains_marker (to_lower body) context_window_markers
        then context_window
        else bad_request)
    else if (status =? 401) || (status =? 403)
    then auth
    else if status =? 404
    then not_found
    else if status =? 422
    then bad_request
    else if status =? 429
    then rate_limit
    else if status =? 529
    then overloaded
    else if leb 500 status
    then server
    else bad_request

-- `ClassifyStatus`; `none` is its panic on a success status.
unfoldable pub classify_status : (Text → Text) → ℕ → Text → ℕ → Option ApiError
unfolding class_of_status
classify_status to_lower status body retry_after =
    if leb 200 status && ltb status 300
    then none
    else some (record {
      class = class_of_status to_lower status body;
      status = status;
      message = body;
      retry_after = retry_after;
    })

-- `ClassifyTransport`.
abbrev pub classify_transport : ApiError
classify_transport = record { class = transport; status = 0; message = []; retry_after = 0 }

-- The fields but `Jitter`, which only scales what `rand` adds.
pub record RetryPolicy : Type 0 where
  pub max_attempts : ℕ
  pub base : ℕ
  pub longest : ℕ

-- One second, and thirty.
abbrev pub default_base : ℕ
default_base = 1000000000

abbrev pub default_longest : ℕ
default_longest = 30000000000

unfoldable pub normalized : RetryPolicy → RetryPolicy
normalized p =
    let base = if p.base =? 0 then default_base else p.base in
    let longest = if p.longest =? 0 then default_longest else p.longest in
    record p { base = base; longest = if ltb longest base then base else longest }

-- `d << n` and `d >> n` on an int64 that is not negative.
abbrev pub shift_left : ℕ → ℕ → ℕ
shift_left d n = (d * 2 ^ n) % 2 ^ 64

abbrev pub shift_right : ℕ → ℕ → ℕ
shift_right d n = d / 2 ^ n

unfoldable pub backoff : RetryPolicy → ℕ → ℕ
unfolding normalized
backoff p attempt =
    let q = normalized p in
    if attempt =? 0
    then q.base
    else if leb 63 attempt || ltb (shift_right q.longest attempt) q.base
    then q.longest
    else shift_left q.base attempt

-- `added` is what the jitter adds.
unfoldable pub delay : RetryPolicy → (ℕ → ℕ → ℕ) → ℕ → ℕ → ℕ
unfolding backoff
delay p added attempt hint =
    max (backoff p attempt) hint + added attempt (max (backoff p attempt) hint)

-- What a call returns: a response, an error of the API, or another error, as its text.
pub data Answer : Type 0 where
  responded : Response → Answer
  api_failed : ApiError → Answer
  other_failed : String → Answer
  stopped : String → Answer

-- `Retryable`, with the hint of `RetryAfter`.
abbrev pub retry_hint : Answer → Option ℕ
retry_hint (api_failed e) = if is_retryable e.class then some e.retry_after else none
retry_hint (responded r) = none
retry_hint (other_failed e) = none
retry_hint (stopped cause) = none

-- Around the client: its answer to each attempt, whether the context has ended after it, and
-- whether it ends during the wait.
pub record Upstream : Type 0 where
  pub answer : ℕ → Answer
  pub ended : ℕ → Option String
  pub ends_in : ℕ → ℕ → Option String

-- The answer of the middleware, the number of calls, and the waits.
pub record Retried : Type 0 where
  pub answer : Answer
  pub calls : ℕ
  pub waits : List ℕ

-- `sleepCtx`: a wait of nothing does not look at the context.
abbrev pub interrupted : Upstream → ℕ → ℕ → Option String
interrupted up attempt zero = none
interrupted up attempt (suc d) = up.ends_in attempt (suc d)

abbrev pub wait_then : Option String → ℕ → ℕ → Retried → Retried
wait_then (some cause) attempt d rest = record {
  answer = stopped cause;
  calls = attempt + 1;
  waits = d ∷ [];
}
wait_then none attempt d rest = record rest { waits = d ∷ rest.waits }

-- What follows a failed attempt that may be retried.
abbrev pub again : Option String → Upstream → ℕ → ℕ → Retried → Retried
again (some cause) up attempt d rest = record {
  answer = stopped cause;
  calls = attempt + 1;
  waits = [];
}
again none up attempt d rest = wait_then (interrupted up attempt d) attempt d rest

abbrev pub give_up : Answer → ℕ → Retried
give_up a attempt = record { answer = a; calls = attempt + 1; waits = [] }

abbrev pub retry_if : Option ℕ → RetryPolicy → (ℕ → ℕ → ℕ) → Upstream → ℕ → Retried → Retried
retry_if none p added up attempt rest = give_up (up.answer attempt) attempt
retry_if (some hint) p added up attempt rest =
    again (up.ended attempt) up attempt (delay p added attempt hint) rest

-- Attempts that are left after this one.
unfoldable pub retry_from : RetryPolicy → (ℕ → ℕ → ℕ) → Upstream → ℕ → ℕ → Retried
unfolding delay is_retryable
retry_from p added up zero attempt = give_up (up.answer attempt) attempt
retry_from p added up (suc left) attempt =
    retry_if (retry_hint (up.answer attempt)) p added up attempt
      (retry_from p added up left (attempt + 1))

-- `WithRetry`: no attempts, like one, call once.
unfoldable pub with_retry : RetryPolicy → (ℕ → ℕ → ℕ) → Upstream → Retried
unfolding retry_from
with_retry p added up = retry_from (normalized p) added up ((normalized p).max_attempts - 1) 0
