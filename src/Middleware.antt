-- ===== src/Middleware.antt =====
-- tool/middleware.go and tool/fault.go: the middleware around a tool's handler.
--
-- Errors are the classes that the middleware tells apart. The handler, the clock, the end of the
-- context and `encoding/json` are arguments. Each critical section is one step; a state per tool
-- name is a function of the name. Logging is left out.
pub mod Breaker
pub mod Repeats
pub mod Clipping
pub mod Retrying
mod Examples
use wombat_go.Common.{
  ℕ, zero, suc, ◌+◌, ◌-◌, Bool, true, false, not, ◌&&◌, ◌||◌, String, List, [], ◌∷◌, Option, none,
  some, ltb, leb, ◌=?◌, ◌==◌, is_empty, if◌then◌else◌,
}
use wombat_go.Paths.{Text}

-- What a handler's error is: of the tool, with its text and whether `CallerFault()` blames the
-- caller; the sentinels; the cause of an ended context, alone or with what the tool reported; and
-- an error that `WithDedupRepeats` wraps.
pub data Failure : Type 0 where
  of_tool : String → Bool → Failure
  invalid_input : Failure
  circuit_open : Failure
  ended_by : String → Failure
  ended_reporting : String → String → Failure
  repeated : Failure → ℕ → Failure

-- `IsCallerFault`; `errors.As` looks through what wraps.
unfoldable pub is_caller_fault : Failure → Bool
is_caller_fault (of_tool text blames) = blames
is_caller_fault invalid_input = true
is_caller_fault circuit_open = false
is_caller_fault (ended_by cause) = false
is_caller_fault (ended_reporting cause text) = false
is_caller_fault (repeated e n) = is_caller_fault e

-- A handler's `(string, error)`.
pub record Outcome : Type 0 where
  pub output : Text
  pub error : Option Failure

abbrev pub failing : Failure → Outcome
failing e = record { output = []; error = some e }

-- `WithValidation`: `decodes` is whether the input is a JSON object.
unfoldable pub with_validation : (Text → Bool) → (Text → Outcome) → Text → Outcome
with_validation decodes next input =
    if not (is_empty input) && not (decodes input) then failing invalid_input else next input

-- The budget of `WithTimeout`; `none` is no cap. A duration that is not positive is 0.
unfoldable pub budget_of : ℕ → ℕ → Option ℕ
budget_of declared fallback =
    if ltb 0 declared then some declared else if ltb 0 fallback then some fallback else none

-- Of an error, what decides whether its text is kept: its text, and whether it is the cause, or a
-- deadline, or a cancellation.
pub record Reported : Type 0 where
  pub text : String
  pub is_cause : Bool
  pub is_deadline : Bool
  pub is_canceled : Bool

-- The error that `WithTimeout` returns once the context has ended.
unfoldable pub timeout_failure : String → Reported → Failure
timeout_failure cause r =
    if not (r.text == "") && not r.is_cause && not r.is_deadline && not r.is_canceled
    then ended_reporting cause r.text
    else ended_by cause

abbrev pub normalise : Option String → (Failure → Reported) → Outcome → Outcome
normalise none report o = o
normalise (some cause) report o = elim o.error [
  | none ↦ o
  | some e ↦ failing (timeout_failure cause (report e))
]

-- `WithTimeout`; `ended` is the cause of the context after the call, with the deadline or without.
unfoldable pub with_timeout :
    ℕ → ℕ → (Failure → Reported) → (Option ℕ → Outcome × Option String) → Outcome
unfolding budget_of timeout_failure
with_timeout fallback declared report next = elim (budget_of declared fallback) [
  | none ↦ (next none).0
  | some budget ↦ normalise (next (some budget)).1 report (next (some budget)).0
]
