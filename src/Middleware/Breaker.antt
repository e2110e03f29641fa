-- ===== src/Middleware/Breaker.antt =====
-- `WithCircuitBreaker`, as its two critical sections: the look before a call, and the count after
-- it. Between the two any other call may do either.
pub mod Streaks
use wombat_go.Common.{
  ℕ, zero, suc, ◌+◌, Bool, true, false, ◌&&◌, ◌||◌, String, List, [], ◌∷◌, Option, none, some, ltb,
  leb, ◌=?◌, ◌==◌, if◌then◌else◌,
}
use wombat_go.Middleware.{Failure, Outcome, failing, circuit_open, is_caller_fault}

-- `open_until` is a time; the zero `time.Time` is 0, before every clock.
pub record BreakerState : Type 0 where
  pub failures : ℕ
  pub open_until : ℕ

abbrev pub closed : BreakerState
closed = record { failures = 0; open_until = 0 }

-- A name that the map lacks has the state that the code adds for it.
abbrev pub Breakers : Type 0
Breakers = String → BreakerState

unfoldable pub no_breakers : Breakers
no_breakers name = closed

abbrev pub set_breaker : String → BreakerState → Breakers → Breakers
set_breaker name b st x = if x == name then b else st x

-- `remaining > 0`.
unfoldable pub refuses : BreakerState → ℕ → Bool
refuses b now = ltb now b.open_until

-- What an outcome says of the tool.
pub data Verdict : Type 0 where
  succeeded counted excused : Verdict

unfoldable pub verdict_of : Option Failure → Bool → Verdict
unfolding is_caller_fault
verdict_of none ended = succeeded
verdict_of (some e) ended = if ended || is_caller_fault e then excused else counted

-- The section after the call.
unfoldable pub count : ℕ → ℕ → ℕ → Verdict → BreakerState → BreakerState
count threshold cooldown now succeeded b = closed
count threshold cooldown now excused b = b
count threshold cooldown now counted b =
    if leb threshold (b.failures + 1)
    then record { failures = 0; open_until = now + cooldown }
    else record b { failures = b.failures + 1 }

abbrev pub settle : ℕ → ℕ → ℕ → String → Verdict → Breakers → Breakers
settle threshold cooldown now name v st =
    set_breaker name (count threshold cooldown now v (st name)) st

-- One call that nothing interrupts, from `now` to `later`: whether the handler ran, the outcome,
-- and the states.
pub record Called : Type 0 where
  pub ran : Bool
  pub outcome : Outcome
  pub breakers : Breakers

-- Whether the breaker is disabled, and whether it refuses.
abbrev pub run_or_refuse : Bool → Bool → Outcome → Breakers → Breakers → Called
run_or_refuse true refused answer st st' = record { ran = true; outcome = answer; breakers = st }
run_or_refuse false true answer st st' = record {
  ran = false;
  outcome = failing circuit_open;
  breakers = st;
}
run_or_refuse false false answer st st' = record { ran = true; outcome = answer; breakers = st' }

unfoldable pub with_circuit_breaker : ℕ → ℕ → String → ℕ → ℕ → Bool → Outcome → Breakers → Called
unfolding refuses count verdict_of
with_circuit_breaker threshold cooldown name now later ended answer st =
    run_or_refuse ((threshold =? 0) || (cooldown =? 0)) (refuses (st name) now) answer st
      (settle threshold cooldown later name (verdict_of answer.error ended) st)

-- The end of a call: when, of which tool, with which error, and whether the context had ended.
pub record Settled : Type 0 where
  pub at : ℕ
  pub name : String
  pub error : Option Failure
  pub ended : Bool

-- The ends of calls, the newest first.
unfoldable pub settle_all : ℕ → ℕ → List Settled → Breakers
unfolding no_breakers count verdict_of
settle_all threshold cooldown [] = no_breakers
settle_all threshold cooldown (s ∷ earlier) =
    settle threshold cooldown s.at s.name (verdict_of s.error s.ended)
      (settle_all threshold cooldown earlier)
