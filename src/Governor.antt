-- ===== src/Governor.antt =====
-- governor/governor.go: the budget that a run and its sub-agents share.
--
-- The mutex makes each method one step, so concurrent use is a sequence of steps. A limit that is
-- zero or negative means "no limit" in the code; here it is 0. The counters are Go's int without
-- its wrap-around: none reaches 2^63 by ones. Money is a float64 in the code and a parameter here.
-- `Progress` and `NoticeAt`, which compute fractions in float64, are not modelled.
pub mod Bounds
pub mod Counts
pub mod Causes
pub mod Loops
mod Examples
use wombat_go.Common.{
  ℕ, zero, suc, ◌+◌, ◌-◌, String, Bool, true, false, ◌&&◌, ◌≡◌, List, [], ◌∷◌, Option, none, some,
  ltb, leb, ◌==◌, if◌then◌else◌,
}

-- What the budget does with money: `+=`, `> 0` and `>=`, and that nothing spent is below a cap.
pub record Money (M : Type 0) : Type 0 where
  pub nothing : M
  pub add : M → M → M
  pub is_positive : M → Bool
  pub at_least : M → M → Bool
  pub nothing_below : (cap : M) → is_positive cap ≡ true → at_least nothing cap ≡ false

-- Why the context ended; `released` is the `CancelFunc`.
pub data Cause : Type 0 where
  budget_exhausted step_limit wall_clock tool_call_limit tool_loop released : Cause

-- `Limits` without `Wall`, which is the deadline of the context.
pub record Limits (M : Type 0) : Type 0 where
  pub cost : M
  pub steps : ℕ
  pub tool_calls : ℕ
  pub subagent_depth : ℕ
  pub repeated_tool_calls : ℕ

pub record Tokens : Type 0 where
  pub input : ℕ
  pub output : ℕ
  pub cache_write : ℕ
  pub cache_read : ℕ

abbrev pub no_tokens : Tokens
no_tokens = record { input = 0; output = 0; cache_write = 0; cache_read = 0 }

abbrev pub add_tokens : Tokens → Tokens → Tokens
add_tokens a b = record {
  input = a.input + b.input;
  output = a.output + b.output;
  cache_write = a.cache_write + b.cache_write;
  cache_read = a.cache_read + b.cache_read;
}

-- `cause` is `context.Cause` of the governed context.
pub record Budget (M : Type 0) : Type 0 where
  pub limits : Limits M
  pub cause : Option Cause
  pub usd : M
  pub calls : ℕ
  pub steps : ℕ
  pub tool_calls : ℕ
  pub depth : ℕ
  pub tokens : Tokens
  pub last_call : String
  pub repeat_run : ℕ

-- A context is cancelled once: the first cause stays.
abbrev pub first_cause : Cause → Option Cause → Option Cause
first_cause reason none = some reason
first_cause reason (some earlier) = some earlier

-- `used >= limit`, where there is a limit.
abbrev pub reached : ℕ → ℕ → Bool
reached limit used = ltb 0 limit && leb limit used

module _ {M : Type 0} where
  abbrev pub abort : Cause → Budget M → Budget M
  abort reason b = record b { cause = first_cause reason b.cause }

  abbrev pub abort_if : Bool → Cause → Budget M → Budget M
  abort_if true reason b = abort reason b
  abort_if false reason b = b

  unfoldable pub step : Budget M → Budget M
  step b =
      let b' : Budget M = record b { steps = b.steps + 1 } in
      abort_if (reached b.limits.steps (b.steps + 1)) step_limit b'

  -- The lines on the key: a call without a key ends the run of equal calls.
  abbrev pub note_key : String → Budget M → Budget M
  note_key key b =
      if key == ""
      then record b { last_call = ""; repeat_run = 0 }
      else if key == b.last_call
      then record b { repeat_run = b.repeat_run + 1 }
      else record b { last_call = key; repeat_run = 1 }

  unfoldable pub add_tool_call : String → Budget M → Budget M
  add_tool_call key b =
      let counted =
        abort_if (reached b.limits.tool_calls (b.tool_calls + 1)) tool_call_limit
          (record b { tool_calls = b.tool_calls + 1 }) in
      let noted = note_key key counted in
      if key == ""
      then noted
      else abort_if (reached b.limits.repeated_tool_calls noted.repeat_run) tool_loop noted

  unfoldable pub enter_subagent : Budget M → Bool × Budget M
  enter_subagent b =
      if reached b.limits.subagent_depth b.depth
      then (false, b)
      else (true, record b { depth = b.depth + 1 })

  unfoldable pub exit_subagent : Budget M → Budget M
  exit_subagent b = if ltb 0 b.depth then record b { depth = b.depth - 1 } else b

  unfoldable pub add_call : Money M → M → Tokens → Budget M → Budget M
  add_call money usd tokens b =
      let spent = money.add b.usd usd in
      abort_if (money.is_positive b.limits.cost && money.at_least spent b.limits.cost)
        budget_exhausted
        (record b { usd = spent; calls = b.calls + 1; tokens = add_tokens b.tokens tokens })

  -- `WithBudget`.
  unfoldable pub with_budget : Money M → Limits M → Budget M
  with_budget money limits = record {
    limits = limits;
    cause = none;
    usd = money.nothing;
    calls = 0;
    steps = 0;
    tool_calls = 0;
    depth = 0;
    tokens = no_tokens;
    last_call = "";
    repeat_run = 0;
  }

-- What happens to a budget: its methods, the deadline, and the `CancelFunc`.
pub data Act (M : Type 0) : Type 0 where
  called : M → Tokens → Act M
  stepped : Act M
  dispatched : String → Act M
  entered exited expired cancelled : Act M

module _ {M : Type 0} (money : Money M) where
  unfoldable pub perform : Act M → Budget M → Budget M
  unfolding step add_tool_call enter_subagent exit_subagent add_call
  perform (called usd tokens) b = add_call money usd tokens b
  perform stepped b = step b
  perform (dispatched key) b = add_tool_call key b
  perform entered b = (enter_subagent b).1
  perform exited b = exit_subagent b
  perform expired b = abort wall_clock b
  perform cancelled b = abort released b

  unfoldable pub perform_all : List (Act M) → Budget M → Budget M
  unfolding perform
  perform_all [] b = b
  perform_all (a ∷ acts) b = perform_all acts (perform a b)
