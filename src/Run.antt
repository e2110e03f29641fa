-- ===== src/Run.antt =====
-- run.go: the agent loop.
--
-- What a run meets is a `World`: whether its context has ended, what the client returns to a
-- request and what the tools do. Events, spans and metrics are not modelled, nor is a panic of the
-- loop itself. The loop is recursion on the iterations that are left.
pub mod Turns
pub mod Yields
pub mod Loop
pub mod Bounds
pub mod Requests
pub mod Resume
pub mod Resuming
mod Examples
use Prim.Native.Char.{code}
use wombat_go.Common.{
  ℕ, zero, suc, ◌+◌, ◌-◌, ◌*◌, max, String, Bool, true, false, not, ◌&&◌, ◌||◌, List, [], ◌∷◌, ◌++◌,
  Option, none, some, Result, ok, err, is_empty, contains, codes, ltb, leb, ◌=?◌, ◌==◌,
  if◌then◌else◌,
}
use wombat_go.Llm.{
  ToolUseId, role_user, role_assistant, ContentBlock, text, tool_result, Message, user_text,
  ToolUse, RawMessage, StopReason, stop_end_turn, stop_tool_use, stop_max_tokens,
  stop_stop_sequence, stop_refusal, other_stop, Response, text_of, tool_uses,
}
use wombat_go.Convo.{
  Convo, ConvoError, dangling, push_user_text, push_assistant, push_tool_results, close_dangling,
  validate,
}
use wombat_go.Strategy.{ResultInfo, Results, Strategy}
use wombat_go.Paths.{trim_space}
use wombat_go.Tool.{Def, find_pause, find_terminal}
use wombat_go.Tool.Dispatch.{CallResult, Handler, dispatch, result_blocks}

-- The schema that is parsed from the input of a pause is left as that input.
pub data Outcome : Type 0 where
  answered : String → Outcome
  paused : ToolUseId → RawMessage → Outcome
  submitted : String → RawMessage → Outcome

-- The errors of a run; `ended` and `call_failed` carry the text of a cause or an error.
pub data RunError : Type 0 where
  invalid_transcript : ConvoError → RunError
  ended call_failed refused unexpected_stop : String → RunError
  max_iterations : ℕ → RunError
  max_tokens_reached no_tool_use : RunError
  empty_turn_error : ℕ → StopReason → ℕ → ℕ → RunError

-- The part of the configuration that the loop reads.
pub record Agent : Type 0 where
  pub max_iters : ℕ
  pub max_tokens : ℕ
  pub terminal : String
  pub force_last_n : ℕ
  pub strategy : Strategy
  pub find : String → Option Def
  pub turn_notice : ℕ → String

-- What one call of the client sends, as far as it is modelled.
pub record ChatRequest : Type 0 where
  pub messages : List Message
  pub forced : String

-- A response with the bytes of reasoning that streamed, or an error with the text that did.
pub data Reply : Type 0 where
  replied : Response → ℕ → Reply
  broken : String → String → Reply

-- The number of an iteration selects what happens in it. `ends i false` is asked at the head of
-- the loop, `ends i true` after `budget.Step`.
pub record World : Type 0 where
  pub ends : ℕ → Bool → Option String
  pub reply : ℕ → ChatRequest → Reply
  pub handler : ℕ → Handler

-- The fields of `Run` that the loop changes, and the requests sent so far, the newest first.
pub record State : Type 0 where
  pub convo : Convo
  pub results : Results
  pub empty_turns : ℕ
  pub sent : List ChatRequest

-- `r.finish`: an outcome, or an error.
abbrev pub Finish : Type 0
Finish = Result RunError Outcome

-- `strings.TrimRight(s, " \t\r\n")`.
abbrev pub is_line_space : ℕ → Bool
is_line_space c = (c =? 0x20) || (c =? 9) || (c =? 13) || (c =? 10)

unfoldable pub trim_right : String → String
trim_right String.[] = String.[]
trim_right (String.◌∷◌ c s) =
    if trim_right s == "" && is_line_space (code c) then "" else String.◌∷◌ c (trim_right s)

unfoldable pub with_notice : List Message → String → List Message
with_notice [] note = []
with_notice (m ∷ []) note =
    if m.role == role_user then record m { content = m.content ++ text note ∷ [] } ∷ [] else m ∷ []
with_notice (m ∷ n ∷ c) note = m ∷ with_notice (n ∷ c) note

-- The tool that the model is made to call, or "".
unfoldable pub tool_choice : Agent → ℕ → String
tool_choice a iter =
    if a.terminal == "" || (a.force_last_n =? 0)
    then ""
    else if leb (max (a.max_iters - a.force_last_n) 1) iter
    then a.terminal
    else ""

abbrev pub max_empty_turns : ℕ
max_empty_turns = 2

abbrev pub ends_turn : StopReason → Bool
ends_turn stop_end_turn = true
ends_turn stop_stop_sequence = true
ends_turn stop_tool_use = false
ends_turn stop_max_tokens = false
ends_turn stop_refusal = false
ends_turn (other_stop s) = false

unfoldable pub empty_turn : Response → Bool
empty_turn resp =
    ends_turn resp.stop_reason
    && (is_empty (trim_space (codes (text_of resp.content))) && is_empty (tool_uses resp.content))

-- `len` of a text: its bytes in UTF-8.
abbrev pub byte_count : List ℕ → ℕ
byte_count [] = 0
byte_count (c ∷ s) =
    (if ltb c 0x80 then 1 else if ltb c 0x800 then 2 else if ltb c 0x10000 then 3 else 4)
    + byte_count s

abbrev pub note_results : List CallResult → Results → Results
note_results [] rs = rs
note_results (r ∷ calls) rs =
    note_results calls (
      (r.use_id, record { tool = r.name; tags = r.tags; bytes = byte_count (codes r.output) }) ∷ rs)

abbrev pub budget_exhausted : Agent → ℕ → Bool
budget_exhausted a thought = ltb 0 a.max_tokens && leb (2 * a.max_tokens) thought

-- The branch for `tool_use`: a terminal tool, a tool that pauses, or the dispatch.
unfoldable pub act :
    Agent → Handler → State → List ToolUse → Option ToolUse → Option ToolUse → State × Option Finish
act a handler s uses (some t) pause = (s, some (ok (submitted t.name t.input)))
act a handler s uses none (some p) = (s, some (ok (paused p.id p.input)))
act a handler s uses none none =
    let results = dispatch a.find handler uses in
    (
      record s {
        convo = push_tool_results s.convo (result_blocks results);
        results = note_results results s.results;
      },
      none,
    )

unfoldable pub act_on : Agent → Handler → State → List ToolUse → State × Option Finish
unfolding act
act_on a handler s uses =
    if is_empty uses
    then (s, some (err no_tool_use))
    else act a handler s uses (find_terminal a.find uses) (find_pause a.find uses)

-- The `switch resp.StopReason`; the transcript already holds the response.
unfoldable pub settle_turn :
    Agent → Handler → State → List ContentBlock → StopReason → State × Option Finish
unfolding act_on
settle_turn a handler s content stop_end_turn = (s, some (ok (answered (text_of content))))
settle_turn a handler s content stop_stop_sequence = (s, some (ok (answered (text_of content))))
settle_turn a handler s content stop_max_tokens = (s, some (err max_tokens_reached))
settle_turn a handler s content stop_refusal = (s, some (err (refused (text_of content))))
settle_turn a handler s content stop_tool_use = act_on a handler s (tool_uses content)
settle_turn a handler s content (other_stop r) = (s, some (err (unexpected_stop r)))

-- What the loop does with the client's reply.
unfoldable pub take_reply : Agent → Handler → State → Reply → State × Option Finish
unfolding settle_turn empty_turn
take_reply a handler s (broken error seen) =
    let partial = trim_right seen in
    (
      if partial == "" then s else record s { convo = push_assistant s.convo (text partial ∷ []) },
      some (err (call_failed error)),
    )
take_reply a handler s (replied resp thought) =
    let attempts = s.empty_turns + 1 in
    if empty_turn resp
    then (
      record s { empty_turns = attempts },
      if budget_exhausted a thought || ltb max_empty_turns attempts
          then some (err (empty_turn_error attempts resp.stop_reason thought a.max_tokens))
          else none,
    )
    else settle_turn a handler
        (record s { convo = push_assistant s.convo resp.content; empty_turns = 0 }) resp.content
        resp.stop_reason

-- The request of an iteration.
unfoldable pub request_of : Agent → ℕ → State → ChatRequest
unfolding with_notice tool_choice
request_of a iter s =
    let msgs = a.strategy (record { messages = s.convo; results = s.results }) in
    let note = a.turn_notice iter in
    record {
      messages = if note == "" then msgs else with_notice msgs note;
      forced = tool_choice a iter;
    }

unfoldable pub iterate : Agent → World → ℕ → State → State × Option Finish
unfolding take_reply request_of
iterate a w iter s =
    let req = request_of a iter s in
    take_reply a (w.handler iter) (record s { sent = req ∷ s.sent }) (w.reply iter req)

-- `if ctx.Err() != nil`, and what follows it.
abbrev pub stop_or : Option String → State → State × Finish → State × Finish
stop_or (some cause) s rest = (s, err (ended cause))
stop_or none s rest = rest

-- `if stop`, and the iterations after this one.
abbrev pub carry_on : Option Finish → State → State × Finish → State × Finish
carry_on (some finish) s rest = (s, finish)
carry_on none s rest = rest

-- Iterations that are left, and the number of the next one.
unfoldable pub loop_from : Agent → World → ℕ → ℕ → State → State × Finish
unfolding iterate
loop_from a w zero iter s = stop_or (w.ends iter false) s (s, err (max_iterations a.max_iters))
loop_from a w (suc left) iter s =
    let turn = iterate a w iter s in
    stop_or (w.ends iter false) s
      (stop_or (w.ends iter true) s (carry_on turn.1 turn.0 (loop_from a w left (iter + 1) turn.0)))

abbrev pub start_state : List Message → State
start_state msgs = record { convo = msgs; results = []; empty_turns = 0; sent = [] }

-- The loop, unless the transcript does not validate.
abbrev pub begin : Agent → World → List Message → Result ConvoError (Unit {0}) → State × Finish
begin a w msgs (err e) = (start_state msgs, err (invalid_transcript e))
begin a w msgs (ok u) = loop_from a w a.max_iters 1 (start_state msgs)

-- `Agent.Run`.
unfoldable pub run : Agent → World → List Message → State × Finish
unfolding loop_from
run a w msgs = begin a w msgs (validate msgs)
