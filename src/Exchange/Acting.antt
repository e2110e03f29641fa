-- ===== src/Exchange/Acting.antt =====
-- The agent loop over a client with `WithValidation`.
use wombat_go.Common.{
  ℕ, zero, suc, ◌+◌, Bool, true, false, ◌||◌, ◌≡◌, ◌≢◌, refl, ap, String, List, Result, Option,
  none, some, ok, err, is_empty, ltb, arith, Bool-cases, inl, inr, if◌then◌else◌,
}
use wombat_go.Llm.{
  ContentBlock, Message, ToolUse, StopReason, stop_end_turn, stop_tool_use, stop_max_tokens,
  stop_stop_sequence, stop_refusal, other_stop, Response, tool_uses,
}
use wombat_go.Convo.{ConvoError, validate}
use wombat_go.Tool.{find_pause, find_terminal}
use wombat_go.Tool.Dispatch.{Handler}
use wombat_go.Run.{
  Agent, World, State, Finish, no_tool_use, max_iterations, empty_turn_error, ChatRequest, Reply,
  replied, broken, max_empty_turns, budget_exhausted, empty_turn, act, act_on, settle_turn,
  take_reply, request_of, iterate, stop_or, carry_on, loop_from, start_state, begin, run,
}
use wombat_go.Exchange.{validate_response}
use wombat_go.Exchange.Checking.{validate_response_iff}

-- Every response of the client has passed `validateResponse`.
abbrev pub IsValidated : World → Type 0
IsValidated w =
    (iter : ℕ) (req : ChatRequest) (resp : Response) (thought : ℕ)
    → w.reply iter req ≡ replied resp thought
    → validate_response resp ≡ none

act_on-some :
    (a : Agent) (handler : Handler) (s : State) (us : List ToolUse)
    → is_empty us ≡ false
    → (act_on a handler s us).1 ≢ some (err no_tool_use)
unfolding act_on act
act_on-some a handler s us e h =
    on (find_terminal a.find us) (find_pause a.find us) (ground (arith, h, e))
  where
    on : (t p : Option ToolUse) → (act a handler s us t p).1 ≢ some (err no_tool_use)
    on (some t) p h = absurd (cc h)
    on none (some p) h = absurd (cc h)
    on none none h = absurd (cc h)

settle_turn-IsActionable :
    (a : Agent) (handler : Handler) (s : State) (content : List ContentBlock) (stop : StopReason)
    → (stop ≡ stop_tool_use → is_empty (tool_uses content) ≡ false)
    → (settle_turn a handler s content stop).1 ≢ some (err no_tool_use)
unfolding settle_turn
settle_turn-IsActionable a handler s content stop_end_turn f h = absurd (cc h)
settle_turn-IsActionable a handler s content stop_stop_sequence f h = absurd (cc h)
settle_turn-IsActionable a handler s content stop_max_tokens f h = absurd (cc h)
settle_turn-IsActionable a handler s content stop_refusal f h = absurd (cc h)
settle_turn-IsActionable a handler s content (other_stop r) f h = absurd (cc h)
settle_turn-IsActionable a handler s content stop_tool_use f h =
    act_on-some a handler s (tool_uses content) (f refl) h

take_reply-IsValidated :
    (a : Agent) (handler : Handler) (s : State) (r : Reply)
    → ((resp : Response) (thought : ℕ) → r ≡ replied resp thought → validate_response resp ≡ none)
    → (take_reply a handler s r).1 ≢ some (err no_tool_use)
unfolding take_reply
take_reply-IsValidated a handler s (broken error seen) f = λ h. absurd (cc h)
take_reply-IsValidated a handler s (replied resp thought) f = elim (Bool-cases (empty_turn resp)) [
  | inl e ↦ rw e (
      on (budget_exhausted a thought || ltb max_empty_turns (s.empty_turns + 1))
        (err (empty_turn_error (s.empty_turns + 1) resp.stop_reason thought a.max_tokens))
        (λ h. absurd (cc h)))
  | inr e ↦ rw e (
      settle_turn-IsActionable a handler _ resp.content resp.stop_reason
        (λ k. ((validate_response_iff resp).0 (f resp thought refl) k).0))
]
  where
    on :
        (b : Bool) (f : Finish)
        → f ≢ err no_tool_use
        → (if b then some f else none) ≢ some (err no_tool_use)
    on true f g = λ h. g (ground (arith, h))
    on false f g = λ h. absurd (cc h)

stop_or-no_tool_use :
    (o : Option String) (s : State) (rest : State × Finish)
    → rest.1 ≢ err no_tool_use
    → (stop_or o s rest).1 ≢ err no_tool_use
stop_or-no_tool_use none s rest f = f
stop_or-no_tool_use (some cause) s rest f = λ h. absurd (cc h)

carry_on-no_tool_use :
    (o : Option Finish) (s : State) (rest : State × Finish)
    → o ≢ some (err no_tool_use)
    → rest.1 ≢ err no_tool_use
    → (carry_on o s rest).1 ≢ err no_tool_use
carry_on-no_tool_use none s rest f g = g
carry_on-no_tool_use (some finish) s rest f g = λ h. f (ap some h)

loop_from-no_tool_use :
    (a : Agent) (w : World) (left iter : ℕ) (s : State)
    → IsValidated w
    → (loop_from a w left iter s).1 ≢ err no_tool_use
unfolding loop_from iterate
loop_from-no_tool_use a w zero iter s v =
    stop_or-no_tool_use (w.ends iter false) s (s, err (max_iterations a.max_iters))
      (λ h. absurd (cc h))
loop_from-no_tool_use a w (suc left) iter s v =
    let turn = iterate a w iter s in
    let rest = loop_from a w left (iter + 1) turn.0 in
    stop_or-no_tool_use (w.ends iter false) s _ (
      stop_or-no_tool_use (w.ends iter true) s _ (
        carry_on-no_tool_use turn.1 turn.0 rest
          (take_reply-IsValidated a (w.handler iter) _ (w.reply iter (request_of a iter s))
            (v iter (request_of a iter s)))
          (loop_from-no_tool_use a w left (iter + 1) turn.0 v)))

-- If every response of the client has passed the check of `WithValidation`, no run ends with the error
-- that a turn asked for tools and called none, whatever the transcript it starts from.
pub run-no_tool_use :
    (a : Agent) (w : World) (msgs : List Message)
    → IsValidated w
    → (run a w msgs).1 ≢ err no_tool_use
unfolding run
run-no_tool_use a w msgs v = on (validate msgs)
  where
    on : (r : Result ConvoError _) → (begin a w msgs r).1 ≢ err no_tool_use
    on (err e) = λ h. absurd (cc h)
    on (ok u) = loop_from-no_tool_use a w a.max_iters 1 (start_state msgs) v
