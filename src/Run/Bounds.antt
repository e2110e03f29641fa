-- ===== src/Run/Bounds.antt =====
-- How long a run lasts: the requests that the loop sends.
use wombat_go.Common.{
  ℕ, zero, suc, ◌+◌, ◌≤◌, String, true, false, ◌≡◌, refl, ap, inl, inr, List, ◌∷◌, arith, Option,
  none, some, Result, ok, err, is_empty, length, Bool-cases,
}
use wombat_go.Llm.{
  ContentBlock, Message, ToolUse, StopReason, stop_end_turn, stop_tool_use, stop_max_tokens,
  stop_stop_sequence, stop_refusal, other_stop, tool_uses,
}
use wombat_go.Convo.{ConvoError, validate}
use wombat_go.Tool.{find_pause, find_terminal}
use wombat_go.Tool.Dispatch.{Handler}
use wombat_go.Run.{
  Agent, World, State, Finish, Reply, replied, broken, max_iterations, act, act_on, settle_turn,
  take_reply, request_of, iterate, empty_turn, stop_or, carry_on, loop_from, start_state, begin,
  run,
}

act-sent :
    (a : Agent) (handler : Handler) (s : State) (uses : List ToolUse) (t p : Option ToolUse)
    → (act a handler s uses t p).0.sent ≡ s.sent
unfolding act
act-sent a handler s uses (some t) p = refl
act-sent a handler s uses none (some p) = refl
act-sent a handler s uses none none = refl

settle_turn-sent :
    (a : Agent) (handler : Handler) (s : State) (bs : List ContentBlock) (stop : StopReason)
    → (settle_turn a handler s bs stop).0.sent ≡ s.sent
unfolding settle_turn act_on
settle_turn-sent a handler s bs stop_end_turn = refl
settle_turn-sent a handler s bs stop_stop_sequence = refl
settle_turn-sent a handler s bs stop_max_tokens = refl
settle_turn-sent a handler s bs stop_refusal = refl
settle_turn-sent a handler s bs (other_stop r) = refl
settle_turn-sent a handler s bs stop_tool_use = elim (Bool-cases (is_empty (tool_uses bs))) [
  | inl e ↦ rw e refl
  | inr e ↦ rw e (
      act-sent a handler s (tool_uses bs) (find_terminal a.find (tool_uses bs))
        (find_pause a.find (tool_uses bs)))
]

pub take_reply-sent :
    (a : Agent) (handler : Handler) (s : State) (reply : Reply)
    → (take_reply a handler s reply).0.sent ≡ s.sent
unfolding take_reply
take_reply-sent a handler s (broken error seen) = ground arith
take_reply-sent a handler s (replied resp thought) = elim (Bool-cases (empty_turn resp)) [
  | inl e ↦ rw e refl
  | inr e ↦ rw e (settle_turn-sent a handler _ resp.content resp.stop_reason)
]

loop_from-sent :
    (a : Agent) (w : World) (left iter : ℕ) (s : State)
    → length (loop_from a w left iter s).0.sent ≤ left + length s.sent
unfolding loop_from iterate
loop_from-sent a w zero iter s = at_head (w.ends iter false)
  where
    at_head :
        (o : Option String)
        → length (stop_or o s (s, err (max_iterations a.max_iters))).0.sent ≤ 0 + length s.sent
    at_head none = omega arith
    at_head (some c) = omega arith
loop_from-sent a w (suc left) iter s =
    let req = request_of a iter s in
    let turn =
      take_reply a (w.handler iter) (record s { sent = req ∷ s.sent }) (w.reply iter req) in
    at_turn (w.ends iter false) (w.ends iter true) turn.0 turn.1
      (loop_from a w left (iter + 1) turn.0)
      (ap length
        (take_reply-sent a (w.handler iter) (record s { sent = req ∷ s.sent }) (w.reply iter req)))
      (loop_from-sent a w left (iter + 1) turn.0)
  where
    at_turn :
        (o o' : Option String) (t : State) (f : Option Finish) (rest : State × Finish)
        → length t.sent ≡ suc (length s.sent)
        → length rest.0.sent ≤ left + length t.sent
        → length (stop_or o s (stop_or o' s (carry_on f t rest))).0.sent ≤ suc left + length s.sent
    at_turn (some c) o' t f rest h k = omega arith
    at_turn none (some c) t f rest h k = omega arith
    at_turn none none t (some finish) rest h k = omega (arith, h)
    at_turn none none t none rest h k = omega (arith, h, k)

-- Whatever the model and the tools do, a run ends after at most as many requests as its
-- configuration allows iterations.
pub run-sent :
    (a : Agent) (w : World) (msgs : List Message) → length (run a w msgs).0.sent ≤ a.max_iters
unfolding run
run-sent a w msgs = begun (validate msgs)
  where
    begun : (r : Result ConvoError (Unit {0})) → length (begin a w msgs r).0.sent ≤ a.max_iters
    begun (err e) = omega arith
    begun (ok u) = omega (arith, loop_from-sent a w a.max_iters 1 (start_state msgs))
