-- ===== src/Run/Loop.antt =====
-- The agent loop: what a run leaves behind.
use wombat_go.Common.{
  ℕ, zero, suc, ◌+◌, String, true, false, ◌≡◌, sym, subst, List, Option, none, some, ok, err,
}
use wombat_go.Llm.{ToolUseId, Message}
use wombat_go.Convo.{validate}
use wombat_go.Convo.Spec.{IsOpen, IsValid}
use wombat_go.Convo.Validation.{validate-IsValid}
use wombat_go.Run.{
  Agent, World, State, Finish, max_iterations, iterate, stop_or, carry_on, loop_from, start_state,
  begin, run,
}
use wombat_go.Run.Turns.{IsProvider, IsUnissued}
use wombat_go.Run.Yields.{Waits, Yields, iterate-Yields}

-- What a run leaves behind.
abbrev pub Leaves : State × Finish → Type 0
Leaves r = IsOpen r.0.convo × Waits r.0.convo r.1

stop_or-Leaves :
    (o : Option String) (s : State) (rest : State × Finish)
    → IsOpen s.convo
    → Leaves rest
    → Leaves (stop_or o s rest)
stop_or-Leaves none s rest v h = h
stop_or-Leaves (some cause) s rest v h = (v, tt)

carry_on-Leaves :
    (issued : ℕ → List ToolUseId) (iter : ℕ) (o : Option Finish) (s : State) (rest : State × Finish)
    → Yields issued iter s o
    → (IsValid s.convo → IsUnissued issued (iter + 1) s.convo → Leaves rest)
    → Leaves (carry_on o s rest)
carry_on-Leaves issued iter none s rest y h = h y.0 y.1
carry_on-Leaves issued iter (some finish) s rest y h = y

loop_from-Leaves :
    (a : Agent) (w : World) (issued : ℕ → List ToolUseId) (left iter : ℕ) (s : State)
    → IsProvider w issued
    → IsValid s.convo
    → IsUnissued issued iter s.convo
    → Leaves (loop_from a w left iter s)
unfolding loop_from
loop_from-Leaves a w issued zero iter s p v n =
    stop_or-Leaves (w.ends iter false) s (s, err (max_iterations a.max_iters)) v.before
      (v.before, tt)
loop_from-Leaves a w issued (suc left) iter s p v n =
    let turn = iterate a w iter s in
    let rest = loop_from a w left (iter + 1) turn.0 in
    stop_or-Leaves (w.ends iter false) s _ v.before (
      stop_or-Leaves (w.ends iter true) s _ v.before (
        carry_on-Leaves issued iter turn.1 turn.0 rest (iterate-Yields a w issued iter s p v n)
          (λ v' n'. loop_from-Leaves a w issued left (iter + 1) turn.0 p v' n')))

-- A run that starts from a transcript that `Validate` accepts leaves one that is well formed up to
-- its last turn, however it ends: the turns alternate, every result answers a call of the turn
-- before it, and no id is used twice; and where it paused, the call that it names still waits. The
-- condition is that the model's replies bring ids of their own in each iteration.
pub run-Leaves :
    (a : Agent) (w : World) (issued : ℕ → List ToolUseId) (msgs : List Message)
    → IsProvider w issued
    → validate msgs ≡ ok tt
    → IsUnissued issued 1 msgs
    → Leaves (run a w msgs)
unfolding run
run-Leaves a w issued msgs p h n =
    subst (λ r. Leaves (begin a w msgs r)) (sym h)
      (loop_from-Leaves a w issued a.max_iters 1 (start_state msgs) p ((validate-IsValid msgs).0 h)
        n)
