-- ===== src/Run/Resuming.antt =====
-- `Resume`: every transcript that a run leaves can be carried on.
use wombat_go.Common.{
  ℕ, String, true, false, not, ◌≡◌, refl, sym, ap, subst, ◌∙◌, inl, inr, List, [], ◌∷◌, arith,
  Option, none, some, ok, append-nil, is_empty, contains, ◌==◌, Bool-cases, if◌then◌else◌,
}
use wombat_go.Llm.{
  ToolUseId, role_user, role_assistant, text, Message, user_text, ToolUse, tool_uses,
}
use wombat_go.Convo.{Convo, append, dangling, push_user_text, push_tool_results, validate}
use wombat_go.Convo.Spec.{use_ids, result_ids, all_uses, Placed, end_uses, IsOpen}
use wombat_go.Convo.Validation.{validate-IsValid}
use wombat_go.Convo.Extend.{Answers-nil}
use wombat_go.Convo.Closing.{dangling-eq-end_uses, end_uses-distinct}
use wombat_go.Convo.Repair.{append-IsOpen, validate-close_dangling}
use wombat_go.Tool.{Def, find_pause}
use wombat_go.Run.{Agent, World, run}
use wombat_go.Run.Resume.{
  answers_for, answer_pause, then_instruct, last_turn, pause_in, pending_pause, resume_with, resume,
}
use wombat_go.Run.Turns.{IsProvider, IsUnissued, call_ids-tool_uses}
use wombat_go.Run.Yields.{find_capable-contains}
use wombat_go.Run.Loop.{run-Leaves}

answers_for_lem :
    (id : ToolUseId) (answer : String) (pending : List ToolUseId)
    → (use_ids (answers_for id answer pending) ≡ [])
      × (result_ids (answers_for id answer pending) ≡ pending)
      × Placed role_user (answers_for id answer pending)
unfolding answers_for
answers_for_lem id answer [] = (refl, refl, tt)
answers_for_lem id answer (p ∷ pending) =
    let ih = answers_for_lem id answer pending in
    elim (Bool-cases (p == id)) [
      | inl e ↦ rw e (ih.0, ap (◌∷◌ p) ih.1, (refl, ih.2))
      | inr e ↦ rw e (ih.0, ap (◌∷◌ p) ih.1, (refl, ih.2))
    ]

-- `AnswerPause` for a call that waits answers it and every other call that waits, and the
-- transcript then passes `Validate`.
pub validate-answer_pause :
    (prior : List Message) (id : ToolUseId) (answer : String)
    → IsOpen prior
    → contains (dangling prior) id ≡ true
    → validate (answer_pause prior id answer) ≡ ok tt
unfolding answer_pause push_tool_results
validate-answer_pause prior id answer v h =
    let pending = dangling prior in
    let (none_called, results, placed) = answers_for_lem id answer pending in
    let m : Message = record { role = role_user; content = answers_for id answer pending } in
    let d = dangling-eq-end_uses prior v in
    let (open_end, last) = append-IsOpen prior m v (
      placed,
      rw (results, d) (record { once = end_uses-distinct prior v; same = λ x. refl }),
      rw none_called (rw (append-nil (all_uses prior)) v.unique),
    ) in
    rw (h, append-nil (answers_for id answer pending))
      ((validate-IsValid (append prior m)).1
        (record { before = open_end; settled = last ∙ none_called }))

pub validate-then_instruct :
    (prior : List Message) (instruction : String)
    → IsOpen prior
    → validate (then_instruct prior instruction) ≡ ok tt
unfolding then_instruct push_user_text
validate-then_instruct prior instruction v = elim (Bool-cases (is_empty (dangling prior))) [
  | inr busy ↦ rw busy (
      validate-close_dangling prior "(cancelled)" (text instruction ∷ []) v
        (record { no_uses = refl; no_results = refl }))
  | inl idle ↦
      let settled : end_uses [] prior ≡ [] =
        sym (dangling-eq-end_uses prior v) ∙ ground (arith, idle) in
      let (open_end, last) =
        append-IsOpen prior (user_text instruction) v
          ((tt, tt), rw settled Answers-nil, rw (append-nil (all_uses prior)) v.unique) in
      rw idle (
        (validate-IsValid (append prior (user_text instruction))).1
          (record { before = open_end; settled = last }))
]

last_turn-end_uses :
    (c : Convo) (uses : List ToolUseId) (m : Message)
    → last_turn c ≡ some m
    → end_uses uses c ≡ use_ids m.content
last_turn-end_uses [] uses m h = absurd (ground arith)
last_turn-end_uses (n ∷ []) uses m h = ground arith
last_turn-end_uses (n ∷ k ∷ c) uses m h = last_turn-end_uses (k ∷ c) (use_ids n.content) m h

pause_in-find_pause :
    (find : String → Option Def) (last : Message) (u : ToolUse)
    → pause_in find (some last) ≡ some u
    → find_pause find (tool_uses last.content) ≡ some u
unfolding pause_in
pause_in-find_pause find last u h = elim (Bool-cases (last.role == role_assistant)) [
  | inl e ↦ sym (ap (λ b. if not b then none else find_pause find (tool_uses last.content)) e) ∙ h
  | inr e ↦ absurd (ground (arith, e))
]

-- The call that `PendingPause` finds waits for its result.
pending_pause-contains :
    (prior : List Message) (find : String → Option Def) (u : ToolUse)
    → IsOpen prior
    → pending_pause prior find ≡ some u
    → contains (dangling prior) u.id ≡ true
unfolding pending_pause
pending_pause-contains prior find u v h = elim (Bool-cases (is_empty (dangling prior))) [
  | inl e ↦ absurd (ground (arith, e))
  | inr e ↦
      in_last (last_turn prior) refl
        (sym (ap (λ b. if b then none else pause_in find (last_turn prior)) e) ∙ h)
]
  where
    in_last :
        (o : Option Message)
        → last_turn prior ≡ o
        → pause_in find o ≡ some u
        → contains (dangling prior) u.id ≡ true
    in_last none k g = absurd (unfold pause_in in ground arith)
    in_last (some last) k g =
        let found = pause_in-find_pause find last u g in
        subst (λ ids. contains ids u.id ≡ true)
          (call_ids-tool_uses last.content
            ∙ sym (last_turn-end_uses prior [] last k)
            ∙ sym (dangling-eq-end_uses prior v))
          (unfold find_pause in find_capable-contains find _ (tool_uses last.content) u found)

-- `Resume` with an instruction turns any transcript that is well formed up to its last turn into
-- one that passes `Validate`, whether a pause, other calls or nothing was waiting.
pub validate-resume :
    (prior : List Message) (instruction : String) (find : String → Option Def)
    → IsOpen prior
    → (instruction == "") ≡ false
    → validate (resume prior instruction find) ≡ ok tt
unfolding resume
validate-resume prior instruction find v h = rw h (carried (pending_pause prior find) refl)
  where
    carried :
        (o : Option ToolUse)
        → pending_pause prior find ≡ o
        → validate (resume_with prior instruction o) ≡ ok tt
    carried none e = validate-then_instruct prior instruction v
    carried (some u) e =
        validate-answer_pause prior u.id instruction v (pending_pause-contains prior find u v e)

-- However a run ends that starts from a transcript that `Validate` accepts, if the model's replies
-- bring ids of their own in each iteration: with any instruction that is not empty, `Resume` makes
-- of the transcript that it leaves one that `Validate` accepts.
pub validate-resume-run :
    (a : Agent) (w : World) (issued : ℕ → List ToolUseId) (msgs : List Message)
    (instruction : String) (find : String → Option Def)
    → IsProvider w issued
    → validate msgs ≡ ok tt
    → IsUnissued issued 1 msgs
    → (instruction == "") ≡ false
    → validate (resume (run a w msgs).0.convo instruction find) ≡ ok tt
validate-resume-run a w issued msgs instruction find p h n k =
    validate-resume (run a w msgs).0.convo instruction find (run-Leaves a w issued msgs p h n).0 k
