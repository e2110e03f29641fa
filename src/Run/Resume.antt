-- ===== src/Run/Resume.antt =====
-- run.go: the transcript that a run starts from, made from that of an earlier one.
use wombat_go.Common.{
  String, true, false, not, List, [], ◌∷◌, ◌++◌, Option, none, some, is_empty, contains, ◌==◌,
  if◌then◌else◌,
}
use wombat_go.Llm.{
  ToolUseId, role_assistant, ContentBlock, text, tool_result, Message, ToolUse, tool_uses,
}
use wombat_go.Convo.{dangling, push_user_text, push_tool_results, close_dangling}
use wombat_go.Tool.{Def, find_pause}

-- The input of a run is its messages.
unfoldable pub answers_for : ToolUseId → String → List ToolUseId → List ContentBlock
answers_for id answer [] = []
answers_for id answer (p ∷ pending) =
    (if p == id
      then tool_result p answer false
      else tool_result p
          "not run: the agent stopped to ask the user before this call was dispatched" true)
    ∷ answers_for id answer pending

unfoldable pub answer_pause : List Message → ToolUseId → String → List Message
unfolding answers_for
answer_pause prior id answer =
    let pending = dangling prior in
    push_tool_results prior (
      answers_for id answer pending
      ++ (if contains pending id then [] else tool_result id answer false ∷ []))

unfoldable pub then_instruct : List Message → String → List Message
then_instruct prior instruction =
    if not (is_empty (dangling prior))
    then close_dangling prior "(cancelled)" (text instruction ∷ [])
    else push_user_text prior instruction

abbrev pub last_turn : List Message → Option Message
last_turn [] = none
last_turn (m ∷ []) = some m
last_turn (m ∷ n ∷ c) = last_turn (n ∷ c)

-- The first call of the last turn that asks the user.
unfoldable pub pause_in : (String → Option Def) → Option Message → Option ToolUse
pause_in find none = none
pause_in find (some last) =
    if not (last.role == role_assistant) then none else find_pause find (tool_uses last.content)

unfoldable pub pending_pause : List Message → (String → Option Def) → Option ToolUse
unfolding pause_in
pending_pause prior find =
    if is_empty (dangling prior) then none else pause_in find (last_turn prior)

abbrev pub resume_with : List Message → String → Option ToolUse → List Message
resume_with prior instruction (some u) = answer_pause prior u.id instruction
resume_with prior instruction none = then_instruct prior instruction

unfoldable pub resume : List Message → String → (String → Option Def) → List Message
unfolding pending_pause answer_pause then_instruct
resume prior instruction find =
    if instruction == "" then prior else resume_with prior instruction (pending_pause prior find)
