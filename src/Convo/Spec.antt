-- ===== src/Convo/Spec.antt =====
-- What a transcript must be for a provider to accept it, written without the loop of
-- `Convo.Validate`: the turns alternate, tool calls ride in assistant turns and results in user
-- turns, each turn answers exactly the calls of the turn before it, and no id is used twice.
use wombat_go.Common.{true, ◌≡◌, ◌≢◌, List, [], ◌∷◌, ◌++◌, contains, distinct}
use wombat_go.Llm.{
  Role, ToolUseId, role_user, role_assistant, ContentBlock, text, tool_use, tool_result, thinking,
}
use wombat_go.Convo.{Convo}

-- The ids that the blocks of a turn call, and those that they answer.
abbrev pub use_ids : List ContentBlock → List ToolUseId
use_ids [] = []
use_ids (tool_use id name input ∷ bs) = id ∷ use_ids bs
use_ids (tool_result id content is_error ∷ bs) = use_ids bs
use_ids (text t ∷ bs) = use_ids bs
use_ids (thinking t signature ∷ bs) = use_ids bs

abbrev pub result_ids : List ContentBlock → List ToolUseId
result_ids [] = []
result_ids (tool_result id content is_error ∷ bs) = id ∷ result_ids bs
result_ids (tool_use id name input ∷ bs) = result_ids bs
result_ids (text t ∷ bs) = result_ids bs
result_ids (thinking t signature ∷ bs) = result_ids bs

-- Every id that the transcript calls.
abbrev pub all_uses : Convo → List ToolUseId
all_uses [] = []
all_uses (m ∷ c) = use_ids m.content ++ all_uses c

abbrev pub Fits : Role → ContentBlock → Type 0
Fits r (tool_use id name input) = r ≡ role_assistant
Fits r (tool_result id content is_error) = r ≡ role_user
Fits r (text t) = Unit
Fits r (thinking t signature) = Unit

abbrev pub Placed : Role → List ContentBlock → Type 0
Placed r [] = Unit
Placed r (b ∷ bs) = Fits r b × Placed r bs

-- The results are those of the calls, each once.
pub record Answers (results uses : List ToolUseId) : Type 0 where
  pub once : distinct results ≡ true
  pub same : (id : ToolUseId) → contains results id ≡ contains uses id

-- The turns `c` may follow a turn of role `r` that called `uses`.
abbrev pub Follows : Role → List ToolUseId → Convo → Type 0
Follows r uses [] = Unit
Follows r uses (m ∷ c) =
    (m.role ≢ r)
    × Placed m.role m.content
    × Answers (result_ids m.content) uses
    × Follows m.role (use_ids m.content) c

-- The role of the last turn, and its calls.
abbrev pub end_role : Role → Convo → Role
end_role r [] = r
end_role r (m ∷ c) = end_role m.role c

abbrev pub end_uses : List ToolUseId → Convo → List ToolUseId
end_uses uses [] = uses
end_uses uses (m ∷ c) = end_uses (use_ids m.content) c

abbrev pub Opens : Convo → Type 0
Opens [] = ⊥
Opens (m ∷ c) = m.role ≡ role_user

-- Well formed up to its end, where calls may still wait for their results.
pub record IsOpen (c : Convo) : Type 0 where
  pub opens : Opens c
  pub follows : Follows role_assistant [] c
  pub unique : distinct (all_uses c) ≡ true

pub record IsValid (c : Convo) : Type 0 where
  pub before : IsOpen c
  pub settled : end_uses [] c ≡ []
