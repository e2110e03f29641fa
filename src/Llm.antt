-- ===== src/Llm.antt =====
-- llm/llm.go: the provider-neutral vocabulary.
use wombat_go.Common.{String, ◌<>◌, Bool, List, [], ◌∷◌, ◌==◌, if◌then◌else◌}

-- `type Role string` and `type ToolUseID string` are open strings.
abbrev pub Role : Type 0
Role = String

abbrev pub ToolUseId : Type 0
ToolUseId = String

abbrev pub role_user : Role
role_user = "user"

abbrev pub role_assistant : Role
role_assistant = "assistant"

-- A `json.RawMessage` is carried as text.
abbrev pub RawMessage : Type 0
RawMessage = String

pub data ContentBlock : Type 0 where
  text : String → ContentBlock
  tool_use : ToolUseId → String → RawMessage → ContentBlock
  tool_result : ToolUseId → String → Bool → ContentBlock
  thinking : String → String → ContentBlock

pub record Message : Type 0 where
  pub role : Role
  pub content : List ContentBlock

abbrev pub user_text : String → Message
user_text s = record { role = role_user; content = text s ∷ [] }

-- The fields of `ToolUse`.
pub record ToolUse : Type 0 where
  pub id : ToolUseId
  pub name : String
  pub input : RawMessage

-- `type StopReason string`, an open string: `other_stop` is any text but those above it.
pub data StopReason : Type 0 where
  stop_end_turn stop_tool_use stop_max_tokens stop_stop_sequence stop_refusal : StopReason
  other_stop : String → StopReason

-- The fields of a `Response` that the agent loop reads.
pub record Response : Type 0 where
  pub content : List ContentBlock
  pub stop_reason : StopReason

-- `TextOf`: the texts, a line break before each that follows some text.
abbrev pub text_from : String → List ContentBlock → String
text_from out [] = out
text_from out (text t ∷ bs) = text_from (if out == "" then t else out <> ("\n" <> t)) bs
text_from out (tool_use id name input ∷ bs) = text_from out bs
text_from out (tool_result id content is_error ∷ bs) = text_from out bs
text_from out (thinking t signature ∷ bs) = text_from out bs

unfoldable pub text_of : List ContentBlock → String
text_of bs = text_from "" bs

abbrev pub tool_uses : List ContentBlock → List ToolUse
tool_uses [] = []
tool_uses (tool_use id name input ∷ bs) =
    record { id = id; name = name; input = input } ∷ tool_uses bs
tool_uses (text t ∷ bs) = tool_uses bs
tool_uses (tool_result id content is_error ∷ bs) = tool_uses bs
tool_uses (thinking t signature ∷ bs) = tool_uses bs
