-- ===== src/Tool/Dispatch.antt =====
-- tool/dispatch.go: the dispatch of one turn's tool calls.
--
-- What call i ends with is an argument, and so is `Set.Find`; in Parallel it is the end of steps
-- that the calls take on a world that they share. Durations are not modelled.
pub mod Parallel
pub mod Slots
pub mod Semaphore
pub mod Order
pub mod Independence
pub mod Interleaving
pub mod Limit
pub mod Ending
use wombat_go.Common.{
  ℕ, zero, suc, ◌+◌, String, Bool, true, false, List, [], ◌∷◌, Option, none, some, get_elem?,
  if◌then◌else◌,
}
use wombat_go.Llm.{ToolUseId, ContentBlock, tool_result}
use wombat_go.Tool.{Def, ToolUse}

-- What a handler does: return text or an error, with the tags that were annotated, or panic.
pub data Called : Type 0 where
  returned : String → List String → Called
  failed : String → String → List String → Called
  panicked : String → Called

-- `Result`; `error` is the text of `Err`.
pub record CallResult : Type 0 where
  pub use_id : ToolUseId
  pub name : String
  pub output : String
  pub error : Option String
  pub tags : List String

abbrev pub block_with : ToolUseId → String → Option String → ContentBlock
block_with id output (some e) = tool_result id e true
block_with id output none = tool_result id output false

unfoldable pub result_block : CallResult → ContentBlock
result_block r = block_with r.use_id r.output r.error

unfoldable pub result_blocks : List CallResult → List ContentBlock
unfolding result_block
result_blocks [] = []
result_blocks (r ∷ rs) = result_block r ∷ result_blocks rs

-- The text of `ErrUnknownTool`.
abbrev pub unknown_tool : String
unknown_tool = "tool: unknown tool"

-- What the handler chain ends call i of a dispatch with.
abbrev pub Handler : Type 0
Handler = ℕ → Def → ToolUse → Called

-- `make([]Result, len(uses))`.
unfoldable pub blank_slots : List ToolUse → List CallResult
blank_slots [] = []
blank_slots (u ∷ uses) =
    record { use_id = ""; name = ""; output = ""; error = none; tags = [] } ∷ blank_slots uses

-- `out[i] = r`, for an index in range.
unfoldable pub set_slot {ℓ} : {A : Type ℓ} → ℕ → A → List A → List A
set_slot i r [] = []
set_slot zero r (x ∷ out) = r ∷ out
set_slot (suc i) r (x ∷ out) = x ∷ set_slot i r out

-- What the handler's end leaves in the slot.
abbrev pub settled : ToolUse → Called → CallResult
settled u (returned s tags) = record {
  use_id = u.id;
  name = u.name;
  output = s;
  error = none;
  tags = tags;
}
settled u (failed s e tags) = record {
  use_id = u.id;
  name = u.name;
  output = s;
  error = some e;
  tags = tags;
}
settled u (panicked e) = record {
  use_id = u.id;
  name = u.name;
  output = "";
  error = some e;
  tags = [];
}

-- What the slot of a call of an unknown tool holds.
abbrev pub unknown : ToolUse → CallResult
unknown u = record {
  use_id = u.id;
  name = u.name;
  output = "";
  error = some unknown_tool;
  tags = [];
}

module _ (find : String → Option Def) (handler : Handler) where
  -- `run(i)`.
  unfoldable pub run_call : ℕ → ToolUse → CallResult
  run_call i u = elim (find u.name) [ none ↦ unknown u | some d ↦ settled u (handler i d u) ]

  -- One call after another.
  unfoldable pub dispatch_from : ℕ → List ToolUse → List CallResult
  unfolding run_call
  dispatch_from i [] = []
  dispatch_from i (u ∷ uses) = run_call i u ∷ dispatch_from (i + 1) uses

  unfoldable pub dispatch : List ToolUse → List CallResult
  unfolding dispatch_from
  dispatch uses = dispatch_from 0 uses
