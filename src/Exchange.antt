-- ===== src/Exchange.antt =====
-- `WithValidation` of llm/middleware.go: what it refuses to send, and what it refuses to pass on.
--
-- `json.Valid` and the wrapped client are arguments. The texts of the errors are left out.
pub mod Checking
pub mod Acting
mod Examples
use wombat_go.Common.{
  ℕ, ◌+◌, Bool, true, false, not, ◌&&◌, ◌||◌, String, List, [], ◌∷◌, Option, none, some, Result, ok,
  err, codes, contains, is_empty, ◌=?◌, ◌==◌, if◌then◌else◌,
}
use wombat_go.Llm.{
  Role, RawMessage, Message, ToolUse, StopReason, stop_end_turn, stop_tool_use, stop_max_tokens,
  stop_stop_sequence, stop_refusal, other_stop, Response, tool_uses,
}
use wombat_go.Paths.{Text, trim_space}

-- The fields that are checked. A schema that is not supplied is empty.
pub record ToolSpec : Type 0 where
  pub name : String
  pub input_schema : RawMessage

-- `ToolChoiceMode`, an open string: `other_mode` is any text but those before it.
pub data ChoiceMode : Type 0 where
  choice_auto choice_any choice_tool choice_none : ChoiceMode
  other_mode : String → ChoiceMode

pub record Request : Type 0 where
  pub messages : List Message
  pub tools : List ToolSpec
  pub mode : ChoiceMode
  pub chosen : String

-- The causes of `ErrBadRequest`.
pub data RequestError : Type 0 where
  no_messages no_choice_name no_tools : RequestError
  empty_message : ℕ → Role → RequestError
  unnamed_tool : ℕ → RequestError
  bad_schema unknown_choice : String → RequestError

-- The causes of an `ErrServer`.
pub data ResponseError : Type 0 where
  no_tool_use blank_tool_use : ResponseError

abbrev pub starts_object : Text → Bool
starts_object [] = false
starts_object (c ∷ t) = c =? 0x7B

-- `isJSONObject`.
unfoldable pub is_json_object : (Text → Bool) → Text → Bool
is_json_object valid b = starts_object (trim_space b) && valid (trim_space b)

-- The loop over the messages.
unfoldable pub check_messages : ℕ → List Message → Option RequestError
check_messages i [] = none
check_messages i (m ∷ ms) =
    let rest = check_messages (i + 1) ms in
    if is_empty m.content then some (empty_message i m.role) else rest

-- The loop over the tools.
unfoldable pub check_tools : (Text → Bool) → ℕ → List ToolSpec → Option RequestError
unfolding is_json_object
check_tools valid i [] = none
check_tools valid i (t ∷ ts) =
    let rest = check_tools valid (i + 1) ts in
    if t.name == ""
    then some (unnamed_tool i)
    else if not (is_empty (codes t.input_schema))
        && not (is_json_object valid (codes t.input_schema))
    then some (bad_schema t.name)
    else rest

-- The keys of `names`.
abbrev pub tool_names : List ToolSpec → List String
tool_names [] = []
tool_names (t ∷ ts) = t.name ∷ tool_names ts

-- The `switch req.Choice.Mode`.
unfoldable pub check_choice : Request → ChoiceMode → Option RequestError
check_choice req choice_tool =
    if req.chosen == ""
    then some no_choice_name
    else if not (contains (tool_names req.tools) req.chosen)
    then some (unknown_choice req.chosen)
    else none
check_choice req choice_any = if is_empty req.tools then some no_tools else none
check_choice req choice_auto = none
check_choice req choice_none = none
check_choice req (other_mode mode) = none

abbrev pub or_else : Option RequestError → Option RequestError → Option RequestError
or_else (some e) rest = some e
or_else none rest = rest

-- `validateRequest`.
unfoldable pub validate_request : (Text → Bool) → Request → Option RequestError
unfolding check_messages check_tools check_choice
validate_request valid req =
    if is_empty req.messages
    then some no_messages
    else or_else (check_messages 0 req.messages)
        (or_else (check_tools valid 0 req.tools) (check_choice req req.mode))

unfoldable pub check_uses : List ToolUse → Option ResponseError
check_uses [] = none
check_uses (u ∷ us) =
    let rest = check_uses us in if u.name == "" || u.id == "" then some blank_tool_use else rest

unfoldable pub check_stop : StopReason → List ToolUse → Option ResponseError
unfolding check_uses
check_stop stop_tool_use uses = if is_empty uses then some no_tool_use else check_uses uses
check_stop stop_end_turn uses = none
check_stop stop_max_tokens uses = none
check_stop stop_stop_sequence uses = none
check_stop stop_refusal uses = none
check_stop (other_stop reason) uses = none

-- `validateResponse`.
unfoldable pub validate_response : Response → Option ResponseError
unfolding check_stop
validate_response resp = check_stop resp.stop_reason (tool_uses resp.content)

-- What the middleware returns: a refusal before the call, the client's own error, or its response,
-- with or without an error.
pub data Exchange (F : Type 0) : Type 0 where
  refused : RequestError → Exchange F
  failed : F → Exchange F
  malformed : Response → ResponseError → Exchange F
  answered : Response → Exchange F

module _ {F : Type 0} where
  abbrev pub judge : Option ResponseError → Response → Exchange F
  judge none resp = answered resp
  judge (some e) resp = malformed resp e

  unfoldable pub receive : Result F Response → Exchange F
  unfolding validate_response
  receive (err e) = failed e
  receive (ok resp) = judge (validate_response resp) resp

  abbrev pub send_or_refuse : Option RequestError → Result F Response → Exchange F
  send_or_refuse (some e) reply = refused e
  send_or_refuse none reply = receive reply

  -- `WithValidation`.
  unfoldable pub with_validation :
      (Text → Bool) → (Request → Result F Response) → Request → Exchange F
  unfolding validate_request receive
  with_validation valid next req = send_or_refuse (validate_request valid req) (next req)
