-- ===== src/Convo.antt =====
-- convo.go: the transcript, the operations that extend it, and `Validate`.
--
-- An error is modelled by its sentinel; the formatted detail around it (ids and turn numbers) is
-- not. Go's id sets are lists that are only asked for membership and for emptiness.
pub mod Spec
pub mod Scanning
pub mod Validation
pub mod Extend
pub mod Closing
pub mod Repair
mod Examples
use wombat_go.Common.{
  String, Bool, true, false, not, ◌&&◌, List, [], ◌∷◌, ◌++◌, Option, none, some, is_empty,
  if◌then◌else◌, ◌==◌, contains, delete, Result, ok, err, ◌>>=◌,
}
use wombat_go.Llm.{
  Role, ToolUseId, role_user, role_assistant, ContentBlock, text, tool_use, tool_result, thinking,
  Message, user_text,
}

abbrev pub Convo : Type 0
Convo = List Message

pub data ConvoError : Type 0 where
  empty_convo not_user_first not_alternating dangling_tool_use orphan_result : ConvoError
  block_in_wrong_role late_result duplicate_tool_use : ConvoError

-- The last turn takes the blocks if the roles match, otherwise the turn is added.
unfoldable pub merge_last : Convo → Message → Convo
merge_last [] m = m ∷ []
merge_last (x ∷ []) m =
    if x.role == m.role then record x { content = x.content ++ m.content } ∷ [] else x ∷ m ∷ []
merge_last (x ∷ y ∷ c) m = x ∷ merge_last (y ∷ c) m

unfoldable pub append : Convo → Message → Convo
append c m = if is_empty m.content then c else merge_last c m

unfoldable pub push_user_text : Convo → String → Convo
push_user_text c s = append c (user_text s)

unfoldable pub push_assistant : Convo → List ContentBlock → Convo
push_assistant c blocks = append c (record { role = role_assistant; content = blocks })

unfoldable pub push_tool_results : Convo → List ContentBlock → Convo
push_tool_results c blocks = append c (record { role = role_user; content = blocks })

-- The two variables of the loop of `Dangling`.
pub record Opened : Type 0 where
  pub opened : List ToolUseId
  pub order : List ToolUseId

pub note_block : Opened → ContentBlock → Opened
note_block s (tool_use id name input) =
    if contains s.opened id
    then s
    else record { opened = s.opened ++ id ∷ []; order = s.order ++ id ∷ [] }
note_block s (tool_result id content is_error) = record s { opened = delete id s.opened }
note_block s (text t) = s
note_block s (thinking t signature) = s

pub note_blocks : Opened → List ContentBlock → Opened
note_blocks s [] = s
note_blocks s (b ∷ bs) = note_blocks (note_block s b) bs

pub note_turns : Opened → Convo → Opened
note_turns s [] = s
note_turns s (m ∷ c) = note_turns (note_blocks s m.content) c

-- The entries of `order` that are still open.
abbrev pub still_open : List ToolUseId → List ToolUseId → List ToolUseId
still_open open_ids [] = []
still_open open_ids (id ∷ order) =
    if contains open_ids id then id ∷ still_open open_ids order else still_open open_ids order

unfoldable pub dangling : Convo → List ToolUseId
unfolding note_turns note_blocks note_block
dangling c =
    let s = note_turns (record { opened = []; order = [] }) c in still_open s.opened s.order

abbrev pub acknowledge : String → List ToolUseId → List ContentBlock
acknowledge ack [] = []
acknowledge ack (id ∷ ids) = tool_result id ack false ∷ acknowledge ack ids

unfoldable pub close_dangling : Convo → String → List ContentBlock → Convo
close_dangling c ack extra =
    let pending = dangling c in
    if is_empty pending && is_empty extra
    then c
    else append c (record { role = role_user; content = acknowledge ack pending ++ extra })

pub data LookupError : Type 0 where
  ran_but_failed : String → LookupError
  no_result : LookupError

-- The first `tool_result` of the id in one turn.
pub lookup_block : ToolUseId → List ContentBlock → Option (Result LookupError String)
lookup_block id [] = none
lookup_block id (tool_result j content is_error ∷ bs) =
    if j == id
    then some (if is_error then err (ran_but_failed content) else ok content)
    else lookup_block id bs
lookup_block id (text t ∷ bs) = lookup_block id bs
lookup_block id (tool_use j name input ∷ bs) = lookup_block id bs
lookup_block id (thinking t signature ∷ bs) = lookup_block id bs

unfoldable pub lookup : ToolUseId → Convo → Result LookupError String
unfolding lookup_block
lookup id [] = err no_result
lookup id (m ∷ c) = elim (lookup_block id m.content) [ some r ↦ r | none ↦ lookup id c ]

-- The three sets that `Validate` keeps.
pub record Scan : Type 0 where
  pub seen : List ToolUseId
  pub opened : List ToolUseId
  pub declared : List ToolUseId

pub check_block : Role → Scan → ContentBlock → Result ConvoError Scan
check_block r s (tool_use id name input) =
    if not (r == role_assistant)
    then err block_in_wrong_role
    else if contains s.seen id
    then err duplicate_tool_use
    else ok (record s { seen = s.seen ++ id ∷ []; declared = s.declared ++ id ∷ [] })
check_block r s (tool_result id content is_error) =
    if not (r == role_user)
    then err block_in_wrong_role
    else if not (contains s.seen id)
    then err orphan_result
    else if not (contains s.opened id)
    then err late_result
    else ok (record s { opened = delete id s.opened })
check_block r s (text t) = ok s
check_block r s (thinking t signature) = ok s

pub check_blocks : Role → Scan → List ContentBlock → Result ConvoError Scan
check_blocks r s [] = ok s
check_blocks r s (b ∷ bs) = check_block r s b >>= λ t. check_blocks r t bs

abbrev pub repeats : Option Role → Role → Bool
repeats none r = false
repeats (some p) r = r == p

pub check_turns :
    Option Role → List ToolUseId → List ToolUseId → Convo → Result ConvoError (Unit {0})
check_turns prev seen open_ids [] = if is_empty open_ids then ok tt else err dangling_tool_use
check_turns prev seen open_ids (m ∷ c) =
    if repeats prev m.role
    then err not_alternating
    else check_blocks m.role (record { seen = seen; opened = open_ids; declared = [] }) m.content
      >>= λ s.
          if is_empty s.opened
          then check_turns (some m.role) s.seen s.declared c
          else err dangling_tool_use

unfoldable pub validate : Convo → Result ConvoError (Unit {0})
unfolding check_turns check_blocks check_block
validate [] = err empty_convo
validate (m ∷ c) =
    if not (m.role == role_user) then err not_user_first else check_turns none [] [] (m ∷ c)
