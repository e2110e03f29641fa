-- ===== src/Strategy.antt =====
-- strategy.go: which part of a transcript is sent with one model call.
--
-- Counts are ℕ: a negative `keep`, `trigger` or `at` takes the same branches as 0 in the code. A
-- strategy is its `Apply`; its `String` method only serves log lines and is not modelled.
pub mod Cut
pub mod Windows
pub mod Pairs
pub mod Eviction
pub mod Dropping
pub mod Sequences
pub mod Samples
mod Examples
use wombat_go.Common.{
  ℕ, zero, suc, ◌-◌, ◌*◌, ◌/◌, String, Bool, true, false, not, ◌&&◌, ◌||◌, List, [], ◌∷◌, ◌++◌,
  Option, none, some, is_empty, length, get_elem?, drop, take, ltb, leb, ◌=?◌, if◌then◌else◌, ◌==◌,
  contains, max, ◌<>◌,
}
use wombat_go.Llm.{
  Role, ToolUseId, role_user, ContentBlock, text, tool_use, tool_result, thinking, Message,
  user_text,
}
use wombat_go.Convo.{Convo, append}

pub record ResultInfo : Type 0 where
  pub tool : String
  pub tags : List String
  pub bytes : ℕ

-- `map[ToolUseID]ResultInfo`.
abbrev pub Results : Type 0
Results = List (ToolUseId × ResultInfo)

pub record View : Type 0 where
  pub messages : List Message
  pub results : Results

abbrev pub Strategy : Type 0
Strategy = View → List Message

pub find_info : Results → ToolUseId → Option ResultInfo
find_info [] id = none
find_info ((j, info) ∷ rs) id = if j == id then some info else find_info rs id

pub has_tag : Results → ToolUseId → String → Bool
unfolding find_info
has_tag rs id tag = elim (find_info rs id) [ none ↦ false | some info ↦ contains info.tags tag ]

pub has_any_tag : Results → ToolUseId → List String → Bool
has_any_tag rs id [] = false
has_any_tag rs id (t ∷ tags) = has_tag rs id t || has_any_tag rs id tags

-- The calls of a turn that carry one of the tags.
pub tagged_blocks : Results → List String → List ContentBlock → List ToolUseId
tagged_blocks rs tags [] = []
tagged_blocks rs tags (tool_use id name input ∷ bs) =
    if has_any_tag rs id tags then id ∷ tagged_blocks rs tags bs else tagged_blocks rs tags bs
tagged_blocks rs tags (tool_result id content is_error ∷ bs) = tagged_blocks rs tags bs
tagged_blocks rs tags (text t ∷ bs) = tagged_blocks rs tags bs
tagged_blocks rs tags (thinking t signature ∷ bs) = tagged_blocks rs tags bs

pub tagged_turns : Results → List String → List Message → List ToolUseId
tagged_turns rs tags [] = []
tagged_turns rs tags (m ∷ c) = tagged_blocks rs tags m.content ++ tagged_turns rs tags c

unfoldable pub tagged : View → List String → List ToolUseId
unfolding tagged_turns tagged_blocks has_any_tag has_tag
tagged v tags = tagged_turns v.results tags v.messages

unfoldable pub flat : Strategy
flat v = v.messages

pub sequence_from : List Strategy → List Message → Results → List Message
sequence_from [] msgs rs = msgs
sequence_from (st ∷ ss) msgs rs =
    sequence_from ss (st (record { messages = msgs; results = rs })) rs

unfoldable pub sequence : List Strategy → Strategy
unfolding sequence_from
sequence ss v = sequence_from ss v.messages v.results

pub answers_a_tool : List ContentBlock → Bool
answers_a_tool [] = false
answers_a_tool (tool_result id content is_error ∷ bs) = true
answers_a_tool (text t ∷ bs) = answers_a_tool bs
answers_a_tool (tool_use id name input ∷ bs) = answers_a_tool bs
answers_a_tool (thinking t signature ∷ bs) = answers_a_tool bs

-- A user turn with no result: the only turn before which a cut is safe.
pub is_fresh_turn : Message → Bool
is_fresh_turn m = m.role == role_user && not (answers_a_tool m.content)

pub is_fresh_at : List Message → ℕ → Bool
is_fresh_at msgs i = elim (get_elem? msgs i) [ none ↦ false | some m ↦ is_fresh_turn m ]

-- The loop `for i := want; i > 0; i--`.
pub safe_cut_from : List Message → ℕ → ℕ
safe_cut_from msgs zero = 0
safe_cut_from msgs (suc i) =
    let rest = safe_cut_from msgs i in if is_fresh_at msgs (suc i) then suc i else rest

unfoldable pub safe_cut : List Message → ℕ → ℕ
unfolding safe_cut_from is_fresh_at is_fresh_turn answers_a_tool
safe_cut msgs want =
    if (want =? 0) || is_empty msgs
    then 0
    else safe_cut_from msgs (if leb (length msgs) want then length msgs - 1 else want)

pub record Window : Type 0 where
  pub trigger : ℕ
  pub keep : ℕ

abbrev pub sliding_window : ℕ → Window
sliding_window keep_recent = record { trigger = 0; keep = keep_recent }

abbrev pub sliding_window_at : ℕ → ℕ → Window
sliding_window_at trigger_at keep_recent = record { trigger = trigger_at; keep = keep_recent }

-- `want / delta * delta`: the anchor, which stands still while `want` grows by less than `delta`.
pub anchor : Window → ℕ → ℕ
anchor w n =
    if w.trigger =? 0
    then n - w.keep
    else (n - w.keep) / (w.trigger - w.keep) * (w.trigger - w.keep)

pub cut_at : List Message → ℕ → List Message
cut_at msgs cut = if cut =? 0 then msgs else drop cut msgs

unfoldable pub apply_window : Window → Strategy
unfolding anchor cut_at
apply_window w v =
    let msgs = v.messages in
    if (w.keep =? 0) || leb (length msgs) w.keep
    then msgs
    else if ltb 0 w.trigger && (ltb (length msgs) w.trigger || leb w.trigger w.keep)
    then msgs
    else cut_at msgs (safe_cut msgs (anchor w (length msgs)))

-- The blocks whose ids are not to be dropped.
pub kept_blocks : List ToolUseId → List ContentBlock → List ContentBlock
kept_blocks ids [] = []
kept_blocks ids (tool_use id name input ∷ bs) =
    if contains ids id then kept_blocks ids bs else tool_use id name input ∷ kept_blocks ids bs
kept_blocks ids (tool_result id content is_error ∷ bs) =
    if contains ids id
    then kept_blocks ids bs
    else tool_result id content is_error ∷ kept_blocks ids bs
kept_blocks ids (text t ∷ bs) = text t ∷ kept_blocks ids bs
kept_blocks ids (thinking t signature ∷ bs) = thinking t signature ∷ kept_blocks ids bs

pub evict : List ToolUseId → List Message → List Message
evict ids [] = []
evict ids (m ∷ c) =
    if is_empty (kept_blocks ids m.content)
    then evict ids c
    else record m { content = kept_blocks ids m.content } ∷ evict ids c

-- One round of the loop of `normalize` is `Append`: an empty turn is skipped, one of the last
-- turn's role is merged into it.
pub merge_turns : Convo → Convo → Convo
merge_turns out [] = out
merge_turns out (m ∷ c) = merge_turns (append out m) c

pub strip_to_user : Convo → Convo
strip_to_user [] = []
strip_to_user (m ∷ c) = if m.role == role_user then m ∷ c else strip_to_user c

pub normalize : Convo → Convo
unfolding merge_turns strip_to_user append
normalize c = strip_to_user (merge_turns [] c)

unfoldable pub drop_pairs : List Message → List ToolUseId → List Message
unfolding normalize evict kept_blocks
drop_pairs msgs ids = if is_empty ids then msgs else normalize (evict ids msgs)

pub record DropTagged : Type 0 where
  pub trigger : ℕ
  pub keep : ℕ
  pub tags : List String

-- The tagged calls before the last `keep` turns.
pub victims : DropTagged → View → List ToolUseId
unfolding tagged_turns tagged_blocks has_any_tag has_tag
victims d v = tagged_turns v.results d.tags (take (length v.messages - d.keep) v.messages)

unfoldable pub apply_drop_tagged : DropTagged → Strategy
unfolding victims
apply_drop_tagged d v =
    if is_empty d.tags || is_empty v.results
    then v.messages
    else if ltb 0 d.trigger && ltb (length v.messages) d.trigger
    then v.messages
    else drop_pairs v.messages (victims d v)

pub prepend : Convo → Message → Convo
prepend [] m = m ∷ []
prepend (x ∷ c) m =
    if not (x.role == m.role) then m ∷ x ∷ c else record x { content = m.content ++ x.content } ∷ c

pub record Compacted : Type 0 where
  pub compact_at : ℕ
  pub keep : ℕ
  pub compactor : Option (List Message → String)

pub summarized : List Message → ℕ → (List Message → String) → List Message
unfolding prepend
summarized msgs cut fn =
    let summary = fn (take cut msgs) in
    if summary == ""
    then drop cut msgs
    else prepend (drop cut msgs)
        (user_text ("<conversation_summary>\n" <> summary <> "\n</conversation_summary>"))

unfoldable pub apply_compacted : Compacted → Strategy
unfolding summarized
apply_compacted c v = elim c.compactor [
  | none ↦ v.messages
  | some fn ↦
      let msgs = v.messages in
      let cut = safe_cut msgs (length msgs - c.keep) in
      if (c.keep =? 0)
        || (c.compact_at =? 0)
        || ltb (length msgs) c.compact_at
        || leb (length msgs) c.keep
      then msgs
      else if cut =? 0
      then msgs
      else summarized msgs cut fn
]
