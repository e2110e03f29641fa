-- ===== src/Run/Turns.antt =====
-- One turn of the loop: the transcript stays well formed, whatever the tools do.
use wombat_go.Common.{
  ℕ, ◌≤◌, ◌<◌, String, true, false, ◌≡◌, refl, ap, ◌∙◌, inl, inr, List, [], ◌∷◌, ◌++◌, arith,
  Option, append-nil, is_empty, contains, contains-append, distinct, eq_iff, Bool-cases,
}
use wombat_go.Llm.{
  ToolUseId, role_user, role_assistant, ContentBlock, text, tool_use, tool_result, thinking,
  Message, ToolUse, Response, tool_uses,
}
use wombat_go.Convo.{Convo, append, push_assistant, push_tool_results}
use wombat_go.Convo.Spec.{use_ids, all_uses, Placed, end_uses, IsOpen, IsValid}
use wombat_go.Convo.Extend.{results_of_assistant, Answers-nil, all_uses-merge_last}
use wombat_go.Convo.Repair.{append-IsOpen}
use wombat_go.Tool.{Def}
use wombat_go.Tool.Dispatch.{Handler, dispatch, dispatch_from, result_blocks}
use wombat_go.Tool.Dispatch.Order.{call_ids, result_blocks-dispatch}
use wombat_go.Run.{World, ChatRequest, replied}

-- What the loop relies on in the model's replies: calls ride in place, and each iteration brings
-- ids of its own, without repetition.
pub record IsProvider (w : World) (issued : ℕ → List ToolUseId) : Type 0 where
  pub placed :
      (iter : ℕ) (req : ChatRequest) (resp : Response) (thought : ℕ)
      → w.reply iter req ≡ replied resp thought
      → Placed role_assistant resp.content
  pub once :
      (iter : ℕ) (req : ChatRequest) (resp : Response) (thought : ℕ)
      → w.reply iter req ≡ replied resp thought
      → distinct (use_ids resp.content) ≡ true
  pub own :
      (iter : ℕ) (req : ChatRequest) (resp : Response) (thought : ℕ)
      → w.reply iter req ≡ replied resp thought
      → (id : ToolUseId) → contains (use_ids resp.content) id ≡ true
      → contains (issued iter) id ≡ true
  pub apart :
      (i j : ℕ) (id : ToolUseId)
      → i < j
      → contains (issued i) id ≡ true
      → contains (issued j) id ≡ false

-- No call of the transcript has an id of an iteration from `iter` on.
abbrev pub IsUnissued : (ℕ → List ToolUseId) → ℕ → Convo → Type 0
IsUnissued issued iter c =
    (id : ToolUseId)
    → contains (all_uses c) id ≡ true
    → (j : ℕ) → iter ≤ j
    → contains (issued j) id ≡ false

pub call_ids-tool_uses : (bs : List ContentBlock) → call_ids (tool_uses bs) ≡ use_ids bs
call_ids-tool_uses [] = refl
call_ids-tool_uses (text t ∷ bs) = call_ids-tool_uses bs
call_ids-tool_uses (tool_use id name input ∷ bs) = ap (◌∷◌ id) (call_ids-tool_uses bs)
call_ids-tool_uses (tool_result id content is_error ∷ bs) = call_ids-tool_uses bs
call_ids-tool_uses (thinking t signature ∷ bs) = call_ids-tool_uses bs

distinct-append :
    (xs ys : List String)
    → distinct xs ≡ true
    → distinct ys ≡ true
    → ((id : String) → contains xs id ≡ true → contains ys id ≡ false)
    → distinct (xs ++ ys) ≡ true
distinct-append [] ys h k n = k
distinct-append (x ∷ xs) ys h k n = ground (
  arith,
  contains-append xs ys x,
  n x,
  eq_iff x x,
  distinct-append xs ys (ground arith) k (λ id e. n id (ground (arith, e))),
)

pub all_uses-append :
    (c : Convo) (m : Message) → all_uses (append c m) ≡ all_uses c ++ use_ids m.content
unfolding append
all_uses-append c m = elim (Bool-cases (is_empty m.content)) [
  | inl e ↦ rw e (ground (arith, e, append-nil (all_uses c)))
  | inr e ↦ rw e (all_uses-merge_last c m)
]

-- A reply is added to a settled transcript.
pub push_assistant-IsOpen :
    (c : Convo) (bs : List ContentBlock)
    → IsValid c
    → Placed role_assistant bs
    → distinct (use_ids bs) ≡ true
    → ((id : ToolUseId) → contains (all_uses c) id ≡ true → contains (use_ids bs) id ≡ false)
    → IsOpen (push_assistant c bs) × (end_uses [] (push_assistant c bs) ≡ use_ids bs)
unfolding push_assistant
push_assistant-IsOpen c bs v p once fresh =
    append-IsOpen c (record { role = role_assistant; content = bs }) v.before
      (
        p,
        rw (results_of_assistant role_assistant bs refl p, v.settled) Answers-nil,
        distinct-append (all_uses c) (use_ids bs) v.before.unique once fresh,
      )

-- The results of a dispatch settle the turn that made the calls.
pub push_tool_results-IsValid :
    (find : String → Option Def) (handler : Handler) (c : Convo) (uses : List ToolUse)
    → IsOpen c
    → end_uses [] c ≡ call_ids uses
    → distinct (call_ids uses) ≡ true
    → IsValid (push_tool_results c (result_blocks (dispatch find handler uses)))
unfolding push_tool_results dispatch
push_tool_results-IsValid find handler c uses v e once =
    let (results, none_called, placed) = result_blocks-dispatch find handler 0 uses in
    let (open_end, last) =
      append-IsOpen c
        (record { role = role_user; content = result_blocks (dispatch_from find handler 0 uses) }) v
        (
          placed,
          rw (results, e) (record { once = once; same = λ id. refl }),
          rw none_called (rw (append-nil (all_uses c)) v.unique),
        ) in
    record { before = open_end; settled = last ∙ none_called }

pub all_uses-push_tool_results :
    (find : String → Option Def) (handler : Handler) (c : Convo) (uses : List ToolUse)
    → all_uses (push_tool_results c (result_blocks (dispatch find handler uses))) ≡ all_uses c
unfolding push_tool_results dispatch
all_uses-push_tool_results find handler c uses =
    all_uses-append c
      (record { role = role_user; content = result_blocks (dispatch_from find handler 0 uses) })
    ∙ ap (◌++◌ (all_uses c)) (result_blocks-dispatch find handler 0 uses).1
    ∙ append-nil (all_uses c)
