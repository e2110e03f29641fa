-- ===== src/Tool/Dispatch/Order.antt =====
-- `Dispatch` and `Blocks`: the results of a turn's calls in their order.
use wombat_go.Common.{
  ℕ, zero, suc, ◌+◌, String, ◌≡◌, refl, ap, ◌∙◌, List, [], ◌∷◌, arith, Option, none, some,
  get_elem?,
}
use wombat_go.Llm.{ToolUseId, role_user, ContentBlock, ToolUse}
use wombat_go.Tool.{Def}
use wombat_go.Tool.Dispatch.{
  Handler, CallResult, block_with, result_block, result_blocks, run_call, dispatch_from,
}
use wombat_go.Convo.Spec.{use_ids, result_ids, Fits, Placed}

abbrev pub call_ids : List ToolUse → List ToolUseId
call_ids [] = []
call_ids (u ∷ uses) = u.id ∷ call_ids uses

block_with_lem :
    (id : ToolUseId) (output : String) (e : Option String) (bs : List ContentBlock)
    → (result_ids (block_with id output e ∷ bs) ≡ id ∷ result_ids bs)
      × (use_ids (block_with id output e ∷ bs) ≡ use_ids bs)
      × Fits role_user (block_with id output e)
block_with_lem id output none bs = (refl, refl, refl)
block_with_lem id output (some e) bs = (refl, refl, refl)

module _ (find : String → Option Def) (handler : Handler) where
  get-dispatch_from :
      (k : ℕ) (uses : List ToolUse) (j : ℕ)
      → get_elem? (dispatch_from find handler k uses) j
        ≡ elim (get_elem? uses j) [ none ↦ none | some u ↦ some (run_call find handler (k + j) u) ]
  unfolding dispatch_from
  get-dispatch_from k [] j = refl
  get-dispatch_from k (u ∷ uses) zero = ap (λ n. some (run_call find handler n u)) (omega arith)
  get-dispatch_from k (u ∷ uses) (suc j) =
      get-dispatch_from (k + 1) uses j
      ∙ ap
          (λ n. elim (get_elem? uses j) as (λ x. Option CallResult) [
            | none ↦ none
            | some v ↦ some (run_call find handler n v)
          ])
          (omega arith)

  abbrev pub results_at : ℕ → Option ToolUse → Option CallResult
  results_at j none = none
  results_at j (some u) = some (run_call find handler j u)

  pub get-dispatch :
      (uses : List ToolUse) (j : ℕ) (o : Option ToolUse)
      → get_elem? uses j ≡ o
      → get_elem? (dispatch_from find handler 0 uses) j ≡ results_at j o
  get-dispatch uses j none e = get-dispatch_from 0 uses j ∙ ap (results_at (0 + j)) e
  get-dispatch uses j (some u) e =
      get-dispatch_from 0 uses j
      ∙ ap (results_at (0 + j)) e
      ∙ ap (λ n. some (run_call find handler n u)) (omega arith)

  run_call-use_id : (i : ℕ) (u : ToolUse) → (run_call find handler i u).use_id ≡ u.id
  unfolding run_call
  run_call-use_id i u = ground arith

  -- Whatever the handlers do, an unknown tool and a panic included, the blocks of a dispatch answer
  -- exactly the calls, in their order, are placed in a user turn and call nothing.
  pub result_blocks-dispatch :
      (k : ℕ) (uses : List ToolUse)
      → (result_ids (result_blocks (dispatch_from find handler k uses)) ≡ call_ids uses)
        × (use_ids (result_blocks (dispatch_from find handler k uses)) ≡ [])
        × Placed role_user (result_blocks (dispatch_from find handler k uses))
  unfolding dispatch_from result_blocks result_block
  result_blocks-dispatch k [] = (refl, refl, tt)
  result_blocks-dispatch k (u ∷ uses) =
      let r = run_call find handler k u in
      let ih = result_blocks-dispatch (k + 1) uses in
      let one =
        block_with_lem r.use_id r.output r.error
          (result_blocks (dispatch_from find handler (k + 1) uses)) in
      (
        one.0
            ∙ ap (λ i. i ∷ result_ids (result_blocks (dispatch_from find handler (k + 1) uses)))
                (run_call-use_id k u)
            ∙ ap (◌∷◌ u.id) ih.0,
        one.1 ∙ ih.1,
        (one.2, ih.2),
      )
