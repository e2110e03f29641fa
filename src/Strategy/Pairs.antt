-- ===== src/Strategy/Pairs.antt =====
-- `DropPairs`: both halves of a call go together, so what is left is still a transcript.
use wombat_go.Common.{
  true, ◌≡◌, refl, sym, ap, ◌∙◌, inl, inr, List, [], ◌∷◌, ◌++◌, arith, append-nil, is_empty,
  contains, distinct, without, contains-without, distinct-without, without-append, Bool-cases,
}
use wombat_go.Llm.{Role, ToolUseId, ContentBlock, text, tool_use, tool_result, thinking, Message}
use wombat_go.Convo.{Convo, append}
use wombat_go.Convo.Spec.{use_ids, result_ids, all_uses, Placed, Answers, Follows, end_uses, IsOpen}
use wombat_go.Convo.Extend.{all_uses-merge_last}
use wombat_go.Convo.Closing.{IsPlain}
use wombat_go.Convo.Repair.{Extends, append-IsOpen}
use wombat_go.Strategy.{kept_blocks}

module _ (ids : List ToolUseId) where
  pub use_ids-kept_blocks :
      (bs : List ContentBlock) → use_ids (kept_blocks ids bs) ≡ without ids (use_ids bs)
  unfolding kept_blocks
  use_ids-kept_blocks [] = refl
  use_ids-kept_blocks (text _ ∷ bs) = use_ids-kept_blocks bs
  use_ids-kept_blocks (thinking _ _ ∷ bs) = use_ids-kept_blocks bs
  use_ids-kept_blocks (tool_use id _ _ ∷ bs) = ground (arith, use_ids-kept_blocks bs)
  use_ids-kept_blocks (tool_result id _ _ ∷ bs) = ground (arith, use_ids-kept_blocks bs)

  result_ids-kept_blocks :
      (bs : List ContentBlock) → result_ids (kept_blocks ids bs) ≡ without ids (result_ids bs)
  unfolding kept_blocks
  result_ids-kept_blocks [] = refl
  result_ids-kept_blocks (text _ ∷ bs) = result_ids-kept_blocks bs
  result_ids-kept_blocks (thinking _ _ ∷ bs) = result_ids-kept_blocks bs
  result_ids-kept_blocks (tool_use id _ _ ∷ bs) = ground (arith, result_ids-kept_blocks bs)
  result_ids-kept_blocks (tool_result id _ _ ∷ bs) = ground (arith, result_ids-kept_blocks bs)

  kept_blocks-Placed :
      (r : Role) (bs : List ContentBlock) → Placed r bs → Placed r (kept_blocks ids bs)
  unfolding kept_blocks
  kept_blocks-Placed r [] p = tt
  kept_blocks-Placed r (text _ ∷ bs) p = (tt, kept_blocks-Placed r bs p.1)
  kept_blocks-Placed r (thinking _ _ ∷ bs) p = (tt, kept_blocks-Placed r bs p.1)
  kept_blocks-Placed r (tool_use id _ _ ∷ bs) p = elim (Bool-cases (contains ids id)) [
    | inl e ↦ rw e (kept_blocks-Placed r bs p.1)
    | inr e ↦ rw e (p.0, kept_blocks-Placed r bs p.1)
  ]
  kept_blocks-Placed r (tool_result id _ _ ∷ bs) p = elim (Bool-cases (contains ids id)) [
    | inl e ↦ rw e (kept_blocks-Placed r bs p.1)
    | inr e ↦ rw e (p.0, kept_blocks-Placed r bs p.1)
  ]

  pub kept_blocks-append :
      (xs ys : List ContentBlock)
      → kept_blocks ids (xs ++ ys) ≡ kept_blocks ids xs ++ kept_blocks ids ys
  unfolding kept_blocks
  kept_blocks-append [] ys = refl
  kept_blocks-append (text _ ∷ xs) ys = ground (arith, kept_blocks-append xs ys)
  kept_blocks-append (thinking _ _ ∷ xs) ys = ground (arith, kept_blocks-append xs ys)
  kept_blocks-append (tool_use _ _ _ ∷ xs) ys = ground (arith, kept_blocks-append xs ys)
  kept_blocks-append (tool_result _ _ _ ∷ xs) ys = ground (arith, kept_blocks-append xs ys)

  -- Blocks that neither call nor answer all stay.
  pub kept_blocks-plain : (bs : List ContentBlock) → IsPlain bs → kept_blocks ids bs ≡ bs
  unfolding kept_blocks
  kept_blocks-plain [] p = refl
  kept_blocks-plain (text t ∷ bs) p =
      ap (◌∷◌ (text t))
        (kept_blocks-plain bs (record { no_uses = p.no_uses; no_results = p.no_results }))
  kept_blocks-plain (thinking t s ∷ bs) p =
      ap (◌∷◌ (thinking t s))
        (kept_blocks-plain bs (record { no_uses = p.no_uses; no_results = p.no_results }))
  kept_blocks-plain (tool_use _ _ _ ∷ bs) p = absurd (cc (p.no_uses))
  kept_blocks-plain (tool_result _ _ _ ∷ bs) p = absurd (cc (p.no_results))

  Answers-without :
      (results uses : List ToolUseId)
      → Answers results uses
      → Answers (without ids results) (without ids uses)
  Answers-without results uses a = record {
    once = distinct-without ids results a.once;
    same =
        λ x. ground (arith, contains-without ids results x, contains-without ids uses x, a.same x);
  }

  -- What the loop holds after some turns: `out` is well formed up to its end, its open calls and
  -- all its calls are those of the turns read, less the dropped ones.
  pub record Merged (uses done : List ToolUseId) (out : Convo) : Type 0 where
    pub open_end : IsOpen out
    pub same_open : end_uses [] out ≡ without ids uses
    pub same_all : all_uses out ≡ without ids done

  abbrev pub kept : Message → Message
  kept m = record m { content = kept_blocks ids m.content }

  kept-Extends :
      (r : Role) (uses done : List ToolUseId) (out : Convo) (m : Message) (c : Convo)
      → Follows r uses (m ∷ c)
      → distinct (done ++ use_ids m.content) ≡ true
      → Merged uses done out
      → Extends out (kept m)
  kept-Extends r uses done out m c f d g = (
    kept_blocks-Placed m.role m.content f.1,
    rw (g.same_open, result_ids-kept_blocks m.content) (Answers-without _ uses f.2),
    rw (g.same_all, use_ids-kept_blocks m.content, ← without-append ids done (use_ids m.content))
        (distinct-without ids _ d),
  )

  pub all_uses-append :
      (c : Convo) (m : Message) → all_uses (append c m) ≡ all_uses c ++ use_ids m.content
  unfolding append
  all_uses-append c m = elim (Bool-cases (is_empty m.content)) [
    | inl e ↦
        let bare : m.content ≡ [] = ground (arith, e) in
        rw e (sym (append-nil (all_uses c)) ∙ ap (λ bs. all_uses c ++ use_ids bs) (sym bare))
    | inr e ↦ rw e (all_uses-merge_last c m)
  ]

  pub kept-Merged :
      (r : Role) (uses done : List ToolUseId) (out : Convo) (m : Message) (c : Convo)
      → Follows r uses (m ∷ c)
      → distinct (done ++ use_ids m.content) ≡ true
      → Merged uses done out
      → Merged (use_ids m.content) (done ++ use_ids m.content) (append out (kept m))
  kept-Merged r uses done out m c f d g =
      let a = append-IsOpen out (kept m) g.open_end (kept-Extends r uses done out m c f d g) in
      record {
        open_end = a.0;
        same_open = a.1 ∙ use_ids-kept_blocks m.content;
        same_all =
            all_uses-append out (kept m)
            ∙ rw (g.same_all, use_ids-kept_blocks m.content)
                (sym (without-append ids done (use_ids m.content)));
      }
