-- ===== src/Strategy/Dropping.antt =====
-- `DropPairs` and `DropTagged`: what they return is valid, and holds every block but the dropped.
use wombat_go.Common.{
  String, false, ◌≡◌, ◌≢◌, refl, sym, ap, inl, inr, List, [], ◌∷◌, ◌++◌, arith, is_empty,
  is_empty-append, ok, err, ◌==◌, eq_iff, All, Bool-cases,
}
use wombat_go.Llm.{
  ToolUseId, role_user, role_assistant, ContentBlock, text, tool_use, tool_result, thinking,
  Message,
}
use wombat_go.Convo.{Convo, append, merge_last, validate, orphan_result}
use wombat_go.Convo.Spec.{IsValid}
use wombat_go.Convo.Validation.{validate-IsValid}
use wombat_go.Strategy.{
  View, kept_blocks, evict, merge_turns, strip_to_user, normalize, drop_pairs, DropTagged, victims,
  apply_drop_tagged,
}
use wombat_go.Strategy.Eviction.{all_blocks, all_blocks-merge_turns, evicted, first_kept}

-- The first turn has a block.
abbrev pub StartsFilled : Convo → Type 0
StartsFilled [] = Unit
StartsFilled (m ∷ c) = is_empty m.content ≡ false

-- Every turn has a block.
abbrev pub IsFilled : Convo → Type 0
IsFilled = All (λ m. is_empty m.content ≡ false)

drop_pairs_nil : (ids : List ToolUseId) → drop_pairs [] ids ≡ []
unfolding drop_pairs
drop_pairs_nil [] = refl
drop_pairs_nil (id ∷ ids) = refl

drop_pairs_lem :
    (m : Message) (c : Convo) (ids : List ToolUseId)
    → IsValid (m ∷ c)
    → is_empty m.content ≡ false
    → is_empty ids ≡ false
    → drop_pairs (m ∷ c) ids ≡ merge_turns (m ∷ []) (evict ids c)
unfolding drop_pairs
drop_pairs_lem m c ids v full some_ids = rw some_ids (evicted ids m c v full).1

-- `DropPairs` keeps a valid transcript valid, whatever ids it drops, if the first turn is not
-- empty.
pub validate-drop_pairs :
    (msgs : Convo) (ids : List ToolUseId)
    → validate msgs ≡ ok tt
    → StartsFilled msgs
    → validate (drop_pairs msgs ids) ≡ ok tt
validate-drop_pairs [] ids h n = rw (drop_pairs_nil ids) h
validate-drop_pairs (m ∷ c) ids h n = elim (Bool-cases (is_empty ids)) [
  | inl e ↦ unfold drop_pairs in rw e h
  | inr e ↦
      let v = (validate-IsValid (m ∷ c)).0 h in
      let g = (evicted ids m c v n).0 in
      rw (drop_pairs_lem m c ids v n e)
        ((validate-IsValid _).1 (record { before = g.open_end; settled = g.same_open }))
]

kept_blocks_none : (bs : List ContentBlock) → kept_blocks [] bs ≡ bs
unfolding kept_blocks
kept_blocks_none [] = refl
kept_blocks_none (text t ∷ bs) = ap (◌∷◌ (text t)) (kept_blocks_none bs)
kept_blocks_none (thinking t s ∷ bs) = ap (◌∷◌ (thinking t s)) (kept_blocks_none bs)
kept_blocks_none (tool_use a b c ∷ bs) = ap (◌∷◌ (tool_use a b c)) (kept_blocks_none bs)
kept_blocks_none (tool_result a b c ∷ bs) = ap (◌∷◌ (tool_result a b c)) (kept_blocks_none bs)

-- What is left of a valid transcript is every block that neither calls nor answers a dropped id,
-- in the order of the transcript, and nothing else.
pub all_blocks-drop_pairs :
    (msgs : Convo) (ids : List ToolUseId)
    → validate msgs ≡ ok tt
    → StartsFilled msgs
    → all_blocks (drop_pairs msgs ids) ≡ kept_blocks ids (all_blocks msgs)
all_blocks-drop_pairs [] ids h n = rw (drop_pairs_nil ids) refl'
  where
    refl' : all_blocks [] ≡ kept_blocks ids []
    refl' = unfold kept_blocks in refl
all_blocks-drop_pairs (m ∷ c) [] h n =
    unfold drop_pairs in sym (kept_blocks_none (all_blocks (m ∷ c)))
all_blocks-drop_pairs (m ∷ c) (id ∷ ids) h n =
    let v = (validate-IsValid (m ∷ c)).0 h in
    rw (drop_pairs_lem m c (id ∷ ids) v n refl, ← (first_kept (id ∷ ids) m c v n).1)
      (all_blocks-merge_turns (id ∷ ids) [] (m ∷ c))

merge_last-IsFilled :
    (c : Convo) (m : Message) → IsFilled c → is_empty m.content ≡ false → IsFilled (merge_last c m)
unfolding merge_last
merge_last-IsFilled [] m f e = (e, tt)
merge_last-IsFilled (x ∷ []) m f e =
    let long : is_empty (x.content ++ m.content) ≡ false =
      ground (arith, is_empty-append x.content m.content, f.0) in
    elim (Bool-cases (x.role == m.role)) [ inl t ↦ rw t (long, tt) | inr t ↦ rw t (f.0, (e, tt)) ]
merge_last-IsFilled (x ∷ y ∷ c) m f e = (f.0, merge_last-IsFilled (y ∷ c) m f.1 e)

append-IsFilled : (c : Convo) (m : Message) → IsFilled c → IsFilled (append c m)
unfolding append
append-IsFilled c m f = elim (Bool-cases (is_empty m.content)) [
  | inl e ↦ rw e f
  | inr e ↦ rw e (merge_last-IsFilled c m f e)
]

merge_turns-IsFilled : (out c : Convo) → IsFilled out → IsFilled (merge_turns out c)
unfolding merge_turns
merge_turns-IsFilled out [] f = f
merge_turns-IsFilled out (m ∷ c) f = merge_turns-IsFilled (append out m) c (append-IsFilled out m f)

strip_to_user-IsFilled : (c : Convo) → IsFilled c → IsFilled (strip_to_user c)
unfolding strip_to_user
strip_to_user-IsFilled [] f = tt
strip_to_user-IsFilled (m ∷ c) f = ground (arith, strip_to_user-IsFilled c f.1)

pub drop_pairs-IsFilled :
    (c : Convo) (ids : List ToolUseId) → IsFilled c → IsFilled (drop_pairs c ids)
unfolding drop_pairs normalize
drop_pairs-IsFilled c [] f = f
drop_pairs-IsFilled c (id ∷ ids) f =
    strip_to_user-IsFilled _ (merge_turns-IsFilled [] (evict (id ∷ ids) c) tt)

-- `DropTagged` keeps a valid transcript valid, if the first turn is not empty.
pub validate-apply_drop_tagged :
    (d : DropTagged) (v : View)
    → validate v.messages ≡ ok tt
    → StartsFilled v.messages
    → validate (apply_drop_tagged d v) ≡ ok tt
unfolding apply_drop_tagged
validate-apply_drop_tagged d v h n =
    ground (arith, validate-drop_pairs v.messages (victims d v) h n)

-- A transcript that opens with an empty user turn: an assistant calls `id`, and the call is
-- answered.
abbrev pub empty_start : ToolUseId → String → String → String → Convo
empty_start id name input content =
    record { role = role_user; content = [] }
    ∷ record { role = role_assistant; content = tool_use id name input ∷ [] }
    ∷ record { role = role_user; content = tool_result id content false ∷ [] }
    ∷ []

-- Without the condition on the first turn `DropPairs` may break a transcript that `Validate`
-- accepts: where the first turn is empty, dropping any other id removes the call and leaves its
-- result.
pub drop_pairs-empty_start :
    (id dropped name input content : String)
    → dropped ≢ id
    → (validate (empty_start id name input content) ≡ ok tt)
      × (validate (drop_pairs (empty_start id name input content) (dropped ∷ []))
          ≡ err orphan_result)
unfolding drop_pairs merge_turns strip_to_user evict kept_blocks append merge_last validate
drop_pairs-empty_start id dropped name input content n =
    ground (arith, eq_iff id id, eq_iff dropped id)
