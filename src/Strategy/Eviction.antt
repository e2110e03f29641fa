-- ===== src/Strategy/Eviction.antt =====
-- The loops of `DropPairs` on whole transcripts.
use wombat_go.Common.{
  true, false, ◌≡◌, refl, sym, ap, subst, ◌∙◌, inl, inr, List, [], ◌∷◌, ◌++◌, arith, append-nil,
  append_assoc, is_empty, eq_iff, distinct, without, Bool-cases,
}
use wombat_go.Llm.{Role, ToolUseId, role_user, ContentBlock, Message}
use wombat_go.Convo.{Convo, append, merge_last}
use wombat_go.Convo.Spec.{use_ids, all_uses, Follows, end_uses, IsValid, Opens}
use wombat_go.Convo.Extend.{results_eq_nil, uses_of_user}
use wombat_go.Convo.Closing.{IsPlain, distinct-append}
use wombat_go.Strategy.{kept_blocks, evict, merge_turns, strip_to_user, normalize}
use wombat_go.Strategy.Pairs.{kept_blocks-append, kept_blocks-plain, Merged, kept, kept-Merged}

-- Every block of the transcript, in order.
abbrev pub all_blocks : Convo → List ContentBlock
all_blocks [] = []
all_blocks (m ∷ c) = m.content ++ all_blocks c

pub all_blocks-merge_last :
    (c : Convo) (m : Message) → all_blocks (merge_last c m) ≡ all_blocks c ++ m.content
unfolding merge_last
all_blocks-merge_last [] m = append-nil m.content
all_blocks-merge_last (x ∷ []) m =
    ground (arith, append-nil m.content, append-nil x.content, append-nil (x.content ++ m.content))
all_blocks-merge_last (x ∷ y ∷ c) m =
    ap (λ bs. x.content ++ bs) (all_blocks-merge_last (y ∷ c) m)
    ∙ sym (append_assoc x.content (all_blocks (y ∷ c)) m.content)

all_blocks-append : (c : Convo) (m : Message) → all_blocks (append c m) ≡ all_blocks c ++ m.content
unfolding append
all_blocks-append c m = elim (Bool-cases (is_empty m.content)) [
  | inl e ↦
      let bare : m.content ≡ [] = ground (arith, e) in
      rw e (sym (append-nil (all_blocks c)) ∙ ap (λ bs. all_blocks c ++ bs) (sym bare))
  | inr e ↦ rw e (all_blocks-merge_last c m)
]

append_bare : (c : Convo) (m : Message) → is_empty m.content ≡ true → append c m ≡ c
unfolding append
append_bare c m e = rw e refl

append_first : (m : Message) → is_empty m.content ≡ false → append [] m ≡ m ∷ []
unfolding append merge_last
append_first m e = rw e refl

module _ (ids : List ToolUseId) where
  -- Skipping an empty turn early is what `Append` does with it.
  merge_turns-evict :
      (out : Convo) (m : Message) (c : Convo)
      → merge_turns out (evict ids (m ∷ c)) ≡ merge_turns (append out (kept ids m)) (evict ids c)
  unfolding merge_turns evict
  merge_turns-evict out m c = elim (Bool-cases (is_empty (kept_blocks ids m.content))) [
    | inl e ↦ rw (e, append_bare out (kept ids m) e) refl
    | inr e ↦ rw e refl
  ]

  merge_turns-Merged :
      (r : Role) (uses done : List ToolUseId) (out c : Convo)
      → Follows r uses c
      → distinct (done ++ all_uses c) ≡ true
      → Merged ids uses done out
      → Merged ids (end_uses uses c) (done ++ all_uses c) (merge_turns out (evict ids c))
  unfolding merge_turns evict
  merge_turns-Merged r uses done out [] f d g = rw (append-nil done) g
  merge_turns-Merged r uses done out (m ∷ c) f d g =
      let us = use_ids m.content in
      let d' : distinct ((done ++ us) ++ all_uses c) ≡ true =
        rw (append_assoc done us (all_uses c)) d in
      let g' = kept-Merged ids r uses done out m c f (distinct-append (done ++ us) _ d').0 g in
      rw (merge_turns-evict out m c, ← append_assoc done us (all_uses c))
        (merge_turns-Merged m.role us (done ++ us) (append out (kept ids m)) c f.3 d' g')

  pub all_blocks-merge_turns :
      (out c : Convo)
      → all_blocks (merge_turns out (evict ids c))
        ≡ all_blocks out ++ kept_blocks ids (all_blocks c)
  unfolding merge_turns evict kept_blocks
  all_blocks-merge_turns out [] = sym (append-nil (all_blocks out))
  all_blocks-merge_turns out (m ∷ c) =
      let k = kept_blocks ids m.content in
      rw
        (
          merge_turns-evict out m c,
          all_blocks-merge_turns (append out (kept ids m)) c,
          all_blocks-append out (kept ids m),
          append_assoc (all_blocks out) k (kept_blocks ids (all_blocks c)),
          kept_blocks-append ids m.content (all_blocks c),
        )
        refl

  -- The first turn has nothing to drop, so the result opens with it.
  pub first_kept :
      (m : Message) (c : Convo)
      → IsValid (m ∷ c)
      → is_empty m.content ≡ false
      → Merged ids (use_ids m.content) (use_ids m.content) (m ∷ [])
        × (merge_turns [] (evict ids (m ∷ c)) ≡ merge_turns (m ∷ []) (evict ids c))
  first_kept m c v full =
      let user = v.before.opens in
      let plain : IsPlain m.content = record {
        no_uses = uses_of_user m.role m.content user v.before.follows.1;
        no_results = results_eq_nil _ v.before.follows.2;
      } in
      let stays : kept ids m ≡ m =
        λ i. record m { content = kept_blocks-plain ids m.content plain i } in
      let none_left : without ids (use_ids m.content) ≡ use_ids m.content = rw plain.no_uses refl in
      (
        record {
          open_end = record {
            opens = user;
            follows = (v.before.follows.0, v.before.follows.1, v.before.follows.2, tt);
            unique = rw (append-nil (use_ids m.content), plain.no_uses) refl;
          };
          same_open = sym none_left;
          same_all = append-nil (use_ids m.content) ∙ sym none_left;
        },
        merge_turns-evict [] m c
            ∙ ap (λ x. merge_turns x (evict ids c)) (ap (append []) stays ∙ append_first m full),
      )

-- What `normalize` makes of the turns that `DropPairs` leaves, and that it starts with a user turn.
pub evicted :
    (ids : List ToolUseId) (m : Message) (c : Convo)
    → IsValid (m ∷ c)
    → is_empty m.content ≡ false
    → let out = merge_turns (m ∷ []) (evict ids c) in
      Merged ids [] (all_uses (m ∷ c)) out × (normalize (evict ids (m ∷ c)) ≡ out)
unfolding normalize
evicted ids m c v full =
    let us = use_ids m.content in
    let (first, start) = first_kept ids m c v full in
    let g =
      merge_turns-Merged ids m.role us us (m ∷ []) c v.before.follows.3 v.before.unique first in
    let g' : Merged ids [] (all_uses (m ∷ c)) (merge_turns (m ∷ []) (evict ids c)) =
      subst (λ l. Merged ids l (all_uses (m ∷ c)) (merge_turns (m ∷ []) (evict ids c))) v.settled
        g in
    (g', rw start (strip_opens _ g'.open_end.opens))
  where
    strip_opens : (d : Convo) → Opens d → strip_to_user d ≡ d
    strip_opens [] o = absurd o
    strip_opens (x ∷ d) o = ground (arith, eq_iff x.role role_user)
