-- ===== src/Convo/Repair.antt =====
-- `Append` and `CloseDangling` keep a transcript well formed.
use wombat_go.Common.{
  true, ◌&&◌, ◌≡◌, refl, sym, ap, subst, ◌∙◌, inl, inr, List, [], ◌∷◌, ◌++◌, arith, append-nil,
  ◌==◌, eq_iff, distinct, Bool-cases, String, ok, is_empty,
}
use wombat_go.Llm.{role_user, role_assistant, ContentBlock, Message}
use wombat_go.Convo.{Convo, dangling, append, merge_last, acknowledge, close_dangling, validate}
use wombat_go.Convo.Spec.{
  use_ids, result_ids, all_uses, Placed, Answers, end_role, end_uses, IsOpen, Opens,
}
use wombat_go.Convo.Validation.{validate-IsValid}
use wombat_go.Convo.Extend.{
  use_ids-append, result_ids-append, Placed-append, uses_eq_nil, results_eq_nil,
  results_of_assistant, all_uses-merge_last, Grown, merge_last-ne, merge_last-eq,
}
use wombat_go.Convo.Closing.{
  dangling-eq-end_uses, end_uses-distinct, end_role_calls, IsPlain, Placed-plain, acknowledge_lem,
}

merge_last-Opens :
    (x : Message) (c : Convo) (m : Message) → Opens (x ∷ c) → Opens (merge_last (x ∷ c) m)
unfolding merge_last
merge_last-Opens x [] m h = elim (Bool-cases (x.role == m.role)) [ inl e ↦ rw e h | inr e ↦ rw e h ]
merge_last-Opens x (y ∷ c) m h = h

-- The calls of a transcript and the turn that is added to it.
abbrev pub Extends : Convo → Message → Type 0
Extends c m =
    Placed m.role m.content
    × Answers (result_ids m.content) (end_uses [] c)
    × (distinct (all_uses c ++ use_ids m.content) ≡ true)

-- A turn of the last turn's role finds no call open and answers none.
same_role_idle :
    (c : Convo) (m : Message)
    → IsOpen c
    → Extends c m
    → m.role ≡ end_role role_assistant c
    → (end_uses [] c ≡ []) × (result_ids m.content ≡ [])
same_role_idle c m v e same = elim (end_role_calls role_assistant [] c v.follows (inl refl)) [
  | inr none_open ↦ (none_open, results_eq_nil _ (rw (← none_open) e.1))
  | inl assistant ↦
      let no_results = results_of_assistant m.role m.content (same ∙ assistant) e.0 in
      (uses_eq_nil _ (subst (λ rs. Answers rs (end_uses [] c)) no_results e.1), no_results)
]

merge_last-Grown :
    (x : Message) (c : Convo) (m : Message)
    → IsOpen (x ∷ c)
    → Extends (x ∷ c) m
    → Grown role_assistant [] (merge_last (x ∷ c) m) m.role (use_ids m.content)
merge_last-Grown x c m v e = elim (Bool-cases (m.role == end_role role_assistant (x ∷ c))) [
  | inl t ↦
      let same : m.role ≡ end_role role_assistant (x ∷ c) =
        ground (arith, t, eq_iff m.role (end_role role_assistant (x ∷ c))) in
      let (none_open, no_results) = same_role_idle (x ∷ c) m v e same in
      let g = merge_last-eq role_assistant [] x c m v.follows same e.0 no_results in
      record {
        follows = g.follows;
        last_role = g.last_role;
        last_uses = g.last_uses ∙ ap (λ l. l ++ use_ids m.content) none_open;
      }
  | inr t ↦
      merge_last-ne role_assistant [] (x ∷ c) m v.follows
        (λ same. ground (arith, t, same, eq_iff m.role (end_role role_assistant (x ∷ c)))) e.0 e.1
]

append-IsOpen_parts :
    (x : Message) (c : Convo) (m : Message)
    → IsOpen (x ∷ c)
    → Extends (x ∷ c) m
    → IsOpen (append (x ∷ c) m) × (end_uses [] (append (x ∷ c) m) ≡ use_ids m.content)
unfolding append
append-IsOpen_parts x c m v e = elim (Bool-cases (is_empty m.content)) [
  | inl bare ↦
      let none_left : m.content ≡ [] = ground (arith, bare) in
      let closed : end_uses [] (x ∷ c) ≡ [] =
        uses_eq_nil _ (subst (λ bs. Answers (result_ids bs) (end_uses [] (x ∷ c))) none_left e.1) in
      rw bare (v, closed ∙ ap use_ids (sym none_left))
  | inr full ↦
      let g = merge_last-Grown x c m v e in
      rw full (
        record {
          opens = merge_last-Opens x c m v.opens;
          follows = g.follows;
          unique = rw (all_uses-merge_last (x ∷ c) m) e.2;
        },
        g.last_uses,
      )
]

-- `Append` keeps a transcript well formed up to its end, whatever the role of the new turn: if
-- its blocks ride in their role, answer exactly the open calls and call fresh ids, then the
-- result is well formed up to its end, and its open calls are those of the new turn.
pub append-IsOpen :
    (c : Convo) (m : Message)
    → IsOpen c
    → Extends c m
    → IsOpen (append c m) × (end_uses [] (append c m) ≡ use_ids m.content)
append-IsOpen [] m v e = absurd v.opens
append-IsOpen (x ∷ c) m v e = append-IsOpen_parts x c m v e

-- What `CloseDangling` adds.
abbrev closing : Convo → String → List ContentBlock → Message
closing c ack extra = record { role = role_user; content = acknowledge ack (dangling c) ++ extra }

closing-Extends :
    (c : Convo) (ack : String) (extra : List ContentBlock)
    → IsOpen c
    → IsPlain extra
    → Extends c (closing c ack extra) × (use_ids (closing c ack extra).content ≡ [])
closing-Extends c ack extra v p =
    let d = dangling-eq-end_uses c v in
    let a = acknowledge_lem ack (dangling c) in
    let uses : use_ids (acknowledge ack (dangling c) ++ extra) ≡ [] =
      ground (arith, use_ids-append (acknowledge ack (dangling c)) extra, a.0, p.no_uses) in
    let results : result_ids (acknowledge ack (dangling c) ++ extra) ≡ end_uses [] c = ground (
      arith,
      result_ids-append (acknowledge ack (dangling c)) extra,
      a.1,
      p.no_results,
      d,
      append-nil (dangling c),
    ) in
    (
      (
        Placed-append role_user _ extra a.2 (Placed-plain role_user extra p),
        rw results (record { once = end_uses-distinct c v; same = λ id. refl }),
        rw uses (rw (append-nil (all_uses c)) v.unique),
      ),
      uses,
    )

-- A transcript that is well formed up to its last turn passes `Validate` after `CloseDangling`,
-- whatever the acknowledgement, if the extra blocks neither call a tool nor answer one.
pub validate-close_dangling :
    (c : Convo) (ack : String) (extra : List ContentBlock)
    → IsOpen c
    → IsPlain extra
    → validate (close_dangling c ack extra) ≡ ok tt
unfolding close_dangling
validate-close_dangling c ack extra v p =
    elim (Bool-cases (is_empty (dangling c) && is_empty extra)) [
      | inl idle ↦ rw idle (
          (validate-IsValid c).1 (record {
            before = v;
            settled = sym (dangling-eq-end_uses c v) ∙ ground (arith, idle);
          }))
      | inr busy ↦
          let (e, none_left) = closing-Extends c ack extra v p in
          let (open_end, last) = append-IsOpen c (closing c ack extra) v e in
          rw busy (
            (validate-IsValid (append c (closing c ack extra))).1
              (record { before = open_end; settled = last ∙ none_left }))
    ]
