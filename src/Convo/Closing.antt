-- ===== src/Convo/Closing.antt =====
-- `Dangling` lists the calls of the last turn, and `CloseDangling` answers them.
use wombat_go.Common.{
  true, false, ◌≡◌, refl, sym, ap, ◌∙◌, ◌⊎◌, inl, inr, List, [], ◌∷◌, ◌++◌, arith, append-nil,
  append_assoc, eq_iff, contains, delete, distinct, contains-append, String,
}
use wombat_go.Llm.{
  Role, ToolUseId, role_user, role_assistant, ContentBlock, text, tool_use, tool_result, thinking,
}
use wombat_go.Convo.{
  Convo, Opened, note_block, note_blocks, note_turns, still_open, dangling, acknowledge,
}
use wombat_go.Convo.Spec.{
  use_ids, result_ids, all_uses, Placed, Follows, end_role, end_uses, IsOpen,
}
use wombat_go.Convo.Scanning.{fresh, fresh_iff, Drains, Answers-Drains}
use wombat_go.Convo.Extend.{uses_eq_nil, Placed-cases}

abbrev state : List ToolUseId → List ToolUseId → Opened
state opened order = record { opened = opened; order = order }

-- A turn that only answers.
note_results :
    (bs : List ContentBlock) (o left ord : List ToolUseId)
    → use_ids bs ≡ []
    → Drains o (result_ids bs) left
    → note_blocks (state o ord) bs ≡ state left ord
unfolding note_blocks note_block
note_results [] o left ord e d = ap (λ x. state x ord) d
note_results (text _ ∷ bs) o left ord e d = note_results bs o left ord e d
note_results (thinking _ _ ∷ bs) o left ord e d = note_results bs o left ord e d
note_results (tool_use _ _ _ ∷ bs) o left ord e d = cc
note_results (tool_result id _ _ ∷ bs) o left ord e d = note_results bs (delete id o) left ord e d.1

-- A turn that only calls.
note_uses :
    (bs : List ContentBlock) (o ord : List ToolUseId)
    → result_ids bs ≡ []
    → fresh o (use_ids bs) ≡ true
    → note_blocks (state o ord) bs ≡ state (o ++ use_ids bs) (ord ++ use_ids bs)
unfolding note_blocks note_block
note_uses [] o ord e f = ground (arith, append-nil o, append-nil ord)
note_uses (text _ ∷ bs) o ord e f = note_uses bs o ord e f
note_uses (thinking _ _ ∷ bs) o ord e f = note_uses bs o ord e f
note_uses (tool_result _ _ _ ∷ bs) o ord e f = cc
note_uses (tool_use id _ _ ∷ bs) o ord e f = ground (
  arith,
  note_uses bs (o ++ id ∷ []) (ord ++ id ∷ []) e,
  append_assoc o (id ∷ []) (use_ids bs),
  append_assoc ord (id ∷ []) (use_ids bs),
)

pub distinct-append :
    (xs ys : List ToolUseId)
    → distinct (xs ++ ys) ≡ true
    → (distinct xs ≡ true)
      × (distinct ys ≡ true)
      × ((x : ToolUseId) → contains ys x ≡ true → contains xs x ≡ false)
distinct-append [] ys h = (refl, h, λ x e. refl)
distinct-append (z ∷ xs) ys h =
    let ih = distinct-append xs ys (ground arith) in
    let c = contains-append xs ys z in
    (ground (arith, ih.0, c), ih.1, λ x e. ground (arith, ih.2 x e, c, eq_iff z x))

note_turns_lem :
    (r : Role) (uses ord : List ToolUseId) (c : Convo)
    → Follows r uses c
    → distinct (all_uses c) ≡ true
    → note_turns (state uses ord) c ≡ state (end_uses uses c) (ord ++ all_uses c)
unfolding note_turns
note_turns_lem r uses ord [] f d = ground (arith, append-nil ord)
note_turns_lem r uses ord (m ∷ c) f d =
    let us = use_ids m.content in
    let parts = distinct-append us (all_uses c) d in
    let one : note_blocks (state uses ord) m.content ≡ state us (ord ++ us) =
      elim (Placed-cases m.role m.content f.1) [
        | inl (_, e) ↦
            let none_open : uses ≡ [] = uses_eq_nil uses (rw (← e) f.2) in
            rw none_open (note_uses m.content [] ord e ((fresh_iff [] us).1 parts.0 (λ x h. refl)))
        | inr e ↦
            note_results m.content uses [] ord e (Answers-Drains uses _ f.2)
            ∙ ground (arith, e, append-nil ord)
      ] in
    rw one (
      note_turns_lem m.role us (ord ++ us) c f.3 parts.1
      ∙ ap (state (end_uses us c)) (append_assoc ord us (all_uses c)))

-- The calls of the last turn end the list of all calls.
uses_split :
    (uses : List ToolUseId) (c : Convo)
    → (pre : List ToolUseId) × (uses ++ all_uses c ≡ pre ++ end_uses uses c)
uses_split uses [] = ([], append-nil uses)
uses_split uses (m ∷ c) =
    let (pre, e) = uses_split (use_ids m.content) c in
    (uses ++ pre, ap (λ l. uses ++ l) e ∙ sym (append_assoc uses pre _))

still_open_none :
    (o xs ys : List ToolUseId)
    → ((x : ToolUseId) → contains xs x ≡ true → contains o x ≡ false)
    → still_open o (xs ++ ys) ≡ still_open o ys
still_open_none o [] ys h = refl
still_open_none o (x ∷ xs) ys h =
    ground
      (arith, h x, eq_iff x x, still_open_none o xs ys (λ y e. ground (arith, h y, eq_iff x y)))

still_open_all :
    (o xs : List ToolUseId)
    → ((x : ToolUseId) → contains xs x ≡ true → contains o x ≡ true)
    → still_open o xs ≡ xs
still_open_all o [] h = refl
still_open_all o (x ∷ xs) h =
    ground (arith, h x, eq_iff x x, still_open_all o xs (λ y e. ground (arith, h y, eq_iff x y)))

pub end_uses-distinct : (c : Convo) → IsOpen c → distinct (end_uses [] c) ≡ true
end_uses-distinct c v =
    let (pre, e) = uses_split [] c in (distinct-append pre (end_uses [] c) (rw (← e) v.unique)).1

-- For a transcript that is well formed up to its last turn, `Dangling` returns exactly the calls
-- of that turn, in order.
pub dangling-eq-end_uses : (c : Convo) → IsOpen c → dangling c ≡ end_uses [] c
unfolding dangling
dangling-eq-end_uses c v =
    let (pre, e) = uses_split [] c in
    let o = end_uses [] c in
    let d = distinct-append pre o (rw (← e) v.unique) in
    rw (note_turns_lem role_assistant [] [] c v.follows v.unique, e)
      (still_open_none o pre o (λ x hx. apart pre o x d.2 hx) ∙ still_open_all o o (λ x hx. hx))
  where
    apart :
        (pre o : List ToolUseId) (x : ToolUseId)
        → ((x : ToolUseId) → contains o x ≡ true → contains pre x ≡ false)
        → contains pre x ≡ true
        → contains o x ≡ false
    apart pre o x h hx = ground (arith, h x)

pub end_role_calls :
    (r : Role) (uses : List ToolUseId) (c : Convo)
    → Follows r uses c
    → (r ≡ role_assistant) ⊎ (uses ≡ [])
    → (end_role r c ≡ role_assistant) ⊎ (end_uses uses c ≡ [])
end_role_calls r uses [] f h = h
end_role_calls r uses (m ∷ c) f h =
    end_role_calls m.role (use_ids m.content) c f.3
      (elim (Placed-cases m.role m.content f.1) [ inl a ↦ inl a.0 | inr e ↦ inr e ])

-- Blocks that neither call nor answer.
pub record IsPlain (bs : List ContentBlock) : Type 0 where
  pub no_uses : use_ids bs ≡ []
  pub no_results : result_ids bs ≡ []

pub Placed-plain : (r : Role) (bs : List ContentBlock) → IsPlain bs → Placed r bs
Placed-plain r [] p = tt
Placed-plain r (text _ ∷ bs) p =
    (tt, Placed-plain r bs (record { no_uses = p.no_uses; no_results = p.no_results }))
Placed-plain r (thinking _ _ ∷ bs) p =
    (tt, Placed-plain r bs (record { no_uses = p.no_uses; no_results = p.no_results }))
Placed-plain r (tool_use _ _ _ ∷ bs) p = absurd (cc (p.no_uses))
Placed-plain r (tool_result _ _ _ ∷ bs) p = absurd (cc (p.no_results))

pub acknowledge_lem :
    (ack : String) (ids : List ToolUseId)
    → (use_ids (acknowledge ack ids) ≡ [])
      × (result_ids (acknowledge ack ids) ≡ ids)
      × Placed role_user (acknowledge ack ids)
acknowledge_lem ack [] = (refl, refl, tt)
acknowledge_lem ack (id ∷ ids) =
    let ih = acknowledge_lem ack ids in (ih.0, ap (◌∷◌ id) ih.1, (refl, ih.2))
