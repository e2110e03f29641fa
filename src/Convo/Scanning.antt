-- ===== src/Convo/Scanning.antt =====
-- What one turn must be for `Convo.check_blocks` to pass it, and the sets it leaves.
use wombat_go.Common.{
  Bool, true, false, not, ◌&&◌, ◌≡◌, refl, sym, List, [], ◌∷◌, ◌++◌, arith, append-nil,
  append_assoc, ok, eq_iff, contains, delete, distinct, contains-append, contains-delete,
  eq-nil_of_contains,
}
use wombat_go.Llm.{
  Role, ToolUseId, role_user, role_assistant, ContentBlock, text, tool_use, tool_result, thinking,
}
use wombat_go.Convo.{Scan, check_block, check_blocks}
use wombat_go.Convo.Spec.{use_ids, result_ids, Placed, Answers}

-- No id of `ids` is in `seen` or stands twice.
abbrev pub fresh : List ToolUseId → List ToolUseId → Bool
fresh seen [] = true
fresh seen (id ∷ ids) = not (contains seen id) && fresh (seen ++ id ∷ []) ids

-- Deleting `results` one by one from `uses`, each present, leaves `left`.
abbrev pub Drains : List ToolUseId → List ToolUseId → List ToolUseId → Type 0
Drains uses [] left = uses ≡ left
Drains uses (id ∷ results) left = (contains uses id ≡ true) × Drains (delete id uses) results left

pub record Scanned (r : Role) (s : Scan) (bs : List ContentBlock) (t : Scan) : Type 0 where
  pub placed : Placed r bs
  pub unused : fresh s.seen (use_ids bs) ≡ true
  pub drained : Drains s.opened (result_ids bs) t.opened
  pub seen_eq : t.seen ≡ s.seen ++ use_ids bs
  pub declared_eq : t.declared ≡ s.declared ++ use_ids bs

pub check_blocks-Scanned :
    (r : Role) (s : Scan) (bs : List ContentBlock) (t : Scan)
    → check_blocks r s bs ≡ ok t
    → Scanned r s bs t
unfolding check_blocks check_block
check_blocks-Scanned r s [] t h = record {
  placed = tt;
  unused = refl;
  drained = ground arith;
  seen_eq = ground (arith, append-nil s.seen);
  declared_eq = ground (arith, append-nil s.declared);
}
check_blocks-Scanned r s (text x ∷ bs) t h = ground (arith, check_blocks-Scanned r s bs t h)
check_blocks-Scanned r s (thinking x y ∷ bs) t h = ground (arith, check_blocks-Scanned r s bs t h)
check_blocks-Scanned r s (tool_use id name input ∷ bs) t h = ground (
  arith,
  eq_iff r role_assistant,
  check_blocks-Scanned r (record s { seen = s.seen ++ id ∷ []; declared = s.declared ++ id ∷ [] })
      bs t,
  append_assoc s.seen (id ∷ []) (use_ids bs),
  append_assoc s.declared (id ∷ []) (use_ids bs),
)
check_blocks-Scanned r s (tool_result id x y ∷ bs) t h = ground (
  arith,
  eq_iff r role_user,
  check_blocks-Scanned r (record s { opened = delete id s.opened }) bs t,
)

-- The other way round, where what is open has been seen.
pub Scanned-check_blocks :
    (r : Role) (s : Scan) (bs : List ContentBlock) (left : List ToolUseId)
    → ((x : ToolUseId) → contains s.opened x ≡ true → contains s.seen x ≡ true)
    → Placed r bs
    → fresh s.seen (use_ids bs) ≡ true
    → Drains s.opened (result_ids bs) left
    → check_blocks r s bs
      ≡ ok (record {
        seen = s.seen ++ use_ids bs;
        opened = left;
        declared = s.declared ++ use_ids bs;
      })
unfolding check_blocks check_block
Scanned-check_blocks r s [] left sub p f d =
    ground (arith, append-nil s.seen, append-nil s.declared)
Scanned-check_blocks r s (text x ∷ bs) left sub p f d = Scanned-check_blocks r s bs left sub p.1 f d
Scanned-check_blocks r s (thinking x y ∷ bs) left sub p f d =
    Scanned-check_blocks r s bs left sub p.1 f d
Scanned-check_blocks r s (tool_use id name input ∷ bs) left sub p f d =
    let t : Scan = record s { seen = s.seen ++ id ∷ []; declared = s.declared ++ id ∷ [] } in
    let sub' : (x : ToolUseId) → contains t.opened x ≡ true → contains t.seen x ≡ true =
      λ x hx. ground (arith, contains-append s.seen (id ∷ []) x, sub x hx) in
    ground (
      arith,
      eq_iff r role_assistant,
      Scanned-check_blocks r t bs left sub' p.1,
      append_assoc s.seen (id ∷ []) (use_ids bs),
      append_assoc s.declared (id ∷ []) (use_ids bs),
    )
Scanned-check_blocks r s (tool_result id x y ∷ bs) left sub p f d =
    let t : Scan = record s { opened = delete id s.opened } in
    let sub' : (x : ToolUseId) → contains t.opened x ≡ true → contains t.seen x ≡ true =
      λ x hx. ground (arith, contains-delete id s.opened x, sub x) in
    ground (arith, eq_iff r role_user, sub id, Scanned-check_blocks r t bs left sub' p.1 f d.1)

-- A turn that leaves nothing open answers every call, and only those.
pub Drains-Answers : (uses results : List ToolUseId) → Drains uses results [] → Answers results uses
Drains-Answers uses [] d = record { once = refl; same = λ x. ground arith }
Drains-Answers uses (id ∷ rs) d =
    let a : Answers rs (delete id uses) = Drains-Answers (delete id uses) rs d.1 in
    record {
      once = ground (arith, a.once, a.same id, contains-delete id uses id, eq_iff id id);
      same = λ x. ground (arith, a.same x, contains-delete id uses x, eq_iff id x);
    }

pub Answers-Drains : (uses results : List ToolUseId) → Answers results uses → Drains uses results []
Answers-Drains uses [] a = eq-nil_of_contains uses (λ x. sym (a.same x))
Answers-Drains uses (id ∷ rs) a = (
  ground (arith, a.same id, eq_iff id id),
  Answers-Drains (delete id uses) rs (record {
    once = ground (arith, a.once);
    same = λ x. ground (arith, a.same x, contains-delete id uses x, eq_iff id x, a.once);
  }),
)

-- `fresh` against a set is to be distinct and apart from it.
pub fresh_iff :
    (seen ids : List ToolUseId)
    → (fresh seen ids ≡ true
        → (distinct ids ≡ true)
          × ((x : ToolUseId) → contains ids x ≡ true → contains seen x ≡ false))
      × ((distinct ids ≡ true)
          → ((x : ToolUseId) → contains ids x ≡ true → contains seen x ≡ false)
          → fresh seen ids ≡ true)
fresh_iff seen [] = (λ h. (refl, λ x e. cc), λ d a. refl)
fresh_iff seen (id ∷ ids) =
    let ih = fresh_iff (seen ++ id ∷ []) ids in
    (
      λ h.
          let r = ih.0 (ground arith) in
          (
            ground (arith, r.0, r.1 id, contains-append seen (id ∷ []) id, eq_iff id id),
            λ x hx. ground (arith, r.1 x, contains-append seen (id ∷ []) x, eq_iff id x),
          ),
      λ d a.
          let f =
            ih.1 (ground arith)
              (λ x hx. ground (arith, a x, contains-append seen (id ∷ []) x, eq_iff id x)) in
          ground (arith, f, a id, eq_iff id id),
    )

pub fresh-append :
    (seen xs ys : List ToolUseId) → fresh seen (xs ++ ys) ≡ (fresh seen xs && fresh (seen ++ xs) ys)
fresh-append seen [] ys = ground (arith, append-nil seen)
fresh-append seen (x ∷ xs) ys =
    ground (arith, fresh-append (seen ++ x ∷ []) xs ys, append_assoc seen (x ∷ []) xs)
