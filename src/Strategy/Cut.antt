-- ===== src/Strategy/Cut.antt =====
-- `SafeCut`: where it cuts, and that the part after the cut is a transcript of its own.
use wombat_go.Common.{
  ℕ, zero, suc, ◌-◌, ◌≤◌, ◌<◌, true, false, ◌||◌, ◌≡◌, ◌≢◌, refl, sym, ap, ◌∙◌, ◌⊎◌, inl, inr, List,
  [], ◌∷◌, ◌++◌, arith, is_empty, length, length-append, get_elem?, drop, leb, ◌=?◌, eq_iff,
  distinct, Bool-cases, if◌then◌else◌,
}
use wombat_go.Llm.{
  Role, ToolUseId, role_user, role_assistant, ContentBlock, text, tool_use, tool_result, thinking,
}
use wombat_go.Convo.{Convo}
use wombat_go.Convo.Spec.{use_ids, result_ids, all_uses, Follows, end_uses, IsValid, Opens}
use wombat_go.Convo.Extend.{Answers-nil}
use wombat_go.Convo.Closing.{distinct-append}
use wombat_go.Strategy.{answers_a_tool, is_fresh_turn, is_fresh_at, safe_cut_from, safe_cut}

-- The loop finds the largest safe index at or below its start, or 0.
safe_cut_from_lem :
    (c : Convo) (want : ℕ)
    → (safe_cut_from c want ≤ want)
      × ((safe_cut_from c want ≡ 0) ⊎ (is_fresh_at c (safe_cut_from c want) ≡ true))
      × ((i : ℕ) → i ≤ want → is_fresh_at c i ≡ true → i ≤ safe_cut_from c want)
unfolding safe_cut_from
safe_cut_from_lem c zero = (omega arith, inl refl, λ i h f. omega arith)
safe_cut_from_lem c (suc n) =
    let ih = safe_cut_from_lem c n in
    elim (Bool-cases (is_fresh_at c (suc n))) [
      | inl e ↦ rw e (omega arith, inr e, λ i h f. h)
      | inr e ↦ rw e (omega (arith, ih.0), ih.1, λ i h f. ih.2 i (omega (arith, below i h f e)) f)
    ]
  where
    below : (i : ℕ) → i ≤ suc n → is_fresh_at c i ≡ true → is_fresh_at c (suc n) ≡ false → i ≢ suc n
    below i h f e same = cc (ap (is_fresh_at c) same)

is_fresh_at-lt : (c : Convo) (i : ℕ) → is_fresh_at c i ≡ true → i < length c
unfolding is_fresh_at
is_fresh_at-lt [] i h = cc
is_fresh_at-lt (m ∷ c) zero h = omega arith
is_fresh_at-lt (m ∷ c) (suc i) h = omega (arith, is_fresh_at-lt c i h)

-- `SafeCut` returns 0, or the index of a user turn that carries no result, at most `want`; and no
-- such index up to `want` is larger.
pub safe_cut_lem :
    (c : Convo) (want : ℕ)
    → (safe_cut c want ≤ want)
      × ((safe_cut c want ≡ 0) ⊎ (is_fresh_at c (safe_cut c want) ≡ true))
      × ((i : ℕ) → i ≤ want → is_fresh_at c i ≡ true → i ≤ safe_cut c want)
unfolding safe_cut
safe_cut_lem c want = elim (Bool-cases ((want =? 0) || is_empty c)) [
  | inl e ↦ rw e (omega arith, inl refl, λ i h f. none_below i h f e)
  | inr e ↦
      let start = if leb (length c) want then length c - 1 else want in
      let l = safe_cut_from_lem c start in
      let start_le : start ≤ want = ground arith in
      rw e
        (omega (arith, l.0, start_le), l.1, λ i h f. l.2 i (ground (arith, is_fresh_at-lt c i f)) f)
]
  where
    none_below :
        (i : ℕ) → i ≤ want → is_fresh_at c i ≡ true → ((want =? 0) || is_empty c) ≡ true → i ≤ 0
    none_below i h f e = ground (arith, is_fresh_at-lt c i f)

-- A fresh turn answers nothing, so nothing waits before it.
fresh_no_results : (bs : List ContentBlock) → answers_a_tool bs ≡ false → result_ids bs ≡ []
unfolding answers_a_tool
fresh_no_results [] h = refl
fresh_no_results (text _ ∷ bs) h = fresh_no_results bs h
fresh_no_results (thinking _ _ ∷ bs) h = fresh_no_results bs h
fresh_no_results (tool_use _ _ _ ∷ bs) h = fresh_no_results bs h
fresh_no_results (tool_result _ _ _ ∷ bs) h = cc

-- The part of a transcript from a fresh turn on.
pub record Suffix (uses : List ToolUseId) (c d : Convo) : Type 0 where
  pub opens : Opens d
  pub follows : Follows role_assistant [] d
  pub same_end : end_uses uses c ≡ end_uses [] d

fresh_suffix :
    (r : Role) (uses : List ToolUseId) (c : Convo) (i : ℕ)
    → Follows r uses c
    → is_fresh_at c i ≡ true
    → Suffix uses c (drop i c)
unfolding is_fresh_at is_fresh_turn
fresh_suffix r uses [] i f h = cc
fresh_suffix r uses (m ∷ c) zero f h =
    let user : m.role ≡ role_user = ground (arith, eq_iff m.role role_user) in
    let no_results = fresh_no_results m.content (ground arith) in
    record {
      opens = user;
      follows = (
        λ e. ground (arith, user, e, eq_iff "user" "assistant"),
        f.1,
        rw no_results Answers-nil,
        f.3,
      );
      same_end = refl;
    }
fresh_suffix r uses (m ∷ c) (suc i) f h =
    let s = fresh_suffix m.role (use_ids m.content) c i f.3 h in
    record { opens = s.opens; follows = s.follows; same_end = s.same_end }

distinct-drop :
    (c : Convo) (i : ℕ) → distinct (all_uses c) ≡ true → distinct (all_uses (drop i c)) ≡ true
distinct-drop c zero h = h
distinct-drop [] (suc i) h = h
distinct-drop (m ∷ c) (suc i) h =
    distinct-drop c i (distinct-append (use_ids m.content) (all_uses c) h).1

-- What stands from a fresh turn on is valid if the whole is.
pub drop-IsValid : (c : Convo) (i : ℕ) → IsValid c → is_fresh_at c i ≡ true → IsValid (drop i c)
drop-IsValid c i v h =
    let s = fresh_suffix role_assistant [] c i v.before.follows h in
    record {
      before = record {
        opens = s.opens;
        follows = s.follows;
        unique = distinct-drop c i v.before.unique;
      };
      settled = sym s.same_end ∙ v.settled;
    }

-- The cut depends only on the turns up to the place where the search starts.
get_elem?-append : (c d : Convo) (i : ℕ) → i < length c → get_elem? (c ++ d) i ≡ get_elem? c i
get_elem?-append [] d i h = absurd (omega arith)
get_elem?-append (m ∷ c) d zero h = refl
get_elem?-append (m ∷ c) d (suc i) h = get_elem?-append c d i (omega arith)

safe_cut_from-append :
    (c d : Convo) (want : ℕ) → want < length c → safe_cut_from (c ++ d) want ≡ safe_cut_from c want
unfolding safe_cut_from is_fresh_at
safe_cut_from-append c d zero h = refl
safe_cut_from-append c d (suc n) h =
    ground (arith, get_elem?-append c d (suc n) h, safe_cut_from-append c d n (omega arith))

-- A stable start gives a stable cut: turns added at the end do not move it.
pub safe_cut-append :
    (c d : Convo) (want : ℕ) → want < length c → safe_cut (c ++ d) want ≡ safe_cut c want
unfolding safe_cut
safe_cut-append [] d want h = absurd (omega arith)
safe_cut-append (m ∷ c) d want h =
    ground (arith, safe_cut_from-append (m ∷ c) d want h, length-append (m ∷ c) d)
