-- ===== src/Convo/Extend.antt =====
-- What `merge_last`, and so `Append`, does to a well-formed transcript.
use wombat_go.Common.{
  true, false, ◌≡◌, ◌≢◌, refl, sym, ap, ◌∙◌, ◌⊎◌, inl, inr, List, [], ◌∷◌, ◌++◌, arith, append-nil,
  append_assoc, ◌==◌, eq_iff, eq-nil_of_contains,
}
use wombat_go.Llm.{
  Role, ToolUseId, role_user, role_assistant, ContentBlock, text, tool_use, tool_result, thinking,
  Message,
}
use wombat_go.Convo.{Convo, merge_last}
use wombat_go.Convo.Spec.{
  use_ids, result_ids, all_uses, Placed, Answers, Follows, end_role, end_uses,
}

pub use_ids-append : (xs ys : List ContentBlock) → use_ids (xs ++ ys) ≡ use_ids xs ++ use_ids ys
use_ids-append [] ys = refl
use_ids-append (text _ ∷ xs) ys = use_ids-append xs ys
use_ids-append (tool_use id _ _ ∷ xs) ys = ap (◌∷◌ id) (use_ids-append xs ys)
use_ids-append (tool_result _ _ _ ∷ xs) ys = use_ids-append xs ys
use_ids-append (thinking _ _ ∷ xs) ys = use_ids-append xs ys

pub result_ids-append :
    (xs ys : List ContentBlock) → result_ids (xs ++ ys) ≡ result_ids xs ++ result_ids ys
result_ids-append [] ys = refl
result_ids-append (text _ ∷ xs) ys = result_ids-append xs ys
result_ids-append (tool_use _ _ _ ∷ xs) ys = result_ids-append xs ys
result_ids-append (tool_result id _ _ ∷ xs) ys = ap (◌∷◌ id) (result_ids-append xs ys)
result_ids-append (thinking _ _ ∷ xs) ys = result_ids-append xs ys

pub Placed-append :
    (r : Role) (xs ys : List ContentBlock) → Placed r xs → Placed r ys → Placed r (xs ++ ys)
Placed-append r [] ys p q = q
Placed-append r (x ∷ xs) ys p q = (p.0, Placed-append r xs ys p.1 q)

-- A turn that calls nothing leaves nothing to answer.
pub Answers-nil : Answers [] []
Answers-nil = record { once = refl; same = λ id. refl }

pub uses_eq_nil : (uses : List ToolUseId) → Answers [] uses → uses ≡ []
uses_eq_nil uses a = eq-nil_of_contains uses (λ x. sym (a.same x))

pub results_eq_nil : (results : List ToolUseId) → Answers results [] → results ≡ []
results_eq_nil results a = eq-nil_of_contains results a.same

pub results_of_assistant :
    (r : Role) (bs : List ContentBlock) → r ≡ role_assistant → Placed r bs → result_ids bs ≡ []
results_of_assistant r [] a q = refl
results_of_assistant r (text _ ∷ bs) a q = results_of_assistant r bs a q.1
results_of_assistant r (thinking _ _ ∷ bs) a q = results_of_assistant r bs a q.1
results_of_assistant r (tool_use _ _ _ ∷ bs) a q = results_of_assistant r bs a q.1
results_of_assistant r (tool_result _ _ _ ∷ bs) a q =
    absurd (ground (arith, a, q.0, eq_iff "user" "assistant"))

pub uses_of_user :
    (r : Role) (bs : List ContentBlock) → r ≡ role_user → Placed r bs → use_ids bs ≡ []
uses_of_user r [] a q = refl
uses_of_user r (text _ ∷ bs) a q = uses_of_user r bs a q.1
uses_of_user r (thinking _ _ ∷ bs) a q = uses_of_user r bs a q.1
uses_of_user r (tool_result _ _ _ ∷ bs) a q = uses_of_user r bs a q.1
uses_of_user r (tool_use _ _ _ ∷ bs) a q =
    absurd (ground (arith, a, q.0, eq_iff "user" "assistant"))

-- No turn calls and answers at once.
pub Placed-cases :
    (r : Role) (bs : List ContentBlock)
    → Placed r bs
    → ((r ≡ role_assistant) × (result_ids bs ≡ [])) ⊎ (use_ids bs ≡ [])
Placed-cases r [] p = inr refl
Placed-cases r (text _ ∷ bs) p = Placed-cases r bs p.1
Placed-cases r (thinking _ _ ∷ bs) p = Placed-cases r bs p.1
Placed-cases r (tool_use _ _ _ ∷ bs) p = elim (Placed-cases r bs p.1) [
  | inl a ↦ inl a
  | inr e ↦ inl (p.0, results_of_assistant r bs p.0 p.1)
]
Placed-cases r (tool_result _ _ _ ∷ bs) p = elim (Placed-cases r bs p.1) [
  | inl a ↦ absurd (ground (arith, a.0, p.0, eq_iff "user" "assistant"))
  | inr e ↦ inr e
]

pub all_uses-merge_last :
    (c : Convo) (m : Message) → all_uses (merge_last c m) ≡ all_uses c ++ use_ids m.content
unfolding merge_last
all_uses-merge_last [] m = append-nil (use_ids m.content)
all_uses-merge_last (x ∷ []) m = ground (
  arith,
  append-nil (use_ids m.content),
  append-nil (use_ids x.content),
  append-nil (use_ids (x.content ++ m.content)),
  use_ids-append x.content m.content,
)
all_uses-merge_last (x ∷ y ∷ c) m =
    ap (λ us. use_ids x.content ++ us) (all_uses-merge_last (y ∷ c) m)
    ∙ sym (append_assoc (use_ids x.content) (all_uses (y ∷ c)) (use_ids m.content))

-- What `merge_last` leaves: `c` goes on from `r` and `uses`, and ends as given.
pub record Grown (r : Role) (uses : List ToolUseId) (c : Convo) (last : Role)
    (left : List ToolUseId) : Type 0 where
  pub follows : Follows r uses c
  pub last_role : end_role r c ≡ last
  pub last_uses : end_uses uses c ≡ left

-- A turn of another role is a turn of its own.
pub merge_last-ne :
    (r : Role) (uses : List ToolUseId) (c : Convo) (m : Message)
    → Follows r uses c
    → m.role ≢ end_role r c
    → Placed m.role m.content
    → Answers (result_ids m.content) (end_uses uses c)
    → Grown r uses (merge_last c m) m.role (use_ids m.content)
unfolding merge_last
merge_last-ne r uses [] m f n p a = record {
  follows = (n, p, a, tt);
  last_role = refl;
  last_uses = refl;
}
merge_last-ne r uses (x ∷ []) m f n p a =
    let e : (x.role == m.role) ≡ false = ground (arith, eq_iff x.role m.role) in
    rw e (record { follows = (f.0, f.1, f.2, (n, p, a, tt)); last_role = refl; last_uses = refl })
merge_last-ne r uses (x ∷ y ∷ c) m f n p a =
    let g = merge_last-ne x.role (use_ids x.content) (y ∷ c) m f.3 n p a in
    record {
      follows = (f.0, f.1, f.2, g.follows);
      last_role = g.last_role;
      last_uses = g.last_uses;
    }

-- A turn of the same role that answers nothing joins the last one.
pub merge_last-eq :
    (r : Role) (uses : List ToolUseId) (x : Message) (c : Convo) (m : Message)
    → Follows r uses (x ∷ c)
    → m.role ≡ end_role r (x ∷ c)
    → Placed m.role m.content
    → result_ids m.content ≡ []
    → Grown r uses (merge_last (x ∷ c) m) m.role (end_uses uses (x ∷ c) ++ use_ids m.content)
unfolding merge_last
merge_last-eq r uses x [] m f n p a =
    let e : (x.role == m.role) ≡ true = ground (arith, eq_iff x.role m.role) in
    let res : result_ids (x.content ++ m.content) ≡ result_ids x.content =
      ground (arith, result_ids-append x.content m.content, append-nil (result_ids x.content), a) in
    rw e (record {
      follows = (f.0, Placed-append x.role x.content m.content f.1 (subst' n p), rw res f.2, tt);
      last_role = sym n;
      last_uses = use_ids-append x.content m.content;
    })
  where
    subst' : m.role ≡ x.role → Placed m.role m.content → Placed x.role m.content
    subst' e q = rw (← e) q
merge_last-eq r uses x (y ∷ c) m f n p a =
    let g = merge_last-eq x.role (use_ids x.content) y c m f.3 n p a in
    record {
      follows = (f.0, f.1, f.2, g.follows);
      last_role = g.last_role;
      last_uses = g.last_uses;
    }
