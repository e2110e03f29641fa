-- ===== src/Convo/Validation.antt =====
-- `Convo.Validate` accepts exactly the transcripts of Convo/Spec.antt.
use wombat_go.Common.{
  true, false, ◌≡◌, ◌≢◌, refl, ◌↔◌, inl, inr, List, [], ◌∷◌, ◌++◌, arith, none, some, ok, eq_iff,
  contains, contains-append, ◌==◌, Result-cases,
}
use wombat_go.Llm.{Role, ToolUseId, role_user, role_assistant, Message}
use wombat_go.Convo.{Convo, Scan, check_blocks, check_turns, validate}
use wombat_go.Convo.Spec.{use_ids, all_uses, Follows, end_uses, IsValid}
use wombat_go.Convo.Scanning.{
  fresh, check_blocks-Scanned, Scanned-check_blocks, Drains-Answers, Answers-Drains, fresh_iff,
  fresh-append,
}

-- What `check_turns` establishes of the turns that it passes.
record Passed (r : Role) (seen opened : List ToolUseId) (c : Convo) : Type 0 where
  follows : Follows r opened c
  settled : end_uses opened c ≡ []
  unused : fresh seen (all_uses c) ≡ true

abbrev entry : List ToolUseId → List ToolUseId → Scan
entry seen opened = record { seen = seen; opened = opened; declared = [] }

check_turns-Passed :
    (r : Role) (seen opened : List ToolUseId) (c : Convo)
    → check_turns (some r) seen opened c ≡ ok tt
    → Passed r seen opened c
unfolding check_turns
check_turns-Passed r seen opened [] h = record {
  follows = tt;
  settled = ground arith;
  unused = refl;
}
check_turns-Passed r seen opened (m ∷ c) h =
    elim (Result-cases (check_blocks m.role (entry seen opened) m.content)) [
      | inr (e, x) ↦ absurd (ground (arith, x))
      | inl (t, x) ↦
          let s = check_blocks-Scanned m.role (entry seen opened) m.content t x in
          let closed : t.opened ≡ [] = ground (arith, x) in
          let rest = check_turns-Passed m.role t.seen t.declared c (ground (arith, x)) in
          let rest' : Passed m.role (seen ++ use_ids m.content) (use_ids m.content) c =
            rw (← s.seen_eq, ← s.declared_eq) rest in
          record {
            follows = (
              ground (arith, eq_iff m.role r),
              s.placed,
              Drains-Answers opened _ (rw (← closed) s.drained),
              rest'.follows,
            );
            settled = rest'.settled;
            unused =
                ground (
                  arith,
                  fresh-append seen (use_ids m.content) (all_uses c),
                  s.unused,
                  rest'.unused,
                );
          }
    ]

Passed-check_turns :
    (r : Role) (seen opened : List ToolUseId) (c : Convo)
    → ((x : ToolUseId) → contains opened x ≡ true → contains seen x ≡ true)
    → Passed r seen opened c
    → check_turns (some r) seen opened c ≡ ok tt
unfolding check_turns
Passed-check_turns r seen opened [] sub p = ground (arith, p.settled)
Passed-check_turns r seen opened (m ∷ c) sub p =
    let us = use_ids m.content in
    let f = fresh-append seen us (all_uses c) in
    let e =
      Scanned-check_blocks m.role (entry seen opened) m.content [] sub p.follows.1
        (ground (arith, f, p.unused)) (Answers-Drains opened _ p.follows.2) in
    let rest =
      Passed-check_turns m.role (seen ++ us) us c
        (λ x hx. ground (arith, contains-append seen us x))
        (record {
          follows = p.follows.3;
          settled = p.settled;
          unused = ground (arith, f, p.unused);
        }) in
    ground (arith, e, rest, eq_iff m.role r, p.follows.0)

pub user_ne_assistant : ◌≢◌ {A = Role} role_user role_assistant
user_ne_assistant = ground (arith, eq_iff "user" "assistant")

-- The first turn is compared with none; a user turn differs from an assistant's.
first_turn :
    (m : Message) (c : Convo)
    → m.role ≡ role_user
    → check_turns none [] [] (m ∷ c) ≡ check_turns (some role_assistant) [] [] (m ∷ c)
unfolding check_turns
first_turn m c h =
    let e : (m.role == role_assistant) ≡ false =
      ground (arith, h, eq_iff m.role role_assistant, user_ne_assistant) in
    rw e refl

-- `Validate` returns no error for a transcript exactly when it is well formed: it is not empty
-- and opens with a user turn, the roles alternate, every block rides in a turn of its role, each
-- turn answers exactly the calls of the turn before it, no call is left at the end, and no id is
-- called twice.
pub validate-IsValid : (c : Convo) → (validate c ≡ ok tt) ↔ IsValid c
unfolding validate
validate-IsValid [] = (λ h. cc, λ v. absurd v.before.opens)
validate-IsValid (m ∷ c) = (
  λ h.
      let user : m.role ≡ role_user = ground (arith, eq_iff m.role role_user) in
      let p =
        check_turns-Passed role_assistant [] [] (m ∷ c) (ground (arith, first_turn m c user)) in
      record {
        before = record {
          opens = user;
          follows = p.follows;
          unique = ((fresh_iff [] (all_uses (m ∷ c))).0 p.unused).0;
        };
        settled = p.settled;
      },
  λ v.
      let p =
        Passed-check_turns role_assistant [] [] (m ∷ c) (λ x hx. cc)
          (record {
            follows = v.before.follows;
            settled = v.settled;
            unused = (fresh_iff [] (all_uses (m ∷ c))).1 v.before.unique (λ x hx. refl);
          }) in
      ground (arith, p, first_turn m c v.before.opens, eq_iff m.role role_user, v.before.opens),
)
