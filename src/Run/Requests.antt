-- ===== src/Run/Requests.antt =====
-- What the loop sends: every request is a transcript that a provider accepts.
use wombat_go.Common.{
  ℕ, zero, suc, ◌+◌, String, true, false, ◌≡◌, refl, sym, ap, subst, ◌∙◌, inl, inr, List, [], ◌∷◌,
  ◌++◌, Option, none, some, ok, err, append-nil, All, ◌==◌, Bool-cases,
}
use wombat_go.Llm.{Role, ToolUseId, role_user, role_assistant, ContentBlock, text, Message}
use wombat_go.Convo.{Convo, validate}
use wombat_go.Convo.Spec.{use_ids, result_ids, all_uses, Answers, Follows, Opens, end_uses, IsValid}
use wombat_go.Convo.Validation.{validate-IsValid}
use wombat_go.Convo.Extend.{use_ids-append, result_ids-append, Placed-append}
use wombat_go.Strategy.{View, Strategy}
use wombat_go.Run.{
  Agent, World, State, Finish, ChatRequest, with_notice, request_of, iterate, stop_or, carry_on,
  loop_from, start_state, begin, run, max_iterations,
}
use wombat_go.Run.Turns.{IsProvider, IsUnissued}
use wombat_go.Run.Yields.{Yields, iterate-Yields}
use wombat_go.Run.Bounds.{take_reply-sent}

uses-note : (bs : List ContentBlock) (note : String) → use_ids (bs ++ text note ∷ []) ≡ use_ids bs
uses-note bs note = use_ids-append bs (text note ∷ []) ∙ append-nil (use_ids bs)

results-note :
    (bs : List ContentBlock) (note : String) → result_ids (bs ++ text note ∷ []) ≡ result_ids bs
results-note bs note = result_ids-append bs (text note ∷ []) ∙ append-nil (result_ids bs)

all_uses-with_notice : (c : Convo) (note : String) → all_uses (with_notice c note) ≡ all_uses c
unfolding with_notice
all_uses-with_notice [] note = refl
all_uses-with_notice (m ∷ []) note = elim (Bool-cases (m.role == role_user)) [
  | inl e ↦ rw e (ap (λ ids. ids ++ []) (uses-note m.content note))
  | inr e ↦ rw e refl
]
all_uses-with_notice (m ∷ n ∷ c) note =
    ap (◌++◌ (use_ids m.content)) (all_uses-with_notice (n ∷ c) note)

end_uses-with_notice :
    (uses : List ToolUseId) (c : Convo) (note : String)
    → end_uses uses (with_notice c note) ≡ end_uses uses c
unfolding with_notice
end_uses-with_notice uses [] note = refl
end_uses-with_notice uses (m ∷ []) note = elim (Bool-cases (m.role == role_user)) [
  | inl e ↦ rw e (uses-note m.content note)
  | inr e ↦ rw e refl
]
end_uses-with_notice uses (m ∷ n ∷ c) note = end_uses-with_notice (use_ids m.content) (n ∷ c) note

Follows-with_notice :
    (r : Role) (uses : List ToolUseId) (c : Convo) (note : String)
    → Follows r uses c
    → Follows r uses (with_notice c note)
unfolding with_notice
Follows-with_notice r uses [] note h = tt
Follows-with_notice r uses (m ∷ []) note h = elim (Bool-cases (m.role == role_user)) [
  | inl e ↦ rw e (
    h.0,
    Placed-append m.role m.content (text note ∷ []) h.1 (tt, tt),
    subst (λ rs. Answers rs uses) (sym (results-note m.content note)) h.2,
    tt,
  )
  | inr e ↦ rw e h
]
Follows-with_notice r uses (m ∷ n ∷ c) note h =
    (h.0, h.1, h.2, Follows-with_notice m.role (use_ids m.content) (n ∷ c) note h.3)

Opens-with_notice : (c : Convo) (note : String) → Opens c → Opens (with_notice c note)
unfolding with_notice
Opens-with_notice [] note h = h
Opens-with_notice (m ∷ []) note h = elim (Bool-cases (m.role == role_user)) [
  | inl e ↦ rw e h
  | inr e ↦ rw e h
]
Opens-with_notice (m ∷ n ∷ c) note h = h

-- A notice for the model, put at the end of the last user turn, leaves a transcript valid.
pub validate-with_notice :
    (c : Convo) (note : String) → validate c ≡ ok tt → validate (with_notice c note) ≡ ok tt
validate-with_notice c note h =
    let v = (validate-IsValid c).0 h in
    (validate-IsValid (with_notice c note)).1 (record {
      before = record {
        opens = Opens-with_notice c note v.before.opens;
        follows = Follows-with_notice role_assistant [] c note v.before.follows;
        unique = rw (all_uses-with_notice c note) v.before.unique;
      };
      settled = end_uses-with_notice [] c note ∙ v.settled;
    })

-- The strategy keeps valid transcripts valid.
abbrev pub Keeps : Strategy → Type 0
Keeps st = (v : View) → validate v.messages ≡ ok tt → validate (st v) ≡ ok tt

abbrev pub IsAccepted : ChatRequest → Type 0
IsAccepted req = validate req.messages ≡ ok tt

request_of-IsAccepted :
    (a : Agent) (iter : ℕ) (s : State)
    → Keeps a.strategy
    → IsValid s.convo
    → IsAccepted (request_of a iter s)
unfolding request_of
request_of-IsAccepted a iter s keeps v =
    let view : View = record { messages = s.convo; results = s.results } in
    let kept = keeps view ((validate-IsValid s.convo).1 v) in
    elim (Bool-cases (a.turn_notice iter == "")) [
      | inl e ↦ rw e kept
      | inr e ↦ rw e (validate-with_notice (a.strategy view) (a.turn_notice iter) kept)
    ]

abbrev Sent : State × Finish → Type 0
Sent r = All IsAccepted r.0.sent

stop_or-Sent :
    (o : Option String) (s : State) (rest : State × Finish)
    → All IsAccepted s.sent
    → Sent rest
    → Sent (stop_or o s rest)
stop_or-Sent none s rest v h = h
stop_or-Sent (some cause) s rest v h = v

carry_on-Sent :
    (issued : ℕ → List ToolUseId) (iter : ℕ) (o : Option Finish) (s : State) (rest : State × Finish)
    → Yields issued iter s o
    → All IsAccepted s.sent
    → (IsValid s.convo → IsUnissued issued (iter + 1) s.convo → Sent rest)
    → Sent (carry_on o s rest)
carry_on-Sent issued iter none s rest y v h = h y.0 y.1
carry_on-Sent issued iter (some finish) s rest y v h = v

iterate-sent :
    (a : Agent) (w : World) (iter : ℕ) (s : State)
    → (iterate a w iter s).0.sent ≡ request_of a iter s ∷ s.sent
unfolding iterate
iterate-sent a w iter s =
    let req = request_of a iter s in
    take_reply-sent a (w.handler iter) (record s { sent = req ∷ s.sent }) (w.reply iter req)

loop_from-Sent :
    (a : Agent) (w : World) (issued : ℕ → List ToolUseId) (left iter : ℕ) (s : State)
    → Keeps a.strategy
    → IsProvider w issued
    → IsValid s.convo
    → IsUnissued issued iter s.convo
    → All IsAccepted s.sent
    → Sent (loop_from a w left iter s)
unfolding loop_from
loop_from-Sent a w issued zero iter s keeps p v n sent =
    stop_or-Sent (w.ends iter false) s (s, err (max_iterations a.max_iters)) sent sent
loop_from-Sent a w issued (suc left) iter s keeps p v n sent =
    let turn = iterate a w iter s in
    let more : All IsAccepted turn.0.sent =
      subst (All IsAccepted) (sym (iterate-sent a w iter s))
        (request_of-IsAccepted a iter s keeps v, sent) in
    stop_or-Sent (w.ends iter false) s _ sent (
      stop_or-Sent (w.ends iter true) s _ sent (
        carry_on-Sent issued iter turn.1 turn.0 (loop_from a w left (iter + 1) turn.0)
          (iterate-Yields a w issued iter s p v n) more
          (λ v' n'. loop_from-Sent a w issued left (iter + 1) turn.0 keeps p v' n' more)))

-- If the strategy keeps valid transcripts valid and the model's replies bring ids of their own in
-- each iteration, then a run that starts from a transcript that `Validate` accepts sends only
-- transcripts that `Validate` accepts, with or without a notice in the last turn.
pub run-IsAccepted :
    (a : Agent) (w : World) (issued : ℕ → List ToolUseId) (msgs : List Message)
    → Keeps a.strategy
    → IsProvider w issued
    → validate msgs ≡ ok tt
    → IsUnissued issued 1 msgs
    → All IsAccepted (run a w msgs).0.sent
unfolding run
run-IsAccepted a w issued msgs keeps p h n =
    subst (λ r. Sent (begin a w msgs r)) (sym h)
      (loop_from-Sent a w issued a.max_iters 1 (start_state msgs) keeps p
        ((validate-IsValid msgs).0 h) n tt)
