-- ===== src/Run/Yields.antt =====
-- What one iteration yields: a settled transcript to go on with, or a well-formed one to stop at.
use wombat_go.Common.{
  ℕ, ◌+◌, ◌<◌, String, Bool, true, false, ◌||◌, ◌≡◌, refl, sym, ap, subst, ◌∙◌, inl, inr, List, [],
  ◌∷◌, arith, Option, none, some, ok, err, contains, contains-append, distinct, eq_iff, ◌==◌,
  Bool-cases, ltb, if◌then◌else◌,
}
use wombat_go.Llm.{
  ToolUseId, role_assistant, ContentBlock, text, ToolUse, StopReason, stop_end_turn, stop_tool_use,
  stop_max_tokens, stop_stop_sequence, stop_refusal, other_stop, tool_uses,
}
use wombat_go.Convo.{Convo, push_assistant}
use wombat_go.Convo.Spec.{use_ids, all_uses, end_uses, IsOpen, IsValid}
use wombat_go.Tool.{Def, find_capable, find_pause, find_terminal}
use wombat_go.Tool.Dispatch.{Handler}
use wombat_go.Tool.Dispatch.Order.{call_ids}
use wombat_go.Run.{
  Agent, World, State, Finish, answered, paused, submitted, ChatRequest, Reply, replied, broken,
  budget_exhausted, max_empty_turns, empty_turn_error, act, act_on, settle_turn, take_reply,
  request_of, iterate, trim_right, empty_turn,
}
use wombat_go.Run.Turns.{
  IsProvider, IsUnissued, call_ids-tool_uses, all_uses-append, push_assistant-IsOpen,
  push_tool_results-IsValid, all_uses-push_tool_results,
}

-- A pause names a call that still waits.
abbrev pub Waits : Convo → Finish → Type 0
Waits c (ok (paused id input)) = contains (end_uses [] c) id ≡ true
Waits c (ok (answered s)) = Unit
Waits c (ok (submitted name payload)) = Unit
Waits c (err e) = Unit

-- Where the loop goes on the transcript is settled; where it stops it is well formed up to its end.
abbrev pub Yields : (ℕ → List ToolUseId) → ℕ → State → Option Finish → Type 0
Yields issued iter s none = IsValid s.convo × IsUnissued issued (iter + 1) s.convo
Yields issued iter s (some f) = IsOpen s.convo × Waits s.convo f

pub find_capable-contains :
    (find : String → Option Def) (c : ℕ) (uses : List ToolUse) (u : ToolUse)
    → find_capable find c uses ≡ some u
    → contains (call_ids uses) u.id ≡ true
unfolding find_capable
find_capable-contains find c [] u h = absurd (ground arith)
find_capable-contains find c (v ∷ uses) u h =
    ground (arith, h, find_capable-contains find c uses u, eq_iff v.id u.id)

act-Yields :
    (a : Agent) (handler : Handler) (issued : ℕ → List ToolUseId) (iter : ℕ) (s : State)
    (uses : List ToolUse) (terminal pause : Option ToolUse)
    → find_pause a.find uses ≡ pause
    → IsOpen s.convo
    → end_uses [] s.convo ≡ call_ids uses
    → distinct (call_ids uses) ≡ true
    → IsUnissued issued (iter + 1) s.convo
    → Yields issued iter
        (act a handler s uses terminal pause).0
        (act a handler s uses terminal pause).1
unfolding act
act-Yields a handler issued iter s uses (some t) pause f v e once n = (v, tt)
act-Yields a handler issued iter s uses none (some p) f v e once n = (
  v,
  subst (λ ids. contains ids p.id ≡ true) (sym e)
      (unfold find_pause in find_capable-contains a.find _ uses p f),
)
act-Yields a handler issued iter s uses none none f v e once n = (
  push_tool_results-IsValid a.find handler s.convo uses v e once,
  λ id h. n id (
      sym (ap (λ ids. contains ids id) (all_uses-push_tool_results a.find handler s.convo uses))
      ∙ h),
)

act_on-Yields :
    (a : Agent) (handler : Handler) (issued : ℕ → List ToolUseId) (iter : ℕ) (s : State)
    (uses : List ToolUse)
    → IsOpen s.convo
    → end_uses [] s.convo ≡ call_ids uses
    → distinct (call_ids uses) ≡ true
    → IsUnissued issued (iter + 1) s.convo
    → Yields issued iter (act_on a handler s uses).0 (act_on a handler s uses).1
unfolding act_on
act_on-Yields a handler issued iter s [] v e once n = (v, tt)
act_on-Yields a handler issued iter s (u ∷ uses) v e once n =
    act-Yields a handler issued iter s (u ∷ uses) (find_terminal a.find (u ∷ uses))
      (find_pause a.find (u ∷ uses)) refl v e once n

settle_turn-Yields :
    (a : Agent) (handler : Handler) (issued : ℕ → List ToolUseId) (iter : ℕ) (s : State)
    (bs : List ContentBlock) (stop : StopReason)
    → IsOpen s.convo
    → end_uses [] s.convo ≡ use_ids bs
    → distinct (use_ids bs) ≡ true
    → IsUnissued issued (iter + 1) s.convo
    → Yields issued iter (settle_turn a handler s bs stop).0 (settle_turn a handler s bs stop).1
unfolding settle_turn
settle_turn-Yields a handler issued iter s bs stop_end_turn v e once n = (v, tt)
settle_turn-Yields a handler issued iter s bs stop_stop_sequence v e once n = (v, tt)
settle_turn-Yields a handler issued iter s bs stop_max_tokens v e once n = (v, tt)
settle_turn-Yields a handler issued iter s bs stop_refusal v e once n = (v, tt)
settle_turn-Yields a handler issued iter s bs (other_stop r) v e once n = (v, tt)
settle_turn-Yields a handler issued iter s bs stop_tool_use v e once n =
    let same = call_ids-tool_uses bs in
    act_on-Yields a handler issued iter s (tool_uses bs) v (e ∙ sym same) (rw same once) n

-- The ids of a later iteration are not those of this one.
IsUnissued-push :
    (issued : ℕ → List ToolUseId) (iter : ℕ) (c : Convo) (bs : List ContentBlock)
    → ((i j : ℕ) (id : ToolUseId)
        → i < j
        → contains (issued i) id ≡ true
        → contains (issued j) id ≡ false)
    → ((id : ToolUseId) → contains (use_ids bs) id ≡ true → contains (issued iter) id ≡ true)
    → IsUnissued issued iter c
    → IsUnissued issued (iter + 1) (push_assistant c bs)
unfolding push_assistant
IsUnissued-push issued iter c bs apart own n id h j le =
    let either : (contains (all_uses c) id || contains (use_ids bs) id) ≡ true =
      sym (contains-append (all_uses c) (use_ids bs) id)
      ∙ ap (λ ids. contains ids id)
          (sym (all_uses-append c (record { role = role_assistant; content = bs })))
      ∙ h in
    elim (Bool-cases (contains (all_uses c) id)) [
      | inl old ↦ n id old j (omega (arith, le))
      | inr new ↦ apart iter j id (omega (arith, le)) (own id (ground (arith, either, new)))
    ]

weaken :
    (issued : ℕ → List ToolUseId) (iter : ℕ) (c : Convo)
    → IsUnissued issued iter c
    → IsUnissued issued (iter + 1) c
weaken issued iter c n id h j le = n id h j (omega (arith, le))

take_reply-Yields :
    (a : Agent) (w : World) (issued : ℕ → List ToolUseId) (iter : ℕ) (req : ChatRequest) (s : State)
    (reply : Reply)
    → IsProvider w issued
    → w.reply iter req ≡ reply
    → IsValid s.convo
    → IsUnissued issued iter s.convo
    → Yields issued iter
        (take_reply a (w.handler iter) s reply).0
        (take_reply a (w.handler iter) s reply).1
unfolding take_reply
take_reply-Yields a w issued iter req s (broken error seen) p h v n =
    elim (Bool-cases (trim_right seen == "")) [
      | inl e ↦ rw e (v.before, tt)
      | inr e ↦ rw e (
        (push_assistant-IsOpen s.convo (text (trim_right seen) ∷ []) v (tt, tt) refl
            (λ id g. refl)).0,
        tt,
      )
    ]
take_reply-Yields a w issued iter req s (replied resp thought) p h v n =
    elim (Bool-cases (empty_turn resp)) [
      | inl e ↦ rw e (quiet (budget_exhausted a thought || ltb max_empty_turns (s.empty_turns + 1)))
      | inr e ↦
          let own = p.own iter req resp thought h in
          let once = p.once iter req resp thought h in
          let (open_end, last) =
            push_assistant-IsOpen s.convo resp.content v (p.placed iter req resp thought h) once
              (λ id g. fresh own id g) in
          rw e (
            settle_turn-Yields a (w.handler iter) issued iter
              (record s { convo = push_assistant s.convo resp.content; empty_turns = 0 })
              resp.content resp.stop_reason open_end last once
              (IsUnissued-push issued iter s.convo resp.content p.apart own n))
    ]
  where
    quiet :
        (gives_up : Bool)
        → Yields issued iter
            (record s { empty_turns = s.empty_turns + 1 })
            (if gives_up
              then some
                  (err (empty_turn_error (s.empty_turns + 1) resp.stop_reason thought a.max_tokens))
              else none)
    quiet true = (v.before, tt)
    quiet false = (v, weaken issued iter s.convo n)

    fresh :
        ((id : ToolUseId)
          → contains (use_ids resp.content) id ≡ true
          → contains (issued iter) id ≡ true)
        → (id : ToolUseId) → contains (all_uses s.convo) id ≡ true
        → contains (use_ids resp.content) id ≡ false
    fresh own id g = elim (Bool-cases (contains (use_ids resp.content) id)) [
      | inr e ↦ e
      | inl e ↦ absurd (ground (arith, own id e, n id g iter (omega arith)))
    ]

pub iterate-Yields :
    (a : Agent) (w : World) (issued : ℕ → List ToolUseId) (iter : ℕ) (s : State)
    → IsProvider w issued
    → IsValid s.convo
    → IsUnissued issued iter s.convo
    → Yields issued iter (iterate a w iter s).0 (iterate a w iter s).1
unfolding iterate
iterate-Yields a w issued iter s p v n =
    let req = request_of a iter s in
    take_reply-Yields a w issued iter req (record s { sent = req ∷ s.sent }) (w.reply iter req) p
      refl v n
