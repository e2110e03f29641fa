-- ===== src/Session/Turns.antt =====
-- Every turn of a session starts from a transcript that can be sent.
use wombat_go.Common.{
  ℕ, ◌+◌, true, false, ◌≡◌, refl, sym, subst, inl, inr, String, List, [], ◌∷◌, Option, none, some,
  ok, err, contains, arith, Bool-cases, ◌=?◌, ◌==◌,
}
use wombat_go.Llm.{ToolUseId, Message}
use wombat_go.Convo.{dangling, validate}
use wombat_go.Convo.Spec.{IsOpen}
use wombat_go.Convo.Closing.{dangling-eq-end_uses}
use wombat_go.Run.{World, Finish, answered, paused, submitted, run}
use wombat_go.Run.Turns.{IsProvider, IsUnissued}
use wombat_go.Run.Yields.{Waits}
use wombat_go.Run.Loop.{run-Leaves}
use wombat_go.Run.Resuming.{validate-answer_pause, validate-then_instruct}
use wombat_go.Session.Emitting.{Holds, emit-Holds, refusal-none}
use wombat_go.Session.{
  Event, Session, in_flight, end_of, pause_id_of, emit, SendError, refusal, seed, send_or, started,
  settled, settle, cancel_turn, Act, prompted, produced, ended, stopped, dropped, Setting,
  copy_event, end_turn, perform, perform_all, new_session,
}

-- A transcript that the next turn can go on from: it is well formed up to its end, and the call that is
-- to be answered still waits.
abbrev pub Continues : List Message → ToolUseId → Type 0
Continues msgs id = IsOpen msgs × ((id == "") ≡ false → contains (dangling msgs) id ≡ true)

-- A turn in flight was started well, and between turns the next one can be.
abbrev pub Ready : Option ℕ → ℕ → List Message → List Message → ToolUseId → Type 0
Ready (some turn) turns input msgs id = validate input ≡ ok tt
Ready none turns input msgs id = (turns + 1 =? 1) ≡ false → Continues msgs id

abbrev pub IsReady : {E : Type 0} → Session E → Type 0
IsReady = Holds (λ state o turns input msgs id. Ready o turns input msgs id)

emit-IsReady :
    {E : Type 0} (cap turn : ℕ) (ev : Event E) (s : Session E)
    → IsReady s
    → IsReady (emit cap turn ev s)
emit-IsReady = emit-Holds (λ state o turns input msgs id. Ready o turns input msgs id)

Continues-Waits :
    (c : List Message) (f : Finish) → IsOpen c → Waits c f → Continues c (pause_id_of f)
Continues-Waits c (ok (answered text)) v h = (v, λ e. absurd (ground (arith, e)))
Continues-Waits c (ok (paused id input)) v h =
    (v, λ e. subst (λ ids. contains ids id ≡ true) (sym (dangling-eq-end_uses c v)) h)
Continues-Waits c (ok (submitted tool payload)) v h = (v, λ e. absurd (ground (arith, e)))
Continues-Waits c (err e) v h = (v, λ e'. absurd (ground (arith, e')))

module _ {E : Type 0} where
  validate-seed :
      (prompt : String) (s : Session E)
      → ((s.turns + 1 =? 1) ≡ false → Continues s.msgs s.pause_id)
      → validate (seed prompt s) ≡ ok tt
  unfolding seed
  validate-seed prompt s h = elim (Bool-cases (s.turns + 1 =? 1)) [
    | inl e ↦ rw e (unfold validate in refl)
    | inr e ↦ elim (Bool-cases (s.pause_id == "")) [
      | inl p ↦ rw (e, p) (validate-then_instruct s.msgs prompt (h e).0)
      | inr p ↦ rw (e, p) (validate-answer_pause s.msgs s.pause_id prompt (h e).0 ((h e).1 p))
    ]
  ]

  send_or-IsReady :
      (o : Option SendError) (cap : ℕ) (prompt : String) (s : Session E)
      → (o ≡ none → s.cancel ≡ none)
      → IsReady s
      → IsReady (send_or o cap prompt s).0
  send_or-IsReady (some e) cap prompt s f h = h
  send_or-IsReady none cap prompt s f h =
      emit-IsReady cap _ _ (started prompt s)
        (validate-seed prompt s (subst (λ o. Ready o s.turns s.input s.msgs s.pause_id) (f refl) h))

-- In the world that a turn meets, the model's replies bring ids of their own in each iteration.
abbrev pub MeetsProvider : Option ℕ → World → List Message → Type 0
MeetsProvider none w input = Unit
MeetsProvider (some turn) w input =
    (issued : ℕ → List ToolUseId) × IsProvider w issued × IsUnissued issued 1 input

abbrev pub Admits : {E : Type 0} → Act E → Session E → Type 0
Admits (prompted prompt) s = Unit
Admits (produced ev) s = Unit
Admits (ended w) s = MeetsProvider s.cancel w s.input
Admits stopped s = Unit
Admits dropped s = Unit

abbrev pub AllAdmit : {E : Type 0} → Setting → List (Act E) → Session E → Type 0
AllAdmit k [] s = Unit
AllAdmit k (a ∷ acts) s = Admits a s × AllAdmit k acts (perform k a s)

module _ {E : Type 0} (k : Setting) where
  cancel_turn-IsReady : (o : Option ℕ) (s : Session E) → IsReady s → IsReady (cancel_turn o s)
  cancel_turn-IsReady none s h = h
  cancel_turn-IsReady (some turn) s h = h

  copy_event-IsReady :
      (o : Option ℕ) (ev : E) (s : Session E) → IsReady s → IsReady (copy_event k o ev s)
  copy_event-IsReady none ev s h = h
  copy_event-IsReady (some turn) ev s h = emit-IsReady k.cap turn _ s h

  settle-IsReady :
      (turn : ℕ) (msgs : List Message) (f : Finish) (s : Session E)
      → Continues msgs (pause_id_of f)
      → IsReady (settle k.question k.cap turn msgs f s)
  unfolding settle
  settle-IsReady turn msgs f s h =
      emit-IsReady k.cap turn _ (settled (end_of k.question f) msgs (pause_id_of f) s) (λ e. h)

  end_turn-IsReady :
      (o : Option ℕ) (w : World) (s : Session E)
      → s.cancel ≡ o
      → MeetsProvider o w s.input
      → IsReady s
      → IsReady (end_turn k o w s)
  end_turn-IsReady none w s e m h = h
  end_turn-IsReady (some turn) w s e m h =
      let r = run k.agent w s.input in
      let v = subst (λ o. Ready o s.turns s.input s.msgs s.pause_id) e h in
      let l = run-Leaves k.agent w m.0 s.input m.1 v m.2 in
      settle-IsReady turn r.0.convo r.1 s (Continues-Waits r.0.convo r.1 l.0 l.1)

  perform-IsReady : (a : Act E) (s : Session E) → Admits a s → IsReady s → IsReady (perform k a s)
  unfolding perform
  perform-IsReady (prompted prompt) s m h =
      send_or-IsReady (refusal s) k.cap prompt s (λ e. (refusal-none s e).1) h
  perform-IsReady (produced ev) s m h = copy_event-IsReady s.cancel ev s h
  perform-IsReady (ended w) s m h = end_turn-IsReady s.cancel w s refl m h
  perform-IsReady stopped s m h = cancel_turn-IsReady s.cancel s h
  perform-IsReady dropped s m h = cancel_turn-IsReady s.cancel _ h

  perform_all-IsReady :
      (acts : List (Act E)) (s : Session E)
      → AllAdmit k acts s
      → IsReady s
      → IsReady (perform_all k acts s)
  unfolding perform_all
  perform_all-IsReady [] s m h = h
  perform_all-IsReady (a ∷ acts) s m h =
      perform_all-IsReady acts (perform k a s) m.1 (perform-IsReady a s m.0 h)

-- In any session, whatever is prompted, cancelled or dropped and however its turns end, a turn in
-- flight was started from a transcript that `Validate` accepts. The condition is that in each turn
-- the model's replies bring ids of their own in each iteration.
pub perform_all-validate :
    {E : Type 0} (k : Setting) (acts : List (Act E))
    → AllAdmit k acts new_session
    → let s = perform_all k acts new_session in in_flight s.cancel ≡ true → validate s.input ≡ ok tt
unfolding new_session
perform_all-validate k acts m h =
    let s = perform_all k acts new_session in
    on s.cancel s.turns s.input s.msgs s.pause_id h
      (perform_all-IsReady k acts new_session m (λ e. absurd (ground (arith, e))))
  where
    on :
        (o : Option ℕ) (turns : ℕ) (input msgs : List Message) (id : ToolUseId)
        → in_flight o ≡ true
        → Ready o turns input msgs id
        → validate input ≡ ok tt
    on none turns input msgs id e r = absurd (ground (arith, e))
    on (some turn) turns input msgs id e r = r
