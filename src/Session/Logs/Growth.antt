-- ===== src/Session/Logs/Growth.antt =====
-- How a log grows, act by act.
use wombat_go.Common.{
  ℕ, ◌+◌, ◌-◌, Bool, true, false, ◌≡◌, refl, sym, subst, String, List, [], ◌∷◌, ◌++◌, Option, none,
  some, length, arith, drop-nil, Bool-cases, inl, inr,
}
use wombat_go.Session.Logs.{
  IsWindow, Turns, nothing, opened, reported, over, SomeTurns, Logged, IsLogged, emit_open-IsLogged,
}
use wombat_go.Llm.{Message}
use wombat_go.Run.{World, Finish, run}
use wombat_go.Session.Emitting.{refusal-none}
use wombat_go.Session.{
  Ending, Event, turn_started, turn_ended, run_event, Frame, Session, end_of, pause_id_of, emit_if,
  emit, SendError, refusal, send_or, started, settled, settle, cancel_turn, Act, prompted, produced,
  ended, stopped, dropped, Setting, copy_event, end_turn, perform, perform_all, new_session,
}

module _ {E : Type 0} where
  -- The frame that each act adds to the log of an open session.
  starts_turn :
      (c : Bool) (o : Option ℕ) (n : ℕ) (log : List (Frame E)) (prompt : String)
      → c ≡ false
      → o ≡ none
      → Logged c o n log
      → Logged c (some (n + 1)) (n + 1) (
          log
          ++ record { seq = length log; turn = n + 1; event = turn_started (n + 1) prompt } ∷ [])
  starts_turn true o n log prompt e f h = absurd (cc e)
  starts_turn false none n log prompt e f h = (opened n log prompt h, refl)
  starts_turn false (some t) n log prompt e f h = absurd (cc f)

  reports :
      (c : Bool) (n turn : ℕ) (log : List (Frame E)) (ev : E)
      → Logged c (some turn) n log
      → c ≡ false
      → Logged c
          (some turn)
          n
          (log ++ record { seq = length log; turn = turn; event = run_event ev } ∷ [])
  reports true n turn log ev h e = absurd (cc e)
  reports false n turn log ev h e = (
    subst
        (λ t.
          Turns E n true (log ++ record { seq = length log; turn = t; event = run_event ev } ∷ []))
        (sym h.1) (reported n log ev h.0),
    h.1,
  )

  closes_turn :
      (c : Bool) (n turn : ℕ) (log : List (Frame E)) (end : Ending)
      → Logged c (some turn) n log
      → c ≡ false
      → Logged c none n
          (log ++ record { seq = length log; turn = turn; event = turn_ended turn end } ∷ [])
  closes_turn true n turn log end h e = absurd (cc e)
  closes_turn false n turn log end h e =
      subst
        (λ t.
          Turns E n false
            (log ++ record { seq = length log; turn = t; event = turn_ended t end } ∷ []))
        (sym h.1) (over n log end h.0)

  Logged-SomeTurns :
      (c : Bool) (o : Option ℕ) (n : ℕ) (log : List (Frame E)) → Logged c o n log → SomeTurns E log
  Logged-SomeTurns true o n log h = h
  Logged-SomeTurns false none n log h = (n, false, h)
  Logged-SomeTurns false (some t) n log h = (n, true, h.0)

module _ {E : Type 0} (cap : ℕ) where
  -- A closed session stays as it is, and an open one gets its frame.
  emit-IsLogged :
      (turn : ℕ) (ev : Event E) (s : Session E)
      → IsWindow cap s.frames s.log s.base
      → (s.closed ≡ true → SomeTurns E s.log)
      → (s.closed ≡ false
          → Logged s.closed s.cancel s.turns
              (s.log ++ record { seq = length s.log; turn = turn; event = ev } ∷ []))
      → IsLogged cap (emit cap turn ev s)
  unfolding emit
  emit-IsLogged turn ev s h shut live = elim (Bool-cases s.closed) [
    | inl e ↦
        subst (λ c. IsLogged cap (emit_if c cap turn ev s)) (sym e)
          (record {
            window = h;
            logged = subst (λ c. Logged c s.cancel s.turns s.log) (sym e) (shut e);
          })
    | inr e ↦
        subst (λ c. IsLogged cap (emit_if c cap turn ev s)) (sym e)
          (emit_open-IsLogged cap turn ev s h (live e))
  ]

  send_or-IsLogged :
      (o : Option SendError) (prompt : String) (s : Session E)
      → (o ≡ none → (s.closed ≡ false) × (s.cancel ≡ none))
      → IsLogged cap s
      → IsLogged cap (send_or o cap prompt s).0
  send_or-IsLogged (some e) prompt s f h = h
  send_or-IsLogged none prompt s f h =
      emit-IsLogged _ _ (started prompt s) h.window
        (λ e. Logged-SomeTurns s.closed s.cancel s.turns s.log h.logged)
        (λ e. starts_turn s.closed s.cancel s.turns s.log prompt e (f refl).1 h.logged)

  cancel_turn-IsLogged :
      (o : Option ℕ) (s : Session E) → IsLogged cap s → IsLogged cap (cancel_turn o s)
  cancel_turn-IsLogged none s h = h
  cancel_turn-IsLogged (some turn) s h = record { window = h.window; logged = h.logged }

  settle-IsLogged :
      (k : Setting) (turn : ℕ) (msgs : List Message) (f : Finish) (s : Session E)
      → s.cancel ≡ some turn
      → IsLogged cap s
      → IsLogged cap (settle k.question cap turn msgs f s)
  unfolding settle
  settle-IsLogged k turn msgs f s c h =
      emit-IsLogged turn _ (settled (end_of k.question f) msgs (pause_id_of f) s) h.window
        (λ e. Logged-SomeTurns s.closed s.cancel s.turns s.log h.logged)
        (closes_turn s.closed s.turns turn s.log (end_of k.question f)
          (subst (λ o. Logged s.closed o s.turns s.log) c h.logged))

module _ {E : Type 0} (k : Setting) where
  copy_event-IsLogged :
      (o : Option ℕ) (ev : E) (s : Session E)
      → s.cancel ≡ o
      → IsLogged k.cap s
      → IsLogged k.cap (copy_event k o ev s)
  copy_event-IsLogged none ev s c h = h
  copy_event-IsLogged (some turn) ev s c h =
      emit-IsLogged k.cap turn (run_event ev) s h.window
        (λ e. Logged-SomeTurns s.closed s.cancel s.turns s.log h.logged)
        (λ e.
          subst
            (λ o.
              Logged s.closed o s.turns
                (s.log ++ record { seq = length s.log; turn = turn; event = run_event ev } ∷ []))
            (sym c)
            (reports s.closed s.turns turn s.log ev
              (subst (λ o. Logged s.closed o s.turns s.log) c h.logged) e))

  end_turn-IsLogged :
      (o : Option ℕ) (w : World) (s : Session E)
      → s.cancel ≡ o
      → IsLogged k.cap s
      → IsLogged k.cap (end_turn k o w s)
  end_turn-IsLogged none w s c h = h
  end_turn-IsLogged (some turn) w s c h =
      let r = run k.agent w s.input in settle-IsLogged k.cap k turn r.0.convo r.1 s c h

  perform-IsLogged : (a : Act E) (s : Session E) → IsLogged k.cap s → IsLogged k.cap (perform k a s)
  unfolding perform
  perform-IsLogged (prompted prompt) s h =
      send_or-IsLogged k.cap (refusal s) prompt s (refusal-none s) h
  perform-IsLogged (produced ev) s h = copy_event-IsLogged s.cancel ev s refl h
  perform-IsLogged (ended w) s h = end_turn-IsLogged s.cancel w s refl h
  perform-IsLogged stopped s h = cancel_turn-IsLogged k.cap s.cancel s h
  perform-IsLogged dropped s h = cancel_turn-IsLogged k.cap s.cancel _ (record {
    window = h.window;
    logged = Logged-SomeTurns s.closed s.cancel s.turns s.log h.logged;
  })

  perform_all-IsLogged :
      (acts : List (Act E)) (s : Session E)
      → IsLogged k.cap s
      → IsLogged k.cap (perform_all k acts s)
  unfolding perform_all
  perform_all-IsLogged [] s h = h
  perform_all-IsLogged (a ∷ acts) s h =
      perform_all-IsLogged acts (perform k a s) (perform-IsLogged a s h)

-- Whatever happens to a session, its log is that of turns numbered from 1, one after the other, only the
-- last of which may be open: each has a start, then events of its run, then one end, and each
-- frame has the number of its turn and its place in the log as its own number. Until the session is
-- dropped, the last turn is open exactly where one is in flight, and it is that one. What is kept
-- of the log is its newest `cap` frames, and `base` counts the others.
pub perform_all-new_session :
    {E : Type 0} (k : Setting) (acts : List (Act E))
    → IsLogged k.cap (perform_all k acts new_session)
unfolding new_session
perform_all-new_session k acts = perform_all-IsLogged k acts new_session (record {
  window = record { base_is = omega arith; frames_are = sym (drop-nil (0 - k.cap)) };
  logged = nothing;
})
