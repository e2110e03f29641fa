-- ===== src/Session/Endings.antt =====
-- A session that is over: nothing is added to its log any more.
use wombat_go.Common.{
  ℕ, Bool, true, false, ◌||◌, ◌≡◌, refl, ap, ◌∙◌, sym, subst, String, List, [], ◌∷◌, Option, none,
  some, arith,
}
use wombat_go.Llm.{Message}
use wombat_go.Run.{World, Finish, run}
use wombat_go.Session.Emitting.{Fields, Holds, emit-Holds}
use wombat_go.Session.{
  SessionState, Event, run_event, turn_ended, Session, is_done, is_over, in_flight, end_of,
  pause_id_of, emit_if, emit, SendError, refusal, send_or, started, settled, settle, cancel_turn,
  Act, prompted, produced, ended, stopped, dropped, Setting, copy_event, end_turn, perform,
  perform_all, new_session,
}

-- It was dropped, or a tool ended its task and no turn is in flight.
abbrev pub Over : Bool → SessionState → Option ℕ → Type 0
Over true state o = Unit
Over false state o = (is_done state ≡ true) × (o ≡ none)

abbrev pub IsOver : {E : Type 0} → Session E → Type 0
IsOver s = Over s.closed s.state s.cancel

-- What an act leaves of a session that is over.
abbrev pub Rests : {E : Type 0} → Session E → Session E → Type 0
Rests s t = (t.log ≡ s.log) × IsOver t

module _ {E : Type 0} where
  closed-IsOver : (s : Session E) → s.closed ≡ true → IsOver s
  closed-IsOver s h = subst (λ c. Over c s.state s.cancel) (sym h) tt

  in_flight-closed : (s : Session E) (turn : ℕ) → IsOver s → s.cancel ≡ some turn → s.closed ≡ true
  in_flight-closed s turn h e = on s.closed refl h
    where
      on : (c : Bool) → s.closed ≡ c → Over c s.state s.cancel → c ≡ true
      on true k o = refl
      on false k o = absurd (cc (e, o.1))

  emit-closed :
      (cap turn : ℕ) (ev : Event E) (s : Session E) → s.closed ≡ true → emit cap turn ev s ≡ s
  unfolding emit
  emit-closed cap turn ev s h = ap (λ c. emit_if c cap turn ev s) h

  refusal-IsOver : (s : Session E) → IsOver s → refusal s ≡ none → ⊥
  unfolding refusal
  refusal-IsOver s h e = on s.closed refl h
    where
      on : (c : Bool) → s.closed ≡ c → Over c s.state s.cancel → ⊥
      on true k o = absurd (ground (arith, e, k))
      on false k o = absurd (ground (arith, e, k, o.0, ap in_flight o.1))

  send_or-Rests :
      (o : Option SendError) (cap : ℕ) (prompt : String) (s : Session E)
      → (o ≡ none → ⊥)
      → IsOver s
      → Rests s (send_or o cap prompt s).0
  send_or-Rests none cap prompt s f h = absurd (f refl)
  send_or-Rests (some e) cap prompt s f h = (refl, h)

  cancel_turn-Rests : (o : Option ℕ) (s : Session E) → IsOver s → Rests s (cancel_turn o s)
  cancel_turn-Rests none s h = (refl, h)
  cancel_turn-Rests (some turn) s h = (refl, h)

module _ {E : Type 0} (k : Setting) where
  copy_event-Rests :
      (o : Option ℕ) (ev : E) (s : Session E)
      → s.cancel ≡ o
      → IsOver s
      → Rests s (copy_event k o ev s)
  copy_event-Rests none ev s e h = (refl, h)
  copy_event-Rests (some turn) ev s e h =
      subst (Rests s) (sym (emit-closed k.cap turn (run_event ev) s (in_flight-closed s turn h e)))
        (refl, h)

  settle-Rests :
      (turn : ℕ) (msgs : List Message) (f : Finish) (s : Session E)
      → s.closed ≡ true
      → Rests s (settle k.question k.cap turn msgs f s)
  unfolding settle
  settle-Rests turn msgs f s h =
      let t = settled (end_of k.question f) msgs (pause_id_of f) s in
      subst (Rests s) (sym (emit-closed k.cap turn (turn_ended turn (end_of k.question f)) t h))
        (refl, closed-IsOver t h)

  end_turn-Rests :
      (o : Option ℕ) (w : World) (s : Session E)
      → s.cancel ≡ o
      → IsOver s
      → Rests s (end_turn k o w s)
  end_turn-Rests none w s e h = (refl, h)
  end_turn-Rests (some turn) w s e h =
      let r = run k.agent w s.input in
      settle-Rests turn r.0.convo r.1 s (in_flight-closed s turn h e)

  perform-Rests : (a : Act E) (s : Session E) → IsOver s → Rests s (perform k a s)
  unfolding perform
  perform-Rests (prompted prompt) s h =
      send_or-Rests (refusal s) k.cap prompt s (refusal-IsOver s h) h
  perform-Rests (produced ev) s h = copy_event-Rests s.cancel ev s refl h
  perform-Rests (ended w) s h = end_turn-Rests s.cancel w s refl h
  perform-Rests stopped s h = cancel_turn-Rests s.cancel s h
  perform-Rests dropped s h = cancel_turn-Rests s.cancel _ tt

  perform_all-Rests :
      (acts : List (Act E)) (s : Session E) → IsOver s → Rests s (perform_all k acts s)
  unfolding perform_all
  perform_all-Rests [] s h = (refl, h)
  perform_all-Rests (a ∷ acts) s h =
      let one = perform-Rests a s h in
      let rest = perform_all-Rests acts (perform k a s) one.1 in (rest.0 ∙ one.0, rest.1)

-- Once the task has ended, no turn is in flight.
abbrev pub Settles : Fields
Settles state o turns input msgs id = is_done state ≡ true → o ≡ none

module _ {E : Type 0} (k : Setting) where
  send_or-Settles :
      (o : Option SendError) (cap : ℕ) (prompt : String) (s : Session E)
      → Holds Settles s
      → Holds Settles (send_or o cap prompt s).0
  send_or-Settles (some e) cap prompt s h = h
  send_or-Settles none cap prompt s h =
      emit-Holds Settles cap _ _ (started prompt s) (λ e. absurd (cc e))

  cancel_turn-Settles :
      (o : Option ℕ) (s : Session E) → Holds Settles s → Holds Settles (cancel_turn o s)
  cancel_turn-Settles none s h = h
  cancel_turn-Settles (some turn) s h = h

  copy_event-Settles :
      (o : Option ℕ) (ev : E) (s : Session E)
      → Holds Settles s
      → Holds Settles (copy_event k o ev s)
  copy_event-Settles none ev s h = h
  copy_event-Settles (some turn) ev s h = emit-Holds Settles k.cap turn (run_event ev) s h

  end_turn-Settles :
      (o : Option ℕ) (w : World) (s : Session E)
      → Holds Settles s
      → Holds Settles (end_turn k o w s)
  unfolding settle
  end_turn-Settles none w s h = h
  end_turn-Settles (some turn) w s h =
      let r = run k.agent w s.input in
      let end = end_of k.question r.1 in
      emit-Holds Settles k.cap turn (turn_ended turn end)
        (settled end r.0.convo (pause_id_of r.1) s) (λ e. refl)

  perform-Settles : (a : Act E) (s : Session E) → Holds Settles s → Holds Settles (perform k a s)
  unfolding perform
  perform-Settles (prompted prompt) s h = send_or-Settles (refusal s) k.cap prompt s h
  perform-Settles (produced ev) s h = copy_event-Settles s.cancel ev s h
  perform-Settles (ended w) s h = end_turn-Settles s.cancel w s h
  perform-Settles stopped s h = cancel_turn-Settles s.cancel s h
  perform-Settles dropped s h = cancel_turn-Settles s.cancel _ h

  perform_all-Settles :
      (acts : List (Act E)) (s : Session E) → Holds Settles s → Holds Settles (perform_all k acts s)
  unfolding perform_all
  perform_all-Settles [] s h = h
  perform_all-Settles (a ∷ acts) s h =
      perform_all-Settles acts (perform k a s) (perform-Settles a s h)

IsOver-is_over : {E : Type 0} (s : Session E) → IsOver s → is_over s ≡ true
IsOver-is_over s h = on s.closed s.state s.cancel h
  where
    on : (c : Bool) (st : SessionState) (o : Option ℕ) → Over c st o → (c || is_done st) ≡ true
    on true st o h = refl
    on false st o h = h.0

is_over-IsOver : {E : Type 0} (s : Session E) → Holds Settles s → is_over s ≡ true → IsOver s
is_over-IsOver s h e = on s.closed s.state s.cancel h e
  where
    on :
        (c : Bool) (st : SessionState) (o : Option ℕ)
        → (is_done st ≡ true → o ≡ none)
        → (c || is_done st) ≡ true
        → Over c st o
    on true st o h e = tt
    on false st o h e = (e, h e)

-- Once a follower finds a session over, since it was dropped or since its state is `Done`, it stays
-- over and no frame is ever added to its log, whatever happens after.
pub perform_all-over :
    {E : Type 0} (k : Setting) (acts more : List (Act E))
    → let s = perform_all k acts new_session in
      let t = perform_all k more s in is_over s ≡ true → (t.log ≡ s.log) × (is_over t ≡ true)
unfolding new_session
perform_all-over k acts more e =
    let s = perform_all k acts new_session in
    let h = perform_all-Settles k acts new_session (λ e. refl) in
    let rests = perform_all-Rests k more s (is_over-IsOver s h e) in
    (rests.0, IsOver-is_over (perform_all k more s) rests.1)
