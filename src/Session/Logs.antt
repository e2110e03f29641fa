-- ===== src/Session/Logs.antt =====
-- The log of a session: its numbers, its turns, and what is kept of it.
pub mod Growth
use wombat_go.Common.{
  ℕ, zero, suc, ◌+◌, ◌-◌, Bool, true, false, ◌≡◌, refl, ap, ◌∙◌, sym, subst, String, List, [], ◌∷◌,
  ◌++◌, Option, none, some, length, drop, ltb, arith, length-append, length-drop, drop-append,
  drop-nil, drop-drop, Bool-cases, inl, inr,
}
use wombat_go.Llm.{Message}
use wombat_go.Run.{World, Finish, run}
use wombat_go.Session.{
  Ending, Event, turn_started, turn_ended, run_event, Frame, Session, in_flight, end_of,
  pause_id_of, evict, push_frame, next_frame, emit_open, emit_if, emit, SendError, refusal, send_or,
  started, settled, settle, cancel_turn, Act, prompted, produced, ended, stopped, dropped, Setting,
  copy_event, end_turn, perform, perform_all, new_session,
}

module _ {E : Type 0} (cap : ℕ) where
  -- The frames that are kept are the newest `cap` of the log, and `base` counts those before them.
  pub record IsWindow (frames log : List (Frame E)) (base : ℕ) : Type 0 where
    pub base_is : base ≡ length log - cap
    pub frames_are : frames ≡ drop (length log - cap) log

  pub length_window :
      (frames log : List (Frame E)) (base : ℕ)
      → IsWindow frames log base
      → base + length frames ≡ length log
  length_window frames log base h =
      omega (arith, h.base_is, ap length h.frames_are, length-drop (length log - cap) log)

  pub pushed-IsWindow :
      (frames log : List (Frame E)) (base : ℕ) (f : Frame E)
      → IsWindow frames log base
      → let over = length (frames ++ f ∷ []) - cap in
        IsWindow (drop over (frames ++ f ∷ [])) (log ++ f ∷ []) (base + over)
  pushed-IsWindow frames log base f h =
      let over = length (frames ++ f ∷ []) - cap in
      let moved : base + over ≡ length (log ++ f ∷ []) - cap = omega (
        arith,
        h.base_is,
        length_window frames log base h,
        length-append frames (f ∷ []),
        length-append log (f ∷ []),
      ) in
      record {
        base_is = moved;
        frames_are =
            ap (λ es. drop over (es ++ f ∷ [])) h.frames_are
            ∙ ap (drop over) (sym (drop-append (length log - cap) log (f ∷ []) (omega arith)))
            ∙ drop-drop over (length log - cap) (log ++ f ∷ [])
            ∙ ap (λ n. drop n (log ++ f ∷ [])) (ap (λ n. n + over) (sym h.base_is) ∙ moved);
      }

-- A log of `n` turns, one after the other from the first, with the last one open or not: each is a
-- start, the events of its run, and an end; every frame has its turn's number and its own place.
pub data Turns (E : Type 0) : ℕ → Bool → List (Frame E) → Type 0 where
  nothing : Turns E 0 false []
  opened :
      (n : ℕ) (log : List (Frame E)) (prompt : String)
      → Turns E n false log
      → Turns E (n + 1) true (
          log
          ++ record { seq = length log; turn = n + 1; event = turn_started (n + 1) prompt } ∷ [])
  reported :
      (n : ℕ) (log : List (Frame E)) (ev : E)
      → Turns E n true log
      → Turns E n true (log ++ record { seq = length log; turn = n; event = run_event ev } ∷ [])
  over :
      (n : ℕ) (log : List (Frame E)) (end : Ending)
      → Turns E n true log
      → Turns E n false
          (log ++ record { seq = length log; turn = n; event = turn_ended n end } ∷ [])

-- Some number of turns, the last open or not.
abbrev pub SomeTurns : (E : Type 0) → List (Frame E) → Type 0
SomeTurns E log = (n : ℕ) × (b : Bool) × Turns E n b log

-- Until the session is dropped the log is that of its turns, and a turn is open where one is in flight,
-- which is then the last.
abbrev pub Logged : {E : Type 0} → Bool → Option ℕ → ℕ → List (Frame E) → Type 0
Logged {E = E} true o turns log = SomeTurns E log
Logged {E = E} false none turns log = Turns E turns false log
Logged {E = E} false (some turn) turns log = Turns E turns true log × (turn ≡ turns)

pub record IsLogged {E : Type 0} (cap : ℕ) (s : Session E) : Type 0 where
  pub window : IsWindow cap s.frames s.log s.base
  pub logged : Logged s.closed s.cancel s.turns s.log

module _ {E : Type 0} (cap : ℕ) where
  -- What an eviction keeps and changes.
  pub evicted :
      (over : ℕ) (s : Session E)
      (P : Bool → Option ℕ → ℕ → List (Frame E) → List (Frame E) → ℕ → Type 0)
      → P s.closed s.cancel s.turns s.log (drop over s.frames) (s.base + over)
      → P
          (evict over s).closed
          (evict over s).cancel
          (evict over s).turns
          (evict over s).log
          (evict over s).frames
          (evict over s).base
  evicted zero s P h = subst (P s.closed s.cancel s.turns s.log s.frames) (omega arith) h
  evicted (suc n) s P h = rw (positive n) h
    where
      positive : (n : ℕ) → ltb 0 (suc n) ≡ true
      positive n = ground arith

  pub emit_open-IsLogged :
      (turn : ℕ) (ev : Event E) (s : Session E)
      → IsWindow cap s.frames s.log s.base
      → Logged s.closed s.cancel s.turns
          (s.log ++ record { seq = length s.log; turn = turn; event = ev } ∷ [])
      → IsLogged cap (emit_open cap turn ev s)
  emit_open-IsLogged turn ev s h l =
      let f = next_frame turn ev s in
      let t = push_frame f s in
      let placed : f ≡ record { seq = length s.log; turn = turn; event = ev } =
        ap (λ n. record { seq = n; turn = turn; event = ev })
          (length_window cap s.frames s.log s.base h) in
      let both =
        evicted (length t.frames - cap) t
          (λ c o n log frames base. IsWindow cap frames log base × Logged c o n log)
          (
            pushed-IsWindow cap s.frames s.log s.base f h,
            subst (λ g. Logged s.closed s.cancel s.turns (s.log ++ g ∷ [])) (sym placed) l,
          ) in
      record { window = both.0; logged = both.1 }
