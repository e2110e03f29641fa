-- ===== src/Session.antt =====
-- httpapi/session.go: a conversation of many turns, each turn one run of the agent.
--
-- The mutex makes `Send`, each event that the pump copies, the end of the pump, `Cancel` and `close`
-- one step each. The pump of a turn runs exactly while `cancel` is set, so the sessions that a
-- scheduler can make are lists of acts. What a turn meets is a `World` of the agent loop. Times,
-- what was spent, the texts of errors and the queue of approvals are left out.
pub mod Emitting
pub mod Logs
pub mod Endings
pub mod Turns
mod Examples
use wombat_go.Common.{
  ℕ, ◌+◌, ◌-◌, Bool, true, false, not, ◌||◌, String, List, [], ◌∷◌, ◌++◌, Option, none, some,
  Result, ok, err, length, drop, ltb, ◌=?◌, ◌==◌, if◌then◌else◌,
}
use wombat_go.Llm.{ToolUseId, RawMessage, Message, user_text}
use wombat_go.Run.{Agent, World, Finish, RunError, answered, paused, submitted, run}
use wombat_go.Run.Resume.{answer_pause, then_instruct}

pub data SessionState : Type 0 where
  idle running waiting approving done failed : SessionState

pub data SendError : Type 0 where
  no_such_session busy err_done : SendError

-- `TurnEnded`, without its number and what was spent.
pub record Ending : Type 0 where
  pub state : SessionState
  pub outcome : String
  pub answer : String
  pub question : String
  pub tool : String
  pub error : Option RunError

-- The marks of a turn, and the events of the run, which a session only copies.
pub data Event (E : Type 0) : Type 0 where
  turn_started : ℕ → String → Event E
  turn_ended : ℕ → Ending → Event E
  run_event : E → Event E

pub record Frame (E : Type 0) : Type 0 where
  pub seq : ℕ
  pub turn : ℕ
  pub event : Event E

-- `changed` is the number of the current channel, `cancel` the turn whose context it ends, `input`
-- what the last turn was started with. `log` is every frame, and `cancelled` every turn that was
-- cancelled, which the code does not keep.
pub record Session (E : Type 0) : Type 0 where
  pub state : SessionState
  pub turns : ℕ
  pub closed : Bool
  pub frames : List (Frame E)
  pub base : ℕ
  pub changed : ℕ
  pub msgs : List Message
  pub outcome : String
  pub answer : String
  pub error : Option RunError
  pub pause_id : ToolUseId
  pub cancel : Option ℕ
  pub input : List Message
  pub log : List (Frame E)
  pub cancelled : List ℕ

-- As `Manager.Create` makes it.
unfoldable pub new_session : {E : Type 0} → Session E
new_session = record {
  state = idle;
  turns = 0;
  closed = false;
  frames = [];
  base = 0;
  changed = 0;
  msgs = [];
  outcome = "";
  answer = "";
  error = none;
  pause_id = "";
  cancel = none;
  input = [];
  log = [];
  cancelled = [];
}

abbrev pub is_done : SessionState → Bool
is_done idle = false
is_done running = false
is_done waiting = false
is_done approving = false
is_done done = true
is_done failed = false

-- The state that `infoLocked` shows, with the number of calls that wait for a human.
unfoldable pub shown : ℕ → SessionState → SessionState
shown parked idle = idle
shown parked running = if ltb 0 parked then approving else running
shown parked waiting = waiting
shown parked approving = approving
shown parked done = done
shown parked failed = failed

abbrev pub in_flight : Option ℕ → Bool
in_flight none = false
in_flight (some turn) = true

-- What the pump makes of the outcome or the error of a run; `question` reads it from the input of
-- a pause.
unfoldable pub end_of : (RawMessage → String) → Finish → Ending
end_of question (ok (answered text)) = record {
  state = idle;
  outcome = "answer";
  answer = text;
  question = "";
  tool = "";
  error = none;
}
end_of question (ok (paused id input)) = record {
  state = waiting;
  outcome = "paused";
  answer = "";
  question = question input;
  tool = "";
  error = none;
}
end_of question (ok (submitted tool payload)) = record {
  state = done;
  outcome = "submitted";
  answer = payload;
  question = "";
  tool = tool;
  error = none;
}
end_of question (err e) = record {
  state = failed;
  outcome = "";
  answer = "";
  question = "";
  tool = "";
  error = some e;
}

abbrev pub pause_id_of : Finish → ToolUseId
pause_id_of (ok (answered text)) = ""
pause_id_of (ok (paused id input)) = id
pause_id_of (ok (submitted tool payload)) = ""
pause_id_of (err e) = ""

module _ {E : Type 0} where
  abbrev pub wake : Session E → Session E
  wake s = record s { changed = s.changed + 1 }

  -- The oldest frames are dropped.
  abbrev pub evict : ℕ → Session E → Session E
  evict over s =
      if ltb 0 over then record s { frames = drop over s.frames; base = s.base + over } else s

  abbrev pub push_frame : Frame E → Session E → Session E
  push_frame f s = record s { frames = s.frames ++ f ∷ []; log = s.log ++ f ∷ [] }

  abbrev pub next_frame : ℕ → Event E → Session E → Frame E
  next_frame turn ev s = record { seq = s.base + length s.frames; turn = turn; event = ev }

  abbrev pub emit_open : ℕ → ℕ → Event E → Session E → Session E
  emit_open cap turn ev s =
      let t = push_frame (next_frame turn ev s) s in wake (evict (length t.frames - cap) t)

  abbrev pub emit_if : Bool → ℕ → ℕ → Event E → Session E → Session E
  emit_if true cap turn ev s = s
  emit_if false cap turn ev s = emit_open cap turn ev s

  -- `emitLocked`, and `append` under the lock.
  unfoldable pub emit : ℕ → ℕ → Event E → Session E → Session E
  emit cap turn ev s = emit_if s.closed cap turn ev s

  -- Why `Send` refuses.
  unfoldable pub refusal : Session E → Option SendError
  refusal s =
      if s.closed
      then some no_such_session
      else if in_flight s.cancel
      then some busy
      else if is_done s.state
      then some err_done
      else none

  -- What the next turn starts from.
  unfoldable pub seed : String → Session E → List Message
  seed prompt s =
      if s.turns + 1 =? 1
      then user_text prompt ∷ []
      else if not (s.pause_id == "")
      then answer_pause s.msgs s.pause_id prompt
      else then_instruct s.msgs prompt

  abbrev pub started : String → Session E → Session E
  started prompt s = record s {
    turns = s.turns + 1;
    state = running;
    cancel = some (s.turns + 1);
    pause_id = "";
    outcome = "";
    answer = "";
    error = none;
    input = seed prompt s;
  }

  abbrev pub send_or : Option SendError → ℕ → String → Session E → Session E × Result SendError ℕ
  send_or (some e) cap prompt s = (s, err e)
  send_or none cap prompt s = (
    emit cap (s.turns + 1) (turn_started (s.turns + 1) prompt) (started prompt s),
    ok (s.turns + 1),
  )

  -- `Send`.
  unfoldable pub send : ℕ → String → Session E → Session E × Result SendError ℕ
  unfolding refusal seed emit
  send cap prompt s = send_or (refusal s) cap prompt s

  abbrev pub settled : Ending → List Message → ToolUseId → Session E → Session E
  settled end msgs pause_id s = record s {
    msgs = msgs;
    state = end.state;
    outcome = end.outcome;
    answer = if not (end.question == "") then end.question else end.answer;
    error = end.error;
    pause_id = pause_id;
    cancel = none;
  }

  -- The end of `pump`: what it sets under the lock.
  unfoldable pub settle :
      (RawMessage → String) → ℕ → ℕ → List Message → Finish → Session E → Session E
  unfolding end_of emit
  settle question cap turn msgs finish s =
      let end = end_of question finish in
      emit cap turn (turn_ended turn end) (settled end msgs (pause_id_of finish) s)

  abbrev pub cancel_turn : Option ℕ → Session E → Session E
  cancel_turn none s = s
  cancel_turn (some turn) s = record s { cancelled = turn ∷ s.cancelled }

  -- `close`, until it waits for the pump.
  unfoldable pub close : Session E → Session E
  close s = cancel_turn s.cancel (wake (record s { closed = true }))

-- The test at which a follower stops waiting.
abbrev pub is_over : {E : Type 0} → Session E → Bool
is_over s = s.closed || is_done s.state

-- A prompt is sent, the run of the turn produces an event, or it is over, in the world that it met;
-- the turn is cancelled, or the session is dropped.
pub data Act (E : Type 0) : Type 0 where
  prompted : String → Act E
  produced : E → Act E
  ended : World → Act E
  stopped : Act E
  dropped : Act E

-- The agent, how the question of a pause is read, and the capacity of the log.
pub record Setting : Type 0 where
  pub agent : Agent
  pub question : RawMessage → String
  pub cap : ℕ

module _ {E : Type 0} (k : Setting) where
  abbrev pub copy_event : Option ℕ → E → Session E → Session E
  copy_event none ev s = s
  copy_event (some turn) ev s = emit k.cap turn (run_event ev) s

  abbrev pub end_turn : Option ℕ → World → Session E → Session E
  end_turn none w s = s
  end_turn (some turn) w s =
      let r = run k.agent w s.input in settle k.question k.cap turn r.0.convo r.1 s

  unfoldable pub perform : Act E → Session E → Session E
  unfolding send emit settle close
  perform (prompted prompt) s = (send k.cap prompt s).0
  perform (produced ev) s = copy_event s.cancel ev s
  perform (ended w) s = end_turn s.cancel w s
  perform stopped s = cancel_turn s.cancel s
  perform dropped s = close s

  unfoldable pub perform_all : List (Act E) → Session E → Session E
  unfolding perform
  perform_all [] s = s
  perform_all (a ∷ acts) s = perform_all acts (perform a s)
