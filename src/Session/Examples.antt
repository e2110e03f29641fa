-- ===== src/Session/Examples.antt =====
-- A session whose first turn asks the user, and the theorems at it.
use wombat_go.Common.{
  ℕ, zero, suc, ◌<◌, true, false, ◌≡◌, refl, sym, subst, String, List, [], ◌∷◌, Option, none, some,
  ok, err, contains, distinct, ◌==◌, if◌then◌else◌, arith,
}
use wombat_go.Llm.{
  ToolUseId, role_assistant, text, tool_use, Message, user_text, stop_end_turn, stop_tool_use,
  Response,
}
use wombat_go.Convo.{validate}
use wombat_go.Convo.Spec.{use_ids, Placed}
use wombat_go.Strategy.{flat}
use wombat_go.Tool.{Def, find_pause, find_terminal}
use wombat_go.Tool.Dispatch.{returned}
use wombat_go.Run.{Agent, World, replied, run}
use wombat_go.Run.Turns.{IsProvider, IsUnissued}
use wombat_go.Session.{
  waiting, approving, shown, no_such_session, busy, Act, prompted, produced, ended, dropped,
  Setting, is_over, send, perform_all, new_session,
}
use wombat_go.Session.Logs.{IsLogged}
use wombat_go.Session.Logs.Growth.{perform_all-new_session}
use wombat_go.Session.Endings.{perform_all-over}
use wombat_go.Session.Turns.{perform_all-validate}

abbrev find : String → Option Def
find name =
    if name == "ask_user" then some (record { name = "ask_user"; caps = 32; needs = 0 }) else none

abbrev agent : Agent
agent = record {
  max_iters = 3;
  max_tokens = 1000;
  terminal = "";
  force_last_n = 0;
  strategy = flat;
  find = find;
  turn_notice = λ iter. "";
}

-- The log keeps two frames.
abbrev setting : Setting
setting = record { agent = agent; question = λ input. input; cap = 2 }

abbrev response : ℕ → Response
response zero = record { content = text "nothing" ∷ []; stop_reason = stop_end_turn }
response (suc zero) = record {
  content = text "which one?" ∷ tool_use "q1" "ask_user" "make or go?" ∷ [];
  stop_reason = stop_tool_use;
}
response (suc (suc n)) = record { content = text "done" ∷ []; stop_reason = stop_end_turn }

abbrev world : World
world = record {
  ends = λ iter after. none;
  reply = λ iter req. replied (response iter) 0;
  handler = λ iter i d u. returned "ok" [];
}

abbrev issued : ℕ → List ToolUseId
issued iter = use_ids (response iter).content

replied-inj : (r r' : Response) (t t' : ℕ) → replied r t ≡ replied r' t' → r ≡ r'
replied-inj r r' t t' h = ground arith

response-Placed : (iter : ℕ) → Placed role_assistant (response iter).content
response-Placed zero = (tt, tt)
response-Placed (suc zero) = (tt, (refl, tt))
response-Placed (suc (suc n)) = (tt, tt)

issued-distinct : (iter : ℕ) → distinct (issued iter) ≡ true
issued-distinct zero = refl
issued-distinct (suc zero) = refl
issued-distinct (suc (suc n)) = refl

issued_apart :
    (i j : ℕ) (id : ToolUseId)
    → i < j
    → contains (issued i) id ≡ true
    → contains (issued j) id ≡ false
issued_apart zero j id l h = absurd (cc h)
issued_apart (suc (suc i)) j id l h = absurd (cc h)
issued_apart (suc zero) zero id l h = refl
issued_apart (suc zero) (suc (suc j)) id l h = refl
issued_apart (suc zero) (suc zero) id l h = absurd (omega (arith, l))

world-IsProvider : IsProvider world issued
world-IsProvider = record {
  placed = λ iter req resp thought h.
      subst (λ r. Placed role_assistant r.content) (replied-inj (response iter) resp 0 thought h)
        (response-Placed iter);
  once = λ iter req resp thought h.
      subst (λ r. distinct (use_ids r.content) ≡ true)
        (replied-inj (response iter) resp 0 thought h) (issued-distinct iter);
  own = λ iter req resp thought h id k.
      subst (λ r. contains (use_ids r.content) id ≡ true)
        (sym (replied-inj (response iter) resp 0 thought h)) k;
  apart = issued_apart;
}

abbrev asked : List Message
asked = user_text "fix the build" ∷ []

asked-IsUnissued : IsUnissued issued 1 asked
asked-IsUnissued id h j le = absurd (cc h)

-- A prompt, an event of the run, and the run pauses.
abbrev paused_turn : List (Act String)
paused_turn = prompted "fix the build" ∷ produced "thinking" ∷ ended world ∷ []

abbrev two_turns : List (Act String)
two_turns = prompted "fix the build" ∷ produced "thinking" ∷ ended world ∷ prompted "make" ∷ []

asks_back :
    ((perform_all setting paused_turn new_session).state ≡ waiting)
    × ((perform_all setting paused_turn new_session).answer ≡ "make or go?")
    × ((perform_all setting paused_turn new_session).pause_id ≡ "q1")
    × ((perform_all setting paused_turn new_session).base ≡ 1)
    × (shown 1 (perform_all setting two_turns new_session).state ≡ approving)
unfolding perform_all shown run validate find_pause find_terminal new_session
asks_back = (refl, refl, refl, refl, refl)

-- A second prompt is refused while a turn runs, and any prompt once the session is dropped.
refuses :
    ((send {E = String} 2 "again" (perform_all setting two_turns new_session)).1 ≡ err busy)
    × ((send {E = String} 2 "again" (perform_all setting (dropped ∷ []) new_session)).1
        ≡ err no_such_session)
unfolding perform_all run validate find_pause find_terminal new_session send
refuses = (refl, refl)

perform_all-validate_example : validate (perform_all setting two_turns new_session).input ≡ ok tt
unfolding perform_all run validate find_pause find_terminal new_session
perform_all-validate_example =
    perform_all-validate setting two_turns
      (tt, (tt, ((issued, world-IsProvider, asked-IsUnissued), (tt, tt)))) refl

perform_all-new_session_example : IsLogged 2 (perform_all setting two_turns new_session)
perform_all-new_session_example = perform_all-new_session setting two_turns

abbrev cut_short : List (Act String)
cut_short = prompted "fix the build" ∷ dropped ∷ []

abbrev too_late : List (Act String)
too_late = prompted "again" ∷ ended world ∷ []

perform_all-over_example :
    ((perform_all setting too_late (perform_all setting cut_short new_session)).log
      ≡ (perform_all setting cut_short new_session).log)
    × (is_over (perform_all setting too_late (perform_all setting cut_short new_session)) ≡ true)
unfolding perform_all new_session
perform_all-over_example = perform_all-over setting cut_short too_late refl
