-- ===== src/Run/Examples.antt =====
-- A run that calls a shell, then asks the user, and is resumed with the answer.
use wombat_go.Common.{
  ℕ, zero, suc, ◌≤◌, ◌<◌, String, true, false, ◌≡◌, refl, sym, subst, List, [], ◌∷◌, arith, Option,
  none, some, ok, contains, distinct, eq_iff, ◌==◌, All, length, if◌then◌else◌,
}
use wombat_go.Llm.{
  ToolUseId, role_assistant, text, tool_use, Message, user_text, stop_end_turn, stop_tool_use,
  Response,
}
use wombat_go.Convo.{validate}
use wombat_go.Convo.Spec.{use_ids, Placed}
use wombat_go.Strategy.{flat}
use wombat_go.Tool.{Def, find_pause, find_terminal}
use wombat_go.Tool.Dispatch.{returned}
use wombat_go.Run.{Agent, World, replied, paused, run}
use wombat_go.Run.Resume.{resume}
use wombat_go.Run.Turns.{IsProvider, IsUnissued}
use wombat_go.Run.Loop.{Leaves, run-Leaves}
use wombat_go.Run.Bounds.{run-sent}
use wombat_go.Run.Requests.{Keeps, IsAccepted, run-IsAccepted}
use wombat_go.Run.Resuming.{validate-resume-run}

abbrev find : String → Option Def
find name =
    if name == "bash"
    then some (record { name = "bash"; caps = 4; needs = 4 })
    else if name == "ask_user"
    then some (record { name = "ask_user"; caps = 32; needs = 0 })
    else none

abbrev agent : Agent
agent = record {
  max_iters = 5;
  max_tokens = 1000;
  terminal = "";
  force_last_n = 0;
  strategy = flat;
  find = find;
  turn_notice = λ iter. "";
}

abbrev response : ℕ → Response
response zero = record { content = text "nothing" ∷ []; stop_reason = stop_end_turn }
response (suc zero) = record {
  content = text "looking" ∷ tool_use "t1" "bash" "{}" ∷ [];
  stop_reason = stop_tool_use;
}
response (suc (suc zero)) = record {
  content = tool_use "q1" "ask_user" "{}" ∷ [];
  stop_reason = stop_tool_use;
}
response (suc (suc (suc n))) = record { content = text "done" ∷ []; stop_reason = stop_end_turn }

abbrev world : World
world = record {
  ends = λ iter after. none;
  reply = λ iter req. replied (response iter) 0;
  handler = λ iter i d u. returned "ok" [];
}

abbrev issued : ℕ → List ToolUseId
issued iter = use_ids (response iter).content

abbrev question : List Message
question = user_text "fix the build" ∷ []

replied-inj : (r r' : Response) (t t' : ℕ) → replied r t ≡ replied r' t' → r ≡ r'
replied-inj r r' t t' h = ground arith

response-Placed : (iter : ℕ) → Placed role_assistant (response iter).content
response-Placed zero = (tt, tt)
response-Placed (suc zero) = (tt, (refl, tt))
response-Placed (suc (suc zero)) = (refl, tt)
response-Placed (suc (suc (suc n))) = (tt, tt)

issued-distinct : (iter : ℕ) → distinct (issued iter) ≡ true
issued-distinct zero = refl
issued-distinct (suc zero) = refl
issued-distinct (suc (suc zero)) = refl
issued-distinct (suc (suc (suc n))) = refl

issued_apart :
    (i j : ℕ) (id : ToolUseId)
    → i < j
    → contains (issued i) id ≡ true
    → contains (issued j) id ≡ false
issued_apart zero j id l h = absurd (cc h)
issued_apart (suc (suc (suc i))) j id l h = absurd (cc h)
issued_apart i zero id l h = refl
issued_apart i (suc (suc (suc j))) id l h = refl
issued_apart (suc zero) (suc zero) id l h = absurd (omega (arith, l))
issued_apart (suc (suc zero)) (suc zero) id l h = absurd (omega (arith, l))
issued_apart (suc (suc zero)) (suc (suc zero)) id l h = absurd (omega (arith, l))
issued_apart (suc zero) (suc (suc zero)) id l h =
    ground (arith, h, eq_iff "t1" id, eq_iff "q1" id, eq_iff "t1" "q1")

world-IsProvider : IsProvider world issued
world-IsProvider = record {
  placed = λ iter req resp thought h.
      subst (λ r. Placed role_assistant r.content) (replied-inj (response iter) resp 0 thought h)
        (response-Placed iter);
  once = λ iter req resp thought h.
      subst (λ r. distinct (use_ids r.content) ≡ true)
        (replied-inj (response iter) resp 0 thought h) (issued-distinct iter);
  own = λ iter req resp thought h id k.
      subst (λ r. contains (use_ids r.content) id ≡ true)
        (sym (replied-inj (response iter) resp 0 thought h)) k;
  apart = issued_apart;
}

question-IsUnissued : IsUnissued issued 1 question
question-IsUnissued id h j le = absurd (cc h)

flat-Keeps : Keeps flat
flat-Keeps v h = unfold flat in h

run-Leaves_example : Leaves (run agent world question)
run-Leaves_example =
    run-Leaves agent world issued question world-IsProvider (unfold validate in refl)
      question-IsUnissued

run-IsAccepted_example : All IsAccepted (run agent world question).0.sent
run-IsAccepted_example =
    run-IsAccepted agent world issued question flat-Keeps world-IsProvider (unfold validate in refl)
      question-IsUnissued

run-sent_example : length (run agent world question).0.sent ≤ 5
run-sent_example = run-sent agent world question

validate-resume-run_example :
    validate (resume (run agent world question).0.convo "use make" find) ≡ ok tt
validate-resume-run_example =
    validate-resume-run agent world issued question "use make" find world-IsProvider
      (unfold validate in refl) question-IsUnissued refl

-- The run stops at the question, after two requests.
run_pauses : (run agent world question).1 ≡ ok (paused "q1" "{}")
unfolding run validate find_terminal find_pause
run_pauses = refl
