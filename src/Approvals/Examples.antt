-- ===== src/Approvals/Examples.antt =====
-- A session with two questions.
use wombat_go.Common.{
  ℕ, ◌+◌, true, false, ◌≡◌, refl, String, List, [], ◌∷◌, ◌++◌, none, some, ltb, if◌then◌else◌,
}
use wombat_go.Approvals.{
  Approval, Parked, no_queue, already_answered, no_such_approval, new_approvals, find, remove,
  register, forget, resolve, release, deny, close, Act, registered, resolved, denied, closed_down,
  perform, perform_all, pending,
}
use wombat_go.Approvals.Conservation.{waits, answers, given_up, perform_all-conserves}
use wombat_go.Approvals.Answered.{got_verdict}
use wombat_go.Approvals.Answering.{resolve-resolve, perform_all-close}

abbrev question : String → ℕ → Approval
question id since = record {
  use_id = id;
  tool = "bash";
  reason = "exec";
  input = none;
  since = since;
}

abbrev acts : List Act
acts = registered (question "a" 5) ∷ registered (question "b" 9) ∷ resolved "a" true ∷ []

perform_all-conserves_example :
    let a = perform_all acts new_approvals in
    waits 0 a.waiting + answers 0 a.sent + given_up 0 acts new_approvals
    ≡ (if ltb 0 a.next then 1 else 0)
perform_all-conserves_example = perform_all-conserves 0 acts

resolve-resolve_example :
    let a = perform_all acts new_approvals in
    let r = resolve "b" true a in
    ((p : Parked)
      → find "b" a.waiting ≡ some p
      → (r.0 ≡ none)
        × (r.1.sent ≡ (p.serial, true) ∷ a.sent)
        × (resolve "b" false r.1 ≡ (some already_answered, r.1)))
    × (find "b" a.waiting ≡ none
        → r ≡ (
          some (if got_verdict "b" acts new_approvals then already_answered else no_such_approval),
          a,
        ))
resolve-resolve_example = resolve-resolve acts "b" true false

perform_all-close_example :
    let all = acts ++ closed_down ∷ [] in
    let a = perform_all all new_approvals in
    (a.waiting ≡ [])
    × ((n : ℕ) → answers n a.sent + given_up n all new_approvals ≡ (if ltb n a.next then 1 else 0))
    × ((ap : Approval) → register ap a ≡ (some no_queue, a))
perform_all-close_example = perform_all-close acts []

verdicts : (perform_all (acts ++ denied ∷ []) new_approvals).sent ≡ (1, false) ∷ (0, true) ∷ []
unfolding perform_all perform new_approvals register forget resolve deny close release remove
verdicts = refl

shows_the_oldest_first :
    pending
      (perform_all (registered (question "b" 9) ∷ registered (question "a" 5) ∷ []) new_approvals)
    ≡ question "a" 5 ∷ question "b" 9 ∷ []
unfolding perform_all perform new_approvals register forget resolve deny close release remove
    pending
shows_the_oldest_first = refl

-- A denial of all is a verdict too: an answer that comes after it is refused as late.
denied_then_answered :
    (resolve "b" true (perform_all (acts ++ denied ∷ []) new_approvals)).0 ≡ some already_answered
unfolding perform_all perform new_approvals register forget resolve deny close release remove
denied_then_answered = refl
