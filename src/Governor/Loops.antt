-- ===== src/Governor/Loops.antt =====
-- The run of equal tool calls, told from the history of the keys.
use wombat_go.Common.{
  ℕ, ◌+◌, ◌≤◌, ◌<◌, String, ◌≡◌, ◌≢◌, refl, List, [], ◌∷◌, arith, none, ◌==◌, if◌then◌else◌, eq_iff,
}
use wombat_go.Governor.{
  Money, Limits, Budget, step, add_tool_call, enter_subagent, exit_subagent, add_call, with_budget,
  Act, called, stepped, dispatched, entered, exited, expired, cancelled, perform, perform_all,
}
use wombat_go.Governor.Bounds.{perform_all-limits, perform_all-IsWithin}

-- The keys of the tool calls so far, the newest first.
abbrev pub history : {M : Type 0} → List String → List (Act M) → List String
history past [] = past
history past (called usd tokens ∷ acts) = history past acts
history past (stepped ∷ acts) = history past acts
history past (dispatched key ∷ acts) = history (key ∷ past) acts
history past (entered ∷ acts) = history past acts
history past (exited ∷ acts) = history past acts
history past (expired ∷ acts) = history past acts
history past (cancelled ∷ acts) = history past acts

-- How many keys at the head are this one.
abbrev pub leading : String → List String → ℕ
leading key [] = 0
leading key (k ∷ ks) = if k == key then 1 + leading key ks else 0

-- How many of the newest calls are equal and have a key.
abbrev pub last_run : List String → ℕ
last_run [] = 0
last_run (k ∷ ks) = if k == "" then 0 else 1 + leading k ks

abbrev newest : List String → String
newest [] = ""
newest (k ∷ ks) = k

abbrev IsTally : {M : Type 0} → Budget M → List String → Type 0
IsTally b past = (b.last_call ≡ newest past) × (b.repeat_run ≡ last_run past)

module _ {M : Type 0} (money : Money M) where
  add_tool_call-IsTally :
      (key : String) (b : Budget M) (past : List String)
      → IsTally b past
      → IsTally (add_tool_call key b) (key ∷ past)
  unfolding add_tool_call
  add_tool_call-IsTally key b [] h = ground (arith, eq_iff key "", eq_iff key b.last_call)
  add_tool_call-IsTally key b (k ∷ past) h =
      ground (arith, eq_iff key "", eq_iff key b.last_call, eq_iff k key, eq_iff k "")

  perform_all-IsTally :
      (acts : List (Act M)) (b : Budget M) (past : List String)
      → IsTally b past
      → IsTally (perform_all money acts b) (history past acts)
  unfolding perform_all perform step enter_subagent exit_subagent add_call
  perform_all-IsTally [] b past h = h
  perform_all-IsTally (called usd tokens ∷ acts) b past h =
      perform_all-IsTally acts (add_call money usd tokens b) past (ground arith)
  perform_all-IsTally (stepped ∷ acts) b past h =
      perform_all-IsTally acts (step b) past (ground arith)
  perform_all-IsTally (dispatched key ∷ acts) b past h =
      perform_all-IsTally acts (add_tool_call key b) (key ∷ past)
        (add_tool_call-IsTally key b past h)
  perform_all-IsTally (entered ∷ acts) b past h =
      perform_all-IsTally acts (enter_subagent b).1 past (ground arith)
  perform_all-IsTally (exited ∷ acts) b past h =
      perform_all-IsTally acts (exit_subagent b) past (ground arith)
  perform_all-IsTally (expired ∷ acts) b past h = perform_all-IsTally acts _ past h
  perform_all-IsTally (cancelled ∷ acts) b past h = perform_all-IsTally acts _ past h

  -- After any sequence of acts on a new budget, the tally of repeated calls is the number of the
  -- newest tool calls that are equal; calls without a key end a run, and what is no tool call does
  -- not.
  pub perform_all-repeat_run :
      (limits : Limits M) (acts : List (Act M))
      → (perform_all money acts (with_budget money limits)).repeat_run ≡ last_run (history [] acts)
  perform_all-repeat_run limits acts =
      (perform_all-IsTally acts (with_budget money limits) []
        (unfold with_budget in (refl, refl))).1

  -- A run that has made as many equal tool calls in a row as its limit allows is cancelled.
  pub perform_all-loop :
      (limits : Limits M) (acts : List (Act M))
      → 0 < limits.repeated_tool_calls
      → limits.repeated_tool_calls ≤ last_run (history [] acts)
      → (perform_all money acts (with_budget money limits)).cause ≢ none
  perform_all-loop limits acts h k e =
      let within = perform_all-IsWithin money limits acts e in
      ground (
        arith,
        within.3,
        perform_all-repeat_run limits acts,
        perform_all-limits money acts (with_budget money limits),
        limits_lem,
      )
    where
      limits_lem : (with_budget money limits).limits ≡ limits
      limits_lem = unfold with_budget in refl
