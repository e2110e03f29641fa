-- ===== src/Governor/Bounds.antt =====
-- What the counters of a budget are, and that none passes its cap while the run goes on.
use wombat_go.Common.{
  ℕ, ◌+◌, ◌-◌, ◌≤◌, ◌<◌, true, false, ◌&&◌, ◌≡◌, refl, ap, ◌∙◌, lt→ltb, ◌⊎◌, inl, inr, List, [],
  ◌∷◌, arith, none, Bool-cases,
}
use wombat_go.Governor.{
  Money, Limits, Budget, reached, step, add_tool_call, enter_subagent, exit_subagent, add_call,
  with_budget, Act, called, stepped, dispatched, entered, exited, expired, cancelled, perform,
  perform_all,
}

-- No cap is reached.
abbrev pub IsWithin : {M : Type 0} → Money M → Budget M → Type 0
IsWithin money b =
    ((money.is_positive b.limits.cost && money.at_least b.usd b.limits.cost) ≡ false)
    × (reached b.limits.steps b.steps ≡ false)
    × (reached b.limits.tool_calls b.tool_calls ≡ false)
    × (reached b.limits.repeated_tool_calls b.repeat_run ≡ false)

-- While nothing cancelled the context, no cap is reached.
abbrev IsWatched : {M : Type 0} → Money M → Budget M → Type 0
IsWatched money b = b.cause ≡ none → IsWithin money b

module _ {M : Type 0} (money : Money M) where
  perform-IsWatched :
      (a : Act M) (b : Budget M) → IsWatched money b → IsWatched money (perform money a b)
  unfolding perform step add_tool_call enter_subagent exit_subagent add_call
  perform-IsWatched (called usd tokens) b h = ground arith
  perform-IsWatched stepped b h = ground arith
  perform-IsWatched (dispatched key) b h = ground arith
  perform-IsWatched entered b h = ground arith
  perform-IsWatched exited b h = ground arith
  perform-IsWatched expired b h = ground arith
  perform-IsWatched cancelled b h = ground arith

  perform_all-IsWatched :
      (acts : List (Act M)) (b : Budget M)
      → IsWatched money b
      → IsWatched money (perform_all money acts b)
  unfolding perform_all
  perform_all-IsWatched [] b h = h
  perform_all-IsWatched (a ∷ acts) b h =
      perform_all-IsWatched acts (perform money a b) (perform-IsWatched a b h)

  -- Whatever calls, steps, tool calls and sub-agents share a new budget, and in whatever order: as
  -- long as the context is not cancelled, the spend, the steps, the tool calls and the run of equal
  -- tool calls are all below their caps, where they have one.
  pub perform_all-IsWithin :
      (limits : Limits M) (acts : List (Act M))
      → (perform_all money acts (with_budget money limits)).cause ≡ none
      → IsWithin money (perform_all money acts (with_budget money limits))
  perform_all-IsWithin limits acts =
      perform_all-IsWatched acts (with_budget money limits)
        (unfold with_budget in λ e. (below limits, ground arith, ground arith, ground arith))
    where
      below :
          (limits : Limits M)
          → (money.is_positive limits.cost && money.at_least money.nothing limits.cost) ≡ false
      below limits = ground (arith, money.nothing_below limits.cost)

  -- The nesting never passes its cap.
  abbrev IsShallow : Budget M → Type 0
  IsShallow b = (b.limits.subagent_depth ≡ 0) ⊎ (b.depth ≤ b.limits.subagent_depth)

  perform-IsShallow : (a : Act M) (b : Budget M) → IsShallow b → IsShallow (perform money a b)
  unfolding perform step add_tool_call enter_subagent exit_subagent add_call
  perform-IsShallow (called usd tokens) b h = ground arith
  perform-IsShallow stepped b h = ground arith
  perform-IsShallow (dispatched key) b h = ground arith
  perform-IsShallow entered b h = ground arith
  perform-IsShallow exited b h = ground arith
  perform-IsShallow expired b h = h
  perform-IsShallow cancelled b h = h

  perform_all-IsShallow :
      (acts : List (Act M)) (b : Budget M) → IsShallow b → IsShallow (perform_all money acts b)
  unfolding perform_all
  perform_all-IsShallow [] b h = h
  perform_all-IsShallow (a ∷ acts) b h =
      perform_all-IsShallow acts (perform money a b) (perform-IsShallow a b h)

perform-limits :
    {M : Type 0} (money : Money M) (a : Act M) (b : Budget M)
    → (perform money a b).limits ≡ b.limits
unfolding perform step add_tool_call enter_subagent exit_subagent add_call
perform-limits money (called usd tokens) b = ground arith
perform-limits money stepped b = ground arith
perform-limits money (dispatched key) b = ground arith
perform-limits money entered b = ground arith
perform-limits money exited b = ground arith
perform-limits money expired b = refl
perform-limits money cancelled b = refl

pub perform_all-limits :
    {M : Type 0} (money : Money M) (acts : List (Act M)) (b : Budget M)
    → (perform_all money acts b).limits ≡ b.limits
unfolding perform_all
perform_all-limits money [] b = refl
perform_all-limits money (a ∷ acts) b =
    perform_all-limits money acts (perform money a b) ∙ perform-limits money a b

-- Sub-agents nest at most as deep as the limit allows, where there is one, after any sequence of
-- entries and exits, paired or not.
pub perform_all-depth :
    {M : Type 0} (money : Money M) (limits : Limits M) (acts : List (Act M))
    → 0 < limits.subagent_depth
    → (perform_all money acts (with_budget money limits)).depth ≤ limits.subagent_depth
perform_all-depth money limits acts h =
    let b = with_budget money limits in
    let kept : (perform_all money acts b).limits ≡ limits =
      perform_all-limits money acts b ∙ (unfold with_budget in refl) in
    elim (perform_all-IsShallow money acts b (inr (unfold with_budget in ground arith))) [
      | inl none_set ↦ absurd (ground (arith, none_set, kept))
      | inr shallow ↦ ground (arith, shallow, kept)
    ]

back : (n : ℕ) → n + 1 - 1 ≡ n
back n = omega arith

-- `EnterSubagent` changes nothing where it refuses, and where it does not, `ExitSubagent` undoes
-- it; neither ends the run.
pub exit_subagent-enter_subagent :
    {M : Type 0} (b : Budget M)
    → (enter_subagent b ≡ (false, b))
      ⊎ (((enter_subagent b).0 ≡ true) × (exit_subagent (enter_subagent b).1 ≡ b))
unfolding enter_subagent exit_subagent
exit_subagent-enter_subagent b = elim (Bool-cases (reached b.limits.subagent_depth b.depth)) [
  | inl e ↦ inl (rw e refl)
  | inr e ↦ inr (
    rw e refl,
    rw (e, lt→ltb 0 (b.depth + 1) (omega arith)) (ap (λ d. record b { depth = d }) (back b.depth)),
  )
]
