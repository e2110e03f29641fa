-- ===== src/Governor/Examples.antt =====
-- A budget of four units of money, three steps, five tool calls, depth two and three equal calls.
use wombat_go.Common.{ℕ, ◌+◌, true, false, ◌≡◌, refl, List, [], ◌∷◌, ◌++◌, arith, ltb, leb}
use wombat_go.Governor.{
  Money, tool_loop, Limits, no_tokens, Budget, with_budget, Act, called, stepped, dispatched,
  entered, exited, perform_all,
}
use wombat_go.Governor.Bounds.{IsWithin, perform_all-IsWithin}
use wombat_go.Governor.Causes.{Explains, perform_all-Explains}

below_cap : (cap : ℕ) → ltb 0 cap ≡ true → leb cap 0 ≡ false
below_cap cap h = ground arith

-- Whole units.
abbrev money : Money ℕ
money = record {
  nothing = 0;
  add = ◌+◌;
  is_positive = ltb 0;
  at_least = λ spent cap. leb cap spent;
  nothing_below = below_cap;
}

abbrev limits : Limits ℕ
limits = record { cost = 4; steps = 3; tool_calls = 5; subagent_depth = 2; repeated_tool_calls = 3 }

abbrev quiet : List (Act ℕ)
quiet =
    called 1 no_tokens
    ∷ dispatched "ls"
    ∷ dispatched "ls"
    ∷ stepped
    ∷ entered
    ∷ dispatched "cat"
    ∷ called 2 no_tokens
    ∷ exited
    ∷ stepped
    ∷ []

abbrev looping : List (Act ℕ)
looping = stepped ∷ dispatched "ls" ∷ dispatched "ls" ∷ stepped ∷ dispatched "ls" ∷ stepped ∷ []

abbrev budget : Budget ℕ
budget = with_budget money limits

perform_all-IsWithin_example : IsWithin money (perform_all money quiet budget)
unfolding perform_all with_budget
perform_all-IsWithin_example = perform_all-IsWithin money limits quiet refl

perform_all-Explains_example :
    (first : List (Act ℕ)) × (after : List (Act ℕ)) × (looping ≡ first ++ after)
    × Explains money limits first tool_loop
unfolding perform_all with_budget
perform_all-Explains_example = perform_all-Explains money limits looping tool_loop refl
