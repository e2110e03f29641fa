-- ===== src/Tool/Examples.antt =====
-- Three calls that take turns: one fails, one returns after a step more, one names no tool. Then two
-- calls that write the same cell, whose results depend on their turns.
use wombat_go.Common.{
  ℕ, leb, max, zero, suc, String, true, false, ◌⊎◌, ◌++◌, false, ◌≡◌, refl, ap, List, [], ◌∷◌,
  arith, Option, none, some, ◌==◌, ◌=?◌, if◌then◌else◌,
}
use wombat_go.Llm.{ToolUse}
use wombat_go.Tool.{Def}
use wombat_go.Tool.Dispatch.{Called, returned, failed, CallResult, Handler, dispatch}
use wombat_go.Tool.Dispatch.Parallel.{Moved, more, over, all_ended, held, dispatch_parallel}
use wombat_go.Tool.Dispatch.Independence.{Independent}
use wombat_go.Tool.Dispatch.Interleaving.{AllEndAlone}
use wombat_go.Tool.Dispatch.Ending.{dispatch_parallel-dispatch}

abbrev find : String → Option Def
find name = if name == "bash" then some (record { name = "bash"; caps = 4; needs = 4 }) else none

abbrev calls : List ToolUse
calls =
    record { id = "t1"; name = "bash"; input = "{}" }
    ∷ record { id = "t2"; name = "bash"; input = "{}" }
    ∷ record { id = "t3"; name = "rm"; input = "{}" }
    ∷ []

-- A cell per call.
abbrev Cells : Type 0
Cells = ℕ → ℕ

abbrev cells : Cells
cells k = 0

abbrev increase : ℕ → Cells → Cells
increase i w k = if i =? k then suc (w k) else w k

abbrev cell : ℕ → Cells → ℕ
cell i w = w i

-- Call i takes i steps that each increase its cell, and reads the cell.
abbrev started : ℕ → Def → ToolUse → ℕ
started i d u = i

abbrev read : ℕ → Called
read zero = failed "" "empty" ("shell" ∷ [])
read (suc n) = returned "ok" []

abbrev step : ℕ → ℕ → Cells → Moved ℕ × Cells
step i zero w = (over (read (w i)), w)
step i (suc l) w = (more l, increase i w)

abbrev handler : Handler
handler i d u = read i

cell-increase : (i : ℕ) (w : Cells) → increase i w i ≡ suc (w i)
cell-increase i w = ground arith

step-Independent : Independent step cell
step-Independent = record { same_step = same_step; same_part = same_part; kept = kept }
  where
    same_step : (i l : ℕ) (w w' : Cells) → cell i w ≡ cell i w' → (step i l w).0 ≡ (step i l w').0
    same_step i zero w w' e = ap (λ n. over (read n)) e
    same_step i (suc l) w w' e = refl

    same_part :
        (i l : ℕ) (w w' : Cells)
        → cell i w ≡ cell i w'
        → cell i (step i l w).1 ≡ cell i (step i l w').1
    same_part i zero w w' e = e
    same_part i (suc l) w w' e = ground (arith, e)

    kept : (i j l : ℕ) (w : Cells) → (i =? j) ≡ false → cell j (step i l w).1 ≡ cell j w
    kept i j zero w e = refl
    kept i j (suc l) w e = ground (arith, e)

calls_end : AllEndAlone find started step cell step-Independent handler calls cells
calls_end zero u d e f = (1, refl)
calls_end (suc zero) u d e f = (2, refl)
calls_end (suc (suc zero)) u d e f = (3, refl)
calls_end (suc (suc (suc i))) u d e f = absurd (cc e)

abbrev schedule : List ℕ
schedule = 1 ∷ 0 ∷ 2 ∷ 1 ∷ 2 ∷ 0 ∷ 1 ∷ 2 ∷ []

calls_all_ended :
    all_ended (dispatch_parallel find started step 2 calls schedule cells).stages ≡ true
unfolding dispatch_parallel all_ended
calls_all_ended = refl

dispatch_parallel-dispatch_example :
    ((all_ended (dispatch_parallel find started step 2 calls schedule cells).stages ≡ false)
      ⊎ ((dispatch_parallel find started step 2 calls schedule cells).out
          ≡ dispatch find handler calls))
    × (leb (held (dispatch_parallel find started step 2 calls schedule cells).stages) (max 1 2)
        ≡ true)
    × ((later : List ℕ) × (all_ended
            (dispatch_parallel find started step 2 calls (schedule ++ later) cells).stages
          ≡ true)
        × ((dispatch_parallel find started step 2 calls (schedule ++ later) cells).out
            ≡ dispatch find handler calls))
dispatch_parallel-dispatch_example =
    dispatch_parallel-dispatch find started step cell step-Independent handler calls cells calls_end
      2 schedule

-- A step that reads and increases the cell that all calls share.
abbrev shared : ℕ → ℕ → Cells → Moved ℕ × Cells
shared i l w = (over (read (w 0)), increase 0 w)

abbrev errors : List CallResult → List (Option String)
errors [] = []
errors (r ∷ rs) = r.error ∷ errors rs

first_first :
    errors (dispatch_parallel find started shared 3 calls (0 ∷ 1 ∷ 2 ∷ 0 ∷ 1 ∷ []) cells).out
    ≡ some "empty" ∷ none ∷ some "tool: unknown tool" ∷ []
unfolding dispatch_parallel
first_first = refl

second_first :
    errors (dispatch_parallel find started shared 3 calls (0 ∷ 1 ∷ 2 ∷ 1 ∷ 0 ∷ []) cells).out
    ≡ none ∷ some "empty" ∷ some "tool: unknown tool" ∷ []
unfolding dispatch_parallel
second_first = refl
