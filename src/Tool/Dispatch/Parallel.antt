-- ===== src/Tool/Dispatch/Parallel.antt =====
-- tool/dispatch.go: `Dispatch` as its calls take turns on a world that they share.
--
-- A turn of call i is a step of the goroutine that runs it: it waits for its place, runs the
-- handler chain, of which a step may read and change the world, or ends. Which call takes the next
-- turn is a schedule. `started` and `step` are what the handlers do.
use wombat_go.Common.{
  ℕ, zero, suc, String, Bool, true, false, ◌||◌, List, [], ◌∷◌, Option, none, some, get_elem?,
  length, leb, ltb, ◌=?◌, if◌then◌else◌,
}
use wombat_go.Tool.{Def, ToolUse}
use wombat_go.Tool.Dispatch.{Called, CallResult, blank_slots, set_slot, settled, unknown}

-- A step of a handler leads to more of it, or is its last.
pub data Moved (L : Type 0) : Type 0 where
  more : L → Moved L
  over : Called → Moved L

-- Where the goroutine of a call is: at the semaphore, in the handler, or done.
pub data Stage (L : Type 0) : Type 0 where
  queued : Stage L
  running : L → Stage L
  finished : Stage L

pub record Batch (W L : Type 0) : Type 0 where
  pub world : W
  pub stages : List (Stage L)
  pub out : List CallResult

-- The tokens that the semaphore has given out.
unfoldable pub held : {L : Type 0} → List (Stage L) → ℕ
held [] = 0
held (queued ∷ stages) = held stages
held (running l ∷ stages) = suc (held stages)
held (finished ∷ stages) = held stages

-- The first i calls are done.
unfoldable pub done_before : {L : Type 0} → ℕ → List (Stage L) → Bool
done_before zero stages = true
done_before (suc i) [] = true
done_before (suc i) (queued ∷ stages) = false
done_before (suc i) (running l ∷ stages) = false
done_before (suc i) (finished ∷ stages) = done_before i stages

-- What `wg.Wait` waits for.
unfoldable pub all_ended : {L : Type 0} → List (Stage L) → Bool
all_ended [] = true
all_ended (queued ∷ stages) = false
all_ended (running l ∷ stages) = false
all_ended (finished ∷ stages) = all_ended stages

-- Whether call i can begin: the loop runs one call after another, the semaphore lets in as many as
-- it has tokens.
unfoldable pub enters : {L : Type 0} → ℕ → ℕ → List (Stage L) → Bool
unfolding held done_before
enters parallel i stages =
    if leb parallel 1 || (length stages =? 1)
    then done_before i stages
    else ltb (held stages) parallel

unfoldable pub all_queued : {L : Type 0} → List ToolUse → List (Stage L)
all_queued [] = []
all_queued (u ∷ uses) = queued ∷ all_queued uses

module _ {W L : Type 0} (find : String → Option Def) (started : ℕ → Def → ToolUse → L)
    (step : ℕ → L → W → Moved L × W) (parallel : ℕ) (uses : List ToolUse) where
  -- `run(i)` up to the handler.
  unfoldable pub begin_call : ℕ → ToolUse → Batch W L → Batch W L
  unfolding set_slot
  begin_call i u b = elim (find u.name) [
    | none ↦ record {
      world = b.world;
      stages = set_slot i finished b.stages;
      out = set_slot i (unknown u) b.out;
    }
    | some d ↦ record {
      world = b.world;
      stages = set_slot i (running (started i d u)) b.stages;
      out =
          set_slot i (record { use_id = u.id; name = u.name; output = ""; error = none; tags = [] })
            b.out;
    }
  ]

  -- What a step of the handler leaves: the slot is written when the handler ends.
  unfoldable pub after_step : ℕ → ToolUse → Moved L × W → Batch W L → Batch W L
  unfolding set_slot
  after_step i u (more l, w) b = record {
    world = w;
    stages = set_slot i (running l) b.stages;
    out = b.out;
  }
  after_step i u (over c, w) b = record {
    world = w;
    stages = set_slot i finished b.stages;
    out = set_slot i (settled u c) b.out;
  }

  unfoldable pub turn_of : ℕ → ToolUse → Stage L → Batch W L → Batch W L
  unfolding enters begin_call after_step
  turn_of i u queued b = if enters parallel i b.stages then begin_call i u b else b
  turn_of i u (running l) b = after_step i u (step i l b.world) b
  turn_of i u finished b = b

  unfoldable pub take_turn : ℕ → Batch W L → Batch W L
  unfolding turn_of
  take_turn i b = elim (get_elem? uses i) [
    | none ↦ b
    | some u ↦ elim (get_elem? b.stages i) [ none ↦ b | some s ↦ turn_of i u s b ]
  ]

  unfoldable pub take_turns : List ℕ → Batch W L → Batch W L
  unfolding take_turn
  take_turns [] b = b
  take_turns (i ∷ schedule) b = take_turns schedule (take_turn i b)

  -- `Dispatch`, after these turns.
  unfoldable pub dispatch_parallel : List ℕ → W → Batch W L
  unfolding take_turns blank_slots all_queued
  dispatch_parallel schedule w =
      take_turns schedule (record { world = w; stages = all_queued uses; out = blank_slots uses })
