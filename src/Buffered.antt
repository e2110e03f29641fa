-- ===== src/Buffered.antt =====
-- buffered.go: the buffer between a run and those who follow it.
--
-- The mutex makes an append, the end of the run and a follower's look at the buffer one step each;
-- what a scheduler makes of the draining goroutine, one follower and its context is a list of
-- acts. A channel that is closed and replaced is the number of the current one: a follower that
-- holds an earlier number finds its channel closed. The capacity is an argument.
pub mod Windows
pub mod Phases
pub mod Following
pub mod Kept
pub mod Delivery
mod Examples
use wombat_go.Common.{
  ℕ, zero, suc, ◌+◌, ◌-◌, max, Bool, true, false, List, [], ◌∷◌, ◌++◌, length, drop, ltb,
  if◌then◌else◌,
}

unfoldable pub buffer_cap : ℕ
buffer_cap = 8192

-- `changed` is the number of the current channel.
pub record Buffered (E : Type 0) : Type 0 where
  pub events : List E
  pub base : ℕ
  pub changed : ℕ
  pub finished : Bool

-- Where a follower stands: before its look at the buffer; yielding what is left of a batch, with
-- whether the batch had an event, the channel and `finished`; at the `select`; or returned, at
-- the end of the run or before it.
pub data Phase (E : Type 0) : Type 0 where
  looking : Phase E
  yielding : List E → Bool → ℕ → Bool → Phase E
  waiting : ℕ → Phase E
  drained : Phase E
  left : Phase E

-- `seen` is what it has yielded.
pub record Follower (E : Type 0) : Type 0 where
  pub seq : ℕ
  pub phase : Phase E
  pub seen : List (ℕ × E)

module _ {E : Type 0} where
  -- `Buffer`.
  unfoldable pub new_buffered : Buffered E
  new_buffered = record { events = []; base = 0; changed = 0; finished = false }

  abbrev pub wake : Buffered E → Buffered E
  wake b = record b { changed = b.changed + 1 }

  -- The oldest are dropped.
  abbrev pub evict : ℕ → Buffered E → Buffered E
  evict over b =
      if ltb 0 over then record b { events = drop over b.events; base = b.base + over } else b

  unfoldable pub append : ℕ → E → Buffered E → Buffered E
  append cap ev b =
      wake (evict (length (b.events ++ ev ∷ []) - cap) (record b { events = b.events ++ ev ∷ [] }))

  -- The deferred function of `drain`.
  unfoldable pub finish : Buffered E → Buffered E
  finish b = wake (record b { finished = true })

  -- `Len`.
  unfoldable pub len : Buffered E → ℕ
  len b = b.base + length b.events

  -- `Follow`, before its loop.
  unfoldable pub follow : ℕ → Follower E
  follow from = record { seq = from; phase = looking; seen = [] }

  abbrev pub batch_at : ℕ → List E → List E
  batch_at i events = if ltb i (length events) then drop i events else []

  -- `len(batch) > 0`.
  abbrev pub has_events : List E → Bool
  has_events [] = false
  has_events (e ∷ batch) = true

  -- The part of the loop under the lock.
  unfoldable pub look : Buffered E → Follower E → Follower E
  look b f =
      let seq = max f.seq b.base in
      let batch = batch_at (seq - b.base) b.events in
      record f { seq = seq; phase = yielding batch (has_events batch) b.changed b.finished }

  -- After the batch.
  abbrev pub after_batch : Bool → Bool → ℕ → Phase E
  after_batch true finished wait = looking
  after_batch false true wait = drained
  after_batch false false wait = waiting wait

  -- One step of a follower; one that waits on the current channel stays.
  unfoldable pub advance_in : Phase E → Buffered E → Follower E → Follower E
  unfolding look
  advance_in looking b f = look b f
  advance_in (yielding [] had wait finished) b f = record f {
    phase = after_batch had finished wait;
  }
  advance_in (yielding (e ∷ batch) had wait finished) b f = record f {
    seq = f.seq + 1;
    phase = yielding batch had wait finished;
    seen = f.seen ++ (f.seq, e) ∷ [];
  }
  advance_in (waiting wait) b f = if ltb wait b.changed then record f { phase = looking } else f
  advance_in drained b f = f
  advance_in left b f = f

  abbrev pub advance : Buffered E → Follower E → Follower E
  advance b f = advance_in f.phase b f

  -- The context ends at the `select`, or the consumer breaks out of the loop at a yield.
  abbrev pub leave_in : Phase E → Follower E → Follower E
  leave_in looking f = f
  leave_in (yielding [] had wait finished) f = f
  leave_in (yielding (e ∷ batch) had wait finished) f = record f {
    phase = left;
    seq = f.seq;
    seen = f.seen ++ (f.seq, e) ∷ [];
  }
  leave_in (waiting wait) f = record f { phase = left }
  leave_in drained f = f
  leave_in left f = f

-- `log` is every event that the run has produced, which the code does not keep.
pub record World (E : Type 0) : Type 0 where
  pub buffer : Buffered E
  pub follower : Follower E
  pub log : List E

-- The run produces an event or ends, the follower takes a step, or it leaves.
pub data Act (E : Type 0) : Type 0 where
  produced : E → Act E
  ended : Act E
  advanced : Act E
  departed : Act E

module _ {E : Type 0} (cap : ℕ) where
  -- `drain` appends nothing after the end of its loop.
  abbrev pub produce : Bool → E → World E → World E
  produce true ev w = w
  produce false ev w = record w { buffer = append cap ev w.buffer; log = w.log ++ ev ∷ [] }

  abbrev pub end_run : Bool → World E → World E
  end_run true w = w
  end_run false w = record w { buffer = finish w.buffer }

  unfoldable pub perform : Act E → World E → World E
  unfolding append finish advance_in
  perform (produced ev) w = produce w.buffer.finished ev w
  perform ended w = end_run w.buffer.finished w
  perform advanced w = record w { follower = advance w.buffer w.follower }
  perform departed w = record w { follower = leave_in w.follower.phase w.follower }

  unfoldable pub perform_all : List (Act E) → World E → World E
  unfolding perform
  perform_all [] w = w
  perform_all (a ∷ acts) w = perform_all acts (perform a w)

-- A run that is buffered, with a follower that asks for `from`.
unfoldable pub start : {E : Type 0} → ℕ → World E
unfolding new_buffered follow
start from = record { buffer = new_buffered; follower = follow from; log = [] }
