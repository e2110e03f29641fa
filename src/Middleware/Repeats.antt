-- ===== src/Middleware/Repeats.antt =====
-- `CallStats` and `WithDedupRepeats`: the repeats of a failing call within one run.
pub mod Counting
use wombat_go.Common.{
  ℕ, zero, suc, ◌+◌, Bool, true, false, ◌&&◌, String, ◌<>◌, List, [], ◌∷◌, Option, none, some,
  length, leb, ltb, ◌=?◌, ◌==◌, if◌then◌else◌,
}
use wombat_go.Middleware.{Failure, Outcome, repeated}

unfoldable pub max_dedup_keys : ℕ
max_dedup_keys = 1024

-- How often a call failed with each error text.
abbrev pub ByError : Type 0
ByError = String → ℕ

-- An entry for each call.
abbrev pub Counts : Type 0
Counts = List (String × ByError)

-- `counts[call]`; a call without an entry reads 0 everywhere.
abbrev pub by_error : String → Counts → ByError
by_error call [] = λ msg. 0
by_error call (c ∷ cs) = if c.0 == call then c.1 else by_error call cs

-- `counts[call] = byErr`
abbrev pub set_call : String → ByError → Counts → Counts
set_call call f [] = (call, f) ∷ []
set_call call f (c ∷ cs) = if c.0 == call then (call, f) ∷ cs else c ∷ set_call call f cs

-- `delete(counts, call)`
unfoldable pub succeed : String → Counts → Counts
succeed call [] = []
succeed call (c ∷ cs) = if c.0 == call then succeed call cs else c ∷ succeed call cs

-- `if len(s.counts) >= maxDedupKeys { clear(s.counts) }`
abbrev pub make_room : ℕ → Counts → Counts
make_room keys cs = if leb keys (length cs) then [] else cs

abbrev pub set_error : String → ℕ → ByError → ByError
set_error msg n f m = if msg == m then n else f m

unfoldable pub fail : ℕ → String → String → Counts → ℕ × Counts
fail keys call msg counts =
    let cs = make_room keys counts in
    let n = by_error call cs msg + 1 in (n, set_call call (set_error msg n (by_error call cs)) cs)

-- `d.Name + "|" + string(use.Input)`
unfoldable pub call_key : String → String → String
call_key name input = name <> "|" <> input

abbrev pub enrich : ℕ → ℕ → Outcome → Failure → Outcome
enrich threshold n answer e =
    if ltb n threshold then answer else record answer { error = some (repeated e n) }

-- After the call; `text` is `err.Error()` and `ended` whether the context has ended.
abbrev pub note_outcome :
    ℕ
    → ℕ
    → String
    → (Failure → String)
    → Bool
    → Outcome
    → Option Failure
    → Counts
    → Outcome × Counts
note_outcome keys threshold call text ended answer none counts = (answer, succeed call counts)
note_outcome keys threshold call text true answer (some e) counts = (answer, counts)
note_outcome keys threshold call text false answer (some e) counts =
    let noted = fail keys call (text e) counts in (enrich threshold noted.0 answer e, noted.1)

-- Whether the middleware is disabled.
abbrev pub unless :
    Bool → ℕ → ℕ → String → (Failure → String) → Bool → Outcome → Counts → Outcome × Counts
unless true keys threshold call text ended answer counts = (answer, counts)
unless false keys threshold call text ended answer counts =
    note_outcome keys threshold call text ended answer answer.error counts

-- A threshold of 0 disables it.
unfoldable pub with_dedup_repeats :
    ℕ → ℕ → String → (Failure → String) → Bool → Outcome → Counts → Outcome × Counts
unfolding fail succeed
with_dedup_repeats keys threshold call text ended answer counts =
    unless (threshold =? 0) keys threshold call text ended answer counts

-- A call of a run that ended with its context alive: its key and the text of its error, if any.
pub record Ended : Type 0 where
  pub call : String
  pub error : Option String

abbrev pub note : ℕ → String → Option String → Counts → Counts
note keys call none counts = succeed call counts
note keys call (some msg) counts = (fail keys call msg counts).1

-- The counters of a run, the newest call first.
unfoldable pub counts_after : ℕ → List Ended → Counts
unfolding fail succeed
counts_after keys [] = []
counts_after keys (e ∷ earlier) = note keys e.call e.error (counts_after keys earlier)
