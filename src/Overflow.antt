-- ===== src/Overflow.antt =====
-- overflow.go: `WithOverflowRecovery`, which shrinks a request that outgrew the context window.
--
-- The wrapped client is a parameter: what it answers to its nth call. Of a request only the
-- messages matter here. The per-run level is passed in and returned; the calls of one run that
-- race for it are not modelled. The loop has fuel, and Overflow/Ladder.antt proves how much is
-- enough.
pub mod Ladder
pub mod Requests
mod Examples
use wombat_go.Common.{
  ℕ, zero, suc, ◌+◌, ◌-◌, String, Bool, true, false, ◌||◌, List, [], ◌∷◌, ◌++◌, Option, none, some,
  max, length, get_elem?, ltb, ◌=?◌, if◌then◌else◌,
}
use wombat_go.Llm.{Message}
use wombat_go.Strategy.{View, Results, Strategy, sliding_window, apply_window}

-- What the wrapped client returns: a response, an error that is `ErrContextWindow`, or another.
pub data Reply : Type 0 where
  response : String → Reply
  too_long : String → Reply
  failed : String → Reply

-- `DefaultOverflowEscalation`.
abbrev pub default_escalation : List Strategy
default_escalation =
    apply_window (sliding_window 24)
    ∷ apply_window (sliding_window 10)
    ∷ apply_window (sliding_window 4)
    ∷ []

module _ (escalation : List Strategy) (results : Results) where
  -- Level 0 is the transcript as it came.
  pub apply_level : ℕ → List Message → List Message
  apply_level level msgs =
      if (level =? 0) || ltb (length escalation) level
      then msgs
      else elim (get_elem? escalation (level - 1)) [
        | none ↦ msgs
        | some st ↦ st (record { messages = msgs; results = results })
      ]

  -- `for l := level + 1; l <= len(escalation); l++`, with the number of rounds that are left.
  pub rung_from : ℕ → ℕ → List Message → List Message → Option (ℕ × List Message)
  rung_from zero l current original = none
  rung_from (suc left) l current original =
      let shrunk = apply_level l original in
      let later = rung_from left (l + 1) current original in
      if ltb (length shrunk) (length current) then some (l, shrunk) else later

  pub next_rung : ℕ → List Message → List Message → Option (ℕ × List Message)
  next_rung level current original =
      rung_from (length escalation - level) (level + 1) current original

-- `overflowState.raise`: the level never falls.
abbrev pub raise : ℕ → ℕ → ℕ
raise n to = if ltb n to then to else n

-- What one `Complete` of the middleware returns, the level that it leaves, and the messages of
-- the requests that it sent, in order.
pub record Recovery : Type 0 where
  pub reply : Reply
  pub level : ℕ
  pub sent : List (List Message)

abbrev pub stopped : Reply → ℕ → List Message → Option Recovery
stopped reply level msgs = some (record { reply = reply; level = level; sent = msgs ∷ [] })

abbrev pub sending : List Message → Option Recovery → Option Recovery
sending msgs none = none
sending msgs (some r) = some (record r { sent = msgs ∷ r.sent })

module _ (escalation : List Strategy) (results : Results) (client : ℕ → List Message → Reply)
    (original : List Message) where
  -- `call` counts the requests sent so far; `none` means that the fuel ran out.
  pub complete_from : ℕ → ℕ → ℕ → Option Recovery
  complete_from zero call level = none
  complete_from (suc fuel) call level =
      let current = apply_level escalation results level original in
      elim (client call current) [
        | response s ↦ stopped (response s) level current
        | failed s ↦ stopped (failed s) level current
        | too_long s ↦ elim (next_rung escalation results level current original) [
          | none ↦ stopped (too_long s) level current
          | some (next, shrunk) ↦ sending current (complete_from fuel (call + 1) (raise level next))
        ]
      ]

unfoldable pub complete :
    List Strategy → Results → (ℕ → List Message → Reply) → ℕ → List Message → Option Recovery
unfolding complete_from next_rung rung_from apply_level
complete escalation results client level original =
    complete_from escalation results client original (length escalation + 1) 0 level
