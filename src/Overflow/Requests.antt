-- ===== src/Overflow/Requests.antt =====
-- Every request that `WithOverflowRecovery` sends is a transcript that `Validate` accepts.
use wombat_go.Common.{
  ℕ, zero, suc, ◌+◌, ◌-◌, ◌≡◌, subst, inl, inr, List, [], ◌∷◌, arith, Option, none, some,
  some-injective, length, ok, All, Option-cases, get_elem?,
}
use wombat_go.Llm.{Message}
use wombat_go.Convo.{validate}
use wombat_go.Strategy.{Results, Strategy}
use wombat_go.Strategy.Dropping.{IsFilled}
use wombat_go.Strategy.Sequences.{KeepsValid}
use wombat_go.Overflow.{Reply, apply_level, raise, Recovery, sending, complete_from, complete}
use wombat_go.Overflow.Ladder.{complete_from_cases}

All-get_elem? :
    (ss : List Strategy) (i : ℕ) (st : Strategy)
    → All KeepsValid ss
    → get_elem? ss i ≡ some st
    → KeepsValid st
All-get_elem? [] i st k e = absurd (cc e)
All-get_elem? (s ∷ ss) zero st k e = subst KeepsValid (some-injective s st e) k.0
All-get_elem? (s ∷ ss) (suc i) st k e = All-get_elem? ss i st k.1 e

-- All that was sent, if the loop returned, passes `Validate`.
abbrev SentValid : Option Recovery → Type 0
SentValid none = Unit
SentValid (some r) = All (λ msgs. validate msgs ≡ ok tt) r.sent

SentValid-sending :
    (msgs : List Message) (out : Option Recovery)
    → validate msgs ≡ ok tt
    → SentValid out
    → SentValid (sending msgs out)
SentValid-sending msgs none v h = tt
SentValid-sending msgs (some r) v h = (v, h)

module _ (escalation : List Strategy) (results : Results) (keeps : All KeepsValid escalation)
    (client : ℕ → List Message → Reply) (original : List Message)
    (valid : validate original ≡ ok tt) (filled : IsFilled original) where
  apply_level-valid : (level : ℕ) → validate (apply_level escalation results level original) ≡ ok tt
  unfolding apply_level
  apply_level-valid level = elim (Option-cases (get_elem? escalation (level - 1))) [
    | inl e ↦ rw (e, apply_level) (ground arith)
    | inr (st, e) ↦
        let k = All-get_elem? escalation (level - 1) st keeps e in
        let v = k.valid (record { messages = original; results = results }) valid filled in
        rw (e, apply_level) (ground (arith, v))
  ]

  complete_from-valid :
      (fuel call level : ℕ)
      → SentValid (complete_from escalation results client original fuel call level)
  complete_from-valid zero call level = unfold complete_from in tt
  complete_from-valid (suc fuel) call level =
      elim (complete_from_cases escalation results client original fuel call level) [
        | inl (reply, e) ↦ rw e (apply_level-valid level, tt)
        | inr (next, shrunk, _, e) ↦ rw e (
            SentValid-sending _ _ (apply_level-valid level)
              (complete_from-valid fuel (call + 1) (raise level next)))
      ]

-- If every rung keeps transcripts valid and without empty turns, then so does the recovery: each
-- request that it sends passes `Validate`.
pub complete-valid :
    (escalation : List Strategy) (results : Results) (client : ℕ → List Message → Reply) (level : ℕ)
    (original : List Message) (r : Recovery)
    → All KeepsValid escalation
    → validate original ≡ ok tt
    → IsFilled original
    → complete escalation results client level original ≡ some r
    → All (λ msgs. validate msgs ≡ ok tt) r.sent
unfolding complete
complete-valid escalation results client level original r k v f h =
    subst SentValid h
      (complete_from-valid escalation results k client original v f (length escalation + 1) 0 level)
