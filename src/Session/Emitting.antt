-- ===== src/Session/Emitting.antt =====
-- What a new frame leaves alone, and what a prompt that is accepted finds.
use wombat_go.Common.{
  ◌≡◌, refl, none, some, arith, ℕ, ◌-◌, Bool, true, false, List, Option, length, ltb, Bool-cases,
  inl, inr,
}
use wombat_go.Llm.{ToolUseId, Message}
use wombat_go.Session.{
  SessionState, Event, Session, evict, push_frame, next_frame, emit_if, emit, refusal,
}

-- What only `Send` and the end of a turn set.
abbrev pub Fields : Type 1
Fields = SessionState → Option ℕ → ℕ → List Message → List Message → ToolUseId → Type 0

abbrev pub Holds : {E : Type 0} → Fields → Session E → Type 0
Holds P s = P s.state s.cancel s.turns s.input s.msgs s.pause_id

module _ {E : Type 0} (P : Fields) where
  evict-Holds : (over : ℕ) (s : Session E) → Holds P s → Holds P (evict over s)
  evict-Holds over s h = elim (Bool-cases (ltb 0 over)) [ inl e ↦ rw e h | inr e ↦ rw e h ]

  pub emit-Holds :
      (cap turn : ℕ) (ev : Event E) (s : Session E) → Holds P s → Holds P (emit cap turn ev s)
  unfolding emit
  emit-Holds cap turn ev s h = on s.closed
    where
      on : (b : Bool) → Holds P (emit_if b cap turn ev s)
      on true = h
      on false =
          let t = push_frame (next_frame turn ev s) s in evict-Holds (length t.frames - cap) t h

module _ {E : Type 0} where
  pub refusal-none : (s : Session E) → refusal s ≡ none → (s.closed ≡ false) × (s.cancel ≡ none)
  unfolding refusal
  refusal-none s h = (ground (arith, h), on s.cancel refl)
    where
      on : (o : Option ℕ) → s.cancel ≡ o → o ≡ none
      on none e = refl
      on (some turn) e = absurd (ground (arith, h, e))
