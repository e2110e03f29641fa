-- ===== src/Middleware/Breaker/Streaks.antt =====
-- The breaker against a description by counting: how many failures of a tool there were in a row.
use native.Mathlib.Nat.{mod-lt, mod-add-mod, mod-eq_of_lt, mod_self, zero-mod}
use wombat_go.Common.{
  ℕ, ◌+◌, ◌%◌, ◌<◌, Bool, true, false, ◌≡◌, refl, ap, subst, ◌||◌, not, true_ne_false, ◌∙◌, sym,
  String, List, [], ◌∷◌, Option, none, some, ltb, leb, ◌=?◌, ◌==◌, eq_iff, arith, if◌then◌else◌,
}
use wombat_go.Middleware.{
  Failure, of_tool, invalid_input, circuit_open, ended_by, ended_reporting, repeated,
  is_caller_fault, Outcome, failing,
}
use wombat_go.Middleware.Breaker.{
  BreakerState, Breakers, no_breakers, refuses, counted, excused, count, settle, Settled,
  settle_all, with_circuit_breaker, run_or_refuse, verdict_of,
}

-- The failure that the notes about repeats are wrapped around.
abbrev pub innermost : Failure → Failure
innermost (repeated e n) = innermost e
innermost (of_tool text blames) = of_tool text blames
innermost invalid_input = invalid_input
innermost circuit_open = circuit_open
innermost (ended_by cause) = ended_by cause
innermost (ended_reporting cause text) = ended_reporting cause text

-- The caller is at fault for input that is not valid, and where the tool's error says so.
abbrev pub blames_caller : Failure → Bool
blames_caller (of_tool text blames) = blames
blames_caller invalid_input = true
blames_caller circuit_open = false
blames_caller (ended_by cause) = false
blames_caller (ended_reporting cause text) = false
blames_caller (repeated e n) = false

-- The failures of a tool that say something of it, since its last success: those under an ended context
-- and those of the caller are passed over.
abbrev pub streak_after : Option Failure → Bool → ℕ → ℕ
streak_after none ended n = 0
streak_after (some e) true n = n
streak_after (some e) false n = if blames_caller (innermost e) then n else n + 1

abbrev pub streak : String → List Settled → ℕ
streak name [] = 0
streak name (s ∷ earlier) =
    let n = streak name earlier in if name == s.name then streak_after s.error s.ended n else n

-- The time until which calls are refused: every `threshold`-th failure of a streak starts a cooldown.
abbrev pub opened_after : ℕ → ℕ → ℕ → Option Failure → Bool → ℕ → ℕ → ℕ
opened_after threshold cooldown at none ended n until = 0
opened_after threshold cooldown at (some e) true n until = until
opened_after threshold cooldown at (some e) false n until =
    if blames_caller (innermost e)
    then until
    else if (n + 1) % threshold =? 0
    then at + cooldown
    else until

abbrev pub opened : ℕ → ℕ → String → List Settled → ℕ
opened threshold cooldown name [] = 0
opened threshold cooldown name (s ∷ earlier) =
    let until = opened threshold cooldown name earlier in
    if name == s.name
    then opened_after threshold cooldown s.at s.error s.ended (streak name earlier) until
    else until

is_caller_fault_lem : (e : Failure) → is_caller_fault e ≡ blames_caller (innermost e)
unfolding is_caller_fault
is_caller_fault_lem (of_tool text blames) = refl
is_caller_fault_lem invalid_input = refl
is_caller_fault_lem circuit_open = refl
is_caller_fault_lem (ended_by cause) = refl
is_caller_fault_lem (ended_reporting cause text) = refl
is_caller_fault_lem (repeated e n) = is_caller_fault_lem e

-- One more, modulo the threshold.
mod_step : (t n : ℕ) → 0 < t → (if leb t (n % t + 1) then 0 else n % t + 1) ≡ (n + 1) % t
mod_step t n h = stepped (n % t) ((n + 1) % t) (mod-lt n h) small full
  where
    same : (n + 1) % t ≡ (n % t + 1) % t
    same = sym (mod-add-mod n t 1)

    small : n % t + 1 < t → (n + 1) % t ≡ n % t + 1
    small l = same ∙ mod-eq_of_lt l

    full : n % t + 1 ≡ t → (n + 1) % t ≡ 0
    full e = same ∙ ap (λ k. k % t) e ∙ mod_self t

    stepped :
        (r q : ℕ)
        → r < t
        → (r + 1 < t → q ≡ r + 1)
        → (r + 1 ≡ t → q ≡ 0)
        → (if leb t (r + 1) then 0 else r + 1) ≡ q
    stepped r q l a b = ground arith

-- What the state of a tool is after a history of the calls.
abbrev Agrees : ℕ → BreakerState → ℕ → ℕ → Type 0
Agrees threshold b n until = (b.failures ≡ n % threshold) × (b.open_until ≡ until)

-- What `count` makes of a counted failure.
abbrev after_failure : ℕ → ℕ → ℕ → ℕ → BreakerState
after_failure t later f until =
    if leb t (f + 1)
    then record { failures = 0; open_until = later }
    else record { failures = f + 1; open_until = until }

counted-Agrees :
    (threshold cooldown at : ℕ) (b : BreakerState) (n until : ℕ)
    → 0 < threshold
    → Agrees threshold b n until
    → Agrees threshold
        (count threshold cooldown at counted b)
        (n + 1)
        (if (n + 1) % threshold =? 0 then at + cooldown else until)
unfolding count
counted-Agrees t c at b n until h g = counts (b.failures) (n % t) ((n + 1) % t) g.0 (mod_step t n h)
  where
    counts :
        (f r q : ℕ)
        → f ≡ r
        → (if leb t (r + 1) then 0 else r + 1) ≡ q
        → ((after_failure t (at + c) f b.open_until).failures ≡ q)
          × ((after_failure t (at + c) f b.open_until).open_until
              ≡ (if q =? 0 then at + c else until))
    counts f r q e m = ground (arith, e, m, g.1, h)

-- A failure under a context that has not ended.
blamed-Agrees :
    (blames : Bool) (threshold cooldown at : ℕ) (b : BreakerState) (n until : ℕ)
    → 0 < threshold
    → Agrees threshold b n until
    → Agrees threshold
        (count threshold cooldown at (if blames then excused else counted) b)
        (if blames then n else n + 1)
        (if blames then until else if (n + 1) % threshold =? 0 then at + cooldown else until)
unfolding count
blamed-Agrees true t c at b n until h g = g
blamed-Agrees false t c at b n until h g = counted-Agrees t c at b n until h g

count-Agrees :
    (threshold cooldown at : ℕ) (o : Option Failure) (ended : Bool) (b : BreakerState) (n until : ℕ)
    → 0 < threshold
    → Agrees threshold b n until
    → Agrees threshold
        (count threshold cooldown at (verdict_of o ended) b)
        (streak_after o ended n)
        (opened_after threshold cooldown at o ended n until)
unfolding count verdict_of
count-Agrees t c at none ended b n until h g = (zero_mod t h, refl)
  where
    zero_mod : (t : ℕ) → 0 < t → 0 ≡ 0 % t
    zero_mod t h = sym (zero-mod t)
count-Agrees t c at (some e) true b n until h g = g
count-Agrees t c at (some e) false b n until h g =
    rw (is_caller_fault_lem e) (blamed-Agrees (blames_caller (innermost e)) t c at b n until h g)

settle-Agrees :
    (threshold cooldown : ℕ) (s : Settled) (name : String) (st : Breakers) (n until : ℕ)
    → 0 < threshold
    → Agrees threshold (st name) n until
    → Agrees threshold
        (settle threshold cooldown s.at s.name (verdict_of s.error s.ended) st name)
        (if name == s.name then streak_after s.error s.ended n else n)
        (if name == s.name
          then opened_after threshold cooldown s.at s.error s.ended n until
          else until)
settle-Agrees threshold cooldown s name st n until h g = on (name == s.name) refl
  where
    on :
        (o : Bool)
        → (name == s.name) ≡ o
        → Agrees threshold
            (if o
              then count threshold cooldown s.at (verdict_of s.error s.ended) (st s.name)
              else st name)
            (if o then streak_after s.error s.ended n else n)
            (if o then opened_after threshold cooldown s.at s.error s.ended n until else until)
    on false e = g
    on true e =
        subst
          (λ x.
            Agrees threshold (count threshold cooldown s.at (verdict_of s.error s.ended) (st x))
              (streak_after s.error s.ended n)
              (opened_after threshold cooldown s.at s.error s.ended n until))
          ((eq_iff name s.name).0 e)
          (count-Agrees threshold cooldown s.at s.error s.ended (st name) n until h g)

-- After any calls that ended in any order, with any errors: the breaker of a tool holds the number of
-- its failures since its last success, modulo the threshold, and is open until the cooldown after the
-- latest failure that completed the threshold, or closed where a success followed it. Only the calls
-- of that tool matter. A failure does not count, nor reset the count, where the context had ended, or
-- where the failure, without what is wrapped around it, is invalid input or blames the caller. The
-- threshold is positive.
pub settle_all-streak :
    (threshold cooldown : ℕ) (history : List Settled) (name : String)
    → 0 < threshold
    → ((settle_all threshold cooldown history name).failures ≡ streak name history % threshold)
      × ((settle_all threshold cooldown history name).open_until
          ≡ opened threshold cooldown name history)
unfolding settle_all no_breakers
settle_all-streak threshold cooldown [] name h = (sym (zero-mod threshold), refl)
settle_all-streak threshold cooldown (s ∷ earlier) name h =
    settle-Agrees threshold cooldown s name (settle_all threshold cooldown earlier)
      (streak name earlier) (opened threshold cooldown name earlier) h
      (settle_all-streak threshold cooldown earlier name h)

run_or_refuse_lem :
    (off refused : Bool) (answer : Outcome) (st st' : Breakers)
    → let c = run_or_refuse off refused answer st st' in
      (c.ran ≡ (off || not refused))
      × (c.ran ≡ true → c.outcome ≡ answer)
      × (c.ran ≡ false → (c.outcome ≡ failing circuit_open) × (c.breakers ≡ st))
run_or_refuse_lem true refused answer st st' = (refl, λ _. refl, λ h. absurd (true_ne_false h))
run_or_refuse_lem false true answer st st' =
    (refl, λ h. absurd (true_ne_false (sym h)), λ _. (refl, refl))
run_or_refuse_lem false false answer st st' = (refl, λ _. refl, λ h. absurd (true_ne_false h))

-- A call runs the handler exactly where no cooldown of its tool lasts beyond the time of the call, or
-- where the threshold or the cooldown is 0; it then returns the handler's answer, and otherwise
-- `ErrCircuitOpen` with the states left as they were.
pub with_circuit_breaker-streak :
    (threshold cooldown : ℕ) (history : List Settled) (name : String) (now later : ℕ) (ended : Bool)
    (answer : Outcome)
    → let st = settle_all threshold cooldown history in
      let c = with_circuit_breaker threshold cooldown name now later ended answer st in
      (c.ran
        ≡ ((threshold =? 0) || (cooldown =? 0) || leb (opened threshold cooldown name history) now))
      × (c.ran ≡ true → c.outcome ≡ answer)
      × (c.ran ≡ false → (c.outcome ≡ failing circuit_open) × (c.breakers ≡ st))
unfolding with_circuit_breaker refuses
with_circuit_breaker-streak threshold cooldown history name now later ended answer =
    let st = settle_all threshold cooldown history in
    let (r, a, f) =
      run_or_refuse_lem ((threshold =? 0) || (cooldown =? 0)) (ltb now (st name).open_until) answer
        st (settle threshold cooldown later name (verdict_of answer.error ended) st) in
    (
      r
          ∙ decides (st name).open_until (opened threshold cooldown name history)
              (λ h. (settle_all-streak threshold cooldown history name h).1),
      a,
      f,
    )
  where
    decides :
        (until until' : ℕ)
        → (0 < threshold → until ≡ until')
        → ((threshold =? 0) || (cooldown =? 0) || not (ltb now until))
          ≡ ((threshold =? 0) || (cooldown =? 0) || leb until' now)
    decides until until' h = ground arith
