-- ===== src/Overflow/Ladder.antt =====
-- The ladder of `WithOverflowRecovery`: which rung is taken, and that the loop ends.
use wombat_go.Common.{
  String, ℕ, zero, suc, ◌+◌, ◌-◌, ◌≤◌, ◌<◌, ◌≡◌, refl, ◌⊎◌, inl, inr, List, [], ◌∷◌, arith, Option,
  some, length, ltb, Bool-cases, Option-cases,
}
use wombat_go.Llm.{Message}
use wombat_go.Strategy.{Results, Strategy}
use wombat_go.Overflow.{
  Reply, response, too_long, failed, apply_level, rung_from, next_rung, raise, Recovery, stopped,
  sending, complete_from, complete,
}

Reply-cases :
    (r : Reply)
    → ((s : String) × (r ≡ response s))
      ⊎ (((s : String) × (r ≡ failed s)) ⊎ ((s : String) × (r ≡ too_long s)))
Reply-cases (response s) = inl (s, refl)
Reply-cases (failed s) = inr (inl (s, refl))
Reply-cases (too_long s) = inr (inr (s, refl))

module _ (escalation : List Strategy) (results : Results) where
  -- What a rung that is taken satisfies, and those that are skipped.
  pub record IsRung (from upto : ℕ) (current original : List Message) (l : ℕ)
      (shrunk : List Message) : Type 0 where
    pub above : from ≤ l
    pub within : l < upto
    pub taken : shrunk ≡ apply_level escalation results l original
    pub shorter : length shrunk < length current
    pub skipped :
        (k : ℕ)
        → from ≤ k
        → k < l
        → length current ≤ length (apply_level escalation results k original)

  rung_from-some :
      (left l : ℕ) (current original : List Message) (next : ℕ) (shrunk : List Message)
      → rung_from escalation results left l current original ≡ some (next, shrunk)
      → IsRung l (l + left) current original next shrunk
  unfolding rung_from
  rung_from-some zero l current original next shrunk h = absurd (cc h)
  rung_from-some (suc left) l current original next shrunk h =
      let here = apply_level escalation results l original in
      elim (Bool-cases (ltb (length here) (length current))) [
        | inl e ↦
            let hit : (l ≡ next) × (here ≡ shrunk) = ground arith in
            record {
              above = omega (arith, hit.0);
              within = omega (arith, hit.0);
              taken = ground (arith, hit.0, hit.1);
              shorter = ground (arith, hit.1);
              skipped = λ k a b. absurd (omega (arith, hit.0));
            }
        | inr e ↦
            let r = rung_from-some left (l + 1) current original next shrunk (ground arith) in
            record {
              above = omega (arith, r.above);
              within = omega (arith, r.within);
              taken = r.taken;
              shorter = r.shorter;
              skipped = λ k a b. ground (arith, r.skipped k);
            }
      ]

  -- A rung that is skipped shortens nothing, and the one that is taken is the first that does.
  pub next_rung-IsRung :
      (level : ℕ) (current original : List Message) (next : ℕ) (shrunk : List Message)
      → next_rung escalation results level current original ≡ some (next, shrunk)
      → IsRung (level + 1) (length escalation + 1) current original next shrunk
  unfolding next_rung
  next_rung-IsRung level current original next shrunk h =
      let r =
        rung_from-some (length escalation - level) (level + 1) current original next shrunk h in
      record {
        above = r.above;
        within = omega (arith, r.above, r.within);
        taken = r.taken;
        shorter = r.shorter;
        skipped = r.skipped;
      }

-- Every request is shorter than the one before it, the first shorter than `n`.
abbrev pub Shrinks : ℕ → List (List Message) → Type 0
Shrinks n [] = Unit
Shrinks n (msgs ∷ sent) = (length msgs < n) × Shrinks (length msgs) sent

module _ (escalation : List Strategy) (results : Results) (client : ℕ → List Message → Reply)
    (original : List Message) where
  -- What the loop returns from a level.
  pub record Ends (level n : ℕ) (out : Option Recovery) : Type 0 where
    pub recovery : Recovery
    pub returns : out ≡ some recovery
    pub rises : level ≤ recovery.level
    pub shrinks : Shrinks n recovery.sent
    pub calls : length recovery.sent ≤ 1 + (length escalation - level)

  Ends-stopped :
      (reply : Reply) (level n : ℕ) (msgs : List Message)
      → length msgs < n
      → Ends level n (stopped reply level msgs)
  Ends-stopped reply level n msgs h = record {
    recovery = record { reply = reply; level = level; sent = msgs ∷ [] };
    returns = refl;
    rises = omega arith;
    shrinks = (h, tt);
    calls = omega arith;
  }

  -- One round of the loop: it stops with the reply, or takes a rung and goes on.
  pub complete_from_cases :
      (fuel call level : ℕ)
      → let current = apply_level escalation results level original in
        let out = complete_from escalation results client original (suc fuel) call level in
        ((r : Reply) × (out ≡ stopped r level current))
        ⊎ ((next : ℕ) × (shrunk : List Message) × (next_rung escalation results level current
                original
              ≡ some (next, shrunk))
            × (out
                ≡ sending current (
                    complete_from escalation results client original fuel
                      (call + 1)
                      (raise level next))))
  unfolding complete_from
  complete_from_cases fuel call level =
      let current = apply_level escalation results level original in
      elim (Reply-cases (client call current)) [
        | inl (s, e) ↦ inl (response s, rw (e, complete_from) refl)
        | inr (inl (s, e)) ↦ inl (failed s, rw (e, complete_from) refl)
        | inr (inr (s, e)) ↦
            elim (Option-cases (next_rung escalation results level current original)) [
              | inl f ↦ inl (too_long s, rw (e, f, complete_from) refl)
              | inr ((next, shrunk), f) ↦ inr (next, shrunk, f, rw (e, f, complete_from) refl)
            ]
      ]

  Ends-sending :
      (level next n : ℕ) (msgs shrunk : List Message) (out : Option Recovery)
      → length msgs < n
      → IsRung escalation results (level + 1) (length escalation + 1) msgs original next shrunk
      → Ends (raise level next) (length msgs) out
      → Ends level n (sending msgs out)
  Ends-sending level next n msgs shrunk out h r e = record {
    recovery = record e.recovery { sent = msgs ∷ e.recovery.sent };
    returns = rw e.returns refl;
    rises = ground (arith, e.rises);
    shrinks = (h, e.shrinks);
    calls = ground (arith, e.calls, r.above, r.within);
  }

  complete_from-Ends :
      (fuel call level n : ℕ)
      → length escalation - level < fuel
      → length (apply_level escalation results level original) < n
      → Ends level n (complete_from escalation results client original fuel call level)
  complete_from-Ends zero call level n enough h = absurd (omega arith)
  complete_from-Ends (suc fuel) call level n enough h =
      let current = apply_level escalation results level original in
      elim (complete_from_cases fuel call level) [
        | inl (r, e) ↦ rw e (Ends-stopped r level n current h)
        | inr (next, shrunk, f, e) ↦
            let r = next_rung-IsRung escalation results level current original next shrunk f in
            let up : raise level next ≡ next = ground (arith, r.above) in
            let fits : length (apply_level escalation results (raise level next) original)
                < length current =
              rw up (ground (arith, r.taken, r.shorter)) in
            rw e (
              Ends-sending level next n current shrunk _ h r (
                complete_from-Ends fuel (call + 1) (raise level next) (length current)
                  (omega (arith, up, r.above, r.within)) fits))
      ]

-- The recovery loop always returns. It sends at most one request more than the ladder has rungs,
-- each shorter than the one before it, and the level that it leaves is not below the one that it
-- found.
pub complete-Ends :
    (escalation : List Strategy) (results : Results) (client : ℕ → List Message → Reply) (level : ℕ)
    (original : List Message)
    → (r : Recovery) × (complete escalation results client level original ≡ some r)
      × (level ≤ r.level)
      × (length r.sent ≤ length escalation + 1)
      × Shrinks (suc (length (apply_level escalation results level original))) r.sent
unfolding complete
complete-Ends escalation results client level original =
    let e =
      complete_from-Ends escalation results client original (length escalation + 1) 0 level
        (suc (length (apply_level escalation results level original))) (omega arith)
        (omega arith) in
    (e.recovery, e.returns, e.rises, omega (arith, e.calls), e.shrinks)
