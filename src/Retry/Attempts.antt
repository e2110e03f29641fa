-- ===== src/Retry/Attempts.antt =====
-- `WithRetry`: how often it calls, and which answer it returns.
use wombat_go.Common.{
  add_one_sub, ℕ, zero, suc, ◌+◌, ◌-◌, ◌≤◌, ◌<◌, max, ◌≡◌, refl, ◌⊎◌, inl, inr, String, List, [],
  ◌∷◌, arith, Option, none, some,
}
use wombat_go.Retry.{
  RetryPolicy, normalized, delay, stopped, retry_hint, Upstream, Retried, interrupted, wait_then,
  again, give_up, retry_if, retry_from, with_retry,
}

-- After attempt `k` there is another one: it failed with a failure that may be retried, the context
-- had not ended then, and did not end in the wait, if there is one.
abbrev pub GoesOn : RetryPolicy → (ℕ → ℕ → ℕ) → Upstream → ℕ → Type 0
GoesOn p added up k =
    (hint : ℕ) × (retry_hint (up.answer k) ≡ some hint)
    × (up.ended k ≡ none)
    × ((delay p added k hint ≡ 0) ⊎ (up.ends_in k (delay p added k hint) ≡ none))

-- After such a failure the context had ended with the cause, or it ended in the wait.
abbrev pub IsCut : RetryPolicy → (ℕ → ℕ → ℕ) → Upstream → ℕ → String → Type 0
IsCut p added up k cause =
    (hint : ℕ) × (retry_hint (up.answer k) ≡ some hint)
    × ((up.ended k ≡ some cause)
        ⊎ ((up.ended k ≡ none)
            × (0 < delay p added k hint)
            × (up.ends_in k (delay p added k hint) ≡ some cause)))

-- `r` is a result of the attempts from `first` on, of `total` at most.
pub record Tried (p : RetryPolicy) (added : ℕ → ℕ → ℕ) (up : Upstream) (first total : ℕ)
    (r : Retried) : Type 0 where
  pub called : first < r.calls
  pub bounded : r.calls ≤ total
  pub earlier : (k : ℕ) → first ≤ k → k + 1 < r.calls → GoesOn p added up k
  pub last :
      ((r.answer ≡ up.answer (r.calls - 1))
        × ((retry_hint (up.answer (r.calls - 1)) ≡ none) ⊎ (r.calls ≡ total)))
      ⊎ ((cause : String) × (r.answer ≡ stopped cause)
          × (r.calls < total)
          × IsCut p added up (r.calls - 1) cause)

interrupted-none :
    (up : Upstream) (k d : ℕ) → interrupted up k d ≡ none → (d ≡ 0) ⊎ (up.ends_in k d ≡ none)
interrupted-none up k zero h = inl refl
interrupted-none up k (suc d) h = inr h

interrupted-some :
    (up : Upstream) (k d : ℕ) (cause : String)
    → interrupted up k d ≡ some cause
    → (0 < d) × (up.ends_in k d ≡ some cause)
interrupted-some up k zero cause h = absurd (cc h)
interrupted-some up k (suc d) cause h = (omega arith, h)

module _ (p : RetryPolicy) (added : ℕ → ℕ → ℕ) (up : Upstream) where
  -- The attempts stop here.
  give_up-Tried :
      (attempt total : ℕ)
      → attempt + 1 ≤ total
      → (retry_hint (up.answer attempt) ≡ none) ⊎ (attempt + 1 ≡ total)
      → Tried p added up attempt total (give_up (up.answer attempt) attempt)
  give_up-Tried attempt total le why = record {
    called = omega arith;
    bounded = le;
    earlier = λ k h l. absurd (omega (arith, h, l));
    last = inl (rw (add_one_sub attempt) (refl, why));
  }

  -- The context ended.
  stop-Tried :
      (attempt total : ℕ) (cause : String) (waits : List ℕ)
      → attempt + 1 < total
      → IsCut p added up attempt cause
      → Tried p added up attempt total
          (record { answer = stopped cause; calls = attempt + 1; waits = waits })
  stop-Tried attempt total cause waits le t = record {
    called = omega arith;
    bounded = omega (arith, le);
    earlier = λ k h l. absurd (omega (arith, h, l));
    last = inr (cause, refl, le, rw (add_one_sub attempt) t);
  }

  -- One more attempt before those of `rest`.
  more-Tried :
      (attempt total d : ℕ) (rest : Retried)
      → GoesOn p added up attempt
      → Tried p added up (attempt + 1) total rest
      → Tried p added up attempt total (record rest { waits = d ∷ rest.waits })
  more-Tried attempt total d rest t r = record {
    called = omega (arith, r.called);
    bounded = r.bounded;
    earlier = λ k h l. at k (first_or attempt k h) l;
    last = r.last;
  }
    where
      first_or : (n k : ℕ) → n ≤ k → (k ≡ n) ⊎ (n + 1 ≤ k)
      first_or n k h = ground (arith, h)

      at : (k : ℕ) → (k ≡ attempt) ⊎ (attempt + 1 ≤ k) → k + 1 < rest.calls → GoesOn p added up k
      at k (inl e) l = rw e t
      at k (inr h) l = r.earlier k h l

  wait_then-Tried :
      (o : Option String) (attempt total hint : ℕ) (rest : Retried)
      → interrupted up attempt (delay p added attempt hint) ≡ o
      → attempt + 1 < total
      → retry_hint (up.answer attempt) ≡ some hint
      → up.ended attempt ≡ none
      → Tried p added up (attempt + 1) total rest
      → Tried p added up attempt total (wait_then o attempt (delay p added attempt hint) rest)
  wait_then-Tried none attempt total hint rest w le h e r =
      more-Tried attempt total _ rest (hint, h, e, interrupted-none up attempt _ w) r
  wait_then-Tried (some cause) attempt total hint rest w le h e r =
      let cut = interrupted-some up attempt _ cause w in
      stop-Tried attempt total cause _ le (hint, h, inr (e, cut.0, cut.1))

  again-Tried :
      (o : Option String) (attempt total hint : ℕ) (rest : Retried)
      → up.ended attempt ≡ o
      → attempt + 1 < total
      → retry_hint (up.answer attempt) ≡ some hint
      → Tried p added up (attempt + 1) total rest
      → Tried p added up attempt total (again o up attempt (delay p added attempt hint) rest)
  again-Tried none attempt total hint rest e le h r =
      wait_then-Tried (interrupted up attempt (delay p added attempt hint)) attempt total hint rest
        refl le h e r
  again-Tried (some cause) attempt total hint rest e le h r =
      stop-Tried attempt total cause [] le (hint, h, inl e)

  retry_if-Tried :
      (o : Option ℕ) (attempt total : ℕ) (rest : Retried)
      → retry_hint (up.answer attempt) ≡ o
      → attempt + 1 < total
      → Tried p added up (attempt + 1) total rest
      → Tried p added up attempt total (retry_if o p added up attempt rest)
  retry_if-Tried none attempt total rest h le r =
      give_up-Tried attempt total (omega (arith, le)) (inl h)
  retry_if-Tried (some hint) attempt total rest h le r =
      again-Tried (up.ended attempt) attempt total hint rest refl le h r

  retry_from-Tried :
      (left attempt total : ℕ)
      → total ≡ attempt + 1 + left
      → Tried p added up attempt total (retry_from p added up left attempt)
  unfolding retry_from
  retry_from-Tried zero attempt total e =
      give_up-Tried attempt total (omega (arith, e)) (inr (omega (arith, e)))
  retry_from-Tried (suc left) attempt total e =
      retry_if-Tried (retry_hint (up.answer attempt)) attempt total
        (retry_from p added up left (attempt + 1)) refl (omega (arith, e))
        (retry_from-Tried left (attempt + 1) total (omega (arith, e)))

-- `WithRetry` calls the client at least once and at most as often as the policy allows, and again
-- only after a failure that may be retried, where the context has not ended and does not end in the
-- wait. It returns the answer to the last call, which is no such failure or used up the attempts; or,
-- where the context had ended after such a failure or ended in the wait for another attempt, the cause
-- of that.
pub with_retry-Tried :
    (p : RetryPolicy) (added : ℕ → ℕ → ℕ) (up : Upstream)
    → Tried (normalized p) added up 0 (max p.max_attempts 1) (with_retry p added up)
unfolding with_retry
with_retry-Tried p added up =
    retry_from-Tried (normalized p) added up (p.max_attempts - 1) 0 (max p.max_attempts 1)
      (omega arith)
