-- ===== src/Governor/Causes.antt =====
-- Why a budget's context ends: the first limit that is reached, and only then.
use wombat_go.Common.{
  ◌<◌, Bool, true, ◌&&◌, ◌≡◌, refl, sym, ap, append_assoc, ◌∙◌, inl, inr, List, [], ◌∷◌, ◌++◌,
  arith, none, some, some-injective, Option-cases,
}
use wombat_go.Governor.{
  Money, Cause, budget_exhausted, step_limit, wall_clock, tool_call_limit, tool_loop, released,
  Limits, Budget, reached, step, add_tool_call, enter_subagent, exit_subagent, add_call,
  with_budget, Act, called, stepped, dispatched, entered, exited, expired, cancelled, perform,
  perform_all,
}
use wombat_go.Governor.Bounds.{perform_all-limits}
use wombat_go.Governor.Loops.{history, last_run, perform_all-repeat_run}
use wombat_go.Governor.Counts.{
  is_stepped, is_dispatched, is_expired, is_cancelled, count, spent, perform_all-usd,
  perform_all-steps, perform_all-tool_calls,
}

module _ {M : Type 0} (money : Money M) where
  -- What a cause says of the acts up to the one that gave it.
  abbrev pub Explains : Limits M → List (Act M) → Cause → Type 0
  Explains limits acts budget_exhausted =
      (money.is_positive limits.cost && money.at_least (spent money money.nothing acts) limits.cost)
      ≡ true
  Explains limits acts step_limit = reached limits.steps (count is_stepped acts) ≡ true
  Explains limits acts tool_call_limit = reached limits.tool_calls (count is_dispatched acts) ≡ true
  Explains limits acts tool_loop =
      reached limits.repeated_tool_calls (last_run (history [] acts)) ≡ true
  Explains limits acts wall_clock = 0 < count is_expired acts
  Explains limits acts released = 0 < count is_cancelled acts

  -- What one act shows when it gives the cause.
  abbrev Trips : Act M → Budget M → Cause → Type 0
  Trips a b budget_exhausted =
      (money.is_positive b.limits.cost && money.at_least b.usd b.limits.cost) ≡ true
  Trips a b step_limit = reached b.limits.steps b.steps ≡ true
  Trips a b tool_call_limit = reached b.limits.tool_calls b.tool_calls ≡ true
  Trips a b tool_loop = reached b.limits.repeated_tool_calls b.repeat_run ≡ true
  Trips a b wall_clock = is_expired a ≡ true
  Trips a b released = is_cancelled a ≡ true

  perform-Trips :
      (a : Act M) (b : Budget M) (r : Cause)
      → b.cause ≡ none
      → (perform money a b).cause ≡ some r
      → Trips a (perform money a b) r
  unfolding perform step add_tool_call enter_subagent exit_subagent add_call
  perform-Trips (called usd tokens) b r h k = ground arith
  perform-Trips stepped b r h k = ground arith
  perform-Trips (dispatched key) b r h k = ground arith
  perform-Trips entered b r h k = ground arith
  perform-Trips exited b r h k = ground arith
  perform-Trips expired b r h k = ground arith
  perform-Trips cancelled b r h k = ground arith

  perform-cause :
      (a : Act M) (b : Budget M) (r : Cause) → b.cause ≡ some r → (perform money a b).cause ≡ some r
  unfolding perform step add_tool_call enter_subagent exit_subagent add_call
  perform-cause (called usd tokens) b r h = ground arith
  perform-cause stepped b r h = ground arith
  perform-cause (dispatched key) b r h = ground arith
  perform-cause entered b r h = ground arith
  perform-cause exited b r h = ground arith
  perform-cause expired b r h = ground arith
  perform-cause cancelled b r h = ground arith

  -- A cancelled run keeps the cause that cancelled it, whatever limits it meets afterwards.
  pub perform_all-cause :
      (acts : List (Act M)) (b : Budget M) (r : Cause)
      → b.cause ≡ some r
      → (perform_all money acts b).cause ≡ some r
  unfolding perform_all
  perform_all-cause [] b r h = h
  perform_all-cause (a ∷ acts) b r h =
      perform_all-cause acts (perform money a b) r (perform-cause a b r h)

  -- The acts up to the one that gives the cause, and the rest.
  first_trip :
      (acts : List (Act M)) (b : Budget M) (r : Cause)
      → b.cause ≡ none
      → (perform_all money acts b).cause ≡ some r
      → (before : List (Act M)) × (last : Act M) × (after : List (Act M)) × (acts
          ≡ before ++ last ∷ after)
        × Trips last (perform_all money (before ++ last ∷ []) b) r
  unfolding perform_all
  first_trip [] b r h k = absurd (ground arith)
  first_trip (a ∷ acts) b r h k = elim (Option-cases (perform money a b).cause) [
    | inl e ↦
        let (before, last, after, split, trips) = first_trip acts (perform money a b) r e k in
        (a ∷ before, last, after, ap (◌∷◌ a) split, trips)
    | inr (s, e) ↦
        let same : s ≡ r =
          some-injective _ _ (sym (perform_all-cause acts (perform money a b) s e) ∙ k) in
        ([], a, acts, refl, perform-Trips a b r h (e ∙ ap some same))
  ]

  count-last :
      (p : Act M → Bool) (before : List (Act M)) (last : Act M)
      → p last ≡ true
      → 0 < count p (before ++ last ∷ [])
  count-last p [] last h = ground arith
  count-last p (a ∷ before) last h = ground (arith, count-last p before last h)

  over_cap :
      {c c' u u' : M}
      → c ≡ c'
      → u ≡ u'
      → (money.is_positive c && money.at_least u c) ≡ true
      → (money.is_positive c' && money.at_least u' c') ≡ true
  over_cap e f h = cc (e, f, h)

  Trips-Explains :
      (limits : Limits M) (before : List (Act M)) (last : Act M) (r : Cause)
      → Trips last (perform_all money (before ++ last ∷ []) (with_budget money limits)) r
      → Explains limits (before ++ last ∷ []) r
  unfolding with_budget
  Trips-Explains limits before last budget_exhausted h =
      let acts = before ++ last ∷ [] in
      over_cap (ap (λ l. l.cost) (perform_all-limits money acts (with_budget money limits)))
        (perform_all-usd money acts (with_budget money limits)) h
  Trips-Explains limits before last step_limit h =
      let acts = before ++ last ∷ [] in
      ground (
        arith,
        h,
        perform_all-steps money acts (with_budget money limits),
        perform_all-limits money acts (with_budget money limits),
      )
  Trips-Explains limits before last tool_call_limit h =
      let acts = before ++ last ∷ [] in
      ground (
        arith,
        h,
        perform_all-tool_calls money acts (with_budget money limits),
        perform_all-limits money acts (with_budget money limits),
      )
  Trips-Explains limits before last tool_loop h =
      let acts = before ++ last ∷ [] in
      ground (
        arith,
        h,
        perform_all-repeat_run money limits acts,
        perform_all-limits money acts (with_budget money limits),
      )
  Trips-Explains limits before last wall_clock h = count-last is_expired before last h
  Trips-Explains limits before last released h = count-last is_cancelled before last h

  -- If a new budget ends up cancelled with a cause, then at the end of some first part of the acts
  -- that cause is right: the model calls cost the cap or more, so many steps or tool calls were
  -- made, so many of the newest tool calls were equal, the deadline passed, or the caller released
  -- the context.
  pub perform_all-Explains :
      (limits : Limits M) (acts : List (Act M)) (r : Cause)
      → (perform_all money acts (with_budget money limits)).cause ≡ some r
      → (first : List (Act M)) × (after : List (Act M)) × (acts ≡ first ++ after)
        × Explains limits first r
  perform_all-Explains limits acts r h =
      let (before, last, after, split, trips) =
        first_trip acts (with_budget money limits) r (unfold with_budget in refl) h in
      (
        before ++ last ∷ [],
        after,
        split ∙ sym (append_assoc before (last ∷ []) after),
        Trips-Explains limits before last r trips,
      )
