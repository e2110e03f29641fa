-- ===== src/Tool/Dispatch/Ending.antt =====
-- `Dispatch`: a batch of independent calls and its end.
use wombat_go.Common.{
  ℕ, zero, suc, String, true, false, ◌⊎◌, Bool-cases, ◌≡◌, refl, sym, ap, ◌∙◌, subst, inl, inr,
  List, [], ◌∷◌, ◌++◌, arith, Option, some, get_elem?, length, leb, max, Option-cases,
}
use wombat_go.Tool.{Def, ToolUse}
use wombat_go.Tool.Dispatch.{Called, Handler, dispatch, blank_slots, set_slot}
use wombat_go.Tool.Dispatch.Parallel.{
  Moved, more, over, Stage, queued, running, finished, Batch, all_ended, held, enters, all_queued,
  begin_call, after_step, turn_of, take_turn, take_turns, dispatch_parallel,
}
use wombat_go.Tool.Dispatch.Independence.{Independent, alone}
use wombat_go.Tool.Dispatch.Interleaving.{
  AllEndAlone, Follows, take_turn-Follows, take_turns-Follows, out-dispatch,
  dispatch_parallel-Follows,
}
use wombat_go.Tool.Dispatch.Slots.{
  length-set_slot, get_of_length, get-set_slot-same, set_slot-twice, set_slot-get, set_slot-none,
}
use wombat_go.Tool.Dispatch.Limit.{held-dispatch_parallel}
use wombat_go.Tool.Dispatch.Semaphore.{
  FirstDone, enters_next, held-set_slot, held-suc, set_slot-FirstDone, FirstDone-all_ended,
}

module _ {W L : Type 0} (find : String → Option Def) (started : ℕ → Def → ToolUse → L)
    (step : ℕ → L → W → Moved L × W) (parallel : ℕ) (uses : List ToolUse) where
  take_turns-append :
      (now later : List ℕ) (b : Batch W L)
      → take_turns find started step parallel uses (now ++ later) b
        ≡ take_turns find started step parallel uses later
            (take_turns find started step parallel uses now b)
  unfolding take_turns
  take_turns-append [] later b = refl
  take_turns-append (i ∷ now) later b =
      take_turns-append now later (take_turn find started step parallel uses i b)

  take_turn_lem :
      (i : ℕ) (u : ToolUse) (s : Stage L) (b : Batch W L)
      → get_elem? uses i ≡ some u
      → get_elem? b.stages i ≡ some s
      → take_turn find started step parallel uses i b
        ≡ turn_of find started step parallel uses i u s b
  unfolding take_turn
  take_turn_lem i u s b g k = ground (arith, g, k)

  -- Turns that only finish call i.
  abbrev Finishes : ℕ → Batch W L → Type 0
  Finishes i b =
      (later : List ℕ) × ((take_turns find started step parallel uses later b).stages
        ≡ set_slot i finished b.stages)

  finishes :
      (n i : ℕ) (u : ToolUse) (l : L) (b : Batch W L) (c : Called)
      → get_elem? uses i ≡ some u
      → get_elem? b.stages i ≡ some (running l)
      → length b.stages ≡ length uses
      → alone step i n (more l) b.world ≡ over c
      → Finishes i b
  finishes zero i u l b c g k e h = absurd (cc h)
  finishes (suc n) i u l b c g k e h =
      on (step i l b.world).0 (step i l b.world).1
        (take_turn_lem i u (running l) b g k ∙ unfold turn_of in refl) h
        (λ l' b' k' e' h'. finishes n i u l' b' c g k' e' h')
    where
      on :
          (m : Moved L) (next : W)
          → take_turn find started step parallel uses i b
            ≡ after_step find started step parallel uses i u (m, next) b
          → alone step i n m next ≡ over c
          → ((l' : L) (b' : Batch W L)
              → get_elem? b'.stages i ≡ some (running l')
              → length b'.stages ≡ length uses
              → alone step i n (more l') b'.world ≡ over c
              → Finishes i b')
          → Finishes i b
      on (over d) next t q ih =
          (i ∷ [], unfold take_turns in ap (λ x. x.stages) t ∙ unfold after_step in refl)
      on (more l') next t q ih =
          let b' : Batch W L = record {
            world = next;
            stages = set_slot i (running l') b.stages;
            out = b.out;
          } in
          let (later, r) =
            ih l' b' (get-set_slot-same i (running l') b.stages uses u e g)
              (length-set_slot i (running l') b.stages ∙ e) q in
          (
            i ∷ later,
            unfold take_turns in
                ap (λ x. (take_turns find started step parallel uses later x).stages)
                  (t ∙ unfold after_step in refl)
                ∙ r
                ∙ set_slot-twice i finished (running l') b.stages,
          )

module _ {W L V : Type 0} (find : String → Option Def) (started : ℕ → Def → ToolUse → L)
    (step : ℕ → L → W → Moved L × W) (part : ℕ → W → V) (indep : Independent step part)
    (handler : Handler) (uses : List ToolUse) (w : W)
    (ends : AllEndAlone find started step part indep handler uses w) (parallel : ℕ) where
  abbrev Fine : Batch W L → Type 0
  Fine b = Follows find started step part indep handler uses w b × (length b.stages ≡ length uses)

  take_turns-Fine :
      (schedule : List ℕ) (i : ℕ) (b : Batch W L)
      → Fine b
      → (take_turns find started step parallel uses schedule b).stages
        ≡ set_slot i finished b.stages
      → Fine (take_turns find started step parallel uses schedule b)
  take_turns-Fine schedule i b v e = (
    take_turns-Follows find started step part indep handler uses w ends parallel schedule b v.0,
    ap length e ∙ length-set_slot i finished b.stages ∙ v.1,
  )

  running-Finishes :
      (i : ℕ) (u : ToolUse) (l : L) (b : Batch W L)
      → Fine b
      → get_elem? uses i ≡ some u
      → get_elem? b.stages i ≡ some (running l)
      → Finishes find started step parallel uses i b
  running-Finishes i u l b v g k =
      let (d, e, (n, h)) = v.0.holds i u (running l) g k in
      finishes find started step parallel uses n i u l b (handler i d u) g k v.1 h

  queued-Finishes :
      (i : ℕ) (u : ToolUse) (b : Batch W L)
      → Fine b
      → get_elem? uses i ≡ some u
      → get_elem? b.stages i ≡ some queued
      → enters parallel i b.stages ≡ true
      → Finishes find started step parallel uses i b
  queued-Finishes i u b v g k q = elim (Option-cases (find u.name)) [
    | inl e ↦ (
      i ∷ [],
      unfold take_turns in ap (λ x. x.stages) first ∙ unfold begin_call in ground (arith, e),
    )
    | inr (d, e) ↦
        let runs : (take_turn find started step parallel uses i b).stages
            ≡ set_slot i (running (started i d u)) b.stages =
          ap (λ x. x.stages) first ∙ unfold begin_call in ground (arith, e) in
        let (later, r) =
          running-Finishes i u (started i d u) (take_turn find started step parallel uses i b)
            (
              take_turn-Follows find started step part indep handler uses w ends parallel i b v.0,
              ap length runs ∙ length-set_slot i (running (started i d u)) b.stages ∙ v.1,
            )
            g
            (ap (λ x. get_elem? x i) runs
              ∙ get-set_slot-same i (running (started i d u)) b.stages uses u v.1 g) in
        (
          i ∷ later,
          unfold take_turns in
              r
              ∙ ap (set_slot i finished) runs
              ∙ set_slot-twice i finished (running (started i d u)) b.stages,
        )
  ]
    where
      first :
          take_turn find started step parallel uses i b
          ≡ begin_call find started step parallel uses i u b
      first =
          take_turn_lem find started step parallel uses i u queued b g k
          ∙ unfold turn_of in rw q refl

  stage-Finishes :
      (i : ℕ) (u : ToolUse) (s : Stage L) (b : Batch W L)
      → Fine b
      → get_elem? uses i ≡ some u
      → get_elem? b.stages i ≡ some s
      → enters parallel i b.stages ≡ true
      → Finishes find started step parallel uses i b
  stage-Finishes i u queued b v g k q = queued-Finishes i u b v g k q
  stage-Finishes i u (running l) b v g k q = running-Finishes i u l b v g k
  stage-Finishes i u finished b v g k q =
      ([], unfold take_turns in set_slot-get i finished b.stages k)

  -- Each of the first calls is done, and nobody runs.
  abbrev IsAt : ℕ → Batch W L → Type 0
  IsAt n b = Fine b × (held b.stages ≡ 0) × FirstDone n b.stages

  abbrev Reaches : ℕ → Batch W L → Type 0
  Reaches n b = (later : List ℕ) × IsAt n (take_turns find started step parallel uses later b)

  after-Reaches :
      (n : ℕ) (now : List ℕ) (b : Batch W L)
      → Reaches n (take_turns find started step parallel uses now b)
      → Reaches n b
  after-Reaches n now b (later, r) = (
    now ++ later,
    subst (IsAt n) (sym (take_turns-append find started step parallel uses now later b)) r,
  )

  drains : (n : ℕ) (b : Batch W L) → Fine b → held b.stages ≡ n → Reaches 0 b
  unfolding take_turns
  drains zero b v e = ([], (v, e, tt))
  drains (suc n) b v e =
      let (i, l, k, h) = held-suc n b.stages e in
      elim (get_of_length b.stages uses i v.1) [
        | inl (x, y) ↦ absurd (cc (x, k))
        | inr (x, u, y, g) ↦
            let (now, r) = running-Finishes i u l b v g k in
            after-Reaches 0 now b (
              drains n (take_turns find started step parallel uses now b)
                (take_turns-Fine now i b v r) (ap held r ∙ h))
      ]

  reaches : (n : ℕ) (b : Batch W L) → Fine b → Reaches n b
  reaches zero b v = drains (held b.stages) b v refl
  reaches (suc n) b v =
      let (now, (v', q, d)) = reaches n b v in
      after-Reaches (suc n) now b (next n (take_turns find started step parallel uses now b) v' q d)
    where
      next :
          (n : ℕ) (b : Batch W L)
          → Fine b
          → held b.stages ≡ 0
          → FirstDone n b.stages
          → Reaches (suc n) b
      next n b v q d = elim (get_of_length b.stages uses n v.1) [
        | inl (x, y) ↦ (
          [],
          unfold take_turns in
              (
                v,
                q,
                subst (FirstDone (suc n)) (sym (set_slot-none n finished b.stages x))
                    (set_slot-FirstDone n b.stages d),
              ),
        )
        | inr (s, u, k, g) ↦
            let (later, r) = stage-Finishes n u s b v g k (enters_next parallel n b.stages q d) in
            (
              later,
              (
                take_turns-Fine later n b v r,
                ap held r ∙ held-set_slot n b.stages q,
                subst (FirstDone (suc n)) (sym r) (set_slot-FirstDone n b.stages d),
              ),
            )
      ]

  all_ended_later :
      (schedule : List ℕ)
      → (later : List ℕ) × (all_ended
            (dispatch_parallel find started step parallel uses (schedule ++ later) w).stages
          ≡ true)
  unfolding dispatch_parallel
  all_ended_later schedule =
      let start : Batch W L = record {
        world = w;
        stages = all_queued uses;
        out = blank_slots uses;
      } in
      let now : Batch W L = take_turns find started step parallel uses schedule start in
      let v =
        dispatch_parallel-Follows find started step part indep handler uses w ends parallel
          schedule in
      let (later, ((v', n), q, d)) = reaches (length uses) now (v, v.staged) in
      (
        later,
        ap (λ b. all_ended b.stages)
              (take_turns-append find started step parallel uses schedule later start)
            ∙ FirstDone-all_ended (length uses) _ d n,
      )

  -- Let each call have a part of the world of its own, and end if it is run alone. Then, whatever
  -- turns the calls of a batch have taken: if all have ended, the batch has one result per call, in
  -- the order of the calls, with what each ends with alone, whether the calls run one after another
  -- or several at a time; no more calls are in their handlers than `WithParallelism` allows, or
  -- one; and further turns let all end, with these results.
  pub dispatch_parallel-dispatch :
      (schedule : List ℕ)
      → ((all_ended (dispatch_parallel find started step parallel uses schedule w).stages ≡ false)
          ⊎ ((dispatch_parallel find started step parallel uses schedule w).out
              ≡ dispatch find handler uses))
        × (leb
              (held (dispatch_parallel find started step parallel uses schedule w).stages)
              (max 1 parallel)
            ≡ true)
        × ((later : List ℕ) × (all_ended
                (dispatch_parallel find started step parallel uses (schedule ++ later) w).stages
              ≡ true)
            × ((dispatch_parallel find started step parallel uses (schedule ++ later) w).out
                ≡ dispatch find handler uses))
  dispatch_parallel-dispatch schedule =
      let (later, over_then) = all_ended_later schedule in
      (
        elim (Bool-cases
            (all_ended (dispatch_parallel find started step parallel uses schedule w).stages)) [
              | inl e ↦ inr (
                  out-dispatch find started step part indep handler uses w ends parallel schedule e)
              | inr e ↦ inl e
            ],
        held-dispatch_parallel find started step parallel uses schedule w,
        (
          later,
          over_then,
          out-dispatch find started step part indep handler uses w ends parallel (schedule ++ later)
              over_then,
        ),
      )
