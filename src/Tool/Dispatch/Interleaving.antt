-- ===== src/Tool/Dispatch/Interleaving.antt =====
-- `Dispatch`: the turns of independent calls.
use wombat_go.Common.{
  ℕ, String, Bool, true, false, ◌≡◌, refl, sym, ap, ◌∙◌, subst, ◌⊎◌, inl, inr, List, [], ◌∷◌, arith,
  Option, none, some, some-injective, get_elem?, length, ◌=?◌, if◌then◌else◌,
}
use wombat_go.Tool.{Def, ToolUse}
use wombat_go.Tool.Dispatch.{
  CallResult, Handler, run_call, dispatch_from, dispatch, blank_slots, set_slot, settled, unknown,
}
use wombat_go.Tool.Dispatch.Order.{get-dispatch}
use wombat_go.Tool.Dispatch.Semaphore.{get-all_ended}
use wombat_go.Tool.Dispatch.Parallel.{
  Moved, more, over, Stage, queued, running, finished, Batch, all_ended, enters, all_queued,
  begin_call, after_step, turn_of, take_turn, take_turns, dispatch_parallel,
}
use wombat_go.Tool.Dispatch.Independence.{
  Independent, EndsAlone, Left, EndsAlone-Left, same-EndsAlone,
}
use wombat_go.Tool.Dispatch.Slots.{
  eq_of_get, length-set_slot, length-blank_slots, length-all_queued, get_of_length,
  get-set_slot-same, get-set_slot-other, get-set_slot-hit, index_eq, get-all_queued,
}

module _ {W L V : Type 0} (find : String → Option Def) (started : ℕ → Def → ToolUse → L)
    (step : ℕ → L → W → Moved L × W) (part : ℕ → W → V) (indep : Independent step part)
    (handler : Handler) (uses : List ToolUse) (w : W) where
  -- Call i, left to itself in the world that the batch begins with, ends like this.
  abbrev pub AllEndAlone : Type 0
  AllEndAlone =
      (i : ℕ) (u : ToolUse) (d : Def)
      → get_elem? uses i ≡ some u
      → find u.name ≡ some d
      → EndsAlone step i (started i d u) w (handler i d u)

  -- What is known of a call: its part of the world is as it was, or it will still end as it would
  -- alone, or its slot holds what a sequential dispatch returns.
  abbrev pub Holds : W → List CallResult → ℕ → ToolUse → Stage L → Type 0
  Holds now out j u queued = part j now ≡ part j w
  Holds now out j u (running l) =
      (d : Def) × (find u.name ≡ some d) × EndsAlone step j l now (handler j d u)
  Holds now out j u finished = get_elem? out j ≡ some (run_call find handler j u)

  pub record Follows (b : Batch W L) : Type 0 where
    pub sized : length b.out ≡ length uses
    pub staged : length b.stages ≡ length uses
    pub holds :
        (j : ℕ) (u : ToolUse) (s : Stage L)
        → get_elem? uses j ≡ some u
        → get_elem? b.stages j ≡ some s
        → Holds b.world b.out j u s

  Holds-other :
      (now next : W) (out out' : List CallResult) (j : ℕ) (u : ToolUse) (s : Stage L)
      → part j next ≡ part j now
      → get_elem? out' j ≡ get_elem? out j
      → Holds now out j u s
      → Holds next out' j u s
  Holds-other now next out out' j u queued p o h = p ∙ h
  Holds-other now next out out' j u (running l) p o (d, f, h) =
      (d, f, same-EndsAlone step part indep j l next now (handler j d u) p h)
  Holds-other now next out out' j u finished p o h = o ∙ h

  -- What call i does is seen in its own part, slot and stage only.
  own-Follows :
      (i : ℕ) (u : ToolUse) (s : Stage L) (next : W) (out' : List CallResult) (b : Batch W L)
      → Follows b
      → get_elem? uses i ≡ some u
      → length out' ≡ length uses
      → ((j : ℕ) → (i =? j) ≡ false → part j next ≡ part j b.world)
      → ((j : ℕ) → (i =? j) ≡ false → get_elem? out' j ≡ get_elem? b.out j)
      → Holds next out' i u s
      → Follows (record { world = next; stages = set_slot i s b.stages; out = out' })
  own-Follows i u s next out' b v g n p o h = record {
    sized = n;
    staged = length-set_slot i s b.stages ∙ v.staged;
    holds = λ j u' t k e. at j u' t k e (i =? j) refl;
  }
    where
      at :
          (j : ℕ) (u' : ToolUse) (t : Stage L)
          → get_elem? uses j ≡ some u'
          → get_elem? (set_slot i s b.stages) j ≡ some t
          → (c : Bool) → (i =? j) ≡ c
          → Holds next out' j u' t
      at j u' t k e false c =
          Holds-other b.world next b.out out' j u' t (p j c) (o j c)
            (v.holds j u' t k (sym (get-set_slot-other i j s b.stages c) ∙ e))
      at j u' t k e true c =
          let same : i ≡ j = index_eq i j c in
          let call : u ≡ u' = some-injective _ _ (sym g ∙ ap (get_elem? uses) same ∙ k) in
          subst (λ x. Holds next out' x u' t) same
            (subst (λ x. Holds next out' i x t) call
              (subst (λ x. Holds next out' i u x) (get-set_slot-hit i j s t b.stages c e) h))

  module _ (ends : AllEndAlone) (parallel : ℕ) where
    begin_call-Follows :
        (i : ℕ) (u : ToolUse) (b : Batch W L)
        → Follows b
        → get_elem? uses i ≡ some u
        → part i b.world ≡ part i w
        → Follows (begin_call find started step parallel uses i u b)
    unfolding begin_call
    begin_call-Follows i u b v g h = on (find u.name) refl
      where
        on :
            (o : Option Def)
            → find u.name ≡ o
            → Follows (elim o as (λ x. Batch W L) [
              | none ↦ record {
                world = b.world;
                stages = set_slot i finished b.stages;
                out = set_slot i (unknown u) b.out;
              }
              | some d ↦ record {
                world = b.world;
                stages = set_slot i (running (started i d u)) b.stages;
                out =
                    set_slot i
                      (record {
                        use_id = u.id;
                        name = u.name;
                        output = "";
                        error = none;
                        tags = [];
                      })
                      b.out;
              }
            ])
        on none e =
            own-Follows i u finished b.world (set_slot i (unknown u) b.out) b v g
              (length-set_slot i (unknown u) b.out ∙ v.sized) (λ j c. refl)
              (λ j c. get-set_slot-other i j (unknown u) b.out c)
              (get-set_slot-same i (unknown u) b.out uses u v.sized g
                ∙ ap some (unfold run_call in ground (arith, e)))
        on (some d) e =
            let r : CallResult = record {
              use_id = u.id;
              name = u.name;
              output = "";
              error = none;
              tags = [];
            } in
            own-Follows i u (running (started i d u)) b.world (set_slot i r b.out) b v g
              (length-set_slot i r b.out ∙ v.sized) (λ j c. refl)
              (λ j c. get-set_slot-other i j r b.out c)
              (
                d,
                e,
                same-EndsAlone step part indep i (started i d u) b.world w (handler i d u) h
                    (ends i u d g e),
              )

    after_step-Follows :
        (i : ℕ) (u : ToolUse) (m : Moved L) (next : W) (b : Batch W L) (d : Def)
        → Follows b
        → get_elem? uses i ≡ some u
        → find u.name ≡ some d
        → ((j : ℕ) → (i =? j) ≡ false → part j next ≡ part j b.world)
        → Left step i m next (handler i d u)
        → Follows (after_step find started step parallel uses i u (m, next) b)
    unfolding after_step
    after_step-Follows i u (more l) next b d v g e p h =
        own-Follows i u (running l) next b.out b v g v.sized p (λ j c. refl) (d, e, h)
    after_step-Follows i u (over c) next b d v g e p h =
        own-Follows i u finished next (set_slot i (settled u c) b.out) b v g
          (length-set_slot i (settled u c) b.out ∙ v.sized) p
          (λ j k. get-set_slot-other i j (settled u c) b.out k)
          (get-set_slot-same i (settled u c) b.out uses u v.sized g
            ∙ ap some (ap (settled u) h ∙ unfold run_call in ground (arith, e)))

    turn_of-Follows :
        (i : ℕ) (u : ToolUse) (s : Stage L) (b : Batch W L)
        → Follows b
        → get_elem? uses i ≡ some u
        → get_elem? b.stages i ≡ some s
        → Follows (turn_of find started step parallel uses i u s b)
    unfolding turn_of
    turn_of-Follows i u queued b v g k = let_in (enters parallel i b.stages)
      where
        let_in :
            (c : Bool) → Follows (if c then begin_call find started step parallel uses i u b else b)
        let_in true = begin_call-Follows i u b v g (v.holds i u queued g k)
        let_in false = v
    turn_of-Follows i u (running l) b v g k =
        let (d, e, h) = v.holds i u (running l) g k in
        after_step-Follows i u (step i l b.world).0 (step i l b.world).1 b d v g e
          (λ j c. indep.kept i j l b.world c) (EndsAlone-Left step i l b.world (handler i d u) h)
    turn_of-Follows i u finished b v g k = v

    pub take_turn-Follows :
        (i : ℕ) (b : Batch W L)
        → Follows b
        → Follows (take_turn find started step parallel uses i b)
    unfolding take_turn
    take_turn-Follows i b v = on (get_elem? uses i) (get_elem? b.stages i) refl refl
      where
        on :
            (o : Option ToolUse) (q : Option (Stage L))
            → get_elem? uses i ≡ o
            → get_elem? b.stages i ≡ q
            → Follows (elim o as (λ x. Batch W L) [
              | none ↦ b
              | some u ↦ elim q as (λ x. Batch W L) [
                | none ↦ b
                | some s ↦ turn_of find started step parallel uses i u s b
              ]
            ])
        on none q e f = v
        on (some u) none e f = v
        on (some u) (some s) e f = turn_of-Follows i u s b v e f

    pub take_turns-Follows :
        (schedule : List ℕ) (b : Batch W L)
        → Follows b
        → Follows (take_turns find started step parallel uses schedule b)
    unfolding take_turns
    take_turns-Follows [] b v = v
    take_turns-Follows (i ∷ schedule) b v =
        take_turns-Follows schedule (take_turn find started step parallel uses i b)
          (take_turn-Follows i b v)

    pub dispatch_parallel-Follows :
        (schedule : List ℕ) → Follows (dispatch_parallel find started step parallel uses schedule w)
    unfolding dispatch_parallel
    dispatch_parallel-Follows schedule =
        take_turns-Follows schedule
          (record { world = w; stages = all_queued uses; out = blank_slots uses })
          (record {
            sized = length-blank_slots uses;
            staged = length-all_queued L uses;
            holds = λ j u s e k. initial j u s (get-all_queued uses j s k);
          })
      where
        initial :
            (j : ℕ) (u : ToolUse) (s : Stage L) → queued ≡ s → Holds w (blank_slots uses) j u s
        initial j u s e = subst (λ x. Holds w (blank_slots uses) j u x) e refl

    -- When each call has ended, the slots hold what each would end with if it were run alone.
    pub out-dispatch :
        (schedule : List ℕ)
        → all_ended (dispatch_parallel find started step parallel uses schedule w).stages ≡ true
        → (dispatch_parallel find started step parallel uses schedule w).out
          ≡ dispatch find handler uses
    unfolding dispatch
    out-dispatch schedule h = eq_of_get _ _ (λ j. at j (get_of_length _ uses j v.sized))
      where
        v : Follows (dispatch_parallel find started step parallel uses schedule w)
        v = dispatch_parallel-Follows schedule

        done :
            (j : ℕ) (u : ToolUse)
            → get_elem? uses j ≡ some u
            → ((get_elem? (dispatch_parallel find started step parallel uses schedule w).stages j
                  ≡ none)
                × (get_elem? uses j ≡ none))
              ⊎ ((s : Stage L) × (u : ToolUse) × (get_elem?
                      (dispatch_parallel find started step parallel uses schedule w).stages
                      j
                    ≡ some s)
                  × (get_elem? uses j ≡ some u))
            → get_elem? (dispatch_parallel find started step parallel uses schedule w).stages j
              ≡ some finished
        done j u m (inl (x, y)) = absurd (cc (m, y))
        done j u m (inr (s, y, k, z)) = get-all_ended _ j s h k

        at :
            (j : ℕ)
            → ((get_elem? (dispatch_parallel find started step parallel uses schedule w).out j
                  ≡ none)
                × (get_elem? uses j ≡ none))
              ⊎ ((x : CallResult) × (u : ToolUse) × (get_elem?
                      (dispatch_parallel find started step parallel uses schedule w).out
                      j
                    ≡ some x)
                  × (get_elem? uses j ≡ some u))
            → get_elem? (dispatch_parallel find started step parallel uses schedule w).out j
              ≡ get_elem? (dispatch_from find handler 0 uses) j
        at j (inl (n, m)) = n ∙ sym (get-dispatch find handler uses j none m)
        at j (inr (x, u, n, m)) =
            v.holds j u finished m (done j u m (get_of_length _ uses j v.staged))
            ∙ sym (get-dispatch find handler uses j (some u) m)
