-- ===== src/Tool/Dispatch/Limit.antt =====
-- `Dispatch`: how many calls are in their handlers at a time.
use wombat_go.Common.{
  ℕ, zero, suc, ◌+◌, String, Bool, true, false, ◌||◌, ◌≡◌, refl, sym, ap, subst, List, [], ◌∷◌,
  arith, Option, inl, inr, none, some, some-injective, get_elem?, length, leb, ltb, max, ◌=?◌,
  Option-cases, if◌then◌else◌,
}
use wombat_go.Tool.{Def, ToolUse}
use wombat_go.Tool.Dispatch.{blank_slots, set_slot}
use wombat_go.Tool.Dispatch.Parallel.{
  Moved, more, over, Stage, queued, running, finished, Batch, held, done_before, enters, all_queued,
  begin_call, after_step, turn_of, take_turn, take_turns, dispatch_parallel,
}
use wombat_go.Tool.Dispatch.Slots.{length-set_slot}

abbrev AllQueued : {L : Type 0} → List (Stage L) → Type 0
AllQueued [] = Unit
AllQueued (queued ∷ stages) = AllQueued stages
AllQueued (running l ∷ stages) = ⊥
AllQueued (finished ∷ stages) = ⊥

-- One call after another.
abbrev InOrder : {L : Type 0} → List (Stage L) → Type 0
InOrder [] = Unit
InOrder (queued ∷ stages) = AllQueued stages
InOrder (running l ∷ stages) = AllQueued stages
InOrder (finished ∷ stages) = InOrder stages

abbrev weight : {L : Type 0} → Stage L → ℕ
weight queued = 0
weight (running l) = 1
weight finished = 0

-- A call that has begun.
abbrev HasBegun : {L : Type 0} → Stage L → Type 0
HasBegun queued = ⊥
HasBegun (running l) = Unit
HasBegun finished = Unit

abbrev IsOpen : {L : Type 0} → Stage L → Type 0
IsOpen queued = Unit
IsOpen (running l) = Unit
IsOpen finished = ⊥

AllQueued-InOrder : {L : Type 0} → (stages : List (Stage L)) → AllQueued stages → InOrder stages
AllQueued-InOrder [] q = tt
AllQueued-InOrder (queued ∷ stages) q = q
AllQueued-InOrder (running l ∷ stages) q = absurd q
AllQueued-InOrder (finished ∷ stages) q = absurd q

AllQueued-held : {L : Type 0} → (stages : List (Stage L)) → AllQueued stages → held stages ≡ 0
unfolding held
AllQueued-held [] q = refl
AllQueued-held (queued ∷ stages) q = AllQueued-held stages q
AllQueued-held (running l ∷ stages) q = absurd q
AllQueued-held (finished ∷ stages) q = absurd q

all_queued-AllQueued : (L : Type 0) (uses : List ToolUse) → AllQueued (all_queued {L = L} uses)
unfolding all_queued
all_queued-AllQueued L [] = tt
all_queued-AllQueued L (u ∷ uses) = all_queued-AllQueued L uses

InOrder-held :
    {L : Type 0} → (stages : List (Stage L)) → InOrder stages → leb (held stages) 1 ≡ true
unfolding held
InOrder-held [] q = refl
InOrder-held (queued ∷ stages) q = ground (arith, AllQueued-held stages q)
InOrder-held (running l ∷ stages) q = ground (arith, AllQueued-held stages q)
InOrder-held (finished ∷ stages) q = InOrder-held stages q

AllQueued-get :
    {L : Type 0}
    → (i : ℕ) (stages : List (Stage L)) (l : L) → AllQueued stages
    → get_elem? stages i ≡ some (running l)
    → ⊥
AllQueued-get i [] l q g = cc g
AllQueued-get zero (queued ∷ stages) l q g = cc g
AllQueued-get (suc i) (queued ∷ stages) l q g = AllQueued-get i stages l q g
AllQueued-get i (running k ∷ stages) l q g = q
AllQueued-get i (finished ∷ stages) l q g = q

InOrder-done_before :
    {L : Type 0}
    → (i : ℕ) (stages : List (Stage L)) (l : L) → InOrder stages
    → get_elem? stages i ≡ some (running l)
    → done_before i stages ≡ true
unfolding done_before
InOrder-done_before zero stages l q g = refl
InOrder-done_before (suc i) [] l q g = refl
InOrder-done_before (suc i) (queued ∷ stages) l q g = absurd (AllQueued-get i stages l q g)
InOrder-done_before (suc i) (running k ∷ stages) l q g = absurd (AllQueued-get i stages l q g)
InOrder-done_before (suc i) (finished ∷ stages) l q g = InOrder-done_before i stages l q g

set_slot-InOrder :
    {L : Type 0}
    → (i : ℕ) (s t : Stage L) (stages : List (Stage L)) → IsOpen s
    → HasBegun t
    → get_elem? stages i ≡ some s
    → done_before i stages ≡ true
    → InOrder stages
    → InOrder (set_slot i t stages)
unfolding set_slot done_before
set_slot-InOrder i s t [] o b g d q = tt
set_slot-InOrder zero s (running l) (queued ∷ stages) o b g d q = q
set_slot-InOrder zero s (running l) (running k ∷ stages) o b g d q = q
set_slot-InOrder zero s finished (queued ∷ stages) o b g d q = AllQueued-InOrder stages q
set_slot-InOrder zero s finished (running k ∷ stages) o b g d q = AllQueued-InOrder stages q
set_slot-InOrder zero s queued (x ∷ stages) o b g d q = absurd b
set_slot-InOrder zero queued t (finished ∷ stages) o b g d q = absurd (cc g)
set_slot-InOrder zero (running l) t (finished ∷ stages) o b g d q = absurd (cc g)
set_slot-InOrder zero finished t (finished ∷ stages) o b g d q = absurd o
set_slot-InOrder (suc i) s t (queued ∷ stages) o b g d q = absurd (cc d)
set_slot-InOrder (suc i) s t (running k ∷ stages) o b g d q = absurd (cc d)
set_slot-InOrder (suc i) s t (finished ∷ stages) o b g d q = set_slot-InOrder i s t stages o b g d q

weight_le_one : {L : Type 0} → (t : Stage L) → leb (weight t) 1 ≡ true
weight_le_one queued = refl
weight_le_one (running l) = refl
weight_le_one finished = refl

held-cons :
    {L : Type 0}
    → (x : Stage L) (stages : List (Stage L)) → held (x ∷ stages) ≡ weight x + held stages
unfolding held
held-cons queued stages = omega arith
held-cons (running l) stages = omega arith
held-cons finished stages = omega arith

held-set_slot :
    {L : Type 0}
    → (i : ℕ) (s t : Stage L) (stages : List (Stage L)) → get_elem? stages i ≡ some s
    → held (set_slot i t stages) + weight s ≡ held stages + weight t
unfolding set_slot
held-set_slot i s t [] g = absurd (cc g)
held-set_slot zero s t (x ∷ stages) g =
    let same : weight x ≡ weight s = ap weight (some-injective _ _ g) in
    let now = held-cons t stages in let before = held-cons x stages in omega arith
held-set_slot (suc i) s t (x ∷ stages) g =
    let rest = held-set_slot i s t stages g in
    let now = held-cons x (set_slot i t stages) in let before = held-cons x stages in omega arith

abbrev BoundedAt : {L : Type 0} → Bool → ℕ → List (Stage L) → Type 0
BoundedAt true parallel stages = InOrder stages
BoundedAt false parallel stages = leb (held stages) parallel ≡ true

-- One call after another, or as many as there are tokens.
abbrev Bounded : {L : Type 0} → ℕ → List (Stage L) → Type 0
Bounded parallel stages = BoundedAt (leb parallel 1 || (length stages =? 1)) parallel stages

Bounded-held :
    {L : Type 0}
    → (parallel : ℕ) (stages : List (Stage L)) → Bounded parallel stages
    → leb (held stages) (max 1 parallel) ≡ true
Bounded-held parallel stages v = on (leb parallel 1 || (length stages =? 1)) v
  where
    on : (c : Bool) → BoundedAt c parallel stages → leb (held stages) (max 1 parallel) ≡ true
    on true q = ground (arith, InOrder-held stages q)
    on false q = ground (arith, q)

set_slot-Bounded :
    {L : Type 0}
    → (parallel : ℕ) (i : ℕ) (t : Stage L) (stages : List (Stage L))
    → BoundedAt (leb parallel 1 || (length stages =? 1)) parallel (set_slot i t stages)
    → Bounded parallel (set_slot i t stages)
set_slot-Bounded parallel i t stages =
    subst (λ n. BoundedAt (leb parallel 1 || (n =? 1)) parallel (set_slot i t stages))
      (sym (length-set_slot i t stages))

set_slot-queued :
    {L : Type 0}
    → (parallel i : ℕ) (t : Stage L) (stages : List (Stage L)) → HasBegun t
    → get_elem? stages i ≡ some queued
    → enters parallel i stages ≡ true
    → Bounded parallel stages
    → Bounded parallel (set_slot i t stages)
unfolding enters
set_slot-queued parallel i t stages b g e v =
    set_slot-Bounded parallel i t stages (on (leb parallel 1 || (length stages =? 1)) e v)
  where
    on :
        (c : Bool)
        → (if c then done_before i stages else ltb (held stages) parallel) ≡ true
        → BoundedAt c parallel stages
        → BoundedAt c parallel (set_slot i t stages)
    on true e q = set_slot-InOrder i queued t stages tt b g e q
    on false e q =
        let moved = held-set_slot i queued t stages g in ground (arith, moved, e, weight_le_one t)

set_slot-running :
    {L : Type 0}
    → (parallel i : ℕ) (l : L) (t : Stage L) (stages : List (Stage L)) → HasBegun t
    → get_elem? stages i ≡ some (running l)
    → Bounded parallel stages
    → Bounded parallel (set_slot i t stages)
set_slot-running parallel i l t stages b g v =
    set_slot-Bounded parallel i t stages (on (leb parallel 1 || (length stages =? 1)) v)
  where
    on : (c : Bool) → BoundedAt c parallel stages → BoundedAt c parallel (set_slot i t stages)
    on true q =
        set_slot-InOrder i (running l) t stages tt b g (InOrder-done_before i stages l q g) q
    on false q =
        let moved = held-set_slot i (running l) t stages g in ground (arith, moved, weight_le_one t)

module _ {W L : Type 0} (find : String → Option Def) (started : ℕ → Def → ToolUse → L)
    (step : ℕ → L → W → Moved L × W) (parallel : ℕ) (uses : List ToolUse) where
  begin_call-Bounded :
      (i : ℕ) (u : ToolUse) (b : Batch W L)
      → get_elem? b.stages i ≡ some queued
      → enters parallel i b.stages ≡ true
      → Bounded parallel b.stages
      → Bounded parallel (begin_call find started step parallel uses i u b).stages
  begin_call-Bounded i u b g e v = elim (Option-cases (find u.name)) [
    | inl o ↦
        subst (Bounded parallel) {x = set_slot i finished b.stages}
          (unfold begin_call in ground (arith, o))
          (set_slot-queued parallel i finished b.stages tt g e v)
    | inr (d, o) ↦
        subst (Bounded parallel) {x = set_slot i (running (started i d u)) b.stages}
          (unfold begin_call in ground (arith, o))
          (set_slot-queued parallel i (running (started i d u)) b.stages tt g e v)
  ]

  after_step-Bounded :
      (i : ℕ) (u : ToolUse) (l : L) (m : Moved L) (next : W) (b : Batch W L)
      → get_elem? b.stages i ≡ some (running l)
      → Bounded parallel b.stages
      → Bounded parallel (after_step find started step parallel uses i u (m, next) b).stages
  unfolding after_step
  after_step-Bounded i u l (more l') next b g v =
      set_slot-running parallel i l (running l') b.stages tt g v
  after_step-Bounded i u l (over c) next b g v =
      set_slot-running parallel i l finished b.stages tt g v

  turn_of-Bounded :
      (i : ℕ) (u : ToolUse) (s : Stage L) (b : Batch W L)
      → get_elem? b.stages i ≡ some s
      → Bounded parallel b.stages
      → Bounded parallel (turn_of find started step parallel uses i u s b).stages
  unfolding turn_of
  turn_of-Bounded i u queued b g v = let_in (enters parallel i b.stages) refl
    where
      let_in :
          (c : Bool)
          → enters parallel i b.stages ≡ c
          → Bounded parallel
              (if c then begin_call find started step parallel uses i u b else b).stages
      let_in true e = begin_call-Bounded i u b g e v
      let_in false e = v
  turn_of-Bounded i u (running l) b g v =
      after_step-Bounded i u l (step i l b.world).0 (step i l b.world).1 b g v
  turn_of-Bounded i u finished b g v = v

  take_turn-Bounded :
      (i : ℕ) (b : Batch W L)
      → Bounded parallel b.stages
      → Bounded parallel (take_turn find started step parallel uses i b).stages
  unfolding take_turn
  take_turn-Bounded i b v = on (get_elem? uses i) (get_elem? b.stages i) refl
    where
      on :
          (o : Option ToolUse) (q : Option (Stage L))
          → get_elem? b.stages i ≡ q
          → Bounded parallel
              (elim o as (λ x. Batch W L) [
                | none ↦ b
                | some u ↦ elim q as (λ x. Batch W L) [
                  | none ↦ b
                  | some s ↦ turn_of find started step parallel uses i u s b
                ]
              ]).stages
      on none q f = v
      on (some u) none f = v
      on (some u) (some s) f = turn_of-Bounded i u s b f v

  take_turns-Bounded :
      (schedule : List ℕ) (b : Batch W L)
      → Bounded parallel b.stages
      → Bounded parallel (take_turns find started step parallel uses schedule b).stages
  unfolding take_turns
  take_turns-Bounded [] b v = v
  take_turns-Bounded (i ∷ schedule) b v =
      take_turns-Bounded schedule (take_turn find started step parallel uses i b)
        (take_turn-Bounded i b v)

  -- As many calls run at a time as there are tokens, or one.
  pub held-dispatch_parallel :
      (schedule : List ℕ) (w : W)
      → leb
          (held (dispatch_parallel find started step parallel uses schedule w).stages)
          (max 1 parallel)
        ≡ true
  unfolding dispatch_parallel
  held-dispatch_parallel schedule w = Bounded-held parallel _ (
      take_turns-Bounded schedule
        (record { world = w; stages = all_queued uses; out = blank_slots uses })
        (initial (leb parallel 1 || (length (all_queued {L = L} uses) =? 1))))
    where
      initial : (c : Bool) → BoundedAt c parallel (all_queued {L = L} uses)
      initial true = AllQueued-InOrder (all_queued {L = L} uses) (all_queued-AllQueued L uses)
      initial false =
          ground (arith, AllQueued-held (all_queued {L = L} uses) (all_queued-AllQueued L uses))
