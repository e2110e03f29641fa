-- ===== src/Tool/Dispatch/Semaphore.antt =====
-- Who holds a token, and which call can begin.
use wombat_go.Common.{ℕ, zero, suc, true, ◌≡◌, refl, List, [], ◌∷◌, arith, some, get_elem?, length}
use wombat_go.Tool.Dispatch.{set_slot}
use wombat_go.Tool.Dispatch.Parallel.{
  Stage, queued, running, finished, held, done_before, all_ended, enters,
}

-- Each of the first calls is done.
abbrev pub FirstDone : {L : Type 0} → ℕ → List (Stage L) → Type 0
FirstDone zero stages = Unit
FirstDone (suc i) [] = Unit
FirstDone (suc i) (queued ∷ stages) = ⊥
FirstDone (suc i) (running l ∷ stages) = ⊥
FirstDone (suc i) (finished ∷ stages) = FirstDone i stages

FirstDone-done_before :
    {L : Type 0}
    → (i : ℕ) (stages : List (Stage L)) → FirstDone i stages
    → done_before i stages ≡ true
unfolding done_before
FirstDone-done_before zero stages d = refl
FirstDone-done_before (suc i) [] d = refl
FirstDone-done_before (suc i) (queued ∷ stages) d = absurd d
FirstDone-done_before (suc i) (running l ∷ stages) d = absurd d
FirstDone-done_before (suc i) (finished ∷ stages) d = FirstDone-done_before i stages d

-- When nobody runs and the calls before it are done, the next call can begin.
pub enters_next :
    {L : Type 0}
    → (parallel i : ℕ) (stages : List (Stage L)) → held stages ≡ 0
    → FirstDone i stages
    → enters parallel i stages ≡ true
unfolding enters
enters_next parallel i stages q d = ground (arith, q, FirstDone-done_before i stages d)

pub held-set_slot :
    {L : Type 0}
    → (i : ℕ) (stages : List (Stage L)) → held stages ≡ 0
    → held (set_slot i finished stages) ≡ 0
unfolding set_slot held
held-set_slot i [] q = refl
held-set_slot zero (queued ∷ stages) q = q
held-set_slot zero (running l ∷ stages) q = absurd (ground (arith, q))
held-set_slot zero (finished ∷ stages) q = q
held-set_slot (suc i) (queued ∷ stages) q = held-set_slot i stages q
held-set_slot (suc i) (running l ∷ stages) q = absurd (ground (arith, q))
held-set_slot (suc i) (finished ∷ stages) q = held-set_slot i stages q

-- A call that holds a token.
abbrev Holder : {L : Type 0} → ℕ → List (Stage L) → Type 0
Holder {L} n stages =
    (i : ℕ) × (l : L) × (get_elem? stages i ≡ some (running l))
    × (held (set_slot i finished stages) ≡ n)

pub held-suc :
    {L : Type 0} → (n : ℕ) (stages : List (Stage L)) → held stages ≡ suc n → Holder n stages
unfolding set_slot held
held-suc n [] e = absurd (ground (arith, e))
held-suc n (running l ∷ stages) e = (zero, l, refl, ground (arith, e))
held-suc n (queued ∷ stages) e = let (i, l, g, h) = held-suc n stages e in (suc i, l, g, h)
held-suc n (finished ∷ stages) e = let (i, l, g, h) = held-suc n stages e in (suc i, l, g, h)

pub set_slot-FirstDone :
    {L : Type 0}
    → (i : ℕ) (stages : List (Stage L)) → FirstDone i stages
    → FirstDone (suc i) (set_slot i finished stages)
unfolding set_slot
set_slot-FirstDone i [] d = tt
set_slot-FirstDone zero (s ∷ stages) d = tt
set_slot-FirstDone (suc i) (queued ∷ stages) d = absurd d
set_slot-FirstDone (suc i) (running l ∷ stages) d = absurd d
set_slot-FirstDone (suc i) (finished ∷ stages) d = set_slot-FirstDone i stages d

pub FirstDone-all_ended :
    {L : Type 0}
    → (n : ℕ) (stages : List (Stage L)) → FirstDone n stages
    → length stages ≡ n
    → all_ended stages ≡ true
unfolding all_ended
FirstDone-all_ended n [] d e = refl
FirstDone-all_ended zero (x ∷ stages) d e = absurd (ground (arith, e))
FirstDone-all_ended (suc n) (queued ∷ stages) d e = absurd d
FirstDone-all_ended (suc n) (running l ∷ stages) d e = absurd d
FirstDone-all_ended (suc n) (finished ∷ stages) d e =
    FirstDone-all_ended n stages d (ground (arith, e))

pub get-all_ended :
    {L : Type 0}
    → (stages : List (Stage L)) (j : ℕ) (s : Stage L) → all_ended stages ≡ true
    → get_elem? stages j ≡ some s
    → get_elem? stages j ≡ some finished
unfolding all_ended
get-all_ended [] j s d g = absurd (cc g)
get-all_ended (queued ∷ stages) j s d g = absurd (ground (arith, d))
get-all_ended (running l ∷ stages) j s d g = absurd (ground (arith, d))
get-all_ended (finished ∷ stages) zero s d g = refl
get-all_ended (finished ∷ stages) (suc j) s d g = get-all_ended stages j s d g
