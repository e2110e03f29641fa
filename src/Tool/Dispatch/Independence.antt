-- ===== src/Tool/Dispatch/Independence.antt =====
-- Parallel calls that do not depend on each other.
use wombat_go.Common.{ℕ, zero, suc, false, ◌≡◌, refl, ap, ◌∙◌, ◌=?◌}
use wombat_go.Tool.Dispatch.{Called}
use wombat_go.Tool.Dispatch.Parallel.{Moved, more, over}

-- Each call has a part of the world: its steps depend on that part only, and the steps of another
-- call do not change it.
pub record Independent {W L V : Type 0} (step : ℕ → L → W → Moved L × W) (part : ℕ → W → V)
    : Type 0 where
  pub same_step :
      (i : ℕ) (l : L) (w w' : W) → part i w ≡ part i w' → (step i l w).0 ≡ (step i l w').0
  pub same_part :
      (i : ℕ) (l : L) (w w' : W)
      → part i w ≡ part i w'
      → part i (step i l w).1 ≡ part i (step i l w').1
  pub kept : (i j : ℕ) (l : L) (w : W) → (i =? j) ≡ false → part j (step i l w).1 ≡ part j w

-- Steps of one call with no other between them.
abbrev pub alone : {W L : Type 0} → (ℕ → L → W → Moved L × W) → ℕ → ℕ → Moved L → W → Moved L
alone step i zero m w = m
alone step i (suc n) (over c) w = over c
alone step i (suc n) (more l) w = alone step i n (step i l w).0 (step i l w).1

-- Left to itself, the call ends like this after some number of steps.
abbrev pub EndsAlone : {W L : Type 0} → (ℕ → L → W → Moved L × W) → ℕ → L → W → Called → Type 0
EndsAlone step i l w c = (n : ℕ) × (alone step i n (more l) w ≡ over c)

alone-over :
    {W L : Type 0}
    → (step : ℕ → L → W → Moved L × W) (i n : ℕ) (c : Called) (w : W)
    → alone step i n (over c) w ≡ over c
alone-over step i zero c w = refl
alone-over step i (suc n) c w = refl

over_injective : {L : Type 0} → (m : Moved L) (c d : Called) → m ≡ over c → m ≡ over d → c ≡ d
over_injective m c d e f = cc (e, f)

more≢over : {L : Type 0} → (l : L) (c : Called) → more l ≡ over c → ⊥
more≢over l c e = cc e

-- What a step leaves of a call that ends alone.
abbrev pub Left : {W L : Type 0} → (ℕ → L → W → Moved L × W) → ℕ → Moved L → W → Called → Type 0
Left step i (more l) w c = EndsAlone step i l w c
Left step i (over d) w c = d ≡ c

module _ {W L : Type 0} (step : ℕ → L → W → Moved L × W) where
  pub EndsAlone-Left :
      (i : ℕ) (l : L) (w : W) (c : Called)
      → EndsAlone step i l w c
      → Left step i (step i l w).0 (step i l w).1 c
  EndsAlone-Left i l w c (zero, e) = absurd (more≢over l c e)
  EndsAlone-Left i l w c (suc n, e) = left (step i l w).0 (step i l w).1 e
    where
      left : (m : Moved L) (w' : W) → alone step i n m w' ≡ over c → Left step i m w' c
      left (more l') w' e = (n, e)
      left (over d) w' e =
          over_injective (alone step i n (over d) w') d c (alone-over step i n d w') e

  module _ {V : Type 0} (part : ℕ → W → V) (indep : Independent step part) where
    same-alone :
        (i n : ℕ) (m : Moved L) (w w' : W)
        → part i w ≡ part i w'
        → alone step i n m w ≡ alone step i n m w'
    same-alone i zero m w w' e = refl
    same-alone i (suc n) (over c) w w' e = refl
    same-alone i (suc n) (more l) w w' e =
        ap (λ m. alone step i n m (step i l w).1) (indep.same_step i l w w' e)
        ∙ same-alone i n (step i l w').0 (step i l w).1 (step i l w').1 (indep.same_part i l w w' e)

    pub same-EndsAlone :
        (i : ℕ) (l : L) (w w' : W) (c : Called)
        → part i w ≡ part i w'
        → EndsAlone step i l w' c
        → EndsAlone step i l w c
    same-EndsAlone i l w w' c e (n, h) = (n, same-alone i n (more l) w w' e ∙ h)
