-- ===== src/Tool/Dispatch/Slots.antt =====
-- The slots of a dispatch: a list that is written at an index.
use wombat_go.Common.{
  ℕ, zero, suc, true, false, ◌≡◌, refl, ap, ◌⊎◌, inl, inr, List, [], ◌∷◌, arith, none, some,
  some-injective, get_elem?, length, ◌=?◌, Option-cases, if◌then◌else◌,
}
use wombat_go.Tool.{ToolUse}
use wombat_go.Tool.Dispatch.{blank_slots, set_slot}
use wombat_go.Tool.Dispatch.Parallel.{Stage, queued, all_queued}

-- Two lists with the same entry at each index are equal.
pub eq_of_get :
    {A : Type 0} (xs ys : List A) → ((i : ℕ) → get_elem? xs i ≡ get_elem? ys i) → xs ≡ ys
eq_of_get [] [] h = refl
eq_of_get [] (y ∷ ys) h = absurd (ground (arith, h 0))
eq_of_get (x ∷ xs) [] h = absurd (ground (arith, h 0))
eq_of_get (x ∷ xs) (y ∷ ys) h = ground (arith, h 0, eq_of_get xs ys (λ i. h (suc i)))

get-set_slot :
    {A : Type 0}
    → (i j : ℕ) (r : A) (out : List A)
    → get_elem? (set_slot i r out) j ≡ (
        if i =? j
        then elim (get_elem? out j) [ none ↦ none | some x ↦ some r ]
        else get_elem? out j)
unfolding set_slot
get-set_slot i j r [] = ground arith
get-set_slot zero zero r (x ∷ out) = refl
get-set_slot zero (suc j) r (x ∷ out) = ground arith
get-set_slot (suc i) zero r (x ∷ out) = ground arith
get-set_slot (suc i) (suc j) r (x ∷ out) = ground (arith, get-set_slot i j r out)

pub length-set_slot :
    {A : Type 0} → (i : ℕ) (r : A) (out : List A) → length (set_slot i r out) ≡ length out
unfolding set_slot
length-set_slot i r [] = refl
length-set_slot zero r (x ∷ out) = refl
length-set_slot (suc i) r (x ∷ out) = ap suc (length-set_slot i r out)

pub length-blank_slots : (uses : List ToolUse) → length (blank_slots uses) ≡ length uses
unfolding blank_slots
length-blank_slots [] = refl
length-blank_slots (u ∷ uses) = ap suc (length-blank_slots uses)

pub length-all_queued :
    (L : Type 0) (uses : List ToolUse) → length (all_queued {L = L} uses) ≡ length uses
unfolding all_queued
length-all_queued L [] = refl
length-all_queued L (u ∷ uses) = ap suc (length-all_queued L uses)

-- Two lists of the same length have entries at the same indices.
pub get_of_length :
    {A B : Type 0}
    → (xs : List A) (ys : List B) (j : ℕ) → length xs ≡ length ys
    → ((get_elem? xs j ≡ none) × (get_elem? ys j ≡ none))
      ⊎ ((x : A) × (y : B) × (get_elem? xs j ≡ some x) × (get_elem? ys j ≡ some y))
get_of_length [] [] j e = inl (refl, refl)
get_of_length [] (y ∷ ys) j e = absurd (ground (arith, e))
get_of_length (x ∷ xs) [] j e = absurd (ground (arith, e))
get_of_length (x ∷ xs) (y ∷ ys) zero e = inr (x, y, refl, refl)
get_of_length (x ∷ xs) (y ∷ ys) (suc j) e = get_of_length xs ys j (ground (arith, e))

-- What is written to a slot that is there.
pub get-set_slot-same :
    {A B : Type 0}
    → (i : ℕ) (r : A) (out : List A) (xs : List B) (y : B) → length out ≡ length xs
    → get_elem? xs i ≡ some y
    → get_elem? (set_slot i r out) i ≡ some r
get-set_slot-same i r out xs y e g = elim (get_of_length out xs i e) [
  | inl (n, m) ↦ absurd (cc (m, g))
  | inr (x, z, n, m) ↦ ground (arith, n, get-set_slot i i r out)
]

pub get-set_slot-other :
    {A : Type 0}
    → (i j : ℕ) (r : A) (out : List A) → (i =? j) ≡ false
    → get_elem? (set_slot i r out) j ≡ get_elem? out j
get-set_slot-other i j r out e = ground (arith, e, get-set_slot i j r out)

pub get-set_slot-hit :
    {A : Type 0}
    → (i j : ℕ) (r x : A) (out : List A) → (i =? j) ≡ true
    → get_elem? (set_slot i r out) j ≡ some x
    → r ≡ x
get-set_slot-hit i j r x out c e = elim (Option-cases (get_elem? out j)) [
  | inl n ↦ absurd (ground (arith, c, e, n, get-set_slot i j r out))
  | inr (y, n) ↦ some-injective _ _ (ground (arith, c, e, n, get-set_slot i j r out))
]

pub index_eq : (i j : ℕ) → (i =? j) ≡ true → i ≡ j
index_eq i j c = ground (arith, c)

pub get-all_queued :
    {L : Type 0}
    → (uses : List ToolUse) (j : ℕ) (s : Stage L) → get_elem? (all_queued uses) j ≡ some s
    → queued ≡ s
unfolding all_queued
get-all_queued [] j s e = absurd (cc e)
get-all_queued (u ∷ uses) zero s e = some-injective _ _ e
get-all_queued (u ∷ uses) (suc j) s e = get-all_queued uses j s e

pub set_slot-twice :
    {A : Type 0}
    → (i : ℕ) (x y : A) (out : List A) → set_slot i x (set_slot i y out) ≡ set_slot i x out
unfolding set_slot
set_slot-twice i x y [] = refl
set_slot-twice zero x y (z ∷ out) = refl
set_slot-twice (suc i) x y (z ∷ out) = ap (λ t. z ∷ t) (set_slot-twice i x y out)

pub set_slot-get :
    {A : Type 0}
    → (i : ℕ) (x : A) (out : List A) → get_elem? out i ≡ some x
    → out ≡ set_slot i x out
unfolding set_slot
set_slot-get i x [] e = refl
set_slot-get zero x (z ∷ out) e = ap (λ t. t ∷ out) (some-injective _ _ e)
set_slot-get (suc i) x (z ∷ out) e = ap (λ t. z ∷ t) (set_slot-get i x out e)

pub set_slot-none :
    {A : Type 0} → (i : ℕ) (x : A) (out : List A) → get_elem? out i ≡ none → out ≡ set_slot i x out
unfolding set_slot
set_slot-none i x [] e = refl
set_slot-none zero x (z ∷ out) e = absurd (cc e)
set_slot-none (suc i) x (z ∷ out) e = ap (λ t. z ∷ t) (set_slot-none i x out e)
