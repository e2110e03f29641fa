-- ===== src/Retry/Backoff.antt =====
-- The schedule of the retries: doubling without overflow.
use native.Mathlib.Nat.{
  le-div_iff_mul-le, mod-eq_of_lt, pow-le-pow_right, one-le-pow, div-lt_iff_lt-mul, suc-mul,
}
use wombat_go.Common.{
  ℕ, zero, suc, ◌*◌, ◌^◌, ◌≤◌, ◌<◌, min, true, false, ◌||◌, ◌≡◌, ◌∙◌, inl, inr, arith, ltb, leb,
  ◌=?◌, Bool-cases, if◌then◌else◌,
}
use wombat_go.Retry.{RetryPolicy, normalized, shift_left, shift_right, backoff}

pow_pos : (n : ℕ) → 0 < 2 ^ n
pow_pos n = one-le-pow n 2 (omega arith)

-- The base is positive and at most the cap.
normalized_lem :
    (p : RetryPolicy) → (0 < (normalized p).base) × ((normalized p).base ≤ (normalized p).longest)
unfolding normalized
normalized_lem p = (ground arith, ground arith)

-- The shift of the cap tells whether the doubled base passes it.
over_cap : (b m n : ℕ) → ltb (shift_right m n) b ≡ true → m < b * 2 ^ n
over_cap b m n e = (div-lt_iff_lt-mul {k = 2 ^ n} {x = m} {y = b} (pow_pos n)).0 (ground (arith, e))

within_cap : (b m n : ℕ) → ltb (shift_right m n) b ≡ false → b * 2 ^ n ≤ m
within_cap b m n e =
    (le-div_iff_mul-le {k = 2 ^ n} {x = b} {y = m} (pow_pos n)).0 (ground (arith, e))

-- From 63 on the doubled base passes every int64.
far : (b n : ℕ) → 0 < b → 63 ≤ n → 2 ^ 63 ≤ b * 2 ^ n
far zero n pos h = absurd (omega (arith, pos))
far (suc b) n pos h =
    let one : 2 ^ 63 ≤ 2 ^ n = pow-le-pow_right {n = 2} (omega arith) {i = 63} {j = n} h in
    rw suc-mul (omega (arith, one))

capped :
    (b m n : ℕ)
    → 0 < b
    → m < 2 ^ 63
    → (if leb 63 n || ltb (shift_right m n) b then m else shift_left b n) ≡ min (b * 2 ^ n) m
capped b m n pos h = elim (Bool-cases (leb 63 n)) [
  | inl e ↦ rw e (ground (arith, far b n pos (ground (arith, e)), h))
  | inr e ↦ elim (Bool-cases (ltb (shift_right m n) b)) [
    | inl f ↦ rw (e, f) (ground (arith, over_cap b m n f))
    | inr f ↦
        let fits = within_cap b m n f in
        rw (e, f)
          (mod-eq_of_lt {n = b * 2 ^ n} {m = 2 ^ 64} (omega (arith, fits, h))
            ∙ ground (arith, fits))
  ]
]

first : (b m : ℕ) → b ≤ m → b ≡ min (b * 2 ^ 0) m
first b m h = ground (arith, h)

nonzero : (n : ℕ) → (suc n =? 0) ≡ false
nonzero n = ground arith

-- `Backoff` is the base doubled once per attempt, or the cap where that is less: for any attempt
-- number, if the cap fits in an int64, the shift loses no bit.
pub backoff-eq-min :
    (p : RetryPolicy) (attempt : ℕ)
    → (normalized p).longest < 2 ^ 63
    → backoff p attempt ≡ min ((normalized p).base * 2 ^ attempt) (normalized p).longest
unfolding backoff
backoff-eq-min p zero h = first (normalized p).base (normalized p).longest (normalized_lem p).1
backoff-eq-min p (suc n) h =
    rw (nonzero n)
      (capped (normalized p).base (normalized p).longest (suc n) (normalized_lem p).0 h)
