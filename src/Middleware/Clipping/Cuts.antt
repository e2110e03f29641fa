-- ===== src/Middleware/Clipping/Cuts.antt =====
-- Where `Clip` cuts, which ends it keeps, and when it gives up.
use wombat_go.Common.{
  ℕ, zero, suc, ◌+◌, ◌-◌, ◌/◌, ◌≤◌, ◌<◌, Bool, true, false, ◌≡◌, refl, sym, ap, ◌∙◌, ◌⊎◌, inl, inr,
  [], ◌∷◌, ◌++◌, get_elem?, length, take, drop, leb, ltb, if◌then◌else◌, arith,
}
use wombat_go.Paths.{Text}
use wombat_go.Middleware.Clipping.{
  starts_at, back_up, boundary, continuations, forward, shorter_of, within_limit, clip_head, clip,
  head_marker, middle_marker,
}

-- The last place up to `n` where a rune may start, or the beginning.
pub record IsLastStart (s : Text) (n cut : ℕ) : Type 0 where
  pub bounded : cut ≤ n
  pub starts : (cut ≡ 0) ⊎ (starts_at (get_elem? s cut) ≡ true)
  pub last : (k : ℕ) → cut < k → k ≤ n → starts_at (get_elem? s k) ≡ false

-- The first place from `n` on where a rune may start, or the end.
pub record IsFirstStart (s : Text) (n start : ℕ) : Type 0 where
  pub bounded : n ≤ start
  pub starts : starts_at (get_elem? s start) ≡ true
  pub first : (k : ℕ) → n ≤ k → k < start → starts_at (get_elem? s k) ≡ false

back_up-IsLastStart : (s : Text) (n : ℕ) → IsLastStart s n (back_up s n)
unfolding back_up
back_up-IsLastStart s zero = record {
  bounded = omega arith;
  starts = inl refl;
  last = λ k h l. absurd (omega (arith, h, l));
}
back_up-IsLastStart s (suc n) = at (starts_at (get_elem? s (suc n))) refl (back_up-IsLastStart s n)
  where
    step : (k : ℕ) → k ≤ suc n → (k ≤ n) ⊎ (k ≡ suc n)
    step k l = ground (arith, l)

    at :
        (o : Bool)
        → starts_at (get_elem? s (suc n)) ≡ o
        → IsLastStart s n (back_up s n)
        → IsLastStart s (suc n) (if o then suc n else back_up s n)
    at true h t = record {
      bounded = omega arith;
      starts = inr h;
      last = λ k g l. absurd (omega (arith, g, l));
    }
    at false h t = record {
      bounded = omega (arith, t.bounded);
      starts = t.starts;
      last = λ k g l. elim (step k l) [ inl m ↦ t.last k g m | inr e ↦ rw e h ];
    }

boundary-IsLastStart : (s : Text) (n : ℕ) → n < length s → IsLastStart s n (boundary s n)
unfolding boundary
boundary-IsLastStart s n h = rw (short (length s) h) (back_up-IsLastStart s n)
  where
    short : (k : ℕ) → n < k → leb k n ≡ false
    short k h = ground arith

get_elem?-drop : (s : Text) (n k : ℕ) → get_elem? s (n + k) ≡ get_elem? (drop n s) k
get_elem?-drop s zero k = ap (get_elem? s) (omega arith)
get_elem?-drop [] (suc n) k = refl
get_elem?-drop (b ∷ s) (suc n) k =
    let e : suc n + k ≡ suc (n + k) = omega arith in ap (get_elem? (b ∷ s)) e ∙ get_elem?-drop s n k

continuations-starts : (s : Text) → starts_at (get_elem? s (continuations s)) ≡ true
unfolding continuations
continuations-starts [] = refl
continuations-starts (b ∷ s) = ground (arith, continuations-starts s)

continuations-first : (s : Text) (k : ℕ) → k < continuations s → starts_at (get_elem? s k) ≡ false
unfolding continuations
continuations-first [] k h = absurd (omega (arith, h))
continuations-first (b ∷ s) zero h = ground (arith, h)
continuations-first (b ∷ s) (suc k) h = continuations-first s k (ground (arith, h))

forward-IsFirstStart : (s : Text) (n : ℕ) → IsFirstStart s n (forward s n)
unfolding forward
forward-IsFirstStart s n = record {
  bounded = omega arith;
  starts =
      ap starts_at (get_elem?-drop s n (continuations (drop n s)))
      ∙ continuations-starts (drop n s);
  first = λ k l h.
      let e : n + (k - n) ≡ k = omega (arith, l) in
      ap (λ i. starts_at (get_elem? s i)) (sym e)
      ∙ ap starts_at (get_elem?-drop s n (k - n))
      ∙ continuations-first (drop n s) (k - n) (omega (arith, l, h));
}

-- The head and the tail, with a notice of what is left out between them.
abbrev pub ends_kept : (ℕ → Text) → Text → ℕ → ℕ → Text
ends_kept itoa s head start =
    take head s ++ middle_marker itoa (start - head) (length s) ++ drop start s

-- The front, with a notice.
abbrev pub front_kept : (ℕ → Text) → Text → ℕ → Text
front_kept itoa s cut = take cut s ++ head_marker itoa cut (length s)

-- What becomes of a string that is over the limit.
pub record IsCut (itoa : ℕ → Text) (s : Text) (limit : ℕ) (out : Text) : Type 0 where
  pub head : ℕ
  pub start : ℕ
  pub cut : ℕ
  pub head_is : IsLastStart s (limit / 2) head
  pub start_is : IsFirstStart s (length s - (limit - head)) start
  pub cut_is : IsLastStart s limit cut
  pub both :
      128 ≤ limit
      → length (ends_kept itoa s head start) < length s
      → out ≡ ends_kept itoa s head start
  pub front :
      (limit < 128) ⊎ (length s ≤ length (ends_kept itoa s head start))
      → length (front_kept itoa s cut) < length s
      → out ≡ front_kept itoa s cut
  pub whole :
      (limit < 128) ⊎ (length s ≤ length (ends_kept itoa s head start))
      → length s ≤ length (front_kept itoa s cut)
      → out ≡ s

abbrev pub IsClipped : (ℕ → Text) → Text → ℕ → Text → Type 0
IsClipped itoa s limit out =
    ((limit ≡ 0) ⊎ (length s ≤ limit) → out ≡ s)
    × (0 < limit → limit < length s → IsCut itoa s limit out)

-- The choice between the ends, the front and the string.
abbrev shorter_front : Text → Text → Text
shorter_front s f = if ltb (length f) (length s) then f else s

abbrev choice : Text → Text → Text → ℕ → Text
choice s b f limit =
    if ltb limit 128
    then shorter_front s f
    else if ltb (length b) (length s)
    then b
    else if ltb (length (shorter_front s f)) (length s)
    then shorter_front s f
    else s

choice-both :
    (s b f : Text) (limit : ℕ) → 128 ≤ limit → length b < length s → choice s b f limit ≡ b
choice-both s b f limit l h = ground arith

choice-front :
    (s b f : Text) (limit : ℕ)
    → (limit < 128) ⊎ (length s ≤ length b)
    → length f < length s
    → choice s b f limit ≡ f
choice-front s b f limit l h = ground arith

choice-whole :
    (s b f : Text) (limit : ℕ)
    → (limit < 128) ⊎ (length s ≤ length b)
    → length s ≤ length f
    → choice s b f limit ≡ s
choice-whole s b f limit l h = ground arith

within_limit_lem :
    (s : Text) (limit : ℕ) → (limit ≡ 0) ⊎ (length s ≤ limit) → within_limit s limit ≡ true
within_limit_lem s limit h = ground (arith, h)

over_limit : (s : Text) (limit : ℕ) → 0 < limit → limit < length s → within_limit s limit ≡ false
over_limit s limit p h = ground (arith, p, h)

clip_over :
    (itoa : ℕ → Text) (s : Text) (limit : ℕ)
    → within_limit s limit ≡ false
    → let head = boundary s (limit / 2) in
      clip itoa s limit
      ≡ choice s
          (ends_kept itoa s head (forward s (length s - (limit - head))))
          (front_kept itoa s (boundary s limit))
          limit
unfolding clip clip_head shorter_of
clip_over itoa s limit h = rw h refl

-- `Clip` returns a string within the limit, or under no limit, as it is. Of a longer one it keeps, with a
-- notice between or behind:
-- its head, up to the last place in the first half of the limit where a rune may start, and its tail,
-- from the first such place that leaves the two within the limit, if the limit is at least 128 and
-- the result is shorter than the string; else its front, up to the last such place within the limit,
-- if that is shorter; else the whole string.
pub clip-IsClipped :
    (itoa : ℕ → Text) (s : Text) (limit : ℕ) → IsClipped itoa s limit (clip itoa s limit)
unfolding clip
clip-IsClipped itoa s limit = (
  λ h. rw (within_limit_lem s limit h) refl,
  λ pos over.
      let head = boundary s (limit / 2) in
      let start = forward s (length s - (limit - head)) in
      let cut = boundary s limit in
      let b = ends_kept itoa s head start in
      let f = front_kept itoa s cut in
      let e = clip_over itoa s limit (over_limit s limit pos over) in
      record {
        head = head;
        start = start;
        cut = cut;
        head_is = boundary-IsLastStart s (limit / 2) (omega (arith, over));
        start_is = forward-IsFirstStart s (length s - (limit - head));
        cut_is = boundary-IsLastStart s limit over;
        both = λ l h. e ∙ choice-both s b f limit l h;
        front = λ l h. e ∙ choice-front s b f limit l h;
        whole = λ l h. e ∙ choice-whole s b f limit l h;
      },
)
