-- ===== src/Strategy/Windows.antt =====
-- `SlidingWindow` and `SlidingWindowAt`: what they keep, and that what they keep is valid.
use wombat_go.Common.{
  ℕ, zero, suc, ◌-◌, ◌+◌, ◌*◌, ◌/◌, ◌≤◌, ◌<◌, min, true, ◌≡◌, refl, ap, inl, inr, [], ◌∷◌, ◌++◌,
  arith, length, length-append, length-drop, drop, ◌=?◌, ok, Bool-cases,
}
use native.Mathlib.Nat.{div-mul-le_self, lt-div-mul-add}
use wombat_go.Convo.{Convo, validate}
use wombat_go.Convo.Spec.{IsValid}
use wombat_go.Convo.Validation.{validate-IsValid}
use wombat_go.Strategy.{
  View, Window, sliding_window_at, anchor, cut_at, apply_window, safe_cut, is_fresh_at,
}
use wombat_go.Strategy.Cut.{safe_cut_lem, drop-IsValid, safe_cut-append}

-- Cutting at a place that `SafeCut` returns.
pub cut_at-IsValid : (c : Convo) (want : ℕ) → IsValid c → IsValid (cut_at c (safe_cut c want))
unfolding cut_at
cut_at-IsValid c want v = elim (safe_cut_lem c want).1 [
  | inl e ↦ rw e v
  | inr h ↦ elim (Bool-cases (safe_cut c want =? 0)) [
    | inl e ↦ rw e v
    | inr e ↦ rw e (drop-IsValid c (safe_cut c want) v h)
  ]
]

-- A valid transcript stays valid under any window.
pub validate-apply_window :
    (w : Window) (v : View) → validate v.messages ≡ ok tt → validate (apply_window w v) ≡ ok tt
unfolding apply_window
validate-apply_window w v h =
    let c = v.messages in
    let cut =
      (validate-IsValid (cut_at c (safe_cut c (anchor w (length c))))).1
        (cut_at-IsValid c _ ((validate-IsValid c).0 h)) in
    ground (arith, cut)

anchor-le : (w : Window) (n : ℕ) → anchor w n ≤ n - w.keep
unfolding anchor
anchor-le w n = ground (arith, div-mul-le_self (n - w.keep) (w.trigger - w.keep))

-- A window keeps at least the `keep` most recent turns, or all if there are fewer.
pub apply_window-floor :
    (w : Window) (v : View) → min w.keep (length v.messages) ≤ length (apply_window w v)
unfolding apply_window cut_at
apply_window-floor w v =
    let c = v.messages in
    let n = length c in
    ground (
      arith,
      anchor-le w n,
      (safe_cut_lem c (anchor w n)).0,
      length-drop (safe_cut c (anchor w n)) c,
    )

drop-append : (c d : Convo) (i : ℕ) → i ≤ length c → drop i (c ++ d) ≡ drop i c ++ d
drop-append c d zero h = refl
drop-append [] d (suc i) h = absurd (omega arith)
drop-append (m ∷ c) d (suc i) h = drop-append c d i (omega arith)

anchor-lt : (w : Window) (n : ℕ) → 0 < w.keep → 0 < n → anchor w n < n
anchor-lt w n h p = omega (arith, anchor-le w n)

cut_at-append : (c d : Convo) (i : ℕ) → i ≤ length c → cut_at (c ++ d) i ≡ cut_at c i ++ d
unfolding cut_at
cut_at-append c d i h = ground (arith, drop-append c d i h)

-- The anchor moves with the quotient only.
anchor_still :
    (trigger keep n k : ℕ)
    → keep < trigger
    → (n - keep) / (trigger - keep) ≡ (k - keep) / (trigger - keep)
    → anchor (sliding_window_at trigger keep) n ≡ anchor (sliding_window_at trigger keep) k
unfolding anchor
anchor_still trigger keep n k lt e = ground (arith, ap (λ (q : ℕ). q * (trigger - keep)) e)

anchor-near :
    (trigger keep n : ℕ)
    → 0 < keep
    → keep < trigger
    → n < anchor (sliding_window_at trigger keep) n + trigger
unfolding anchor
anchor-near trigger keep n pos lt =
    ground (arith, lt-div-mul-add {a = n - keep} {b = trigger - keep} (omega arith))

-- Past its trigger, `SlidingWindowAt` sends a prefix that holds still: as long as the number of
-- turns over `keep` stays in the same multiple of `trigger - keep`, turns added to the transcript
-- are added to the end of what was sent before, and nothing before them changes.
pub apply_window-append :
    (trigger keep : ℕ) (v : View) (d : Convo)
    → 0 < keep
    → keep < trigger
    → trigger ≤ length v.messages
    → (length (v.messages ++ d) - keep) / (trigger - keep)
      ≡ (length v.messages - keep) / (trigger - keep)
    → apply_window (sliding_window_at trigger keep) (record v { messages = v.messages ++ d })
      ≡ apply_window (sliding_window_at trigger keep) v ++ d
unfolding apply_window
apply_window-append trigger keep v d pos lt long same =
    let c = v.messages in
    let w = sliding_window_at trigger keep in
    let still : anchor w (length (c ++ d)) ≡ anchor w (length c) =
      anchor_still trigger keep (length (c ++ d)) (length c) lt same in
    let a = anchor w (length c) in
    let cut = safe_cut-append c d a (anchor-lt w (length c) pos (omega arith)) in
    let body : cut_at (c ++ d) (safe_cut (c ++ d) (anchor w (length (c ++ d))))
        ≡ cut_at c (safe_cut c a) ++ d =
      rw (still, cut)
        (cut_at-append c d (safe_cut c a)
          (omega (arith, (safe_cut_lem c a).0, anchor-le w (length c)))) in
    ground (arith, length-append c d, body)

-- Where the anchor falls on a fresh user turn, fewer than `trigger` turns are sent.
pub apply_window-ceiling :
    (trigger keep : ℕ) (v : View)
    → 0 < keep
    → keep < trigger
    → is_fresh_at v.messages (anchor (sliding_window_at trigger keep) (length v.messages)) ≡ true
    → length (apply_window (sliding_window_at trigger keep) v) < trigger
unfolding apply_window cut_at
apply_window-ceiling trigger keep v pos lt fresh =
    let c = v.messages in
    let w = sliding_window_at trigger keep in
    let a = anchor w (length c) in
    let l = safe_cut_lem c a in
    let hit : safe_cut c a ≡ a = omega (arith, l.0, l.2 a (omega arith) fresh) in
    ground (arith, hit, length-drop a c, anchor-near trigger keep (length c) pos lt)
