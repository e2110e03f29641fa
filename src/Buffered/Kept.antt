-- ===== src/Buffered/Kept.antt =====
-- A follower of a buffer that has evicted nothing: what it has yielded, with what the log holds from
-- its place on, is what the log holds from the number that was asked for.
use wombat_go.Common.{
  ℕ, suc, ◌+◌, ◌-◌, ◌≤◌, max, Bool, true, false, ◌≡◌, refl, ap, ◌∙◌, sym, subst, List, [], ◌∷◌,
  ◌++◌, append_assoc, length, drop, drop-append, drop-cons, length-drop, length-append, ltb, arith,
  if◌then◌else◌, ◌⊎◌, inl, inr, ◌≢◌, true_ne_false,
}
use wombat_go.Buffered.{
  Buffered, Phase, looking, yielding, waiting, drained, left, Follower, look, advance_in, leave_in,
  evict, append, finish, World, Act, produced, ended, advanced, departed, produce, end_run, perform,
  perform_all, start, follow,
}
use wombat_go.Buffered.Phases.{IsBatch, PhaseHolds}
use wombat_go.Buffered.Following.{Follows, perform-Follows}

module _ {E : Type 0} where
  -- Events with their numbers, from `n` on.
  abbrev pub number : ℕ → List E → List (ℕ × E)
  number n [] = []
  number n (e ∷ es) = (n, e) ∷ number (n + 1) es

  number-append :
      (n : ℕ) (es fs : List E) → number n (es ++ fs) ≡ number n es ++ number (n + length es) fs
  number-append n [] fs = let e : n ≡ n + 0 = omega arith in ap (λ m. number m fs) e
  number-append n (e ∷ es) fs =
      let k : n + 1 + length es ≡ n + suc (length es) = omega arith in
      ap (◌∷◌ (n, e)) (number-append (n + 1) es fs ∙ ap (λ m. number (n + 1) es ++ number m fs) k)

  pub record Kept (from seq : ℕ) (seen : List (ℕ × E)) (log : List E) : Type 0 where
    pub all : seen ++ number seq (drop seq log) ≡ number from (drop from log)
    pub after : from ≤ seq
    pub place : (seq ≤ length log) ⊎ ((seq ≡ from) × (seen ≡ []))

  number-drop :
      (n : ℕ) (log : List E) (ev : E)
      → n ≤ length log
      → number n (drop n (log ++ ev ∷ [])) ≡ number n (drop n log) ++ (length log, ev) ∷ []
  number-drop n log ev h =
      let k : n + length (drop n log) ≡ length log = omega (arith, length-drop n log, h) in
      ap (number n) (drop-append n log (ev ∷ []) h)
      ∙ number-append n (drop n log) (ev ∷ [])
      ∙ ap (λ m. number n (drop n log) ++ (m, ev) ∷ []) k

  Kept-append :
      (from seq : ℕ) (seen : List (ℕ × E)) (log : List E) (ev : E)
      → Kept from seq seen log
      → Kept from seq seen (log ++ ev ∷ [])
  Kept-append from seq seen log ev h = at h.place
    where
      at : ((seq ≤ length log) ⊎ ((seq ≡ from) × (seen ≡ []))) → Kept from seq seen (log ++ ev ∷ [])
      at (inl le) = record {
        all =
            ap (seen ++◌) (number-drop seq log ev le)
            ∙ sym (append_assoc seen (number seq (drop seq log)) ((length log, ev) ∷ []))
            ∙ ap (λ ps. ps ++ (length log, ev) ∷ []) h.all
            ∙ sym (number-drop from log ev (omega (arith, h.after, le)));
        after = h.after;
        place = inl (omega (arith, le, length-append log (ev ∷ [])));
      }
      at (inr (e, n)) = record {
        all =
            ap (λ ps. ps ++ number seq (drop seq (log ++ ev ∷ []))) n
            ∙ ap (λ m. number m (drop m (log ++ ev ∷ []))) e;
        after = h.after;
        place = inr (e, n);
      }

  Kept-yield :
      (from seq : ℕ) (seen : List (ℕ × E)) (log : List E) (e : E) (batch : List E)
      → IsBatch log seq (e ∷ batch)
      → Kept from seq seen log
      → Kept from (seq + 1) (seen ++ (seq, e) ∷ []) log
  Kept-yield from seq seen log e batch (more, h) k =
      let next : seq + 1 ≡ suc seq = omega arith in
      let rest = ap (λ n. drop n log) next ∙ (drop-cons seq log e (batch ++ more) h).1 in
      record {
        all =
            append_assoc seen ((seq, e) ∷ []) (number (seq + 1) (drop (seq + 1) log))
            ∙ ap (λ es. seen ++ (seq, e) ∷ number (seq + 1) es) rest
            ∙ sym (ap (λ es. seen ++ number seq es) h)
            ∙ k.all;
        after = omega (arith, k.after);
        place = inl (omega (arith, length-drop seq log, ap length h));
      }

  -- While nothing is evicted and the follower has not left.
  unfoldable pub KeepsAll : ℕ → World E → Type 0
  KeepsAll from w =
      w.follower.phase ≢ left → w.buffer.base ≡ 0 → Kept from w.follower.seq w.follower.seen w.log

  advance_in-Kept :
      (from : ℕ) (p : Phase E) (b : Buffered E) (log : List E) (f : Follower E)
      → b.base ≡ 0
      → PhaseHolds p b f.seq log
      → Kept from f.seq f.seen log
      → Kept from (advance_in p b f).seq (advance_in p b f).seen log
  unfolding advance_in look
  advance_in-Kept from looking b log f z h k =
      let e : f.seq ≡ max f.seq b.base = omega (arith, z) in subst (λ n. Kept from n f.seen log) e k
  advance_in-Kept from (yielding [] had wait finished) b log f z h k = k
  advance_in-Kept from (yielding (e ∷ batch) had wait finished) b log f z h k =
      Kept-yield from f.seq f.seen log e batch h.0 k
  advance_in-Kept from (waiting wait) b log f z h k = woken (ltb wait b.changed)
    where
      woken :
          (o : Bool)
          → Kept from
              (if o then record f { phase = looking } else f).seq
              (if o then record f { phase = looking } else f).seen
              log
      woken true = k
      woken false = k
  advance_in-Kept from drained b log f z h k = k
  advance_in-Kept from left b log f z h k = k

  leave_in-Kept :
      (from : ℕ) (p : Phase E) (log : List E) (f : Follower E)
      → f.phase ≡ p
      → (leave_in p f).phase ≢ left
      → (f.phase ≢ left → Kept from f.seq f.seen log)
      → Kept from (leave_in p f).seq (leave_in p f).seen log
  leave_in-Kept from looking log f e n k = k n
  leave_in-Kept from (yielding [] had wait finished) log f e n k = k n
  leave_in-Kept from (yielding (x ∷ batch) had wait finished) log f e n k = absurd (n refl)
  leave_in-Kept from (waiting wait) log f e n k = absurd (n refl)
  leave_in-Kept from drained log f e n k = k n
  leave_in-Kept from left log f e n k = k n

  -- A follower that has left stays away.
  abbrev pub is_left : Phase E → Bool
  is_left looking = false
  is_left (yielding batch had wait finished) = false
  is_left (waiting wait) = false
  is_left drained = false
  is_left left = true

  advance_in-left :
      (p : Phase E) (b : Buffered E) (f : Follower E)
      → f.phase ≡ p
      → f.phase ≡ left
      → (advance_in p b f).phase ≡ left
  unfolding advance_in
  advance_in-left left b f e l = l
  advance_in-left looking b f e l = absurd (true_ne_false (sym (ap is_left (sym e ∙ l))))
  advance_in-left (yielding batch had wait finished) b f e l =
      absurd (true_ne_false (sym (ap is_left (sym e ∙ l))))
  advance_in-left (waiting wait) b f e l = absurd (true_ne_false (sym (ap is_left (sym e ∙ l))))
  advance_in-left drained b f e l = absurd (true_ne_false (sym (ap is_left (sym e ∙ l))))

  produce-KeepsAll :
      (cap from : ℕ) (o : Bool) (ev : E) (w : World E)
      → Follows cap w
      → KeepsAll from w
      → KeepsAll from (produce cap o ev w)
  unfolding KeepsAll append
  produce-KeepsAll cap from true ev w h k = k
  produce-KeepsAll cap from false ev w h k = λ n z.
      Kept-append from w.follower.seq w.follower.seen w.log ev
        (k n (base_zero (length (w.buffer.events ++ ev ∷ []) - cap) _ z))
    where
      base_zero : (over : ℕ) (b : Buffered E) → (evict over b).base ≡ 0 → b.base ≡ 0
      base_zero over b h = ground arith

  end_run-KeepsAll :
      (cap from : ℕ) (o : Bool) (w : World E) → KeepsAll from w → KeepsAll from (end_run cap o w)
  unfolding KeepsAll finish
  end_run-KeepsAll cap from true w k = k
  end_run-KeepsAll cap from false w k = k

  perform-KeepsAll :
      (cap from : ℕ) (a : Act E) (w : World E)
      → Follows cap w
      → KeepsAll from w
      → KeepsAll from (perform cap a w)
  unfolding perform KeepsAll
  perform-KeepsAll cap from (produced ev) w h k =
      produce-KeepsAll cap from w.buffer.finished ev w h k
  perform-KeepsAll cap from ended w h k = end_run-KeepsAll cap from w.buffer.finished w k
  perform-KeepsAll cap from advanced w h k = λ n z.
      advance_in-Kept from w.follower.phase w.buffer w.log w.follower z h.phase
        (k (λ l. n (advance_in-left w.follower.phase w.buffer w.follower refl l)) z)
  perform-KeepsAll cap from departed w h k =
      λ n z. leave_in-Kept from w.follower.phase w.log w.follower refl n (λ m. k m z)

  pub perform_all-KeepsAll :
      (cap from : ℕ) (acts : List (Act E)) (w : World E)
      → Follows cap w
      → KeepsAll from w
      → KeepsAll from (perform_all cap acts w)
  unfolding perform_all
  perform_all-KeepsAll cap from [] w h k = k
  perform_all-KeepsAll cap from (a ∷ acts) w h k =
      perform_all-KeepsAll cap from acts (perform cap a w) (perform-Follows cap a w h)
        (perform-KeepsAll cap from a w h k)

pub start-KeepsAll : (E : Type 0) (from : ℕ) → KeepsAll {E = E} from (start from)
unfolding KeepsAll start follow
start-KeepsAll E from = λ n z. record { all = refl; after = omega arith; place = inr (refl, refl) }
