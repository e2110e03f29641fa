-- ===== src/Buffered/Delivery.antt =====
-- A follower that stays gets everything, and returns after the end of the run.

use wombat_go.Common.{
  ℕ, zero, suc, ◌+◌, ◌-◌, ◌≤◌, max, Bool, true, false, ◌≡◌, refl, ap, ◌∙◌, sym, subst, List, [],
  ◌∷◌, ◌++◌, append-nil, length, drop, drop_all, length-drop, ltb, arith, if◌then◌else◌,
  true_ne_false, ◌≢◌,
}
use wombat_go.Buffered.{
  Buffered, Phase, looking, yielding, waiting, drained, left, Follower, batch_at, has_events, look,
  advance_in, advance, World, Act, advanced, perform, perform_all, start,
}
use wombat_go.Buffered.Windows.{IsWindow}
use wombat_go.Buffered.Phases.{Idle, PhaseHolds, batch_at_lem}
use wombat_go.Buffered.Kept.{number, is_left, KeepsAll, perform_all-KeepsAll, start-KeepsAll}
use wombat_go.Buffered.Following.{Follows, perform_all-Follows, start-Follows}

abbrev pub repeat {ℓ} : {A : Type ℓ} → ℕ → A → List A
repeat zero a = []
repeat (suc n) a = a ∷ repeat n a

module _ {E : Type 0} where
  -- A follower that is left alone with the buffer.
  abbrev pub advance_all : ℕ → Buffered E → Follower E → Follower E
  advance_all zero b f = f
  advance_all (suc k) b f = advance_all k b (advance b f)

  abbrev pub Drains : Buffered E → Follower E → Type 0
  Drains b f = (k : ℕ) × ((advance_all k b f).phase ≡ drained)

  Drains-step :
      (b : Buffered E) (f : Follower E) (p : Phase E)
      → f.phase ≡ p
      → Drains b (advance_in p b f)
      → Drains b f
  Drains-step b f p e h =
      let (k, d) = subst (λ q. Drains b (advance_in q b f)) (sym e) h in (suc k, d)

  -- A batch is yielded to its end.
  Drains-batch :
      (b : Buffered E) (batch : List E) (had : Bool) (wait : ℕ) (finished : Bool) (f : Follower E)
      → f.phase ≡ yielding batch had wait finished
      → ((g : Follower E)
          → g.phase ≡ yielding [] had wait finished
          → g.seq ≡ f.seq + length batch
          → Drains b g)
      → Drains b f
  unfolding advance_in
  Drains-batch b [] had wait finished f e k = k f e (omega arith)
  Drains-batch b (x ∷ batch) had wait finished f e k =
      Drains-step b f (yielding (x ∷ batch) had wait finished) e
        (Drains-batch b batch had wait finished _ refl (λ g h s. k g h (s ∙ omega arith)))

  -- A look that found nothing after the end of the run.
  Drains-over :
      (b : Buffered E) (batch : List E) (had : Bool) (wait : ℕ) (finished : Bool) (f : Follower E)
      → batch ≡ []
      → had ≡ false
      → finished ≡ true
      → f.phase ≡ yielding batch had wait finished
      → Drains b f
  unfolding advance_in
  Drains-over b (x ∷ batch) had wait finished f n h t e = absurd (cons_ne_nil n)
    where
      cons_ne_nil : (x ∷ batch) ≡ [] → ⊥
      cons_ne_nil h = ground arith
  Drains-over b [] true wait finished f n h t e = absurd (true_ne_false h)
  Drains-over b [] false wait false f n h t e = absurd (true_ne_false (sym t))
  Drains-over b [] false wait true f n h t e =
      Drains-step b f (yielding [] false wait true) e (0, refl)

  -- The end of a batch, where what comes next drains.
  Drains-end :
      (b : Buffered E) (had : Bool) (wait : ℕ) (finished : Bool) (f : Follower E)
      → f.phase ≡ yielding [] had wait finished
      → ((g : Follower E) → g.phase ≡ looking → g.seq ≡ f.seq → Drains b g)
      → (had ≡ false → finished ≡ true)
      → Drains b f
  unfolding advance_in
  Drains-end b true wait finished f e k h =
      Drains-step b f (yielding [] true wait finished) e (k _ refl refl)
  Drains-end b false wait finished f e k h =
      Drains-over b [] false wait finished f refl refl (h refl) e

  module _ (cap : ℕ) (b : Buffered E) (log : List E) (w : IsWindow cap b log)
      (over : b.finished ≡ true) where
    -- Nothing is left to yield: one look, and the end.
    Drains-short : (f : Follower E) → f.phase ≡ looking → length log ≤ f.seq → Drains b f
    unfolding advance_in look
    Drains-short f e short =
        let seq = max f.seq b.base in
        let batch = batch_at (seq - b.base) b.events in
        let empty : batch ≡ [] =
          sym (batch_at_lem cap seq b log w (omega arith)).0
          ∙ drop_all seq log (omega (arith, short)) in
        Drains-step b f looking e (
          Drains-over b batch (has_events batch) b.changed b.finished _ empty (ap has_events empty)
            over refl)

    -- One look takes all that is left.
    Drains-looking : (f : Follower E) → f.phase ≡ looking → Drains b f
    unfolding advance_in look
    Drains-looking f e =
        let seq = max f.seq b.base in
        let batch = batch_at (seq - b.base) b.events in
        let taken = (batch_at_lem cap seq b log w (omega arith)).0 in
        Drains-step b f looking e (
          Drains-batch b batch (has_events batch) b.changed b.finished _ refl (λ g h s.
            Drains-end b (has_events batch) b.changed b.finished g h
              (λ g' h' s'.
                Drains-short g' h' (omega (arith, s, s', length-drop seq log, ap length taken)))
              (λ _. over)))

    Drains-waiting :
        (f : Follower E) (wait : ℕ)
        → f.phase ≡ waiting wait
        → wait ≤ b.changed
        → Idle b log f.seq wait false
        → Drains b f
    unfolding advance_in
    Drains-waiting f wait e le idle =
        Drains-step b f (waiting wait) e (woken (ltb wait b.changed) refl)
      where
        woken :
            (o : Bool)
            → ltb wait b.changed ≡ o
            → Drains b (if o then record f { phase = looking } else f)
        woken true k = Drains-looking _ refl
        woken false k = absurd (true_ne_false (sym over ∙ (idle.current (ground (arith, k, le))).1))

    after_batch-Drains :
        (f : Follower E) (finished : Bool) (wait : ℕ)
        → f.phase ≡ yielding [] false wait finished
        → wait ≤ b.changed
        → Idle b log f.seq wait finished
        → Drains b f
    unfolding advance_in
    after_batch-Drains f true wait e le idle = Drains-over b [] false wait true f refl refl refl e
    after_batch-Drains f false wait e le idle =
        Drains-step b f (yielding [] false wait false) e (Drains-waiting _ wait refl le idle)

    Drains-yielding :
        (f : Follower E) (batch : List E) (had finished : Bool) (wait : ℕ)
        → f.phase ≡ yielding batch had wait finished
        → PhaseHolds (yielding batch had wait finished) b f.seq log
        → Drains b f
    Drains-yielding f batch true finished wait e h =
        Drains-batch b batch true wait finished f e (λ g k s.
          Drains-end b true wait finished g k (λ g' h' s'. Drains-looking g' h')
            (λ t. absurd (true_ne_false t)))
    Drains-yielding f batch false finished wait e h =
        let (n, idle) = h.2 refl in
        after_batch-Drains f finished wait
          (subst (λ es. f.phase ≡ yielding es false wait finished) n e) h.1 idle

    -- Left alone, a follower that has not left returns.
    pub Drains-phase :
        (p : Phase E) (f : Follower E)
        → f.phase ≡ p
        → p ≢ left
        → PhaseHolds p b f.seq log
        → Drains b f
    Drains-phase looking f e n h = Drains-looking f e
    Drains-phase (yielding batch had wait finished) f e n h =
        Drains-yielding f batch had finished wait e h
    Drains-phase (waiting wait) f e n h = Drains-waiting f wait e h.0 h.1
    Drains-phase drained f e n h = (0, e)
    Drains-phase left f e n h = absurd (n refl)

-- A follower alone does not touch the rest of the world.
perform_all-advanced :
    {E : Type 0} (cap k : ℕ) (w : World E)
    → perform_all cap (repeat k advanced) w
      ≡ record w { follower = advance_all k w.buffer w.follower }
unfolding perform_all perform
perform_all-advanced cap zero w = refl
perform_all-advanced cap (suc k) w =
    perform_all-advanced cap k (record w { follower = advance w.buffer w.follower })

-- What a follower that returned was given, where nothing was evicted.
seen_drained :
    {E : Type 0} (cap from : ℕ) (v : World E)
    → Follows cap v
    → KeepsAll from v
    → v.follower.phase ≡ drained
    → length v.log ≤ cap
    → v.follower.seen ≡ number from (drop from v.log)
unfolding KeepsAll
seen_drained cap from v h k d le =
    let base : v.buffer.base ≡ 0 = omega (arith, h.window.base, le) in
    let kept = k (λ l. true_ne_false (sym (ap is_left (sym d ∙ l)))) base in
    let past : length v.log ≤ v.follower.seq =
      (subst (λ p. PhaseHolds p v.buffer v.follower.seq v.log) d h.phase).0 in
    sym (append-nil v.follower.seen)
    ∙ sym (
        ap (λ es. v.follower.seen ++ number v.follower.seq es) (drop_all v.follower.seq v.log past))
    ∙ kept.all

-- Once the run has ended, whatever the schedule before was, a follower that has not left returns after
-- finitely many steps of its own; and where nothing was evicted by then, it has been given exactly
-- the events from the number that it asked for on, each once, in order and with its number.
pub perform_all-delivers :
    {E : Type 0} (cap from : ℕ) (acts : List (Act E))
    → let w = perform_all cap acts (start from) in
      w.buffer.finished ≡ true
      → w.follower.phase ≢ left
      → (k : ℕ) × (let v = perform_all cap (repeat k advanced) w in
          (v.follower.phase ≡ drained)
          × (length w.log ≤ cap → v.follower.seen ≡ number from (drop from w.log)))
perform_all-delivers {E = E} cap from acts over stays =
    let w : World E = perform_all cap acts (start from) in
    let h = perform_all-Follows cap acts (start from) (start-Follows cap from) in
    let kept =
      perform_all-KeepsAll cap from acts (start from) (start-Follows cap from)
        (start-KeepsAll E from) in
    let (k, d) =
      Drains-phase cap w.buffer w.log h.window over w.follower.phase w.follower refl stays
        h.phase in
    let alone = perform_all-advanced cap k w in
    let v : World E = perform_all cap (repeat k advanced) w in
    let ended : v.follower.phase ≡ drained = ap (λ u. u.follower.phase) alone ∙ d in
    let same : v.log ≡ w.log = ap (λ u. u.log) alone in
    (
      k,
      (
        ended,
        λ le.
            seen_drained cap from v (perform_all-Follows cap (repeat k advanced) w h)
              (perform_all-KeepsAll cap from (repeat k advanced) w h kept) ended
              (subst (λ l. length l ≤ cap) (sym same) le)
            ∙ ap (λ l. number from (drop from l)) same,
      ),
    )
