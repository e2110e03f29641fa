-- ===== src/Buffered/Phases.antt =====
-- What holds of a follower between two steps, and what the run does to it.
use wombat_go.Common.{
  ℕ, ◌+◌, ◌-◌, ◌≤◌, ◌<◌, Bool, true, false, ◌≡◌, refl, ap, ◌∙◌, sym, subst, List, [], ◌∷◌, ◌++◌,
  append_assoc, All, some, get_elem?, get_elem?-append, length, drop, drop_all, drop-append,
  drop-drop, length-drop, ltb, arith, if◌then◌else◌, true_ne_false,
}
use wombat_go.Buffered.{
  Buffered, Phase, looking, yielding, waiting, drained, left, Follower, batch_at, has_events,
}
use wombat_go.Buffered.Windows.{IsWindow, length_window}

module _ {E : Type 0} where
  -- The numbers go up.
  abbrev pub Increasing : List (ℕ × E) → Type 0
  Increasing [] = Unit
  Increasing (p ∷ ps) = All (λ q. p.0 < q.0) ps × Increasing ps

  -- Each event stands in the log at its number.
  abbrev pub IsLogged : List E → List (ℕ × E) → Type 0
  IsLogged log = All (λ p. get_elem? log p.0 ≡ some p.1)

  abbrev pub Below : ℕ → List (ℕ × E) → Type 0
  Below n = All (λ p. p.0 < n)

  pub Below-le : (m n : ℕ) (ps : List (ℕ × E)) → m ≤ n → Below m ps → Below n ps
  Below-le m n [] le h = tt
  Below-le m n (p ∷ ps) le h = (omega (arith, h.0, le), Below-le m n ps le h.1)

  pub All-snoc {κ} :
      (P : ℕ × E → Type κ) (ps : List (ℕ × E)) (p : ℕ × E) → All P ps → P p → All P (ps ++ p ∷ [])
  All-snoc P [] p h k = (k, tt)
  All-snoc P (q ∷ ps) p h k = (h.0, All-snoc P ps p h.1 k)

  pub Increasing-snoc :
      (ps : List (ℕ × E)) (p : ℕ × E) → Increasing ps → Below p.0 ps → Increasing (ps ++ p ∷ [])
  Increasing-snoc [] p h k = (tt, tt)
  Increasing-snoc (q ∷ ps) p h k =
      (All-snoc (λ r. q.0 < r.0) ps p h.0 k.0, Increasing-snoc ps p h.1 k.1)

  pub IsLogged-append :
      (log more : List E) (ps : List (ℕ × E)) → IsLogged log ps → IsLogged (log ++ more) ps
  IsLogged-append log more [] h = tt
  IsLogged-append log more (p ∷ ps) h =
      (get_elem?-append log more p.0 p.1 h.0, IsLogged-append log more ps h.1)

  -- The number after those that were yielded; a consumer that breaks out leaves `seq` behind.
  abbrev pub next_seq : Phase E → ℕ → ℕ
  next_seq looking n = n
  next_seq (yielding batch had wait finished) n = n
  next_seq (waiting wait) n = n
  next_seq drained n = n
  next_seq left n = n + 1

  pub record Seen (p : Phase E) (f : Follower E) (log : List E) : Type 0 where
    pub logged : IsLogged log f.seen
    pub increasing : Increasing f.seen
    pub below : Below (next_seq p f.seq) f.seen

  -- The rest of a batch is what the log holds from `seq` on, or a beginning of it.
  abbrev pub IsBatch : List E → ℕ → List E → Type 0
  IsBatch log seq batch = (more : List E) × (drop seq log ≡ batch ++ more)

  -- There was nothing to yield when the channel was taken.
  pub record Idle (b : Buffered E) (log : List E) (seq wait : ℕ) (finished : Bool) : Type 0 where
    pub current : wait ≡ b.changed → (length log ≤ seq) × (b.finished ≡ finished)
    pub over : finished ≡ true → (length log ≤ seq) × (b.finished ≡ true)

  abbrev pub PhaseHolds : Phase E → Buffered E → ℕ → List E → Type 0
  PhaseHolds looking b seq log = Unit
  PhaseHolds (yielding batch had wait finished) b seq log =
      IsBatch log seq batch
      × (wait ≤ b.changed)
      × (had ≡ false → (batch ≡ []) × Idle b log seq wait finished)
  PhaseHolds (waiting wait) b seq log = (wait ≤ b.changed) × Idle b log seq wait false
  PhaseHolds drained b seq log = (length log ≤ seq) × (b.finished ≡ true)
  PhaseHolds left b seq log = Unit

  pub length_pos_of_drop :
      (n : ℕ) (log : List E) (e : E) (es : List E) → drop n log ≡ e ∷ es → n < length log
  length_pos_of_drop n log e es h = omega (arith, length-drop n log, ap length h)

  -- A batch stays one when the log grows.
  pub IsBatch-append :
      (log : List E) (ev : E) (seq : ℕ) (batch : List E)
      → IsBatch log seq batch
      → IsBatch (log ++ ev ∷ []) seq batch
  IsBatch-append log ev seq [] h = (drop seq (log ++ ev ∷ []), refl)
  IsBatch-append log ev seq (e ∷ batch) (more, h) =
      let below = length_pos_of_drop seq log e (batch ++ more) h in
      (
        more ++ ev ∷ [],
        drop-append seq log (ev ∷ []) (omega (arith, below))
            ∙ ap (λ es. es ++ ev ∷ []) h
            ∙ append_assoc (e ∷ batch) more (ev ∷ []),
      )

  -- A new channel: nobody holds the current one, and what was over stays over.
  pub Idle-wake :
      (b b' : Buffered E) (log log' : List E) (seq wait : ℕ) (finished : Bool)
      → b'.changed ≡ b.changed + 1
      → wait ≤ b.changed
      → (b.finished ≡ true → (log' ≡ log) × (b'.finished ≡ true))
      → Idle b log seq wait finished
      → Idle b' log' seq wait finished
  Idle-wake b b' log log' seq wait finished c l k h = record {
    current = λ e. absurd (omega (arith, c, l, e));
    over = λ e.
        let (short, done) = h.over e in
        let (same, done') = k done in (subst (λ es. length es ≤ seq) (sym same) short, done');
  }

  pub PhaseHolds-append :
      (p : Phase E) (b b' : Buffered E) (seq : ℕ) (log : List E) (ev : E)
      → b.finished ≡ false
      → b'.changed ≡ b.changed + 1
      → PhaseHolds p b seq log
      → PhaseHolds p b' seq (log ++ ev ∷ [])
  PhaseHolds-append looking b b' seq log ev n c h = tt
  PhaseHolds-append (yielding batch had wait finished) b b' seq log ev n c h = (
    IsBatch-append log ev seq batch h.0,
    omega (arith, c, h.1),
    λ e. (
      (h.2 e).0,
      Idle-wake b b' log (log ++ ev ∷ []) seq wait finished c h.1
          (λ t. absurd (true_ne_false (sym t ∙ n))) (h.2 e).1,
    ),
  )
  PhaseHolds-append (waiting wait) b b' seq log ev n c h = (
    omega (arith, c, h.0),
    Idle-wake b b' log (log ++ ev ∷ []) seq wait false c h.0
        (λ t. absurd (true_ne_false (sym t ∙ n))) h.1,
  )
  PhaseHolds-append drained b b' seq log ev n c h = absurd (true_ne_false (sym h.1 ∙ n))
  PhaseHolds-append left b b' seq log ev n c h = tt

  pub PhaseHolds-finish :
      (p : Phase E) (b b' : Buffered E) (seq : ℕ) (log : List E)
      → b'.finished ≡ true
      → b'.changed ≡ b.changed + 1
      → PhaseHolds p b seq log
      → PhaseHolds p b' seq log
  PhaseHolds-finish looking b b' seq log t c h = tt
  PhaseHolds-finish (yielding batch had wait finished) b b' seq log t c h = (
    h.0,
    omega (arith, c, h.1),
    λ e. ((h.2 e).0, Idle-wake b b' log log seq wait finished c h.1 (λ _. (refl, t)) (h.2 e).1),
  )
  PhaseHolds-finish (waiting wait) b b' seq log t c h =
      (omega (arith, c, h.0), Idle-wake b b' log log seq wait false c h.0 (λ _. (refl, t)) h.1)
  PhaseHolds-finish drained b b' seq log t c h = (h.0, t)
  PhaseHolds-finish left b b' seq log t c h = tt

  -- The batch that a look takes.
  pub batch_at_lem :
      (cap seq : ℕ) (b : Buffered E) (log : List E)
      → IsWindow cap b log
      → b.base ≤ seq
      → (drop seq log ≡ batch_at (seq - b.base) b.events)
        × (has_events (batch_at (seq - b.base) b.events) ≡ false → length log ≤ seq)
  batch_at_lem cap seq b log h le = taken (ltb (seq - b.base) (length b.events)) refl
    where
      total : b.base + length b.events ≡ length log
      total = omega (arith, h.base, length_window cap b log h)

      dropped : drop (seq - b.base) b.events ≡ drop seq log
      dropped =
          let e : (length log - cap) + (seq - b.base) ≡ seq = omega (arith, h.base, le) in
          ap (drop (seq - b.base)) h.events
          ∙ drop-drop (seq - b.base) (length log - cap) log
          ∙ ap (λ n. drop n log) e

      none_left : (es : List E) → has_events es ≡ false → length es ≡ 0
      none_left [] h = refl
      none_left (e ∷ es) h = absurd (true_ne_false h)

      far : ltb (seq - b.base) (length b.events) ≡ false → length log ≤ seq
      far k = ground (arith, k, total, le)

      taken :
          (o : Bool)
          → ltb (seq - b.base) (length b.events) ≡ o
          → (drop seq log ≡ (if o then drop (seq - b.base) b.events else []))
            × (has_events (if o then drop (seq - b.base) b.events else []) ≡ false
                → length log ≤ seq)
      taken true k = (
        sym dropped,
        λ e. omega (arith, none_left _ e, length-drop (seq - b.base) b.events, total, le),
      )
      taken false k = (drop_all seq log (far k), λ _. far k)
