-- ===== src/Buffered/Following.antt =====
-- What a follower has yielded, under every schedule.
use wombat_go.Common.{
  ℕ, suc, ◌+◌, ◌-◌, ◌≤◌, ◌<◌, max, Bool, true, false, ◌≡◌, refl, ap, ◌∙◌, sym, subst, List, [], ◌∷◌,
  ◌++◌, append-nil, some, get_elem?, length, drop, drop-cons, ltb, arith, if◌then◌else◌,
  true_ne_false,
}
use wombat_go.Buffered.{
  Buffered, Phase, looking, yielding, waiting, drained, left, Follower, batch_at, has_events, look,
  after_batch, advance_in, leave_in, evict, append, finish, World, Act, produced, ended, advanced,
  departed, produce, end_run, perform, perform_all, start, follow,
}
use wombat_go.Buffered.Windows.{IsWindow, finish-IsWindow, append-IsWindow, new_buffered-IsWindow}
use wombat_go.Buffered.Phases.{
  Increasing, IsLogged, Below, Below-le, All-snoc, Increasing-snoc, IsLogged-append, next_seq, Seen,
  IsBatch, Idle, PhaseHolds, PhaseHolds-append, PhaseHolds-finish, batch_at_lem,
}

module _ {E : Type 0} where
  -- After a step of a follower, or its leave.
  abbrev pub FollowerHolds : Buffered E → List E → Follower E → Type 0
  FollowerHolds b log f = Seen f.phase f log × PhaseHolds f.phase b f.seq log

  look-FollowerHolds :
      (cap : ℕ) (b : Buffered E) (log : List E) (f : Follower E)
      → IsWindow cap b log
      → Seen looking f log
      → FollowerHolds b log (look b f)
  unfolding look
  look-FollowerHolds cap b log f w s =
      let seq = max f.seq b.base in
      let (taken, short) = batch_at_lem cap seq b log w (omega arith) in
      let batch = batch_at (seq - b.base) b.events in
      (
        record {
          logged = s.logged;
          increasing = s.increasing;
          below = Below-le f.seq seq f.seen (omega arith) s.below;
        },
        (
          ([], taken ∙ sym (append-nil batch)),
          omega arith,
          λ e. (
            no_events batch e,
            record { current = λ _. (short e, refl); over = λ t. (short e, t) },
          ),
        ),
      )
    where
      no_events : (es : List E) → has_events es ≡ false → es ≡ []
      no_events [] h = refl
      no_events (e ∷ es) h = absurd (true_ne_false h)

  after_batch-PhaseHolds :
      (b : Buffered E) (log : List E) (seq wait : ℕ) (had finished : Bool)
      → wait ≤ b.changed
      → (had ≡ false → Idle b log seq wait finished)
      → PhaseHolds (after_batch had finished wait) b seq log
  after_batch-PhaseHolds b log seq wait true finished le h = tt
  after_batch-PhaseHolds b log seq wait false true le h = (h refl).over refl
  after_batch-PhaseHolds b log seq wait false false le h = (le, h refl)

  next_seq-after_batch :
      (had finished : Bool) (wait : ℕ) (f : Follower E)
      → next_seq (after_batch {E = E} had finished wait) f.seq ≡ f.seq
  next_seq-after_batch true finished wait f = refl
  next_seq-after_batch false true wait f = refl
  next_seq-after_batch false false wait f = refl

  -- Yielding the head of a batch.
  yield-Seen :
      (log : List E) (f : Follower E) (e : E) (batch : List E)
      → IsBatch log f.seq (e ∷ batch)
      → IsLogged log f.seen
      → Increasing f.seen
      → Below f.seq f.seen
      → IsLogged log (f.seen ++ (f.seq, e) ∷ [])
        × Increasing (f.seen ++ (f.seq, e) ∷ [])
        × Below (f.seq + 1) (f.seen ++ (f.seq, e) ∷ [])
  yield-Seen log f e batch (more, h) l i b = (
    All-snoc (λ p. get_elem? log p.0 ≡ some p.1) f.seen (f.seq, e) l
        (drop-cons f.seq log e (batch ++ more) h).0,
    Increasing-snoc f.seen (f.seq, e) i b,
    All-snoc (λ p. p.0 < f.seq + 1) f.seen (f.seq, e)
        (Below-le f.seq (f.seq + 1) f.seen (omega arith) b) (omega arith),
  )

  IsBatch-tail :
      (log : List E) (seq : ℕ) (e : E) (batch : List E)
      → IsBatch log seq (e ∷ batch)
      → IsBatch log (seq + 1) batch
  IsBatch-tail log seq e batch (more, h) =
      let next : seq + 1 ≡ suc seq = omega arith in
      (more, ap (λ n. drop n log) next ∙ (drop-cons seq log e (batch ++ more) h).1)

  advance_in-FollowerHolds :
      (cap : ℕ) (p : Phase E) (b : Buffered E) (log : List E) (f : Follower E)
      → IsWindow cap b log
      → f.phase ≡ p
      → Seen p f log
      → PhaseHolds p b f.seq log
      → FollowerHolds b log (advance_in p b f)
  unfolding advance_in
  advance_in-FollowerHolds cap looking b log f w e s h = look-FollowerHolds cap b log f w s
  advance_in-FollowerHolds cap (yielding [] had wait finished) b log f w e s h = (
    record {
      logged = s.logged;
      increasing = s.increasing;
      below = rw (next_seq-after_batch had finished wait f) s.below;
    },
    after_batch-PhaseHolds b log f.seq wait had finished h.1 (λ k. (h.2 k).1),
  )
  advance_in-FollowerHolds cap (yielding (x ∷ batch) had wait finished) b log f w e s h =
      let (l, i, k) = yield-Seen log f x batch h.0 s.logged s.increasing s.below in
      (
        record { logged = l; increasing = i; below = k },
        (IsBatch-tail log f.seq x batch h.0, h.1, λ t. absurd (cons_ne_nil (h.2 t).0)),
      )
    where
      cons_ne_nil : (x ∷ batch) ≡ [] → ⊥
      cons_ne_nil h = ground arith
  advance_in-FollowerHolds cap (waiting wait) b log f w e s h = woken (ltb wait b.changed)
    where
      woken : (o : Bool) → FollowerHolds b log (if o then record f { phase = looking } else f)
      woken true = (record { logged = s.logged; increasing = s.increasing; below = s.below }, tt)
      woken false = subst (λ p. Seen p f log × PhaseHolds p b f.seq log) (sym e) (s, h)
  advance_in-FollowerHolds cap drained b log f w e s h =
      subst (λ p. Seen p f log × PhaseHolds p b f.seq log) (sym e) (s, h)
  advance_in-FollowerHolds cap left b log f w e s h =
      subst (λ p. Seen p f log × PhaseHolds p b f.seq log) (sym e) (s, h)

  leave_in-FollowerHolds :
      (p : Phase E) (b : Buffered E) (log : List E) (f : Follower E)
      → f.phase ≡ p
      → Seen p f log
      → PhaseHolds p b f.seq log
      → FollowerHolds b log (leave_in p f)
  leave_in-FollowerHolds (yielding (x ∷ batch) had wait finished) b log f e s h =
      let (l, i, k) = yield-Seen log f x batch h.0 s.logged s.increasing s.below in
      (record { logged = l; increasing = i; below = k }, tt)
  leave_in-FollowerHolds (waiting wait) b log f e s h = (
    record {
      logged = s.logged;
      increasing = s.increasing;
      below = Below-le f.seq (f.seq + 1) f.seen (omega arith) s.below;
    },
    tt,
  )
  leave_in-FollowerHolds looking b log f e s h =
      subst (λ p. Seen p f log × PhaseHolds p b f.seq log) (sym e) (s, h)
  leave_in-FollowerHolds (yielding [] had wait finished) b log f e s h =
      subst (λ p. Seen p f log × PhaseHolds p b f.seq log) (sym e) (s, h)
  leave_in-FollowerHolds drained b log f e s h =
      subst (λ p. Seen p f log × PhaseHolds p b f.seq log) (sym e) (s, h)
  leave_in-FollowerHolds left b log f e s h =
      subst (λ p. Seen p f log × PhaseHolds p b f.seq log) (sym e) (s, h)

  pub record Follows (cap : ℕ) (w : World E) : Type 0 where
    pub window : IsWindow cap w.buffer w.log
    pub seen : Seen w.follower.phase w.follower w.log
    pub phase : PhaseHolds w.follower.phase w.buffer w.follower.seq w.log

  evict_changed : (over : ℕ) (b : Buffered E) → (evict over b).changed ≡ b.changed
  evict_changed over b = ground arith

  produce-Follows :
      (cap : ℕ) (o : Bool) (ev : E) (w : World E)
      → w.buffer.finished ≡ o
      → Follows cap w
      → Follows cap (produce cap o ev w)
  unfolding append
  produce-Follows cap true ev w n h = h
  produce-Follows cap false ev w n h = record {
    window = append-IsWindow cap w.buffer w.log ev h.window;
    seen = record {
      logged = IsLogged-append w.log (ev ∷ []) w.follower.seen h.seen.logged;
      increasing = h.seen.increasing;
      below = h.seen.below;
    };
    phase =
        PhaseHolds-append w.follower.phase w.buffer (append cap ev w.buffer) w.follower.seq w.log ev
          n (ap (λ n. n + 1) (evict_changed _ _)) h.phase;
  }

  end_run-Follows :
      (cap : ℕ) (o : Bool) (w : World E) → Follows cap w → Follows cap (end_run cap o w)
  unfolding finish
  end_run-Follows cap true w h = h
  end_run-Follows cap false w h = record {
    window = finish-IsWindow cap w.buffer w.log h.window;
    seen = h.seen;
    phase =
        PhaseHolds-finish w.follower.phase w.buffer (finish w.buffer) w.follower.seq w.log refl refl
          h.phase;
  }

  pub perform-Follows :
      (cap : ℕ) (a : Act E) (w : World E) → Follows cap w → Follows cap (perform cap a w)
  unfolding perform
  perform-Follows cap (produced ev) w h = produce-Follows cap w.buffer.finished ev w refl h
  perform-Follows cap ended w h = end_run-Follows cap w.buffer.finished w h
  perform-Follows cap advanced w h =
      let (s, p) =
        advance_in-FollowerHolds cap w.follower.phase w.buffer w.log w.follower h.window refl h.seen
          h.phase in
      record { window = h.window; seen = s; phase = p }
  perform-Follows cap departed w h =
      let (s, p) =
        leave_in-FollowerHolds w.follower.phase w.buffer w.log w.follower refl h.seen h.phase in
      record { window = h.window; seen = s; phase = p }

  pub perform_all-Follows :
      (cap : ℕ) (acts : List (Act E)) (w : World E)
      → Follows cap w
      → Follows cap (perform_all cap acts w)
  unfolding perform_all
  perform_all-Follows cap [] w h = h
  perform_all-Follows cap (a ∷ acts) w h =
      perform_all-Follows cap acts (perform cap a w) (perform-Follows cap a w h)

pub start-Follows : {E : Type 0} (cap from : ℕ) → Follows {E = E} cap (start from)
unfolding start follow
start-Follows cap from = record {
  window = new_buffered-IsWindow cap;
  seen = record { logged = tt; increasing = tt; below = tt };
  phase = tt;
}

-- Whatever the schedule of the run, a follower and its context, the numbers that the follower is
-- given go up, each event is the one that the run produced at that number, and a follower that
-- returned by itself did so after the run had ended and after its last event.
pub perform_all-seen :
    {E : Type 0} (cap from : ℕ) (acts : List (Act E))
    → let w = perform_all cap acts (start from) in
      Increasing w.follower.seen
      × IsLogged w.log w.follower.seen
      × (w.follower.phase ≡ drained → (length w.log ≤ w.follower.seq) × (w.buffer.finished ≡ true))
perform_all-seen cap from acts =
    let w = perform_all cap acts (start from) in
    let h = perform_all-Follows cap acts (start from) (start-Follows cap from) in
    (
      h.seen.increasing,
      h.seen.logged,
      λ e. subst (λ p. PhaseHolds p w.buffer w.follower.seq w.log) e h.phase,
    )
