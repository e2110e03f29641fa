-- ===== src/Buffered/Windows.antt =====
-- What the buffer holds of the events that the run produced.
use wombat_go.Common.{
  ℕ, zero, suc, ◌+◌, ◌-◌, Bool, true, false, ◌≡◌, refl, ap, ◌∙◌, sym, List, [], ◌∷◌, ◌++◌, length,
  drop, arith, length-append, length-drop, drop-append, drop-nil, drop-drop,
}
use wombat_go.Buffered.{
  Buffered, new_buffered, evict, append, finish, len, World, Act, produced, ended, advanced,
  departed, produce, end_run, perform, perform_all, start,
}

module _ {E : Type 0} (cap : ℕ) where
  -- The newest `cap` events of the log, and the number of those before them.
  pub record IsWindow (b : Buffered E) (log : List E) : Type 0 where
    pub base : b.base ≡ length log - cap
    pub events : b.events ≡ drop (length log - cap) log

  pub new_buffered-IsWindow : IsWindow new_buffered []
  unfolding new_buffered
  new_buffered-IsWindow = record { base = omega arith; events = sym (drop-nil (0 - cap)) }

  evict_base : (over : ℕ) (b : Buffered E) → (evict over b).base ≡ b.base + over
  evict_base over b = ground arith

  evict_events : (over : ℕ) (b : Buffered E) → (evict over b).events ≡ drop over b.events
  evict_events zero b = refl
  evict_events (suc n) b = ground arith

  pub length_window :
      (b : Buffered E) (log : List E)
      → IsWindow b log
      → length b.events ≡ length log - (length log - cap)
  length_window b log h = ap length h.events ∙ length-drop (length log - cap) log

  pub append-IsWindow :
      (b : Buffered E) (log : List E) (ev : E)
      → IsWindow b log
      → IsWindow (append cap ev b) (log ++ ev ∷ [])
  unfolding append
  append-IsWindow b log ev h =
      let over = length (b.events ++ ev ∷ []) - cap in
      let moved : b.base + over ≡ length (log ++ ev ∷ []) - cap = omega (
        arith,
        h.base,
        length_window b log h,
        length-append b.events (ev ∷ []),
        length-append log (ev ∷ []),
      ) in
      record {
        base = evict_base over _ ∙ moved;
        events =
            evict_events over _
            ∙ ap (λ es. drop over (es ++ ev ∷ [])) h.events
            ∙ ap (drop over) (sym (drop-append (length log - cap) log (ev ∷ []) (omega arith)))
            ∙ drop-drop over (length log - cap) (log ++ ev ∷ [])
            ∙ ap (λ n. drop n (log ++ ev ∷ [])) (ap (λ n. n + over) (sym h.base) ∙ moved);
      }

  pub finish-IsWindow : (b : Buffered E) (log : List E) → IsWindow b log → IsWindow (finish b) log
  unfolding finish
  finish-IsWindow b log h = record { base = h.base; events = h.events }

  produce-IsWindow :
      (o : Bool) (ev : E) (w : World E)
      → IsWindow w.buffer w.log
      → IsWindow (produce cap o ev w).buffer (produce cap o ev w).log
  produce-IsWindow true ev w h = h
  produce-IsWindow false ev w h = append-IsWindow w.buffer w.log ev h

  end_run-IsWindow :
      (o : Bool) (w : World E)
      → IsWindow w.buffer w.log
      → IsWindow (end_run cap o w).buffer (end_run cap o w).log
  end_run-IsWindow true w h = h
  end_run-IsWindow false w h = finish-IsWindow w.buffer w.log h

  pub perform-IsWindow :
      (a : Act E) (w : World E)
      → IsWindow w.buffer w.log
      → IsWindow (perform cap a w).buffer (perform cap a w).log
  unfolding perform
  perform-IsWindow (produced ev) w h = produce-IsWindow w.buffer.finished ev w h
  perform-IsWindow ended w h = end_run-IsWindow w.buffer.finished w h
  perform-IsWindow advanced w h = h
  perform-IsWindow departed w h = h

  perform_all-IsWindow :
      (acts : List (Act E)) (w : World E)
      → IsWindow w.buffer w.log
      → IsWindow (perform_all cap acts w).buffer (perform_all cap acts w).log
  unfolding perform_all
  perform_all-IsWindow [] w h = h
  perform_all-IsWindow (a ∷ acts) w h =
      perform_all-IsWindow acts (perform cap a w) (perform-IsWindow a w h)

  pub len_window : (b : Buffered E) (log : List E) → IsWindow b log → len b ≡ length log
  unfolding len
  len_window b log h = omega (arith, h.base, length_window b log h)

-- Whatever the schedule of the run and a follower, the buffer holds exactly the newest `cap` events
-- that the run has produced, in order, `base` is the number of those that were evicted, and `Len`
-- is the number of all of them.
pub perform_all-window :
    {E : Type 0} (cap from : ℕ) (acts : List (Act E))
    → let w = perform_all cap acts (start from) in
      (w.buffer.events ≡ drop (length w.log - cap) w.log)
      × (w.buffer.base ≡ length w.log - cap)
      × (len w.buffer ≡ length w.log)
unfolding start
perform_all-window cap from acts =
    let h = perform_all-IsWindow cap acts (start from) (new_buffered-IsWindow cap) in
    (h.events, h.base, len_window cap _ _ h)
