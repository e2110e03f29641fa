-- ===== src/Sse/Ending.antt =====
-- The client's loop ends on every body.
use wombat_go.Common.{
  ℕ, zero, suc, ◌≤◌, ◌<◌, Bool, true, false, ◌≡◌, refl, ap, subst, String, List, [], ◌∷◌, Option,
  none, some, length, arith, ◌&&◌, is_empty, ◌⊎◌, inl, inr,
}
use wombat_go.Paths.{Text}
use wombat_go.Sse.{
  Event, Pending, nothing_pending, drop_cr, note_line, next_lines, dispatch_or, Reader, latch,
  arrive, next, new_reader, new_scanner, Scanner, read_events, read_all, handled, handle_or_stop,
}

-- No lines are added.
next_lines-le :
    (e : Option String) (p : Pending) (ls : List Text) → length (next_lines e p ls).1 ≤ length ls
unfolding next_lines
next_lines-le e p [] = omega arith
next_lines-le e p (raw ∷ ls) =
    dispatched (is_empty (drop_cr raw) && p.any) (next_lines e (note_line (drop_cr raw) p) ls)
      (next_lines-le e (note_line (drop_cr raw) p) ls)
  where
    dispatched :
        (b : Bool) (rest : Option Event × List Text)
        → length rest.1 ≤ length ls
        → length (dispatch_or b p ls rest).1 ≤ length (raw ∷ ls)
    dispatched true rest h = omega arith
    dispatched false rest h = omega (arith, h)

-- An event takes lines.
next_lines-lt :
    (e : Option String) (ls : List Text)
    → ((next_lines e nothing_pending ls).0 ≡ none)
      ⊎ (length (next_lines e nothing_pending ls).1 < length ls)
unfolding next_lines
next_lines-lt none [] = inl refl
next_lines-lt (some x) [] = inl refl
next_lines-lt e (raw ∷ ls) =
    rw (and_false (is_empty (drop_cr raw)))
      (inr (omega (arith, next_lines-le e (note_line (drop_cr raw) nothing_pending) ls)))
  where
    and_false : (b : Bool) → (b && false) ≡ false
    and_false true = refl
    and_false false = refl

abbrev no_event : Event
no_event = record { typ = []; payload = [] }

abbrev latched : Reader → Option String
latched r = latch r.sc.error r.err

-- With more fuel than lines, the loop ends, and reports the error of the scanner or an earlier one.
read_events-ends :
    (fuel : ℕ) (r : Reader)
    → length r.sc.lines < fuel
    → (evs : List Event) × (read_events fuel r ≡ some (evs, latched r))
unfolding read_events next
read_events-ends zero r h = absurd (omega (arith, h))
read_events-ends (suc fuel) r h =
    arrived (next_lines r.sc.error nothing_pending r.sc.lines) (next_lines-lt r.sc.error r.sc.lines)
      (read_events-ends fuel)
  where
    more :
        (ev : Event) (o : Option (List Event × Option String))
        → ((evs : List Event) × (o ≡ some (evs, latched r)))
        → (evs : List Event) × (handled ev o ≡ some (evs, latched r))
    more ev o (evs, h) = (ev ∷ evs, ap (handled ev) h)

    arrived :
        (o : Option Event × List Text)
        → (o.0 ≡ none) ⊎ (length o.1 < length r.sc.lines)
        → ((r' : Reader)
            → length r'.sc.lines < fuel
            → (evs : List Event) × (read_events fuel r' ≡ some (evs, latched r')))
        → (evs : List Event) × (handle_or_stop (arrive r o) (read_events fuel (arrive r o).1)
            ≡ some (evs, latched r))
    arrived (none, ls) c ih = ([], refl)
    arrived (some ev, ls) (inl c) ih = absurd (some_ne_none c)
      where
        some_ne_none : (some ev ≡ none) → ⊥
        some_ne_none h = ground arith
    arrived (some ev, ls) (inr c) ih =
        more ev _
          (ih (record r { sc = record r.sc { lines = ls }; cur = ev }) (omega (arith, h, c)))

-- The loop over `Next` ends on every body, and `Err` then reports the error of the scanner: that of
-- the body, or that a line was too long.
pub read_all-ends :
    (longest : ℕ) (e : Option String) (body : Text)
    → (evs : List Event) × (read_all (new_reader longest e body)
        ≡ some (evs, (new_scanner longest e body).error))
unfolding read_all new_reader
read_all-ends longest e body = reported (new_scanner longest e body)
  where
    latch_none : (o : Option String) → latch o none ≡ o
    latch_none none = refl
    latch_none (some x) = refl

    reported :
        (sc : Scanner)
        → (evs : List Event) × (read_events
              (suc (length sc.lines))
              (record { sc = sc; cur = no_event; err = none })
            ≡ some (evs, sc.error))
    reported sc =
        subst
          (λ o.
            (evs : List Event) × (read_events (suc (length sc.lines))
                (record { sc = sc; cur = no_event; err = none })
              ≡ some (evs, o)))
          (latch_none sc.error)
          (read_events-ends (suc (length sc.lines)) (record { sc = sc; cur = no_event; err = none })
            (omega arith))
