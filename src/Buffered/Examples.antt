-- ===== src/Buffered/Examples.antt =====
-- Schedules of a run with its follower.
use wombat_go.Common.{
  ℕ, true, ◌≡◌, refl, String, List, [], ◌∷◌, length, drop, ◌≤◌, sym, ap, true_ne_false, ◌-◌, ◌≢◌,
}
use wombat_go.Buffered.{
  Act, produced, ended, advanced, perform_all, perform, append, advance_in, look, finish, start,
  follow, new_buffered, len, drained, left,
}
use wombat_go.Buffered.Windows.{perform_all-window}
use wombat_go.Buffered.Phases.{Increasing, IsLogged}
use wombat_go.Buffered.Following.{perform_all-seen}
use wombat_go.Buffered.Kept.{number, is_left}
use wombat_go.Buffered.Delivery.{repeat, perform_all-delivers}

-- A run of three events; the follower reads in between and waits.
abbrev acts : List (Act String)
acts =
    produced "a"
    ∷ advanced
    ∷ advanced
    ∷ produced "b"
    ∷ advanced
    ∷ advanced
    ∷ produced "c"
    ∷ ended
    ∷ []

-- With room for two, the first event was evicted.
perform_all-window_example :
    let w = perform_all 2 acts (start 0) in
    (w.buffer.events ≡ drop (length w.log - 2) w.log)
    × (w.buffer.base ≡ length w.log - 2)
    × (len w.buffer ≡ length w.log)
perform_all-window_example = perform_all-window 2 0 acts

perform_all-seen_example :
    let w = perform_all 2 acts (start 0) in
    Increasing w.follower.seen
    × IsLogged w.log w.follower.seen
    × (w.follower.phase ≡ drained → (length w.log ≤ w.follower.seq) × (w.buffer.finished ≡ true))
perform_all-seen_example = perform_all-seen 2 0 acts

stays : (perform_all 8 acts (start 1)).follower.phase ≢ left
unfolding perform_all perform append advance_in look finish start follow new_buffered
stays h = true_ne_false (sym (ap is_left h))

over : (perform_all 8 acts (start 1)).buffer.finished ≡ true
unfolding perform_all perform append advance_in look finish start follow new_buffered
over = refl

perform_all-delivers_example :
    let w = perform_all 8 acts (start 1) in
    (k : ℕ) × (let v = perform_all 8 (repeat k advanced) w in
      (v.follower.phase ≡ drained) × (length w.log ≤ 8 → v.follower.seen ≡ number 1 (drop 1 w.log)))
perform_all-delivers_example = perform_all-delivers 8 1 acts over stays

keeps_the_newest : (perform_all 2 acts (start 0)).buffer.events ≡ "b" ∷ "c" ∷ []
unfolding perform_all perform append advance_in look finish start follow new_buffered
keeps_the_newest = refl

reads_to_the_end :
    (perform_all 8 (repeat 7 advanced) (perform_all 8 acts (start 0))).follower.seen
    ≡ (0, "a") ∷ (1, "b") ∷ (2, "c") ∷ []
unfolding perform_all perform append advance_in look finish start follow new_buffered
reads_to_the_end = refl
