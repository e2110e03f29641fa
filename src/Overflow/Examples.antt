-- ===== src/Overflow/Examples.antt =====
-- The theorems about overflow recovery at a ladder of two windows.
use wombat_go.Common.{ℕ, ◌≡◌, ◌≤◌, refl, List, [], ◌∷◌, some, length, leb, if◌then◌else◌}
use wombat_go.Llm.{Message}
use wombat_go.Strategy.{Strategy, apply_window, sliding_window, safe_cut}
use wombat_go.Strategy.Samples.{long}
use wombat_go.Overflow.{Reply, response, too_long, apply_level, Recovery, complete}
use wombat_go.Overflow.Ladder.{Shrinks, complete-Ends}

abbrev ladder : List Strategy
ladder = apply_window (sliding_window 4) ∷ apply_window (sliding_window 1) ∷ []

-- A model that takes at most one turn.
abbrev small_client : ℕ → List Message → Reply
small_client call msgs = if leb (length msgs) 1 then response "fine" else too_long "window"

abbrev recovered : Recovery
recovered = record {
  reply = response "fine";
  level = 2;
  sent = long ∷ apply_level ladder [] 1 long ∷ apply_level ladder [] 2 long ∷ [];
}

-- The window of four keeps five turns, which is still too long; the window of one is sent next.
recovered_lem : complete ladder [] small_client 0 long ≡ some recovered
unfolding complete apply_window safe_cut
recovered_lem = refl

complete-Ends_example :
    (r : Recovery) × (complete ladder [] small_client 0 long ≡ some r)
    × (0 ≤ r.level)
    × (length r.sent ≤ 3)
    × Shrinks 10 r.sent
unfolding complete
complete-Ends_example = complete-Ends ladder [] small_client 0 long
