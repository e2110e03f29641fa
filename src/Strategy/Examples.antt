-- ===== src/Strategy/Examples.antt =====
-- The theorems about strategies at concrete transcripts.
use wombat_go.Common.{◌≡◌, refl, arith, [], ◌∷◌, ok, err, length, some, eq_iff}
use wombat_go.Convo.{merge_last, validate, orphan_result}
use wombat_go.Strategy.{
  drop_pairs, DropTagged, apply_drop_tagged, Compacted, sliding_window, apply_window, safe_cut,
}
use wombat_go.Strategy.Samples.{long, long_view, validate-long}
use wombat_go.Strategy.Windows.{validate-apply_window}
use wombat_go.Strategy.Dropping.{validate-drop_pairs, empty_start, drop_pairs-empty_start}

abbrev drop_skills : DropTagged
drop_skills = record { trigger = 4; keep = 2; tags = "skill" ∷ [] }

abbrev compact : Compacted
compact = record { compact_at = 6; keep = 3; compactor = some (λ msgs. "earlier work") }

validate-apply_window_example : validate (apply_window (sliding_window 4) long_view) ≡ ok tt
validate-apply_window_example = validate-apply_window (sliding_window 4) long_view validate-long

-- The cut moves back from 5 to 4, so five turns are kept.
window_keeps : length (apply_window (sliding_window 4) long_view) ≡ 5
unfolding apply_window safe_cut
window_keeps = refl

validate-drop_pairs_example : validate (drop_pairs long ("a" ∷ [])) ≡ ok tt
validate-drop_pairs_example = validate-drop_pairs long ("a" ∷ []) validate-long refl

-- The tagged call and its result are gone; the turns around them are merged.
drop_tagged_length : length (apply_drop_tagged drop_skills long_view) ≡ 7
unfolding apply_drop_tagged drop_pairs merge_last
drop_tagged_length = refl

drop_pairs-empty_start_example :
    (validate (empty_start "a" "bash" "ls" "x.go") ≡ ok tt)
    × (validate (drop_pairs (empty_start "a" "bash" "ls" "x.go") ("z" ∷ [])) ≡ err orphan_result)
drop_pairs-empty_start_example =
    drop_pairs-empty_start "a" "z" "bash" "ls" "x.go" (λ e. ground (arith, e, eq_iff "z" "a"))
