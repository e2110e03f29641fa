-- ===== src/Middleware/Examples.antt =====
-- Runs of the middleware, and the theorems at concrete histories.
use wombat_go.Common.{
  ℕ, ◌+◌, ◌%◌, true, false, ◌≡◌, refl, String, Bool, List, [], ◌∷◌, Option, none, some, codes,
  arith, ltb, if◌then◌else◌,
}
use wombat_go.Paths.{Text}
use wombat_go.Middleware.{
  Failure, of_tool, invalid_input, ended_reporting, Outcome, failing, repeated, with_validation,
  with_timeout, budget_of, timeout_failure,
}
use wombat_go.Middleware.Breaker.{
  Settled, settle_all, with_circuit_breaker, no_breakers, count, refuses, verdict_of,
}
use wombat_go.Middleware.Breaker.Streaks.{streak, opened, settle_all-streak}
use wombat_go.Middleware.Repeats.{Ended, counts_after, with_dedup_repeats}
use wombat_go.Middleware.Repeats.Counting.{repeats, with_dedup_repeats-repeats}
use wombat_go.Middleware.Retrying.{with_retry}
use wombat_go.Middleware.Retrying.Attempts.{IsRetried, may_repeat, with_retry-IsRetried}
use wombat_go.Middleware.Clipping.{
  clip, clip_head, boundary, back_up, forward, continuations, shorter_of, head_marker,
  middle_marker,
}
use wombat_go.Middleware.Clipping.Cuts.{clip-IsClipped, IsClipped}

abbrev fetch_failed : ℕ → Settled
fetch_failed at = record {
  at = at;
  name = "fetch";
  error = some (of_tool "reset" false);
  ended = false;
}

-- Two failures of fetch, with a failure that its caller made and a success of another tool between.
abbrev history : List Settled
history =
    fetch_failed 30
    ∷ record { at = 20; name = "fetch"; error = some (repeated invalid_input 2); ended = false }
    ∷ record { at = 15; name = "shell"; error = none; ended = false }
    ∷ fetch_failed 10
    ∷ []

settle_all-streak_example :
    ((settle_all 2 100 history "fetch").failures ≡ streak "fetch" history % 2)
    × ((settle_all 2 100 history "fetch").open_until ≡ opened 2 100 "fetch" history)
settle_all-streak_example = settle_all-streak 2 100 history "fetch" (omega arith)

abbrev fine : Outcome
fine = record { output = codes "ok"; error = none }

refuses_at_40 :
    (with_circuit_breaker 2 100 "fetch" 40 41 false fine (settle_all 2 100 history)).ran ≡ false
unfolding with_circuit_breaker settle_all no_breakers count refuses verdict_of
refuses_at_40 = refl

runs_at_130 :
    (with_circuit_breaker 2 100 "fetch" 130 131 false fine (settle_all 2 100 history)).ran ≡ true
unfolding with_circuit_breaker settle_all no_breakers count refuses verdict_of
runs_at_130 = refl

abbrev failed_with : String → Ended
failed_with msg = record { call = "grep|x"; error = some msg }

-- Another error between two equal ones.
abbrev calls : List Ended
calls = failed_with "no such file" ∷ failed_with "timeout" ∷ failed_with "no such file" ∷ []

abbrev no_file : Failure
no_file = of_tool "no such file" true

abbrev text_of : Failure → String
text_of e = "no such file"

with_dedup_repeats-repeats_example :
    let n = repeats "grep|x" (text_of no_file) calls + 1 in
    let r =
      with_dedup_repeats 8 3 "grep|x" text_of false (failing no_file) (counts_after 8 calls) in
    (r.0 ≡ (
      if ltb n 3
      then failing no_file
      else record (failing no_file) { error = some (repeated no_file n) }))
    × (r.1 ≡ counts_after 8 (record { call = "grep|x"; error = some (text_of no_file) } ∷ calls))
with_dedup_repeats-repeats_example =
    with_dedup_repeats-repeats 8 3 calls "grep|x" text_of (failing no_file) no_file (omega arith)
      (omega arith) refl

abbrev one_digit : ℕ → Text
one_digit n = b'#' ∷ []

clip-IsClipped_example : IsClipped one_digit (codes "abcdef") 4 (clip one_digit (codes "abcdef") 4)
clip-IsClipped_example = clip-IsClipped one_digit (codes "abcdef") 4

-- A notice would be longer than what it leaves out.
too_short_to_clip : clip one_digit (codes "abcdef") 4 ≡ codes "abcdef"
unfolding clip clip_head boundary back_up forward continuations shorter_of head_marker middle_marker
too_short_to_clip = refl

-- A cut inside of a rune of two bytes backs up to its start.
backs_up : boundary (97 ∷ 195 ∷ 169 ∷ 98 ∷ []) 2 ≡ 1
unfolding boundary back_up
backs_up = refl

rejects_text : with_validation (λ input. false) (λ input. fine) (codes "x") ≡ failing invalid_input
unfolding with_validation
rejects_text = refl

keeps_the_report :
    with_timeout 5 0
      (λ e. record { text = "partial"; is_cause = false; is_deadline = false; is_canceled = false })
      (λ budget. (failing no_file, some "budget"))
    ≡ failing (ended_reporting "budget" "partial")
unfolding with_timeout budget_of timeout_failure
keeps_the_report = refl

-- A tool that fails once, whose failures are worth another attempt.
abbrev flaky : ℕ → Outcome
flaky attempt = if ltb attempt 1 then failing no_file else fine

abbrev undisturbed : ℕ → Option String
undisturbed attempt = none

abbrev always : Failure → Bool
always e = true

retried_once :
    with_retry 0 true (some always) flaky undisturbed ≡ record { outcome = fine; calls = 2 }
unfolding with_retry
retried_once = refl

never_replayed :
    with_retry 0 false (some always) flaky undisturbed
    ≡ record { outcome = failing no_file; calls = 1 }
unfolding with_retry
never_replayed = refl

with_retry-IsRetried_example :
    IsRetried
      (may_repeat true (some always))
      flaky
      undisturbed
      0
      3
      (with_retry 0 true (some always) flaky undisturbed)
with_retry-IsRetried_example = with_retry-IsRetried 0 true (some always) flaky undisturbed
