-- ===== src/Middleware/Repeats/Counting.antt =====
-- The counters against the history of the calls.
use wombat_go.Common.{
  ℕ, ◌+◌, ◌≤◌, ◌<◌, Bool, true, false, ◌≡◌, refl, ap, subst, ◌∙◌, sym, String, List, [], ◌∷◌,
  Option, none, some, length, ltb, ◌=?◌, ◌==◌, eq_iff, arith, if◌then◌else◌,
}
use wombat_go.Middleware.{Failure, Outcome, repeated}
use wombat_go.Middleware.Repeats.{
  ByError, Counts, by_error, set_call, succeed, make_room, set_error, fail, enrich, note_outcome,
  with_dedup_repeats, Ended, note, counts_after,
}

-- The failures of a call with this text since its last success.
abbrev pub add_repeat : String → Option String → ℕ → ℕ
add_repeat msg none n = 0
add_repeat msg (some m) n = if m == msg then n + 1 else n

abbrev pub repeats : String → String → List Ended → ℕ
repeats call msg [] = 0
repeats call msg (e ∷ earlier) =
    let n = repeats call msg earlier in if e.call == call then add_repeat msg e.error n else n

by_error-set_call :
    (call : String) (f : ByError) (cs : Counts) (c msg : String)
    → by_error c (set_call call f cs) msg ≡ (if call == c then f msg else by_error c cs msg)
by_error-set_call call f [] c msg = ground (arith, eq_iff call c)
by_error-set_call call f (k ∷ cs) c msg =
    ground (arith, by_error-set_call call f cs c msg, eq_iff call c, eq_iff k.0 call, eq_iff k.0 c)

by_error-succeed :
    (call : String) (cs : Counts) (c msg : String)
    → by_error c (succeed call cs) msg ≡ (if call == c then 0 else by_error c cs msg)
unfolding succeed
by_error-succeed call [] c msg = ground arith
by_error-succeed call (k ∷ cs) c msg =
    ground (arith, by_error-succeed call cs c msg, eq_iff call c, eq_iff k.0 call, eq_iff k.0 c)

length-set_call :
    (call : String) (f : ByError) (cs : Counts) → length (set_call call f cs) ≤ length cs + 1
length-set_call call f [] = omega arith
length-set_call call f (k ∷ cs) = ground (arith, length-set_call call f cs)

length-succeed : (call : String) (cs : Counts) → length (succeed call cs) ≤ length cs
unfolding succeed
length-succeed call [] = omega arith
length-succeed call (k ∷ cs) = ground (arith, length-succeed call cs)

length-make_room : (keys : ℕ) (cs : Counts) → 0 < keys → length (make_room keys cs) + 1 ≤ keys
length-make_room keys cs h = ground (arith, h)

make_room_lem : (keys : ℕ) (cs : Counts) → length cs < keys → make_room keys cs ≡ cs
make_room_lem keys cs h = ground (arith, h)

-- One failure.
by_error-fail :
    (keys : ℕ) (call m : String) (cs : Counts) (c msg : String)
    → length cs < keys
    → by_error c (fail keys call m cs).1 msg ≡ (
        if call == c
        then (if m == msg then by_error c cs msg + 1 else by_error c cs msg)
        else by_error c cs msg)
unfolding fail
by_error-fail keys call m cs c msg h = rw (make_room_lem keys cs h) (
    by_error-set_call call (set_error m (by_error call cs m + 1) (by_error call cs)) cs c msg
    ∙ same (call == c) (eq_iff call c).0 (m == msg) (eq_iff m msg).0)
  where
    same :
        (o : Bool)
        → (o ≡ true → call ≡ c)
        → (p : Bool) → (p ≡ true → m ≡ msg)
        → (if o
            then (if p then by_error call cs m + 1 else by_error call cs msg)
            else by_error c cs msg)
          ≡ (if o
              then (if p then by_error c cs msg + 1 else by_error c cs msg)
              else by_error c cs msg)
    same false e p k = refl
    same true e false k = ap (λ x. by_error x cs msg) (e refl)
    same true e true k =
        ap (λ x. by_error x cs m + 1) (e refl) ∙ ap (λ x. by_error c cs x + 1) (k refl)

by_error-note :
    (keys : ℕ) (call : String) (e : Option String) (cs : Counts) (c msg : String)
    → length cs < keys
    → by_error c (note keys call e cs) msg
      ≡ (if call == c then add_repeat msg e (by_error c cs msg) else by_error c cs msg)
by_error-note keys call none cs c msg h = by_error-succeed call cs c msg
by_error-note keys call (some m) cs c msg h = by_error-fail keys call m cs c msg h

length-note :
    (keys : ℕ) (call : String) (e : Option String) (cs : Counts)
    → 0 < keys
    → (length (note keys call e cs) ≤ length cs + 1)
      × (length cs ≤ keys → length (note keys call e cs) ≤ keys)
unfolding fail
length-note keys call none cs h =
    (omega (arith, length-succeed call cs), λ l. omega (arith, l, length-succeed call cs))
length-note keys call (some m) cs h =
    let room = make_room keys cs in
    let f = set_error m (by_error call room m + 1) (by_error call room) in
    (
      omega (arith, length-set_call call f room, shrinks),
      λ l. omega (arith, length-set_call call f room, length-make_room keys cs h),
    )
  where
    shrinks : length (make_room keys cs) ≤ length cs
    shrinks = ground arith

-- There are never more entries than the cap, which is positive, nor than calls.
pub length-counts_after :
    (keys : ℕ) (history : List Ended)
    → 0 < keys
    → (length (counts_after keys history) ≤ keys)
      × (length (counts_after keys history) ≤ length history)
unfolding counts_after
length-counts_after keys [] h = (omega arith, omega arith)
length-counts_after keys (e ∷ earlier) h =
    let (a, b) = length-counts_after keys earlier h in
    let (more, most) = length-note keys e.call e.error (counts_after keys earlier) h in
    (most a, omega (arith, more, b))

-- While fewer calls than the cap have ended, the counter of a call and a text is the number of times
-- that the call failed with the text since it last succeeded, whatever else it failed with between.
pub by_error-counts_after :
    (keys : ℕ) (history : List Ended) (call msg : String)
    → length history ≤ keys
    → by_error call (counts_after keys history) msg ≡ repeats call msg history
unfolding counts_after
by_error-counts_after keys [] call msg h = refl
by_error-counts_after keys (e ∷ earlier) call msg h =
    by_error-note keys e.call e.error (counts_after keys earlier) call msg
      (omega (arith, h, (length-counts_after keys earlier (omega (arith, h))).1))
    ∙ ap (λ n. if e.call == call then add_repeat msg e.error n else n)
        (by_error-counts_after keys earlier call msg (omega (arith, h)))

-- The number that `fail` returns.
fail_count :
    (keys : ℕ) (history : List Ended) (call msg : String)
    → length history < keys
    → (fail keys call msg (counts_after keys history)).0 ≡ repeats call msg history + 1
unfolding fail
fail_count keys history call msg h =
    let shorter = (length-counts_after keys history (omega (arith, h))).1 in
    rw (make_room_lem keys (counts_after keys history) (omega (arith, shorter, h)))
      (ap (λ n. n + 1) (by_error-counts_after keys history call msg (omega (arith, h))))

-- A failing call, with its context alive, after fewer calls than the cap: the handler's answer comes
-- back untouched until the call has failed with this text `threshold` times since its last success,
-- and from then on the error is wrapped with that number; the counters are those of the history with
-- this call. The threshold is positive.
pub with_dedup_repeats-repeats :
    (keys threshold : ℕ) (history : List Ended) (call : String) (text : Failure → String)
    (answer : Outcome) (e : Failure)
    → 0 < threshold
    → length history < keys
    → answer.error ≡ some e
    → let n = repeats call (text e) history + 1 in
      let r =
        with_dedup_repeats keys threshold call text false answer (counts_after keys history) in
      (r.0 ≡ (if ltb n threshold then answer else record answer { error = some (repeated e n) }))
      × (r.1 ≡ counts_after keys (record { call = call; error = some (text e) } ∷ history))
unfolding with_dedup_repeats counts_after
with_dedup_repeats-repeats keys threshold history call text answer e pos h err =
    let counts = counts_after keys history in
    rw (enabled threshold pos) (
      subst (λ o. Noted o counts) (sym err)
        (ap (λ n. enrich threshold n answer e) (fail_count keys history call (text e) h), refl))
  where
    enabled : (t : ℕ) → 0 < t → (t =? 0) ≡ false
    enabled t h = ground arith

    Noted : Option Failure → Counts → Type 0
    Noted o counts =
        let r = note_outcome keys threshold call text false answer o counts in
        (r.0 ≡ enrich threshold (repeats call (text e) history + 1) answer e)
        × (r.1 ≡ note keys call (some (text e)) counts)
