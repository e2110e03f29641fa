-- ===== src/Approvals/Conservation.antt =====
-- Every question that was parked is waiting, or was answered once, or was given up.
use wombat_go.Common.{
  ℕ, ◌+◌, Bool, true, false, ◌≡◌, refl, ap, String, List, [], ◌∷◌, ◌++◌, Option, none, some,
  some-injective, ltb, ◌=?◌, ◌==◌, arith, if◌then◌else◌,
}
use wombat_go.Approvals.{
  Approval, Parked, Approvals, new_approvals, id_of, find, remove, park, register_if, register,
  forget_found, forget, resolve_found, resolve, refusals, release, deny, close, Act, registered,
  forgot, resolved, denied, closed_down, perform, perform_all,
}

abbrev pub one_if : Bool → ℕ
one_if true = 1
one_if false = 0

-- How often a question waits, and how often a value was sent to it.
abbrev pub waits : ℕ → List Parked → ℕ
waits n [] = 0
waits n (p ∷ ps) = one_if (p.serial =? n) + waits n ps

abbrev pub answers : ℕ → List (ℕ × Bool) → ℕ
answers n [] = 0
answers n (s ∷ ss) = one_if (s.0 =? n) + answers n ss

-- Whether this act is a waiter that gives up a question that still waits.
abbrev gives_up_found : ℕ → Option Parked → ℕ → Bool
gives_up_found n none serial = false
gives_up_found n (some p) serial = if p.serial =? serial then p.serial =? n else false

abbrev pub gives_up : ℕ → Act → Approvals → Bool
gives_up n (registered ap) a = false
gives_up n (forgot id serial) a = gives_up_found n (find id a.waiting) serial
gives_up n (resolved id allow) a = false
gives_up n denied a = false
gives_up n closed_down a = false

-- How often a waiter gave up the question, in these acts.
abbrev pub given_up : ℕ → List Act → Approvals → ℕ
given_up n [] a = 0
given_up n (x ∷ acts) a = one_if (gives_up n x a) + given_up n acts (perform x a)

waits-remove :
    (n : ℕ) (id : String) (ps : List Parked) (p : Parked)
    → find id ps ≡ some p
    → waits n ps ≡ one_if (p.serial =? n) + waits n (remove id ps)
unfolding remove
waits-remove n id [] p h = ground arith
waits-remove n id (q ∷ ps) p h = on (id_of q == id) h (waits-remove n id ps p)
  where
    on :
        (o : Bool)
        → (if o then some q else find id ps) ≡ some p
        → (find id ps ≡ some p → waits n ps ≡ one_if (p.serial =? n) + waits n (remove id ps))
        → one_if (q.serial =? n) + waits n ps
          ≡ one_if (p.serial =? n) + waits n (if o then ps else q ∷ remove id ps)
    on true e ih = ap (λ x. one_if (x.serial =? n) + waits n ps) (some-injective _ _ e)
    on false e ih = omega (arith, ih e)

answers-refusals :
    (n : ℕ) (ps : List Parked) (ss : List (ℕ × Bool))
    → answers n (refusals ps ++ ss) ≡ waits n ps + answers n ss
answers-refusals n [] ss = omega arith
answers-refusals n (p ∷ ps) ss = omega (arith, answers-refusals n ps ss)

-- Before and after one act: what waits, what was sent and what is given up, against the numbers used.
abbrev Balanced : ℕ → ℕ → Approvals → Approvals → Type 0
Balanced n gone a a' =
    waits n a'.waiting + answers n a'.sent + gone + one_if (ltb n a.next)
    ≡ waits n a.waiting + answers n a.sent + one_if (ltb n a'.next)

nothing_moves : (n : ℕ) (a : Approvals) → Balanced n 0 a a
nothing_moves n a = omega arith

park-Balanced : (n : ℕ) (ap : Approval) (a : Approvals) → Balanced n 0 a (park ap a)
park-Balanced n ap a = counts (waits n a.waiting) (answers n a.sent) a.next
  where
    counts :
        (w s m : ℕ)
        → one_if (m =? n) + w + s + 0 + one_if (ltb n m) ≡ w + s + one_if (ltb n (m + 1))
    counts w s m = ground arith

register_if-Balanced :
    (n : ℕ) (o : Bool) (dup : Option Parked) (ap : Approval) (a : Approvals)
    → Balanced n 0 a (register_if o dup ap a).1
register_if-Balanced n true dup ap a = nothing_moves n a
register_if-Balanced n false (some p) ap a = nothing_moves n a
register_if-Balanced n false none ap a = park-Balanced n ap a

forget_found-Balanced :
    (n : ℕ) (o : Option Parked) (id : String) (serial : ℕ) (a : Approvals)
    → find id a.waiting ≡ o
    → Balanced n (one_if (gives_up_found n o serial)) a (forget_found o id serial a)
forget_found-Balanced n none id serial a e = nothing_moves n a
forget_found-Balanced n (some p) id serial a e =
    on (p.serial =? serial) (waits-remove n id a.waiting p e)
  where
    on :
        (o : Bool)
        → waits n a.waiting ≡ one_if (p.serial =? n) + waits n (remove id a.waiting)
        → Balanced n
            (one_if (if o then p.serial =? n else false))
            a
            (if o then record a { waiting = remove id a.waiting } else a)
    on true h = omega (arith, h)
    on false h = nothing_moves n a

resolve_found-Balanced :
    (n : ℕ) (o : Option Parked) (id : String) (allow : Bool) (a : Approvals)
    → find id a.waiting ≡ o
    → Balanced n 0 a (resolve_found o id allow a).1
resolve_found-Balanced n none id allow a e = nothing_moves n a
resolve_found-Balanced n (some p) id allow a e = omega (arith, waits-remove n id a.waiting p e)

release-Balanced : (n : ℕ) (a : Approvals) → Balanced n 0 a (release a)
unfolding release
release-Balanced n a = omega (arith, answers-refusals n a.waiting a.sent)

perform-Balanced :
    (n : ℕ) (x : Act) (a : Approvals) → Balanced n (one_if (gives_up n x a)) a (perform x a)
unfolding perform register forget resolve deny close release
perform-Balanced n (registered ap) a =
    register_if-Balanced n a.closed (find ap.use_id a.waiting) ap a
perform-Balanced n (forgot id serial) a =
    forget_found-Balanced n (find id a.waiting) id serial a refl
perform-Balanced n (resolved id allow) a =
    resolve_found-Balanced n (find id a.waiting) id allow a refl
perform-Balanced n denied a = release-Balanced n a
perform-Balanced n closed_down a = release-Balanced n (record a { closed = true })

perform_all-Balanced :
    (n : ℕ) (acts : List Act) (a : Approvals)
    → Balanced n (given_up n acts a) a (perform_all acts a)
unfolding perform_all
perform_all-Balanced n [] a = nothing_moves n a
perform_all-Balanced n (x ∷ acts) a =
    omega (arith, perform-Balanced n x a, perform_all-Balanced n acts (perform x a))

-- After any acts on a new queue, a question that was parked is in exactly one of three places, once: it
-- waits, or exactly one verdict was sent to it, or its waiter gave it up before one came. So no send
-- blocks. A number that was not used is in none of them.
pub perform_all-conserves :
    (n : ℕ) (acts : List Act)
    → let a = perform_all acts new_approvals in
      waits n a.waiting + answers n a.sent + given_up n acts new_approvals
      ≡ (if ltb n a.next then 1 else 0)
unfolding new_approvals
perform_all-conserves n acts =
    one_if_lem (ltb n (perform_all acts new_approvals).next)
      (perform_all-Balanced n acts new_approvals) (unused n)
  where
    unused : (n : ℕ) → one_if (ltb n 0) ≡ 0
    unused n = ground arith

    one_if_lem :
        (o : Bool) {m : ℕ}
        → m + one_if (ltb n 0) ≡ 0 + 0 + one_if o
        → one_if (ltb n 0) ≡ 0
        → m ≡ (if o then 1 else 0)
    one_if_lem true h z = omega (arith, h, z)
    one_if_lem false h z = omega (arith, h, z)
