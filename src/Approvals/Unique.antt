-- ===== src/Approvals/Unique.antt =====
-- No id waits twice.
use wombat_go.Common.{
  ℕ, ◌+◌, ◌≤◌, Bool, true, false, ◌≡◌, refl, ap, subst, String, List, [], ◌∷◌, Option, none, some,
  ◌=?◌, ◌==◌, eq_iff, arith, if◌then◌else◌,
}
use wombat_go.Approvals.{
  Approval, Parked, Approvals, new_approvals, id_of, find, remove, register_if, register,
  forget_found, forget, resolve_found, resolve, release, deny, close, Act, registered, forgot,
  resolved, denied, closed_down, perform, perform_all,
}
use wombat_go.Approvals.Conservation.{one_if}

-- How often an id stands among the waiting.
abbrev pub times : String → List Parked → ℕ
times id [] = 0
times id (p ∷ ps) = one_if (id_of p == id) + times id ps

abbrev pub IsUnique : Approvals → Type 0
IsUnique a = (id : String) → times id a.waiting ≤ 1

times_of_none : (id : String) (ps : List Parked) → find id ps ≡ none → times id ps ≡ 0
times_of_none id [] h = refl
times_of_none id (p ∷ ps) h = ground (arith, times_of_none id ps, h)

pub find_of_zero : (id : String) (ps : List Parked) → times id ps ≡ 0 → find id ps ≡ none
find_of_zero id [] h = refl
find_of_zero id (p ∷ ps) h = ground (arith, find_of_zero id ps, h)

pub times-remove :
    (id : String) (ps : List Parked) (p : Parked)
    → find id ps ≡ some p
    → times id ps ≡ times id (remove id ps) + 1
unfolding remove
times-remove id [] p h = ground arith
times-remove id (q ∷ ps) p h = on (id_of q == id) refl h (times-remove id ps p)
  where
    on :
        (o : Bool)
        → (id_of q == id) ≡ o
        → (if o then some q else find id ps) ≡ some p
        → (find id ps ≡ some p → times id ps ≡ times id (remove id ps) + 1)
        → one_if o + times id ps ≡ times id (if o then ps else q ∷ remove id ps) + 1
    on true k e ih = omega arith
    on false k e ih = rw k (omega (arith, ih e))

times-remove-le : (x id : String) (ps : List Parked) → times x (remove id ps) ≤ times x ps
unfolding remove
times-remove-le x id [] = omega arith
times-remove-le x id (q ∷ ps) = on (id_of q == id) (times-remove-le x id ps)
  where
    on :
        (o : Bool)
        → times x (remove id ps) ≤ times x ps
        → times x (if o then ps else q ∷ remove id ps) ≤ one_if (id_of q == x) + times x ps
    on true h = omega arith
    on false h = omega (arith, h)

register_if-IsUnique :
    (o : Bool) (dup : Option Parked) (ap : Approval) (a : Approvals)
    → find ap.use_id a.waiting ≡ dup
    → IsUnique a
    → IsUnique (register_if o dup ap a).1
register_if-IsUnique true dup ap a e u = u
register_if-IsUnique false (some p) ap a e u = u
register_if-IsUnique false none ap a e u =
    λ id. on id (ap.use_id == id) ((eq_iff ap.use_id id).0) (times_of_none ap.use_id a.waiting e)
  where
    on :
        (id : String) (o : Bool)
        → (o ≡ true → ap.use_id ≡ id)
        → times ap.use_id a.waiting ≡ 0
        → one_if o + times id a.waiting ≤ 1
    on id true e z = subst (λ x. one_if true + times x a.waiting ≤ 1) (e refl) (omega (arith, z))
    on id false e z = omega (arith, u id)

remove-IsUnique :
    (id : String) (a : Approvals) → IsUnique a → (x : String) → times x (remove id a.waiting) ≤ 1
remove-IsUnique id a u x = omega (arith, u x, times-remove-le x id a.waiting)

forget_found-IsUnique :
    (o : Option Parked) (id : String) (serial : ℕ) (a : Approvals)
    → IsUnique a
    → IsUnique (forget_found o id serial a)
forget_found-IsUnique none id serial a u = u
forget_found-IsUnique (some p) id serial a u = on (p.serial =? serial)
  where
    on : (o : Bool) → IsUnique (if o then record a { waiting = remove id a.waiting } else a)
    on true = remove-IsUnique id a u
    on false = u

resolve_found-IsUnique :
    (o : Option Parked) (id : String) (allow : Bool) (a : Approvals)
    → IsUnique a
    → IsUnique (resolve_found o id allow a).1
resolve_found-IsUnique none id allow a u = u
resolve_found-IsUnique (some p) id allow a u = remove-IsUnique id a u

perform-IsUnique : (x : Act) (a : Approvals) → IsUnique a → IsUnique (perform x a)
unfolding perform register forget resolve deny close release
perform-IsUnique (registered ap) a u =
    register_if-IsUnique a.closed (find ap.use_id a.waiting) ap a refl u
perform-IsUnique (forgot id serial) a u = forget_found-IsUnique (find id a.waiting) id serial a u
perform-IsUnique (resolved id allow) a u = resolve_found-IsUnique (find id a.waiting) id allow a u
perform-IsUnique denied a u = λ id. omega arith
perform-IsUnique closed_down a u = λ id. omega arith

pub perform_all-IsUnique :
    (acts : List Act) (a : Approvals) → IsUnique a → IsUnique (perform_all acts a)
unfolding perform_all
perform_all-IsUnique [] a u = u
perform_all-IsUnique (x ∷ acts) a u =
    perform_all-IsUnique acts (perform x a) (perform-IsUnique x a u)

pub new_approvals-IsUnique : IsUnique new_approvals
unfolding new_approvals
new_approvals-IsUnique = λ id. omega arith
