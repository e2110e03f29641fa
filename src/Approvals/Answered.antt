-- ===== src/Approvals/Answered.antt =====
-- `answered`: the ids that are remembered.
use wombat_go.Common.{
  ℕ, Bool, true, false, ◌&&◌, ◌||◌, ◌≡◌, refl, ap, ◌∙◌, subst, String, List, [], ◌∷◌, Option, none,
  some, contains, contains-append, ◌=?◌, ◌==◌, eq_iff, arith, if◌then◌else◌,
}
use wombat_go.Approvals.{
  Approval, Parked, Approvals, new_approvals, ids_of, find, remove, register_if, register,
  forget_found, forget, resolve_found, resolve, release, deny, close, Act, registered, forgot,
  resolved, denied, closed_down, perform, perform_all,
}

-- Whether a question waits under an id.
abbrev pub waits_under : String → List Parked → Bool
waits_under id [] = false
waits_under id (p ∷ ps) = p.approval.use_id == id || waits_under id ps

-- Whether an act gives a verdict to the question that waits under an id: an answer to it, or a denial
-- of all that wait.
abbrev pub gives_verdict : String → Act → Approvals → Bool
gives_verdict id (registered ap) a = false
gives_verdict id (forgot other serial) a = false
gives_verdict id (resolved other allow) a = other == id && waits_under id a.waiting
gives_verdict id denied a = waits_under id a.waiting
gives_verdict id closed_down a = waits_under id a.waiting

-- Whether some of the acts gave one.
abbrev pub got_verdict : String → List Act → Approvals → Bool
got_verdict id [] a = false
got_verdict id (x ∷ acts) a = gives_verdict id x a || got_verdict id acts (perform x a)

contains-ids_of : (id : String) (ps : List Parked) → contains (ids_of ps) id ≡ waits_under id ps
contains-ids_of id [] = refl
contains-ids_of id (p ∷ ps) = ground (arith, contains-ids_of id ps)

find-none : (id : String) (ps : List Parked) → find id ps ≡ none → waits_under id ps ≡ false
find-none id [] e = refl
find-none id (q ∷ ps) e = ground (arith, e, find-none id ps)

find-some :
    (id : String) (ps : List Parked) (p : Parked) → find id ps ≡ some p → waits_under id ps ≡ true
find-some id [] p e = absurd (cc e)
find-some id (q ∷ ps) p e = ground (arith, e, find-some id ps p)

release-answered :
    (a : Approvals) (id : String)
    → contains (release a).answered id ≡ (waits_under id a.waiting || contains a.answered id)
unfolding release
release-answered a id =
    contains-append (ids_of a.waiting) a.answered id
    ∙ ap (λ b. b || contains a.answered id) (contains-ids_of id a.waiting)

register_if-answered :
    (o : Bool) (dup : Option Parked) (ap : Approval) (a : Approvals)
    → (register_if o dup ap a).1.answered ≡ a.answered
register_if-answered true dup ap a = refl
register_if-answered false none ap a = refl
register_if-answered false (some p) ap a = refl

forget_found-answered :
    (o : Option Parked) (id : String) (serial : ℕ) (a : Approvals)
    → (forget_found o id serial a).answered ≡ a.answered
forget_found-answered none id serial a = refl
forget_found-answered (some p) id serial a = on (p.serial =? serial)
  where
    on :
        (o : Bool)
        → (if o then record a { waiting = remove id a.waiting } else a).answered ≡ a.answered
    on true = refl
    on false = refl

resolve_found-answered :
    (o : Option Parked) (other id : String) (allow : Bool) (a : Approvals)
    → find other a.waiting ≡ o
    → contains (resolve_found o other allow a).1.answered id
      ≡ (other == id && waits_under id a.waiting || contains a.answered id)
resolve_found-answered none other id allow a e = on (other == id) ((eq_iff other id).0)
  where
    on :
        (b : Bool)
        → (b ≡ true → other ≡ id)
        → contains a.answered id ≡ (b && waits_under id a.waiting || contains a.answered id)
    on false h = refl
    on true h =
        ground (
          arith,
          subst (λ x. waits_under x a.waiting ≡ false) (h refl) (find-none other a.waiting e),
        )
resolve_found-answered (some p) other id allow a e = on (other == id) ((eq_iff other id).0)
  where
    on :
        (b : Bool)
        → (b ≡ true → other ≡ id)
        → (b || contains a.answered id) ≡ (b && waits_under id a.waiting || contains a.answered id)
    on false h = refl
    on true h = ground (
      arith,
      subst (λ x. waits_under x a.waiting ≡ true) (h refl) (find-some other a.waiting p e),
    )

perform-answered :
    (x : Act) (a : Approvals) (id : String)
    → contains (perform x a).answered id ≡ (gives_verdict id x a || contains a.answered id)
unfolding perform register forget resolve deny close
perform-answered (registered q) a id =
    ap (λ xs. contains xs id) (register_if-answered a.closed (find q.use_id a.waiting) q a)
perform-answered (forgot other serial) a id =
    ap (λ xs. contains xs id) (forget_found-answered (find other a.waiting) other serial a)
perform-answered (resolved other allow) a id =
    resolve_found-answered (find other a.waiting) other id allow a refl
perform-answered denied a id = release-answered a id
perform-answered closed_down a id = release-answered (record a { closed = true }) id

perform_all-answered :
    (acts : List Act) (a : Approvals) (id : String)
    → contains (perform_all acts a).answered id ≡ (got_verdict id acts a || contains a.answered id)
unfolding perform_all
perform_all-answered [] a id = refl
perform_all-answered (x ∷ acts) a id =
    perform_all-answered acts (perform x a) id
    ∙ regroup (got_verdict id acts (perform x a)) (gives_verdict id x a) (contains a.answered id) _
        (perform-answered x a id)
  where
    regroup : (g v c c' : Bool) → c' ≡ (v || c) → (g || c') ≡ (v || g || c)
    regroup g v c c' e = ground arith

-- On a new queue nothing is remembered before the first verdict.
pub perform_all-got_verdict :
    (acts : List Act) (id : String)
    → contains (perform_all acts new_approvals).answered id ≡ got_verdict id acts new_approvals
unfolding new_approvals
perform_all-got_verdict acts id = perform_all-answered acts new_approvals id ∙ or_false _
  where
    or_false : (b : Bool) → (b || false) ≡ b
    or_false b = ground arith
