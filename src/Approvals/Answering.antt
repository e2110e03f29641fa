-- ===== src/Approvals/Answering.antt =====
-- Answers that come late or twice, and the end of a session.
use wombat_go.Common.{
  ℕ, ◌+◌, Bool, true, false, ◌≡◌, refl, ap, ◌∙◌, sym, subst, String, List, [], ◌∷◌, ◌++◌, Option,
  none, some, some-injective, contains, ltb, eq_iff, arith, if◌then◌else◌, true_ne_false,
}
use wombat_go.Approvals.{
  Approval, Parked, no_queue, already_answered, no_such_approval, Approvals, new_approvals, find,
  remove, register_if, register, forget_found, forget, resolve_found, resolve, release, deny, close,
  Act, registered, forgot, resolved, denied, closed_down, perform, perform_all,
}
use wombat_go.Approvals.Unique.{
  IsUnique, find_of_zero, times-remove, perform_all-IsUnique, new_approvals-IsUnique,
}
use wombat_go.Approvals.Answered.{got_verdict, perform_all-got_verdict}
use wombat_go.Approvals.Conservation.{waits, answers, given_up, perform_all-conserves}

-- What a resolve does, where no id stands twice.
resolve_found_lem :
    (o : Option Parked) (id : String) (allow later : Bool) (a : Approvals)
    → find id a.waiting ≡ o
    → IsUnique a
    → let r = resolve_found o id allow a in
      ((p : Parked)
        → o ≡ some p
        → (r.0 ≡ none)
          × (r.1.sent ≡ (p.serial, allow) ∷ a.sent)
          × (resolve id later r.1 ≡ (some already_answered, r.1)))
      × (o ≡ none
          → r ≡ (some (if contains a.answered id then already_answered else no_such_approval), a))
unfolding resolve
resolve_found_lem none id allow later a e u = (λ p h. absurd (ground (arith, h)), λ h. refl)
resolve_found_lem (some q) id allow later a e u = (
  λ p h. (
    refl,
    ap (λ x. (x.serial, allow) ∷ a.sent) (some-injective _ _ h),
    ap (λ o. resolve_found o id later (resolve_found (some q) id allow a).1) gone
        ∙ ap
            (λ b. (
              some (if b then already_answered else no_such_approval),
              (resolve_found (some q) id allow a).1,
            ))
            (answered_now id a.answered),
  ),
  λ h. absurd (ground (arith, h)),
)
  where
    gone : find id (remove id a.waiting) ≡ none
    gone =
        find_of_zero id (remove id a.waiting) (omega (arith, u id, times-remove id a.waiting q e))

    answered_now : (id : String) (ids : List String) → contains (id ∷ ids) id ≡ true
    answered_now id ids = ground (arith, eq_iff id id)

-- After any acts on a new queue: an answer to an id that waits is sent to the question that is parked
-- under it, and a second answer to the id right after it is refused with `ErrAlreadyAnswered` and
-- changes nothing; an answer to an id that does not wait changes nothing and is refused, with
-- `ErrAlreadyAnswered` where one of the acts gave a verdict to a question that waited under the id,
-- be it an answer or a denial of all, and with `ErrNoSuchApproval` otherwise.
pub resolve-resolve :
    (acts : List Act) (id : String) (allow later : Bool)
    → let a = perform_all acts new_approvals in
      let r = resolve id allow a in
      ((p : Parked)
        → find id a.waiting ≡ some p
        → (r.0 ≡ none)
          × (r.1.sent ≡ (p.serial, allow) ∷ a.sent)
          × (resolve id later r.1 ≡ (some already_answered, r.1)))
      × (find id a.waiting ≡ none
          → r ≡ (
            some (if got_verdict id acts new_approvals then already_answered else no_such_approval),
            a,
          ))
unfolding resolve
resolve-resolve acts id allow later =
    let a = perform_all acts new_approvals in
    let (sent, refused) =
      resolve_found_lem (find id a.waiting) id allow later a refl
        (perform_all-IsUnique acts new_approvals new_approvals-IsUnique) in
    (
      sent,
      λ h.
          refused h
          ∙ ap (λ b. (some (if b then already_answered else no_such_approval), a))
              (perform_all-got_verdict acts id),
    )

-- A queue that was closed: nobody waits.
abbrev IsShut : Approvals → Type 0
IsShut a = (a.closed ≡ true) × (a.waiting ≡ [])

register_if_lem :
    (o : Bool) (dup : Option Parked) (ap : Approval) (a : Approvals)
    → o ≡ true
    → register_if o dup ap a ≡ (some no_queue, a)
register_if_lem true dup ap a h = refl
register_if_lem false dup ap a h = absurd (true_ne_false (sym h))

perform-IsShut : (x : Act) (a : Approvals) → IsShut a → IsShut (perform x a)
unfolding perform register forget resolve deny close release
perform-IsShut (registered ap) a (c, w) =
    subst (λ r. IsShut r.1) (sym (register_if_lem a.closed (find ap.use_id a.waiting) ap a c))
      (c, w)
perform-IsShut (forgot id serial) a (c, w) =
    subst (λ ps. IsShut (forget_found (find id ps) id serial a)) (sym w) (c, w)
perform-IsShut (resolved id allow) a (c, w) =
    subst (λ ps. IsShut (resolve_found (find id ps) id allow a).1) (sym w) (c, w)
perform-IsShut denied a (c, w) = (c, refl)
perform-IsShut closed_down a (c, w) = (refl, refl)

perform_all-IsShut : (acts : List Act) (a : Approvals) → IsShut a → IsShut (perform_all acts a)
unfolding perform_all
perform_all-IsShut [] a h = h
perform_all-IsShut (x ∷ acts) a h = perform_all-IsShut acts (perform x a) (perform-IsShut x a h)

perform_all-append :
    (acts more : List Act) (a : Approvals)
    → perform_all (acts ++ more) a ≡ perform_all more (perform_all acts a)
unfolding perform_all
perform_all-append [] more a = refl
perform_all-append (x ∷ acts) more a = perform_all-append acts more (perform x a)

stays_over :
    (acts more : List Act) (a : Approvals) → IsShut (perform_all (acts ++ closed_down ∷ more) a)
unfolding perform_all perform close release
stays_over acts more a =
    subst IsShut (sym (perform_all-append acts (closed_down ∷ more) a))
      (perform_all-IsShut more (close (perform_all acts a)) (refl, refl))

-- Once the queue is closed, whatever happened before and happens after, nobody waits, every question
-- that was ever parked has got exactly one verdict, unless its waiter gave it up, and a new one is
-- refused with `errNoQueue` and changes nothing.
pub perform_all-close :
    (acts more : List Act)
    → let all = acts ++ closed_down ∷ more in
      let a = perform_all all new_approvals in
      (a.waiting ≡ [])
      × ((n : ℕ)
          → answers n a.sent + given_up n all new_approvals ≡ (if ltb n a.next then 1 else 0))
      × ((ap : Approval) → register ap a ≡ (some no_queue, a))
unfolding register
perform_all-close acts more =
    let all = acts ++ closed_down ∷ more in
    let a = perform_all all new_approvals in
    let (c, w) = stays_over acts more new_approvals in
    (
      w,
      λ n.
          without_waits (waits n a.waiting) (answers n a.sent) (given_up n all new_approvals) _
            (ap (waits n) w) (perform_all-conserves n all),
      λ ap. register_if_lem a.closed (find ap.use_id a.waiting) ap a c,
    )
  where
    without_waits : (w s g m : ℕ) → w ≡ 0 → w + s + g ≡ m → s + g ≡ m
    without_waits w s g m h e = omega (arith, h, e)
