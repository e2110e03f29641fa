-- ===== src/Approvals.antt =====
-- httpapi/approvals.go: the tool calls of a session that wait for a human.
--
-- The mutex makes each method one step, so requests, answers and cancellations are a list of acts.
-- A parked question has a number, for the identity of its pointer; what is sent on its channel, which
-- has room for one value, is kept with the number. The map of waiting questions is a list in which
-- no id stands twice, since `register` refuses one that does. `jsonOrNil` only shapes a payload.
pub mod Conservation
pub mod Unique
pub mod Answered
pub mod Answering
mod Examples
use wombat_go.Common.{
  ℕ, zero, suc, ◌+◌, Bool, true, false, ◌||◌, String, List, [], ◌∷◌, ◌++◌, Option, none, some,
  contains, length, leb, ◌=?◌, ◌==◌, if◌then◌else◌,
}

-- What is shown of a question.
pub record Approval : Type 0 where
  pub use_id : String
  pub tool : String
  pub reason : String
  pub input : Option String
  pub since : ℕ

pub record Parked : Type 0 where
  pub serial : ℕ
  pub approval : Approval

pub data ApprovalError : Type 0 where
  no_queue already_answered no_such_approval : ApprovalError

-- `sent` is what was sent on the channels, and `next` the next number.
pub record Approvals : Type 0 where
  pub waiting : List Parked
  pub answered : List String
  pub closed : Bool
  pub sent : List (ℕ × Bool)
  pub next : ℕ

unfoldable pub new_approvals : Approvals
new_approvals = record { waiting = []; answered = []; closed = false; sent = []; next = 0 }

abbrev pub id_of : Parked → String
id_of p = p.approval.use_id

-- `waiting[id]`.
abbrev pub find : String → List Parked → Option Parked
find id [] = none
find id (p ∷ ps) = if id_of p == id then some p else find id ps

-- `delete(waiting, id)`.
unfoldable pub remove : String → List Parked → List Parked
remove id [] = []
remove id (p ∷ ps) = if id_of p == id then ps else p ∷ remove id ps

abbrev pub park : Approval → Approvals → Approvals
park ap a = record a {
  waiting = record { serial = a.next; approval = ap } ∷ a.waiting;
  next = a.next + 1;
}

abbrev pub register_if :
    Bool → Option Parked → Approval → Approvals → Option ApprovalError × Approvals
register_if true dup ap a = (some no_queue, a)
register_if false (some p) ap a = (some already_answered, a)
register_if false none ap a = (none, park ap a)

-- The parked question is the head of `waiting` where there is no error.
unfoldable pub register : Approval → Approvals → Option ApprovalError × Approvals
register ap a = register_if a.closed (find ap.use_id a.waiting) ap a

abbrev pub forget_found : Option Parked → String → ℕ → Approvals → Approvals
forget_found none id serial a = a
forget_found (some p) id serial a =
    if p.serial =? serial then record a { waiting = remove id a.waiting } else a

-- `serial` is the identity of the question that the waiter holds.
unfoldable pub forget : String → ℕ → Approvals → Approvals
unfolding remove
forget id serial a = forget_found (find id a.waiting) id serial a

abbrev pub resolve_found :
    Option Parked → String → Bool → Approvals → Option ApprovalError × Approvals
resolve_found none id allow a =
    (some (if contains a.answered id then already_answered else no_such_approval), a)
resolve_found (some p) id allow a = (
  none,
  record a {
    waiting = remove id a.waiting;
    answered = id ∷ a.answered;
    sent = (p.serial, allow) ∷ a.sent;
  },
)

unfoldable pub resolve : String → Bool → Approvals → Option ApprovalError × Approvals
unfolding remove
resolve id allow a = resolve_found (find id a.waiting) id allow a

abbrev pub ids_of : List Parked → List String
ids_of [] = []
ids_of (p ∷ ps) = id_of p ∷ ids_of ps

abbrev pub refusals : List Parked → List (ℕ × Bool)
refusals [] = []
refusals (p ∷ ps) = (p.serial, false) ∷ refusals ps

unfoldable pub release : Approvals → Approvals
release a = record a {
  waiting = [];
  answered = ids_of a.waiting ++ a.answered;
  sent = refusals a.waiting ++ a.sent;
}

unfoldable pub deny : Approvals → Approvals
unfolding release
deny a = release a

unfoldable pub close : Approvals → Approvals
unfolding release
close a = release (record a { closed = true })

-- `count`.
unfoldable pub waiting_count : Approvals → ℕ
waiting_count a = length a.waiting

abbrev pub insert_by_since : Approval → List Approval → List Approval
insert_by_since x [] = x ∷ []
insert_by_since x (y ∷ ys) = if leb x.since y.since then x ∷ y ∷ ys else y ∷ insert_by_since x ys

abbrev pub oldest_first : List Parked → List Approval
oldest_first [] = []
oldest_first (p ∷ ps) = insert_by_since p.approval (oldest_first ps)

unfoldable pub pending : Approvals → List Approval
pending a = oldest_first a.waiting

-- The methods. A waiter forgets when its wait is over, with an answer or without.
pub data Act : Type 0 where
  registered : Approval → Act
  forgot : String → ℕ → Act
  resolved : String → Bool → Act
  denied closed_down : Act

unfoldable pub perform : Act → Approvals → Approvals
unfolding register forget resolve deny close
perform (registered ap) a = (register ap a).1
perform (forgot id serial) a = forget id serial a
perform (resolved id allow) a = (resolve id allow a).1
perform denied a = deny a
perform closed_down a = close a

unfoldable pub perform_all : List Act → Approvals → Approvals
unfolding perform
perform_all [] a = a
perform_all (x ∷ acts) a = perform_all acts (perform x a)
