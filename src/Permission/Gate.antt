-- ===== src/Permission/Gate.antt =====
-- permission/gate.go and grants.go: a policy as middleware around a tool call.
--
-- What blocks or lies outside is an argument: the approver's answer, the cancellation cause of the
-- context, `json.Compact`, and what the tool would return. The events that `settle` and `ask` emit
-- are returned in order; the log lines beside them are not modelled.
pub mod Laws
mod Examples
use wombat_go.Common.{
  String, ◌<>◌, Bool, true, false, List, [], ◌∷◌, Option, none, some, Result, ok, err, contains,
  ◌==◌, if◌then◌else◌,
}
use wombat_go.Llm.{ToolUseId, RawMessage}
use wombat_go.Tool.{Def, ToolUse}
use wombat_go.Permission.{
  Decision, undecided, allow, deny, ask, Reason, approver_error, no_verdict, silent, Request,
  Policy, decide,
}

-- The grants of a run: the keys that were approved.
abbrev pub Grants : Type 0
Grants = List String

abbrev pub remember : String → Grants → Grants
remember key grants = key ∷ grants

-- The tool's name, a NUL, and the arguments without insignificant space; `compact` is `none` where
-- they are no JSON.
unfoldable pub grant_key : (RawMessage → Option RawMessage) → Def → ToolUse → String
grant_key compact d use_block =
    d.name <> ("\0" <> elim (compact use_block.input) [ none ↦ use_block.input | some text ↦ text ])

pub data Approval : Type 0 where
  approved refused : Approval
  failed : String → Approval

abbrev pub Approver : Type 0
Approver = Request → Approval

pub data Source : Type 0 where
  policy grant approver no_approver : Source

pub data Event : Type 0 where
  requested : ToolUseId → String → Reason → Option RawMessage → Event
  decided : ToolUseId → String → Bool → Reason → Source → Event

-- The errors of `Gate`, by their texts.
pub data GateError : Type 0 where
  policy_refused : String → Reason → GateError
  no_verdict_given : String → GateError
  nobody_to_ask : String → Reason → GateError
  abandoned : String → String → GateError
  not_collected : String → String → GateError
  person_refused : String → Reason → GateError

-- `errors.Is(err, ErrDenied)`.
abbrev pub is_denied : GateError → Bool
is_denied (abandoned name cause) = false
is_denied (policy_refused name reason) = true
is_denied (no_verdict_given name) = true
is_denied (nobody_to_ask name reason) = true
is_denied (not_collected name error) = true
is_denied (person_refused name reason) = true

-- `ok` where the tool ran, with what it returned.
pub record Gated (A : Type 0) : Type 0 where
  pub result : Result GateError A
  pub events : List Event
  pub grants : Grants

abbrev pub json_or_nil : RawMessage → Option RawMessage
json_or_nil input = if input == "" then none else some input

abbrev settle : Def → ToolUse → Bool → Reason → Source → Event
settle d use_block allowed reason source = decided use_block.id d.name allowed reason source

module _ {A : Type 0} (d : Def) (use_block : ToolUse) (next : A) where
  -- What `Approve` returned.
  pub answer : Approval → Option String → Reason → String → Grants → Gated A
  answer approved cause reason key grants = record {
    result = ok next;
    events = settle d use_block true reason approver ∷ [];
    grants = remember key grants;
  }
  answer refused cause reason key grants = record {
    result = err (person_refused d.name reason);
    events = settle d use_block false reason approver ∷ [];
    grants = grants;
  }
  answer (failed error) cause reason key grants = record {
    result = elim cause [
      | some c ↦ err (abandoned d.name c)
      | none ↦ err (not_collected d.name error)
    ];
    events = settle d use_block false (approver_error error) approver ∷ [];
    grants = grants;
  }

  -- The `ask` branch: the grants first, then a person.
  pub ask_person : Option Approver → Option String → Request → String → Grants → Gated A
  ask_person a cause req key grants =
      if contains grants key
      then record {
        result = ok next;
        events = settle d use_block true req.reason grant ∷ [];
        grants = grants;
      }
      else elim a [
        | none ↦ record {
          result = err (nobody_to_ask d.name req.reason);
          events = settle d use_block false req.reason no_approver ∷ [];
          grants = grants;
        }
        | some approve ↦
            let g = answer (approve req) cause req.reason key grants in
            record g {
              events =
                  requested use_block.id d.name req.reason (json_or_nil use_block.input) ∷ g.events;
            }
      ]

  -- The `switch decision`.
  pub enforce : Decision → Option Approver → Option String → Request → String → Grants → Gated A
  enforce allow a cause req key grants = record {
    result = ok next;
    events = settle d use_block true req.reason policy ∷ [];
    grants = grants;
  }
  enforce deny a cause req key grants = record {
    result = err (policy_refused d.name req.reason);
    events = settle d use_block false req.reason policy ∷ [];
    grants = grants;
  }
  enforce ask a cause req key grants = ask_person a cause req key grants
  enforce undecided a cause req key grants = record {
    result = err (no_verdict_given d.name);
    events = settle d use_block false no_verdict policy ∷ [];
    grants = grants;
  }

-- The request as the policy sees it.
abbrev pub request : Def → ToolUse → Request
request d use_block = record { tool = d; use_block = use_block; reason = silent }

unfoldable pub gate :
    {A : Type 0}
    → (RawMessage → Option RawMessage)
    → Policy
    → Option Approver
    → Option String
    → Def
    → ToolUse
    → A
    → Grants
    → Gated A
unfolding enforce ask_person answer
gate compact p a cause d use_block next grants =
    let (decision, reason) = decide p (request d use_block) in
    enforce d use_block next decision a cause (record (request d use_block) { reason = reason })
      (grant_key compact d use_block) grants
