-- ===== src/Permission/Gate/Examples.antt =====
-- A run of the gate: a tool that needs asking, a person who says yes, and a second call.
use wombat_go.Common.{String, true, false, ◌≡◌, refl, ◌⊎◌, [], Option, none, some, ok, contains}
use wombat_go.Llm.{RawMessage}
use wombat_go.Tool.{Def, ToolUse}
use wombat_go.Permission.{allow, ask, decide}
use wombat_go.Permission.Rules.{ask_everything}
use wombat_go.Permission.Gate.{grant_key, Approver, approved, failed, Gated, request, gate}
use wombat_go.Permission.Gate.Laws.{asked, gate-ran, gate-again}

-- `json.Compact` on texts that hold no space already.
abbrev compact : RawMessage → Option RawMessage
compact input = some input

abbrev shell : Def
shell = record { name = "bash"; caps = 4; needs = 4 }

abbrev call : ToolUse
call = record { id = "t1"; name = "bash"; input = "{\"command\":\"make\"}" }

abbrev yes : Approver
yes r = approved

abbrev lost : Approver
lost r = failed "connection reset"

abbrev again : String
again = "again"

abbrev done : String
done = "done"

-- The first call: nothing granted yet, a person there.
abbrev first : Gated String
first = gate compact ask_everything (some yes) none shell call done []

abbrev broken : Gated String
broken = gate compact ask_everything (some lost) (some "wall clock") shell call done []

gate-ran_example :
    ((decide ask_everything (request shell call)).0 ≡ allow)
    ⊎ (((decide ask_everything (request shell call)).0 ≡ ask)
        × ((contains [] (grant_key compact shell call) ≡ true)
            ⊎ ((approve : Approver) × (some yes ≡ some approve)
                × (approve (record (request shell call) {
                  reason = (decide ask_everything (request shell call)).1;
                })
                    ≡ approved))))
gate-ran_example =
    gate-ran compact ask_everything (some yes) none shell call done []
      (unfold gate decide ask_everything in refl)

gate-again_example :
    let g = gate compact ask_everything none none shell call again first.grants in
    (g.result ≡ ok again) × (asked g.events ≡ false) × (g.grants ≡ first.grants)
gate-again_example =
    gate-again compact ask_everything (some yes) none none none shell call done again []
      (unfold gate decide ask_everything in refl) (unfold gate decide ask_everything in refl)
