-- ===== src/Skill.antt =====
-- skill/state.go, skill/registry.go, skill/bind.go and skill/tools.go: skills that a run loads, and the
-- tools that are gated behind them.
--
-- The state of a run is the list of its loaded skills; the mutex makes each method one step. Texts
-- that are shown to the model are constructors with their arguments, without the list of the active
-- skills. `strings.TrimSpace` of a name and the dispatch's `UseID` are arguments.
pub mod Gating
pub mod Loading
mod Examples
use wombat_go.Common.{
  Bool, true, false, not, ◌&&◌, ◌||◌, String, List, [], ◌∷◌, ◌++◌, Option, none, some, contains,
  ◌==◌, if◌then◌else◌,
}
use wombat_go.Llm.{ToolUseId}
use wombat_go.Tool.{Def}

-- A loaded skill, and the call whose result carried its body.
pub record Loaded : Type 0 where
  pub name : String
  pub body : ToolUseId

-- `State`.
abbrev pub Active : Type 0
Active = List Loaded

unfoldable pub new_state : Active
new_state = []

-- `BodyOf`.
abbrev pub body_of : String → Active → Option ToolUseId
body_of name [] = none
body_of name (l ∷ ls) = if l.name == name then some l.body else body_of name ls

abbrev pub is_some : Option ToolUseId → Bool
is_some none = false
is_some (some id) = true

-- `IsActive`.
abbrev pub is_active : String → Active → Bool
is_active name st = is_some (body_of name st)

-- `Deactivate`.
unfoldable pub deactivate : String → Active → Active
deactivate name [] = []
deactivate name (l ∷ ls) = if l.name == name then deactivate name ls else l ∷ deactivate name ls

-- `Activate`: a second load overwrites the id.
unfoldable pub activate : String → ToolUseId → Active → Active
unfolding deactivate
activate name body st = record { name = name; body = body } ∷ deactivate name st

-- The names of `Active`, whose order nothing but a text depends on.
abbrev pub active_names : Active → List String
active_names [] = []
active_names (l ∷ ls) = l.name ∷ active_names ls

pub record Skill : Type 0 where
  pub name : String
  pub description : String
  pub body : String

pub record GatedTool : Type 0 where
  pub tool : String
  pub skill : String

pub record Registry : Type 0 where
  pub skills : List Skill
  pub gates : List GatedTool

abbrev pub skill_named : String → List Skill → Option Skill
skill_named name [] = none
skill_named name (s ∷ ss) = if s.name == name then some s else skill_named name ss

-- `GateFor`.
abbrev pub gate_in : String → List GatedTool → Option String
gate_in tool [] = none
gate_in tool (g ∷ gs) = if g.tool == tool then some g.skill else gate_in tool gs

abbrev pub gate_for : Registry → String → Option String
gate_for r tool = gate_in tool r.gates

-- `Gate`; `none` is the panic on a second gate from another skill.
unfoldable pub gate : String → String → Registry → Option Registry
gate skill tool r =
    let gated = some (record r { gates = record { tool = tool; skill = skill } ∷ r.gates }) in
    elim (gate_for r tool) [ none ↦ gated | some prev ↦ if prev == skill then gated else none ]

-- Whether a gate is open.
abbrev pub opens : Option String → Active → Bool
opens none st = true
opens (some skill) st = is_active skill st

abbrev pub load_tool_name : String
load_tool_name = "load_skill"

abbrev pub unload_tool_name : String
unload_tool_name = "unload_skill"

abbrev pub is_meta : String → Bool
is_meta name = name == load_tool_name || name == unload_tool_name

-- `gatedSet`.
pub record GatedSet : Type 0 where
  pub reg : Registry
  pub base : List Def
  pub load : Def
  pub unload : Def

abbrev pub names_of : List Def → List String
names_of [] = []
names_of (d ∷ ds) = d.name ∷ names_of ds

abbrev pub find_def : String → List Def → Option Def
find_def name [] = none
find_def name (d ∷ ds) = if d.name == name then some d else find_def name ds

abbrev pub accepts : List Def → List String → Bool
accepts [] seen = true
accepts (d ∷ ds) seen =
    let rest = accepts ds (d.name ∷ seen) in
    not (is_meta d.name) && not (contains seen d.name) && rest

-- `Bind`; `none` is a panic: the base has a meta tool, or a name twice.
unfoldable pub bind : Registry → List Def → Def → Def → Option GatedSet
bind reg base load unload =
    if accepts base []
    then some (record { reg = reg; base = base; load = load; unload = unload })
    else none

abbrev pub open_tools : Registry → Active → List Def → List Def
open_tools reg st [] = []
open_tools reg st (d ∷ ds) =
    let rest = open_tools reg st ds in if opens (gate_for reg d.name) st then d ∷ rest else rest

-- `Visible`.
unfoldable pub visible : GatedSet → Active → List Def
visible s st = open_tools s.reg st s.base ++ s.load ∷ s.unload ∷ []

-- `Find`: hidden tools too.
unfoldable pub find : GatedSet → String → Option Def
find s name = find_def name (s.base ++ s.load ∷ s.unload ∷ [])

abbrev pub retire_if : Bool → String → Active → Active
retire_if true name st = st
retire_if false name st = deactivate name st

-- Whether the body is still there; a skill that was activated outside a dispatch has no id.
abbrev pub stays : (ToolUseId → Bool) → ToolUseId → Bool
stays present id = id == "" || present id

abbrev pub retire : (ToolUseId → Bool) → Option ToolUseId → String → Active → Active
retire present none name st = st
retire present (some id) name st = retire_if (stays present id) name st

abbrev pub retire_all : (ToolUseId → Bool) → List String → Active → Active
retire_all present [] st = st
retire_all present (name ∷ names) st =
    retire_all present names (retire present (body_of name st) name st)

-- `Reconcile`.
unfoldable pub reconcile : (ToolUseId → Bool) → Active → Active
unfolding deactivate
reconcile present st = retire_all present (active_names st) st

-- The middleware: the call goes through, or is refused for want of a skill.
pub data Guarded : Type 0 where
  passed : Guarded
  needs_skill : String → String → Guarded

abbrev pub guard_gate : Option String → String → Active → Guarded
guard_gate none tool st = passed
guard_gate (some skill) tool st = if is_active skill st then passed else needs_skill tool skill

unfoldable pub guard : Registry → String → Active → Guarded
guard reg tool st = if is_meta tool then passed else guard_gate (gate_for reg tool) tool st

-- What the meta tools return.
pub data Observation : Type 0 where
  unknown_skill : String → Observation
  already_loaded : String → Observation
  loaded_body : String → Observation
  not_active : String → Observation
  unloaded : String → Observation

abbrev pub load_known : Bool → Skill → String → ToolUseId → Active → Observation × Active
load_known true s name use_id st = (already_loaded name, st)
load_known false s name use_id st = (loaded_body s.body, activate name use_id st)

abbrev pub load_found : Option Skill → Bool → String → ToolUseId → Active → Observation × Active
load_found none active name use_id st = (unknown_skill name, st)
load_found (some s) active name use_id st = load_known active s name use_id st

-- The handler of load_skill; `name` is trimmed.
unfoldable pub load_skill : Registry → String → ToolUseId → Active → Observation × Active
unfolding activate
load_skill reg name use_id st =
    load_found (skill_named name reg.skills) (is_active name st) name use_id st

abbrev pub unload_known : Bool → String → Active → Observation × Active
unload_known false name st = (not_active name, st)
unload_known true name st = (unloaded name, deactivate name st)

abbrev pub unload_found : Option Skill → Bool → String → Active → Observation × Active
unload_found none active name st = (unknown_skill name, st)
unload_found (some s) active name st = unload_known active name st

-- The handler of unload_skill.
unfoldable pub unload_skill : Registry → String → Active → Observation × Active
unfolding deactivate
unload_skill reg name st = unload_found (skill_named name reg.skills) (is_active name st) name st
