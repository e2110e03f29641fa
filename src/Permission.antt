-- ===== src/Permission.antt =====
-- permission/policy.go: verdicts, rules and the evaluation of a policy.
--
-- A reason is its format string, as a constructor, with the arguments that the code puts in.
pub mod Gate
pub mod Rules
pub mod Shell
pub mod Workspace
pub mod Deciding
mod Examples
use wombat_go.Common.{
  String, Bool, true, false, List, [], ◌∷◌, Option, none, some, if◌then◌else◌, ℕ,
}
use wombat_go.Tool.{Cap, Def, ToolUse}
use wombat_go.Paths.{Text}

pub data Decision : Type 0 where
  undecided allow deny ask : Decision

pub data Reason : Type 0 where
  approver_error : String → Reason
  no_verdict silent default_allow default_deny default_ask no_default : Reason
  only_reads orchestration self_contained_read : Reason
  on_allow_list on_deny_list : String → Reason
  always_confirmed caps_refused : String → Cap → Reason
  shell_is_opaque : String → Text → Reason
  outside_root : Text → Text → Reason
  inside_root : List Text → Text → Reason
  safe_command : Text → List (List Text) → Text → Reason

pub record Request : Type 0 where
  pub tool : Def
  pub use_block : ToolUse
  pub reason : Reason

-- A rule together with the context that it is given: a policy passes one context to all its rules.
abbrev pub Rule : Type 0
Rule = Request → Decision × Reason

abbrev pub is_undecided : Decision → Bool
is_undecided undecided = true
is_undecided allow = false
is_undecided deny = false
is_undecided ask = false

-- A nil rule is `none`.
pub record Policy : Type 0 where
  pub rules : List (Option Rule)
  pub default : Decision

-- The `switch p.Default`.
unfoldable pub fallback : Decision → Decision × Reason
fallback allow = (allow, default_allow)
fallback deny = (deny, default_deny)
fallback ask = (ask, default_ask)
fallback undecided = (deny, no_default)

unfoldable pub decide_rules : List (Option Rule) → Decision → Request → Decision × Reason
unfolding fallback
decide_rules [] default r = fallback default
decide_rules (none ∷ rules) default r = decide_rules rules default r
decide_rules (some rule ∷ rules) default r =
    if is_undecided (rule r).0 then decide_rules rules default r else rule r

unfoldable pub decide : Policy → Request → Decision × Reason
unfolding decide_rules
decide p r = decide_rules p.rules p.default r
