-- ===== src/Tool.antt =====
-- tool/tool.go: a tool's definition, as far as the policy reads it.
--
-- A capability mask is a number whose bits are the capabilities, as in the code.
pub mod Dispatch
mod Examples
use Prim.Native.Nat.{bit_and}
use wombat_go.Common.{
  ℕ, String, Bool, not, ◌=?◌, List, [], ◌∷◌, Option, none, some, ◌&&◌, if◌then◌else◌, false,
}
pub use wombat_go.Llm.{ToolUse}

abbrev pub Cap : Type 0
Cap = ℕ

abbrev pub Need : Type 0
Need = ℕ

-- `1 << iota`, in the order of the source.
abbrev pub cap_read_only : Cap
cap_read_only = 1

abbrev pub cap_mutating : Cap
cap_mutating = 2

abbrev pub cap_exec : Cap
cap_exec = 4

abbrev pub cap_network : Cap
cap_network = 8

abbrev pub cap_meta : Cap
cap_meta = 16

abbrev pub cap_pause : Cap
cap_pause = 32

abbrev pub cap_terminal : Cap
cap_terminal = 64

abbrev pub need_fs_read : Need
need_fs_read = 1

abbrev pub need_fs_write : Need
need_fs_write = 2

abbrev pub need_exec : Need
need_exec = 4

abbrev pub need_network : Need
need_network = 8

pub record Def : Type 0 where
  pub name : String
  pub caps : Cap
  pub needs : Need

-- `a & b != 0`.
unfoldable pub intersects : ℕ → ℕ → Bool
intersects a b = not (bit_and a b =? 0)

-- `Def.Has`: every capability of `c`.
unfoldable pub has : Def → Cap → Bool
has d c = bit_and d.caps c =? c

-- The first tool_use whose tool the set has, with the capability: the loop of `FindPause` and of
-- `FindTerminal`. `find` is `Set.Find`.
unfoldable pub find_capable : (String → Option Def) → Cap → List ToolUse → Option ToolUse
unfolding has
find_capable find c [] = none
find_capable find c (u ∷ uses) =
    if elim (find u.name) [ none ↦ false | some d ↦ has d c ]
    then some u
    else find_capable find c uses

unfoldable pub find_pause : (String → Option Def) → List ToolUse → Option ToolUse
unfolding find_capable
find_pause find uses = find_capable find cap_pause uses

unfoldable pub find_terminal : (String → Option Def) → List ToolUse → Option ToolUse
unfolding find_capable
find_terminal find uses = find_capable find cap_terminal uses
