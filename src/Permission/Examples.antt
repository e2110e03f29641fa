-- ===== src/Permission/Examples.antt =====
-- The rules on concrete calls: a workspace at /w, a tool that reads files, and a shell.
use wombat_go.Common.{
  true, false, ◌&&◌, ◌≡◌, refl, ◌⊎◌, List, [], ◌∷◌, none, some, is_empty, All, codes, ◌==◌, ◌=?◌,
  if◌then◌else◌,
}
use wombat_go.Tool.{cap_read_only, cap_exec, cap_meta, intersects}
use wombat_go.Paths.{Text, is_abs, join, trim_space, render_rooted}
use wombat_go.Paths.Elements.{IsElement}
use wombat_go.Permission.{allow, silent, Request, decide}
use wombat_go.Permission.Rules.{
  Decode, string_arg, string_field, extract_paths, contains_path, fs_root,
}
use wombat_go.Permission.Rules.Containment.{IsRoot, Under, contains_path-slash_root, fs_root-Under}
use wombat_go.Permission.Shell.{
  pipeline, longest_prefix_match, safe_word, allow_list, safe_commands,
}
use wombat_go.Permission.Shell.Pieces.{IsCutOf}
use wombat_go.Permission.Shell.Soundness.{IsDirUnder, IsSafe, safe_commands-allow}
use wombat_go.Permission.Workspace.{workspace, workspace-allow}

-- The two inputs that the examples use, decoded.
abbrev decode : Decode
decode input =
    if input == "{\"path\":\"a/../b\"}"
    then some (("path", some (codes "a/../b")) ∷ [])
    else if input == "{\"command\":\"ls | wc\"}"
    then some (("command", some (codes "ls | wc")) ∷ [])
    else none

abbrev root : Text
root = codes "/w"

abbrev elements : List Text
elements = codes "w" ∷ []

root-IsElement : IsElement (codes "w")
root-IsElement = record { some_code = refl; not_dot = refl; not_dot_dot = refl; no_slash = refl }

file-IsElement : IsElement (codes "b")
file-IsElement = record { some_code = refl; not_dot = refl; not_dot_dot = refl; no_slash = refl }

root-IsRoot : IsRoot root elements
root-IsRoot = record { rendered = refl; elements = (root-IsElement, tt) }

abbrev read : Request
read = record {
  tool = record { name = "read_file"; caps = 1; needs = 1 };
  use_block = record { id = "t1"; name = "read_file"; input = "{\"path\":\"a/../b\"}" };
  reason = silent;
}

abbrev run : Request
run = record {
  tool = record { name = "bash"; caps = 4; needs = 4 };
  use_block = record { id = "t2"; name = "bash"; input = "{\"command\":\"ls | wc\"}" };
  reason = silent;
}

fs_root-Under_example :
    (intersects read.tool.caps cap_exec ≡ false)
    × (is_empty (extract_paths decode read.use_block.input) ≡ false)
    × All (Under root elements) (extract_paths decode read.use_block.input)
unfolding intersects string_field trim_space is_abs join fs_root
fs_root-Under_example = fs_root-Under decode root elements read root-IsRoot refl

contains_path-slash_root_example :
    contains_path (render_rooted []) (render_rooted (codes "w" ∷ codes "b" ∷ [])) ≡ false
contains_path-slash_root_example =
    contains_path-slash_root (codes "w") (codes "b" ∷ []) (root-IsElement, (file-IsElement, tt))

safe_commands-allow_example :
    (intersects run.tool.caps cap_exec ≡ true)
    × IsDirUnder decode root elements run
    × ((cmd : Text) × (segs : List Text) × (string_arg decode run.use_block.input "command"
          ≡ some cmd)
        × IsCutOf cmd segs
        × All (IsSafe root elements (allow_list [])) segs)
unfolding intersects string_arg trim_space pipeline longest_prefix_match safe_word is_abs
    safe_commands allow_list
safe_commands-allow_example = safe_commands-allow root elements root-IsRoot decode [] run refl

workspace-allow_example :
    (intersects read.tool.caps cap_meta ≡ true)
    ⊎ (((read.tool.caps =? cap_read_only) && (read.tool.needs =? 0) ≡ true)
        ⊎ (((safe_commands decode root [] read).0 ≡ allow)
            ⊎ ((intersects read.tool.caps cap_exec ≡ false)
                × (is_empty (extract_paths decode read.use_block.input) ≡ false)
                × All (Under root elements) (extract_paths decode read.use_block.input))))
unfolding intersects string_field trim_space is_abs join decide workspace
workspace-allow_example = workspace-allow decode root read elements root-IsRoot refl
