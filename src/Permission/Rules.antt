-- ===== src/Permission/Rules.antt =====
-- permission/rules.go and the ready-made policies of permission/policy.go.
--
-- `decode` is `json.Unmarshal` of a call's input into a map: `none` for what is no JSON object,
-- otherwise its keys, each with its value if that is a string. `AllowHosts` is not modelled.
pub mod Containment
use wombat_go.Common.{
  String, Bool, true, false, not, ◌&&◌, ◌||◌, List, [], ◌∷◌, ◌++◌, Option, none, some, is_empty,
  contains, ◌==◌, ◌=?◌, if◌then◌else◌,
}
use wombat_go.Llm.{RawMessage}
use wombat_go.Tool.{Cap, cap_read_only, cap_exec, intersects, Def, ToolUse}
use wombat_go.Paths.{Text, text_eq, has_prefix, slash, trim_space, is_abs, clean, join}
use wombat_go.Permission.{
  Decision, undecided, allow, deny, ask, Reason, silent, only_reads, self_contained_read,
  on_allow_list, on_deny_list, always_confirmed, caps_refused, shell_is_opaque, outside_root,
  inside_root, Request, Rule, Policy,
}

abbrev pub Decode : Type 0
Decode = RawMessage → Option (List (String × Option Text))

unfoldable pub allow_tools : List String → Rule
allow_tools names r =
    if contains names r.tool.name then (allow, on_allow_list r.tool.name) else (undecided, silent)

unfoldable pub deny_tools : List String → Rule
deny_tools names r =
    if contains names r.tool.name then (deny, on_deny_list r.tool.name) else (undecided, silent)

unfoldable pub ask_for : Cap → Rule
ask_for caps r =
    if intersects r.tool.caps caps
    then (ask, always_confirmed r.tool.name caps)
    else (undecided, silent)

unfoldable pub deny_caps : Cap → Rule
deny_caps caps r =
    if intersects r.tool.caps caps
    then (deny, caps_refused r.tool.name caps)
    else (undecided, silent)

-- `allowCaps`, with the reason that its caller gives.
unfoldable pub allow_caps : Cap → Reason → Rule
allow_caps caps why r = if intersects r.tool.caps caps then (allow, why) else (undecided, silent)

unfoldable pub self_contained : Rule
self_contained r =
    if (r.tool.caps =? cap_read_only) && (r.tool.needs =? 0)
    then (allow, self_contained_read)
    else (undecided, silent)

-- The keys that are read as paths, in order.
abbrev pub path_args : List String
path_args = "path" ∷ "file" ∷ "dir" ∷ "exec_dir" ∷ "cwd" ∷ "dest" ∷ "src" ∷ []

-- `none`: the key is missing, or its value is no string.
unfoldable pub find_string : List (String × Option Text) → String → Option Text
find_string [] key = none
find_string ((k, v) ∷ obj) key = if k == key then v else find_string obj key

unfoldable pub string_field : List (String × Option Text) → String → Option Text
unfolding find_string
string_field obj key = elim (find_string obj key) [
  | none ↦ none
  | some s ↦ if is_empty (trim_space s) then none else some (trim_space s)
]

unfoldable pub paths_of : List (String × Option Text) → List String → List Text
paths_of obj [] = []
paths_of obj (key ∷ keys) = elim (string_field obj key) [
  | none ↦ paths_of obj keys
  | some p ↦ p ∷ paths_of obj keys
]

unfoldable pub string_arg : Decode → RawMessage → String → Option Text
unfolding string_field
string_arg decode input key =
    if input == ""
    then none
    else elim (decode input) [ none ↦ none | some obj ↦ string_field obj key ]

unfoldable pub extract_paths : Decode → RawMessage → List Text
unfolding paths_of
extract_paths decode input =
    if input == ""
    then []
    else elim (decode input) [ none ↦ [] | some obj ↦ paths_of obj path_args ]

-- `filepath.Abs` in the directory `cwd`, which is `none` where there is none.
unfoldable pub absolute : Option Text → Text → Option Text
absolute cwd p =
    if is_abs p then some (clean p) else elim cwd [ none ↦ none | some dir ↦ some (join dir p) ]

-- The root that a rule is built with; `none` is a panic.
unfoldable pub root_dir : Option Text → Text → Option Text
unfolding absolute
root_dir cwd root =
    if is_empty (trim_space root)
    then none
    else elim (absolute cwd root) [ none ↦ none | some p ↦ some (clean p) ]

unfoldable pub resolve : Text → Text → Text
resolve root p = if not (is_abs p) then join root p else clean p

unfoldable pub contains_path : Text → Text → Bool
contains_path root path = text_eq path root || has_prefix (root ++ slash ∷ []) path

unfoldable pub check_paths : Text → List Text → List Text → Decision × Reason
unfolding contains_path resolve
check_paths root all [] = (allow, inside_root all root)
check_paths root all (p ∷ ps) =
    if not (contains_path root (resolve root p))
    then (deny, outside_root p root)
    else check_paths root all ps

-- `root` is what `root_dir` returned when the rule was built.
unfoldable pub fs_root : Decode → Text → Rule
unfolding check_paths extract_paths
fs_root decode root r =
    let paths = extract_paths decode r.use_block.input in
    if intersects r.tool.caps cap_exec
    then (ask, shell_is_opaque r.tool.name root)
    else if not (intersects r.tool.needs 3)
    then (undecided, silent)
    else if is_empty paths
    then (undecided, silent)
    else check_paths root paths paths

abbrev pub soften : Decision × Reason → Decision × Reason
soften (deny, why) = (ask, why)
soften (undecided, why) = (undecided, why)
soften (allow, why) = (allow, why)
soften (ask, why) = (ask, why)

-- `insideRoot`: a refusal becomes a question.
unfoldable pub inside_root_rule : Decode → Text → Rule
unfolding fs_root
inside_root_rule decode root r = soften (fs_root decode root r)

unfoldable pub read_only_rule : Rule
read_only_rule r = if r.tool.caps =? cap_read_only then (allow, only_reads) else (undecided, silent)

-- `ReadOnly`.
unfoldable pub read_only : Policy
unfolding read_only_rule
read_only = record { rules = some read_only_rule ∷ []; default = deny }

-- `AskEverything`.
unfoldable pub ask_everything : Policy
ask_everything = record { rules = []; default = ask }
