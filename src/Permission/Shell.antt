-- ===== src/Permission/Shell.antt =====
-- permission/safe.go: `SafeCommands`, the allow list for shell commands.
pub mod Matching
pub mod Stages
pub mod Pieces
pub mod Soundness
use wombat_go.Common.{
  ℕ, String, Bool, true, false, not, ◌&&◌, ◌||◌, List, [], ◌∷◌, ◌++◌, map, Option, none, some,
  is_empty, length, leb, ◌=?◌, codes, if◌then◌else◌,
}
use wombat_go.Tool.{cap_exec, intersects}
use wombat_go.Paths.{
  Text, text_eq, has_code, slash, trim, trim_space, split_on, dot_dot, is_abs, clean,
}
use wombat_go.Permission.{Decision, undecided, allow, Reason, silent, safe_command, Request, Rule}
use wombat_go.Permission.Rules.{Decode, string_arg, resolve, contains_path}

unfoldable pub default_safe_commands : List String
default_safe_commands =
    "go build" ∷ "go test" ∷ "go vet" ∷ "go fmt" ∷ "go list" ∷ "go doc" ∷ "go env" ∷ "gofmt" ∷ "ls"
    ∷ "pwd" ∷ "cat" ∷ "head" ∷ "tail" ∷ "wc" ∷ "find" ∷ "grep" ∷ "stat" ∷ "file" ∷ "du" ∷ "df"
    ∷ "date" ∷ "echo" ∷ "which" ∷ "git status" ∷ "git log" ∷ "git diff" ∷ "git show" ∷ "git branch"
    ∷ []

-- `shellMetacharacters`, and the same without the pipe.
abbrev pub shell_metacharacters_no_pipe : Text
shell_metacharacters_no_pipe = b';' ∷ b'&' ∷ b'`' ∷ b'$' ∷ b'(' ∷ b')' ∷ b'<' ∷ b'>' ∷ 10 ∷ 13 ∷ []

abbrev pub pipe : ℕ
pipe = b'|'

abbrev pub tilde : ℕ
tilde = b'~'

abbrev pub unsafe_flags : List Text
unsafe_flags =
    codes "-exec"
    ∷ codes "-execdir"
    ∷ codes "-ok"
    ∷ codes "-okdir"
    ∷ codes "-delete"
    ∷ codes "-fprint"
    ∷ codes "-fprintf"
    ∷ codes "-fls"
    ∷ []

abbrev pub has_text : List Text → Text → Bool
has_text [] t = false
has_text (x ∷ xs) t = text_eq x t || has_text xs t

-- `strings.ContainsAny`.
abbrev pub contains_any : Text → Text → Bool
contains_any [] chars = false
contains_any (c ∷ s) chars = has_code c chars || contains_any s chars

-- `strings.Contains(cmd, "||")`.
unfoldable pub has_double : ℕ → Text → Bool
has_double c [] = false
has_double c (x ∷ []) = false
has_double c (x ∷ y ∷ s) = ((x =? c) && (y =? c)) || has_double c (y ∷ s)

abbrev pub is_blank : ℕ → Bool
is_blank c = (c =? 0x20) || (c =? 9)

-- The field that is being read goes out at a blank or at the end, unless it is empty.
abbrev pub end_field : Text → List Text → List Text
end_field cur fields = if is_empty cur then fields else cur ∷ fields

-- `shellWords`: `strings.FieldsFunc` at space and tab.
unfoldable pub words_from : Text → Text → List Text
words_from cur [] = end_field cur []
words_from cur (c ∷ s) = elim (is_blank c) [
  | true ↦ end_field cur (words_from [] s)
  | false ↦ words_from (cur ++ c ∷ []) s
]

unfoldable pub shell_words : Text → List Text
unfolding words_from
shell_words s = words_from [] s

abbrev pub join_words : List Text → Text
join_words [] = []
join_words (w ∷ []) = w
join_words (w ∷ v ∷ ws) = w ++ 0x20 ∷ join_words (v ∷ ws)

-- The words but the whole token "2>&1".
unfoldable pub drop_fd_dup : List Text → List Text
drop_fd_dup [] = []
drop_fd_dup (w ∷ ws) = if text_eq w (codes "2>&1") then drop_fd_dup ws else w ∷ drop_fd_dup ws

-- The stages, trimmed; none may be empty.
unfoldable pub trim_stages : List Text → Option (List Text)
trim_stages [] = some []
trim_stages (seg ∷ segs) =
    if is_empty (trim_space seg)
    then none
    else elim (trim_stages segs) [ none ↦ none | some out ↦ some (trim_space seg ∷ out) ]

unfoldable pub pipeline : Text → Option (List Text)
unfolding has_double shell_words drop_fd_dup trim_stages
pipeline cmd =
    let stripped = join_words (drop_fd_dup (shell_words cmd)) in
    if has_double pipe cmd
    then none
    else if contains_any stripped (tilde ∷ [])
    then none
    else if contains_any stripped shell_metacharacters_no_pipe
    then none
    else trim_stages (split_on pipe stripped)

-- Every word of the entry, in order, at the start of `words`.
abbrev pub is_word_prefix : List Text → List Text → Bool
is_word_prefix [] words = true
is_word_prefix (w ∷ ws) [] = false
is_word_prefix (w ∷ ws) (v ∷ vs) = text_eq v w && is_word_prefix ws vs

-- `best` is empty where it is nil in the code: no entry is empty.
unfoldable pub longest_from : List Text → List (List Text) → List Text → List Text
longest_from best [] words = best
longest_from best (entry ∷ allowed) words =
    longest_from
      (if not (leb (length entry) (length best)) && is_word_prefix entry words then entry else best)
      allowed words

unfoldable pub longest_prefix_match : List (List Text) → List Text → List Text
unfolding longest_from
longest_prefix_match allowed words = longest_from [] allowed words

abbrev pub is_quote : ℕ → Bool
is_quote c = (c =? 0x27) || (c =? 0x22)

-- What follows the first '='.
unfoldable pub after_equals : Text → Option Text
after_equals [] = none
after_equals (c ∷ s) = if c =? b'=' then some s else after_equals s

unfoldable pub path_candidates : Text → List Text
unfolding after_equals
path_candidates bare = elim (after_equals bare) [
  | none ↦ bare ∷ []
  | some rest ↦ bare ∷ trim is_quote rest ∷ []
]

unfoldable pub safe_candidate : Text → Text → Bool
safe_candidate root cand =
    is_empty cand
    || (not (has_text (split_on slash cand) dot_dot)
        && not (is_abs cand && not (contains_path root (clean cand))))

abbrev pub all_safe : Text → List Text → Bool
all_safe root [] = true
all_safe root (c ∷ cs) = safe_candidate root c && all_safe root cs

unfoldable pub safe_word : Text → Text → Bool
unfolding safe_candidate path_candidates
safe_word root word =
    let bare = trim is_quote word in
    not (has_text unsafe_flags bare) && all_safe root (path_candidates bare)

abbrev pub safe_words : Text → List Text → Bool
safe_words root [] = true
safe_words root (w ∷ ws) = safe_word root w && safe_words root ws

-- The loop over the stages: the entries that matched, or `none`.
unfoldable pub check_stages : Text → List (List Text) → List Text → Option (List (List Text))
check_stages root allowed [] = some []
check_stages root allowed (seg ∷ segs) =
    let words = shell_words seg in
    let m = longest_prefix_match allowed words in
    let rest = check_stages root allowed segs in
    if is_empty m || not (safe_words root words)
    then none
    else elim rest [ none ↦ none | some matched ↦ some (m ∷ matched) ]

-- The entries as words; an entry without words is left out.
unfoldable pub tokenized : List Text → List (List Text)
tokenized [] = []
tokenized (e ∷ es) = if is_empty (shell_words e) then tokenized es else shell_words e ∷ tokenized es

-- `exec_dir`, if it is there, lies in the root.
unfoldable pub exec_dir_ok : Decode → Text → Request → Bool
exec_dir_ok decode root r = elim (string_arg decode r.use_block.input "exec_dir") [
  | none ↦ true
  | some dir ↦ contains_path root (resolve root dir)
]

-- The rule, over the entries of the allow list.
unfoldable pub judge_command : Decode → Text → List (List Text) → Rule
unfolding check_stages exec_dir_ok
judge_command decode root allowed r =
    if not (intersects r.tool.caps cap_exec)
    then (undecided, silent)
    else elim (string_arg decode r.use_block.input "command") [
      | none ↦ (undecided, silent)
      | some cmd ↦ elim (pipeline cmd) [
        | none ↦ (undecided, silent)
        | some segs ↦ elim (check_stages root allowed segs) [
          | none ↦ (undecided, silent)
          | some matched ↦
              if exec_dir_ok decode root r
              then (allow, safe_command cmd matched root)
              else (undecided, silent)
        ]
      ]
    ]

unfoldable pub allow_list : List Text → List (List Text)
unfolding tokenized default_safe_commands
allow_list extra = tokenized (map codes default_safe_commands ++ extra)

unfoldable pub safe_commands : Decode → Text → List Text → Rule
unfolding judge_command
safe_commands decode root extra r = judge_command decode root (allow_list extra) r
