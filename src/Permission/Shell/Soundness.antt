-- ===== src/Permission/Shell/Soundness.antt =====
-- `SafeCommands`: what an allowed command line is made of.
use wombat_go.Common.{
  ℕ, Bool, true, false, not, ◌&&◌, ◌||◌, ◌≡◌, refl, ap, ◌⊎◌, inl, inr, List, [], ◌∷◌, ◌++◌, arith,
  none, some, All, codes, ◌=?◌, Bool-cases, Option-cases,
}
use wombat_go.Tool.{cap_exec, intersects}
use wombat_go.Paths.{Text, has_code, slash, trim, split_on, dot_dot, is_abs}
use wombat_go.Permission.{allow, Request}
use wombat_go.Permission.Rules.{Decode, string_arg, resolve}
use wombat_go.Permission.Rules.Containment.{IsRoot, Under, contains_path-Under}
use wombat_go.Permission.Shell.{
  has_text, contains_any, shell_metacharacters_no_pipe, pipe, tilde, shell_words, is_quote,
  after_equals, path_candidates, safe_candidate, safe_word, safe_words, all_safe, exec_dir_ok,
  safe_commands, allow_list,
}
use wombat_go.Permission.Shell.Matching.{Covered, IsSafeStage, safe_commands-stages}
use wombat_go.Permission.Shell.Stages.{Free, pipeline-Free}
use wombat_go.Permission.Shell.Pieces.{IsCutOf, pipeline-IsCutOf}

-- What a shell reads as more than text: sequence, background, substitution, redirection, the end
-- of a line, the home directory, and a pipe.
abbrev pub special : Text
special = b';' ∷ b'&' ∷ b'`' ∷ b'$' ∷ b'(' ∷ b')' ∷ b'<' ∷ b'>' ∷ 10 ∷ 13 ∷ b'~' ∷ b'|' ∷ []

-- The flags with which `find` runs a program, deletes or writes.
abbrev pub acting_flags : List Text
acting_flags =
    codes "-exec"
    ∷ codes "-execdir"
    ∷ codes "-ok"
    ∷ codes "-okdir"
    ∷ codes "-delete"
    ∷ codes "-fprint"
    ∷ codes "-fprintf"
    ∷ codes "-fls"
    ∷ []

-- A path that does not climb, and that lies under the root if it is absolute.
abbrev pub IsSafePath : Text → List Text → Text → Type 0
IsSafePath root rs p =
    (has_text (split_on slash p) dot_dot ≡ false) × ((is_abs p ≡ false) ⊎ Under root rs p)

-- What follows the first '=' of a word, if there is one, is a safe path too.
abbrev pub IsSafeValue : Text → List Text → Text → Type 0
IsSafeValue root rs bare =
    (has_code b'=' bare ≡ false)
    ⊎ ((name : Text) × (value : Text) × (bare ≡ name ++ b'=' ∷ value)
        × (has_code b'=' name ≡ false)
        × IsSafePath root rs (trim is_quote value))

abbrev pub IsSafeWord : Text → List Text → Text → Type 0
IsSafeWord root rs word =
    (has_text acting_flags (trim is_quote word) ≡ false)
    × IsSafePath root rs (trim is_quote word)
    × IsSafeValue root rs (trim is_quote word)

-- A stage that begins like an entry of the list, is what it shows, and has only safe words.
abbrev pub IsSafe : Text → List Text → List (List Text) → Text → Type 0
IsSafe root rs allowed seg =
    Covered allowed (shell_words seg)
    × (contains_any seg special ≡ false)
    × All (IsSafeWord root rs) (shell_words seg)

-- The directory that a call names, if it names one, lies under the root.
abbrev pub IsDirUnder : Decode → Text → List Text → Request → Type 0
IsDirUnder decode root rs r =
    (string_arg decode r.use_block.input "exec_dir" ≡ none)
    ⊎ ((dir : Text) × (string_arg decode r.use_block.input "exec_dir" ≡ some dir)
        × Under root rs dir)

has_code-append_chars : (c : ℕ) (a b : Text) → has_code c (a ++ b) ≡ (has_code c a || has_code c b)
has_code-append_chars c [] b = refl
has_code-append_chars c (x ∷ a) b = ground (arith, has_code-append_chars c a b)

Free-append : (a b s : Text) → Free a s → Free b s → Free (a ++ b) s
Free-append a b [] h k = refl
Free-append a b (c ∷ s) h k = ground (arith, has_code-append_chars c a b, Free-append a b s)

after_equals-cases :
    (s : Text)
    → ((after_equals s ≡ none) × (has_code b'=' s ≡ false))
      ⊎ ((name : Text) × (value : Text) × (after_equals s ≡ some value)
          × (s ≡ name ++ b'=' ∷ value)
          × (has_code b'=' name ≡ false))
unfolding after_equals
after_equals-cases [] = inl (refl, refl)
after_equals-cases (c ∷ s) = elim (Bool-cases (c =? b'=')) [
  | inl e ↦ inr ([], s, ground (arith, e), ap (λ x. x ∷ s) (ground (arith, e)), refl)
  | inr e ↦ elim (after_equals-cases s) [
    | inl (n, h) ↦ inl (ground (arith, e, n), ground (arith, e, h))
    | inr (name, value, n, same, h) ↦
        inr (c ∷ name, value, ground (arith, e, n), ap (λ t. c ∷ t) same, ground (arith, e, h))
  ]
]

and_left : (a b : Bool) → (a && b) ≡ true → a ≡ true
and_left true b h = refl
and_left false b h = cc h

and_right : (a b : Bool) → (a && b) ≡ true → b ≡ true
and_right true b h = h
and_right false b h = cc h

true_of_not : (a : Bool) → not a ≡ true → a ≡ false
true_of_not true h = cc h
true_of_not false h = refl

whole_candidate :
    (root bare : Text)
    → after_equals bare ≡ none
    → all_safe root (path_candidates bare) ≡ true
    → safe_candidate root bare ≡ true
unfolding path_candidates
whole_candidate root bare e h = ground (arith, e)

two_candidates :
    (root bare value : Text)
    → after_equals bare ≡ some value
    → all_safe root (path_candidates bare) ≡ true
    → (safe_candidate root bare ≡ true) × (safe_candidate root (trim is_quote value) ≡ true)
unfolding path_candidates
two_candidates root bare value e h = ground (arith, e)

module _ (root : Text) (rs : List Text) (v : IsRoot root rs) where
  safe_candidate-IsSafePath : (p : Text) → safe_candidate root p ≡ true → IsSafePath root rs p
  unfolding safe_candidate
  safe_candidate-IsSafePath [] h = (refl, inl (unfold is_abs in refl))
  safe_candidate-IsSafePath (c ∷ p) h = (
    ground arith,
    elim (Bool-cases (is_abs (c ∷ p))) [
      | inl e ↦
          inr (contains_path-Under root rs (c ∷ p) v (unfold resolve in rw e (ground (arith, e))))
      | inr e ↦ inl e
    ],
  )

  safe_word-IsSafeWord : (word : Text) → safe_word root word ≡ true → IsSafeWord root rs word
  unfolding safe_word
  safe_word-IsSafeWord word h =
      let bare = trim is_quote word in
      let candidates : all_safe root (path_candidates bare) ≡ true = and_right _ _ h in
      let acts : has_text acting_flags bare ≡ false = true_of_not _ (and_left _ _ h) in
      elim (after_equals-cases bare) [
        | inl (e, n) ↦
            (acts, safe_candidate-IsSafePath bare (whole_candidate root bare e candidates), inl n)
        | inr (name, value, e, same, n) ↦
            let two = two_candidates root bare value e candidates in
            (
              acts,
              safe_candidate-IsSafePath bare two.0,
              inr (name, value, same, n, safe_candidate-IsSafePath (trim is_quote value) two.1),
            )
      ]

  safe_words-IsSafeWord :
      (words : List Text) → safe_words root words ≡ true → All (IsSafeWord root rs) words
  safe_words-IsSafeWord [] h = tt
  safe_words-IsSafeWord (w ∷ words) h =
      (safe_word-IsSafeWord w (and_left _ _ h), safe_words-IsSafeWord words (and_right _ _ h))

  IsSafeStage-IsSafe :
      (allowed : List (List Text)) (segs : List Text)
      → All (IsSafeStage root allowed) segs
      → All (Free shell_metacharacters_no_pipe) segs
      → All (Free (tilde ∷ [])) segs
      → All (Free (pipe ∷ [])) segs
      → All (IsSafe root rs allowed) segs
  IsSafeStage-IsSafe allowed [] h a b c = tt
  IsSafeStage-IsSafe allowed (seg ∷ segs) h a b c = (
    (
      h.0.0,
      Free-append shell_metacharacters_no_pipe (tilde ∷ pipe ∷ []) seg a.0
          (Free-append (tilde ∷ []) (pipe ∷ []) seg b.0 c.0),
      safe_words-IsSafeWord (shell_words seg) h.0.1,
    ),
    IsSafeStage-IsSafe allowed segs h.1 a.1 b.1 c.1,
  )

  exec_dir_ok-IsDirUnder :
      (decode : Decode) (r : Request)
      → exec_dir_ok decode root r ≡ true
      → IsDirUnder decode root rs r
  unfolding exec_dir_ok
  exec_dir_ok-IsDirUnder decode r h =
      elim (Option-cases (string_arg decode r.use_block.input "exec_dir")) [
        | inl e ↦ inl e
        | inr (dir, e) ↦ inr (dir, e, contains_path-Under root rs dir v (ground (arith, e)))
      ]

  -- What `SafeCommands` allows under a clean absolute root is the call of a tool that runs
  -- commands. The directory that it names, if it names one, lies under the root. Its command is,
  -- but for blanks and the token "2>&1", a line of stages with pipes between them; each stage
  -- begins with the words of an entry of the allow list and holds none of ; & ` $ ( ) < > ~ | and
  -- no end of a line. No word of it, without its quotes, is a flag with which `find` acts; and
  -- neither such a word nor what follows its first '=' has an element ".." or is an absolute path
  -- outside the root.
  pub safe_commands-allow :
      (decode : Decode) (extra : List Text) (r : Request)
      → (safe_commands decode root extra r).0 ≡ allow
      → (intersects r.tool.caps cap_exec ≡ true)
        × IsDirUnder decode root rs r
        × ((cmd : Text) × (segs : List Text) × (string_arg decode r.use_block.input "command"
              ≡ some cmd)
            × IsCutOf cmd segs
            × All (IsSafe root rs (allow_list extra)) segs)
  safe_commands-allow decode extra r h =
      let (runs, dir, (cmd, segs, e, cut, stages)) = safe_commands-stages decode root extra r h in
      let free = pipeline-Free cmd segs cut in
      (
        runs,
        exec_dir_ok-IsDirUnder decode r dir,
        (
          cmd,
          segs,
          e,
          pipeline-IsCutOf cmd segs cut,
          IsSafeStage-IsSafe (allow_list extra) segs stages free.0 free.1 free.2,
        ),
      )
