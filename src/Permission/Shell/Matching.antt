-- ===== src/Permission/Shell/Matching.antt =====
-- `longestPrefixMatch`: the stages of a command line and the entries of the allow list.
use wombat_go.Common.{
  Bool, true, false, not, ◌&&◌, ◌≡◌, refl, sym, ◌∙◌, ◌⊎◌, inl, inr, List, [], ◌∷◌, arith, some,
  is_empty, length, leb, All, Option-cases, if◌then◌else◌,
}
use wombat_go.Tool.{cap_exec, intersects}
use wombat_go.Paths.{Text}
use wombat_go.Permission.{undecided, allow, Request}
use wombat_go.Permission.Rules.{Decode, string_arg}
use wombat_go.Permission.Shell.{
  is_word_prefix, safe_words, shell_words, longest_from, longest_prefix_match, check_stages,
  exec_dir_ok, pipeline, safe_commands, judge_command, allow_list,
}

abbrev pub IsMember : List Text → List (List Text) → Type 0
IsMember e [] = ⊥
IsMember e (x ∷ xs) = (x ≡ e) ⊎ IsMember e xs

-- An entry of the allow list whose words begin the words.
abbrev pub Covered : List (List Text) → List Text → Type 0
Covered allowed words =
    (entry : List Text) × (is_empty entry ≡ false)
    × IsMember entry allowed
    × (is_word_prefix entry words ≡ true)

-- A stage of the pipeline that may run.
abbrev pub IsSafeStage : Text → List (List Text) → Text → Type 0
IsSafeStage root allowed seg =
    Covered allowed (shell_words seg) × (safe_words root (shell_words seg) ≡ true)

longest_from_lem :
    (best : List Text) (allowed : List (List Text)) (words : List Text)
    → (longest_from best allowed words ≡ best)
      ⊎ (IsMember (longest_from best allowed words) allowed
          × (is_word_prefix (longest_from best allowed words) words ≡ true))
unfolding longest_from
longest_from_lem best [] words = inl refl
longest_from_lem best (entry ∷ allowed) words =
    step (λ better. longest_from_lem better allowed words) (not (leb (length entry) (length best)))
      (is_word_prefix entry words) refl
  where
    later :
        ((better : List Text)
          → (longest_from better allowed words ≡ better)
            ⊎ (IsMember (longest_from better allowed words) allowed
                × (is_word_prefix (longest_from better allowed words) words ≡ true)))
        → (better : List Text)
        → (better ≡ best) ⊎ ((better ≡ entry) × (is_word_prefix entry words ≡ true))
        → (longest_from better allowed words ≡ best)
          ⊎ (IsMember (longest_from better allowed words) (entry ∷ allowed)
              × (is_word_prefix (longest_from better allowed words) words ≡ true))
    later ih better c = elim (ih better) [
      | inr (m, p) ↦ inr (inr m, p)
      | inl same ↦ elim c [
        | inl b ↦ inl (same ∙ b)
        | inr (b, w) ↦ inr (inl (sym (same ∙ b)), rw (same ∙ b) w)
      ]
    ]

    step :
        ((better : List Text)
          → (longest_from better allowed words ≡ better)
            ⊎ (IsMember (longest_from better allowed words) allowed
                × (is_word_prefix (longest_from better allowed words) words ≡ true)))
        → (longer fits : Bool) → is_word_prefix entry words ≡ fits
        → (longest_from (if longer && fits then entry else best) allowed words ≡ best)
          ⊎ (IsMember
                (longest_from (if longer && fits then entry else best) allowed words)
                (entry ∷ allowed)
              × (is_word_prefix
                    (longest_from (if longer && fits then entry else best) allowed words)
                    words
                  ≡ true))
    step ih true true e = later ih entry (inr (refl, e))
    step ih true false e = later ih best (inl refl)
    step ih false fits e = later ih best (inl refl)

longest_prefix_match-Covered :
    (allowed : List (List Text)) (words : List Text)
    → is_empty (longest_prefix_match allowed words) ≡ false
    → Covered allowed words
unfolding longest_prefix_match
longest_prefix_match-Covered allowed words h = elim (longest_from_lem [] allowed words) [
  | inl same ↦ absurd (cc (h, same))
  | inr (m, p) ↦ (longest_from [] allowed words, h, m, p)
]

check_stages-IsSafeStage :
    (root : Text) (allowed : List (List Text)) (segs : List Text) (matched : List (List Text))
    → check_stages root allowed segs ≡ some matched
    → All (IsSafeStage root allowed) segs
unfolding check_stages
check_stages-IsSafeStage root allowed [] matched h = tt
check_stages-IsSafeStage root allowed (seg ∷ segs) matched h =
    elim (Option-cases (check_stages root allowed segs)) [
      | inl e ↦ absurd (ground (arith, e))
      | inr (rest, e) ↦ (
        (
          longest_prefix_match-Covered allowed (shell_words seg) (ground (arith, e)),
          ground (arith, e),
        ),
        check_stages-IsSafeStage root allowed segs rest e,
      )
    ]

module _ (decode : Decode) (root : Text) (allowed : List (List Text)) (r : Request) where
  judge_command-cases :
      ((judge_command decode root allowed r).0 ≡ allow)
      ⊎ ((judge_command decode root allowed r).0 ≡ undecided)
  unfolding judge_command
  judge_command-cases = ground arith

  judge_command-allow :
      (judge_command decode root allowed r).0 ≡ allow
      → (intersects r.tool.caps cap_exec ≡ true)
        × (exec_dir_ok decode root r ≡ true)
        × ((cmd : Text) × (segs : List Text) × (string_arg decode r.use_block.input "command"
              ≡ some cmd)
            × (pipeline cmd ≡ some segs)
            × All (IsSafeStage root allowed) segs)
  unfolding judge_command
  judge_command-allow h = elim (Option-cases (string_arg decode r.use_block.input "command")) [
    | inl e ↦ absurd (ground (arith, e))
    | inr (cmd, e) ↦ elim (Option-cases (pipeline cmd)) [
      | inl f ↦ absurd (ground (arith, e, f))
      | inr (segs, f) ↦ elim (Option-cases (check_stages root allowed segs)) [
        | inl g ↦ absurd (ground (arith, e, f, g))
        | inr (matched, g) ↦ (
          ground arith,
          ground (arith, e, f, g),
          (cmd, segs, e, f, check_stages-IsSafeStage root allowed segs matched g),
        )
      ]
    ]
  ]

module _ (decode : Decode) (root : Text) (extra : List Text) (r : Request) where
  -- `SafeCommands` allows or has no opinion.
  pub safe_commands-cases :
      ((safe_commands decode root extra r).0 ≡ allow)
      ⊎ ((safe_commands decode root extra r).0 ≡ undecided)
  unfolding safe_commands
  safe_commands-cases = judge_command-cases decode root (allow_list extra) r

  pub safe_commands-stages :
      (safe_commands decode root extra r).0 ≡ allow
      → (intersects r.tool.caps cap_exec ≡ true)
        × (exec_dir_ok decode root r ≡ true)
        × ((cmd : Text) × (segs : List Text) × (string_arg decode r.use_block.input "command"
              ≡ some cmd)
            × (pipeline cmd ≡ some segs)
            × All (IsSafeStage root (allow_list extra)) segs)
  unfolding safe_commands
  safe_commands-stages h = judge_command-allow decode root (allow_list extra) r h
