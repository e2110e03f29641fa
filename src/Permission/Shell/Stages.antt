-- ===== src/Permission/Shell/Stages.antt =====
-- `pipeline`: what the text of a stage can be.
use wombat_go.Common.{
  ℕ, Bool, false, ◌||◌, ◌≡◌, refl, ap, ◌∙◌, subst, List, [], ◌∷◌, ◌++◌, arith, some, is_empty, All,
  inl, inr, Bool-cases, Option-cases, reverse, reverse-cons, ◌=?◌, some-injective,
}
use wombat_go.Paths.{Text, has_code, trim_left, trim, trim_space, extend_first, split_on, is_space}
use wombat_go.Permission.Shell.{
  contains_any, shell_metacharacters_no_pipe, pipe, tilde, join_words, drop_fd_dup, shell_words,
  trim_stages, pipeline,
}

-- A text without any of the characters.
abbrev pub Free : Text → Text → Type 0
Free chars s = contains_any s chars ≡ false

contains_any-append :
    (s t chars : Text)
    → contains_any (s ++ t) chars ≡ (contains_any s chars || contains_any t chars)
contains_any-append [] t chars = refl
contains_any-append (c ∷ s) t chars = ground (arith, contains_any-append s t chars)

contains_any-reverse : (s chars : Text) → contains_any (reverse s) chars ≡ contains_any s chars
contains_any-reverse [] chars = refl
contains_any-reverse (c ∷ s) chars =
    ap (λ t. contains_any t chars) (reverse-cons c s)
    ∙ ground (arith, contains_any-append (reverse s) (c ∷ []) chars, contains_any-reverse s chars)

trim_left-Free : (p : ℕ → Bool) (s chars : Text) → Free chars s → Free chars (trim_left p s)
unfolding trim_left
trim_left-Free p [] chars h = refl
trim_left-Free p (c ∷ s) chars h = ground (arith, trim_left-Free p s chars)

trim-Free : (p : ℕ → Bool) (s chars : Text) → Free chars s → Free chars (trim p s)
unfolding trim
trim-Free p s chars h =
    contains_any-reverse (trim_left p (reverse (trim_left p s))) chars
    ∙ trim_left-Free p (reverse (trim_left p s)) chars
        (contains_any-reverse (trim_left p s) chars ∙ trim_left-Free p s chars h)

extend_first-Free :
    (c : ℕ) (ps : List Text) (chars : Text)
    → has_code c chars ≡ false
    → All (Free chars) ps
    → All (Free chars) (extend_first c ps)
extend_first-Free c [] chars n h = (ground arith, tt)
extend_first-Free c (p ∷ ps) chars n h = (ground (arith, h.0), h.1)

split_on-Free : (sep : ℕ) (s chars : Text) → Free chars s → All (Free chars) (split_on sep s)
split_on-Free sep [] chars h = (refl, tt)
split_on-Free sep (c ∷ s) chars h = elim (Bool-cases (c =? sep)) [
  | inl e ↦ rw e (refl, split_on-Free sep s chars (ground arith))
  | inr e ↦ rw e (
      extend_first-Free c (split_on sep s) chars (ground arith)
        (split_on-Free sep s chars (ground arith)))
]

split_on-Free_sep : (sep : ℕ) (s : Text) → All (Free (sep ∷ [])) (split_on sep s)
split_on-Free_sep sep [] = (refl, tt)
split_on-Free_sep sep (c ∷ s) = elim (Bool-cases (c =? sep)) [
  | inl e ↦ rw e (refl, split_on-Free_sep sep s)
  | inr e ↦ rw e (
      extend_first-Free c (split_on sep s) (sep ∷ []) (ground (arith, e)) (split_on-Free_sep sep s))
]

trim_stages-Free :
    (segs out : List Text) (chars : Text)
    → trim_stages segs ≡ some out
    → All (Free chars) segs
    → All (Free chars) out
unfolding trim_stages
trim_stages-Free [] out chars e h = subst (All (Free chars)) (some-injective _ _ e) tt
trim_stages-Free (seg ∷ segs) out chars e h = elim (Bool-cases (is_empty (trim_space seg))) [
  | inl b ↦ absurd (ground (arith, b))
  | inr b ↦ elim (Option-cases (trim_stages segs)) [
    | inl n ↦ absurd (ground (arith, b, n))
    | inr (rest, n) ↦
        subst (All (Free chars)) {x = trim_space seg ∷ rest} {y = out}
          (some-injective _ _ (ground (arith, b, n)))
          (
            unfold trim_space in trim-Free is_space seg chars h.0,
            trim_stages-Free segs rest chars n h.1,
          )
  ]
]

-- The stages that `pipeline` returns hold none of the shell's metacharacters, no '~' and no pipe:
-- what runs is what the text shows.
pub pipeline-Free :
    (cmd : Text) (segs : List Text)
    → pipeline cmd ≡ some segs
    → All (Free shell_metacharacters_no_pipe) segs
      × All (Free (tilde ∷ [])) segs
      × All (Free (pipe ∷ [])) segs
unfolding pipeline
pipeline-Free cmd segs e =
    let line = join_words (drop_fd_dup (shell_words cmd)) in
    let stages : trim_stages (split_on pipe line) ≡ some segs = ground arith in
    (
      trim_stages-Free (split_on pipe line) segs shell_metacharacters_no_pipe stages
          (split_on-Free pipe line shell_metacharacters_no_pipe (ground arith)),
      trim_stages-Free (split_on pipe line) segs (tilde ∷ []) stages
          (split_on-Free pipe line (tilde ∷ []) (ground arith)),
      trim_stages-Free (split_on pipe line) segs (pipe ∷ []) stages (split_on-Free_sep pipe line),
    )
