-- ===== src/Permission/Shell/Pieces.antt =====
-- `pipeline`: how it takes a command line apart.
use wombat_go.Common.{
  Bool, true, false, ◌≡◌, refl, sym, ap, ◌∙◌, subst, List, [], ◌∷◌, ◌++◌, arith, some, is_empty,
  Bool-cases, Option-cases, inl, inr, reverse, reverse-cons, reverse-reverse, append_assoc,
  append-nil, ◌=?◌, codes, ◌⊎◌, some-injective, if◌then◌else◌,
}
use wombat_go.Sse.Scanning.{split_on-cases}
use wombat_go.Paths.{Text, text_eq, trim_left, trim, trim_space, extend_first, split_on, is_space}
use wombat_go.Paths.Elements.{text_eq→eq}
use wombat_go.Permission.Shell.{
  words_from, is_blank, end_field, pipe, join_words, drop_fd_dup, shell_words, trim_stages,
  pipeline,
}

-- What is not blank.
abbrev pub visible : Text → Text
visible [] = []
visible (c ∷ s) = let rest = visible s in if is_space c then rest else c ∷ rest

-- Stages with a pipe between any two.
abbrev pub piped : List Text → Text
piped [] = []
piped (s ∷ []) = s
piped (s ∷ t ∷ segs) = s ++ pipe ∷ piped (t ∷ segs)

abbrev pub flat : List Text → Text
flat [] = []
flat (w ∷ ws) = w ++ flat ws

visible-append : (s t : Text) → visible (s ++ t) ≡ visible s ++ visible t
visible-append [] t = refl
visible-append (c ∷ s) t = ground (arith, visible-append s t)

visible-reverse : (s : Text) → visible (reverse s) ≡ reverse (visible s)
visible-reverse [] = refl
visible-reverse (c ∷ s) =
    ap visible (reverse-cons c s)
    ∙ visible-append (reverse s) (c ∷ [])
    ∙ on (is_space c) (visible-reverse s)
  where
    on :
        (b : Bool)
        → visible (reverse s) ≡ reverse (visible s)
        → (visible (reverse s) ++ (if b then [] else c ∷ []))
          ≡ reverse (if b then visible s else c ∷ visible s)
    on true ih = append-nil (visible (reverse s)) ∙ ih
    on false ih = ap (λ t. t ++ c ∷ []) ih ∙ sym (reverse-cons c (visible s))

visible-trim_left : (s : Text) → visible (trim_left is_space s) ≡ visible s
unfolding trim_left
visible-trim_left [] = refl
visible-trim_left (c ∷ s) = ground (arith, visible-trim_left s)

visible-trim_space : (s : Text) → visible (trim_space s) ≡ visible s
unfolding trim_space trim
visible-trim_space s =
    let left = trim_left is_space s in
    let right = trim_left is_space (reverse left) in
    visible-reverse right
    ∙ ap reverse (visible-trim_left (reverse left) ∙ visible-reverse left)
    ∙ reverse-reverse (visible left)
    ∙ visible-trim_left s

-- Stages that show the same, one by one.
abbrev SameShown : List Text → List Text → Type 0
SameShown [] [] = Unit
SameShown [] (y ∷ ys) = ⊥
SameShown (x ∷ xs) [] = ⊥
SameShown (x ∷ xs) (y ∷ ys) = (visible x ≡ visible y) × SameShown xs ys

visible-piped : (xs ys : List Text) → SameShown xs ys → visible (piped xs) ≡ visible (piped ys)
unfolding is_space
visible-piped [] [] h = refl
visible-piped [] (y ∷ ys) h = absurd h
visible-piped (x ∷ xs) [] h = absurd h
visible-piped (x ∷ []) (y ∷ []) h = h.0
visible-piped (x ∷ []) (y ∷ z ∷ ys) h = absurd h.1
visible-piped (x ∷ w ∷ xs) (y ∷ []) h = absurd h.1
visible-piped (x ∷ w ∷ xs) (y ∷ z ∷ ys) h =
    visible-append x (pipe ∷ piped (w ∷ xs))
    ∙ ap (λ s. s ++ pipe ∷ visible (piped (w ∷ xs))) h.0
    ∙ ap (λ t. visible y ++ pipe ∷ t) (visible-piped (w ∷ xs) (z ∷ ys) h.1)
    ∙ sym (visible-append y (pipe ∷ piped (z ∷ ys)))

trim_stages-SameShown : (segs out : List Text) → trim_stages segs ≡ some out → SameShown out segs
unfolding trim_stages
trim_stages-SameShown [] out e = subst (λ o. SameShown o []) (some-injective _ _ e) tt
trim_stages-SameShown (seg ∷ segs) out e = elim (Bool-cases (is_empty (trim_space seg))) [
  | inl b ↦ absurd (ground (arith, b))
  | inr b ↦ elim (Option-cases (trim_stages segs)) [
    | inl n ↦ absurd (ground (arith, b, n))
    | inr (rest, n) ↦
        subst (λ o. SameShown o (seg ∷ segs)) {x = trim_space seg ∷ rest} {y = out}
          (some-injective _ _ (ground (arith, b, n)))
          (visible-trim_space seg, trim_stages-SameShown segs rest n)
  ]
]

piped-split_on : (s : Text) → piped (split_on pipe s) ≡ s
piped-split_on [] = refl
piped-split_on (c ∷ s) = starts (piped-split_on s) (split_on-cases pipe s) (c =? pipe) refl
  where
    joins : (a : Text) (l : List Text) → piped (extend_first c (a ∷ l)) ≡ c ∷ piped (a ∷ l)
    joins a [] = refl
    joins a (b ∷ l) = refl

    starts :
        piped (split_on pipe s) ≡ s
        → ((l : Text) × (ls : List Text) × (split_on pipe s ≡ l ∷ ls))
        → (b : Bool) → (c =? pipe) ≡ b
        → piped (if b then [] ∷ split_on pipe s else extend_first c (split_on pipe s)) ≡ c ∷ s
    starts ih (l, ls, e) true b =
        ap (λ ps. piped ([] ∷ ps)) e
        ∙ ap (λ t. pipe ∷ t) (ap piped (sym e) ∙ ih)
        ∙ ap (λ x. x ∷ s) (ground (arith, b))
    starts ih (l, ls, e) false b =
        ap (λ ps. piped (extend_first c ps)) e
        ∙ joins l ls
        ∙ ap (λ t. c ∷ t) (ap piped (sym e) ∙ ih)

visible-join_words : (ws : List Text) → visible (join_words ws) ≡ visible (flat ws)
unfolding is_space
visible-join_words [] = refl
visible-join_words (w ∷ []) = ap visible (sym (append-nil w))
visible-join_words (w ∷ v ∷ ws) =
    visible-append w (0x20 ∷ join_words (v ∷ ws))
    ∙ ap (λ t. visible w ++ t) (visible-join_words (v ∷ ws))
    ∙ sym (visible-append w (flat (v ∷ ws)))

-- The words show the command, but for its blanks.
visible-words_from : (cur s : Text) → visible (flat (words_from cur s)) ≡ visible (cur ++ s)
unfolding words_from is_space
visible-words_from [] [] = refl
visible-words_from (x ∷ cur) [] = refl
visible-words_from cur (c ∷ s) =
    go (is_blank c) refl (visible-words_from [] s) (visible-words_from (cur ++ c ∷ []) s)
  where
    blank : is_blank c ≡ true → visible s ≡ visible (c ∷ s)
    blank e = ground (arith, e)

    visible-end_field :
        (cur : Text) (ws : List Text)
        → visible (flat (end_field cur ws)) ≡ visible cur ++ visible (flat ws)
    visible-end_field [] ws = refl
    visible-end_field (x ∷ cur) ws = visible-append (x ∷ cur) (flat ws)

    go :
        (b : Bool)
        → is_blank c ≡ b
        → visible (flat (words_from [] s)) ≡ visible s
        → visible (flat (words_from (cur ++ c ∷ []) s)) ≡ visible ((cur ++ c ∷ []) ++ s)
        → visible (
            flat (elim b as (λ x. List Text) [
              | true ↦ end_field cur (words_from [] s)
              | false ↦ words_from (cur ++ c ∷ []) s
            ]))
          ≡ visible (cur ++ c ∷ s)
    go true e k l =
        visible-end_field cur (words_from [] s)
        ∙ ap (λ t. visible cur ++ t) (k ∙ blank e)
        ∙ sym (visible-append cur (c ∷ s))
    go false e k l = l ∙ ap visible (append_assoc cur (c ∷ []) s)

-- The words that are kept when the token "2>&1", and nothing else, is taken out.
abbrev pub IsWithoutDup : List Text → List Text → Type 0
IsWithoutDup [] [] = Unit
IsWithoutDup [] (k ∷ kept) = ⊥
IsWithoutDup (w ∷ words) [] = (w ≡ codes "2>&1") × IsWithoutDup words []
IsWithoutDup (w ∷ words) (k ∷ kept) =
    ((w ≡ codes "2>&1") × IsWithoutDup words (k ∷ kept))
    ⊎ ((w ≡ k) × (text_eq w (codes "2>&1") ≡ false) × IsWithoutDup words kept)

drop_fd_dup-IsWithoutDup : (words : List Text) → IsWithoutDup words (drop_fd_dup words)
unfolding drop_fd_dup
drop_fd_dup-IsWithoutDup [] = tt
drop_fd_dup-IsWithoutDup (w ∷ words) = elim (Bool-cases (text_eq w (codes "2>&1"))) [
  | inl e ↦
      rw e (
        dropped (drop_fd_dup words) (text_eq→eq w (codes "2>&1") e)
          (drop_fd_dup-IsWithoutDup words))
  | inr e ↦ rw e (inr (refl, e, drop_fd_dup-IsWithoutDup words))
]
  where
    dropped :
        (kept : List Text)
        → w ≡ codes "2>&1"
        → IsWithoutDup words kept
        → IsWithoutDup (w ∷ words) kept
    dropped [] e h = (e, h)
    dropped (k ∷ kept) e h = inl (e, h)

-- The stages of a command line: its words, which show all of it, but for the token "2>&1", cut at
-- the pipes.
abbrev pub IsCutOf : Text → List Text → Type 0
IsCutOf cmd segs =
    (words : List Text) × (kept : List Text) × (visible (flat words) ≡ visible cmd)
    × IsWithoutDup words kept
    × (visible (piped segs) ≡ visible (flat kept))

pub pipeline-IsCutOf : (cmd : Text) (segs : List Text) → pipeline cmd ≡ some segs → IsCutOf cmd segs
unfolding pipeline
pipeline-IsCutOf cmd segs e =
    let line = join_words (drop_fd_dup (shell_words cmd)) in
    let stages : trim_stages (split_on pipe line) ≡ some segs = ground arith in
    (
      shell_words cmd,
      drop_fd_dup (shell_words cmd),
      unfold shell_words in visible-words_from [] cmd,
      drop_fd_dup-IsWithoutDup (shell_words cmd),
      visible-piped segs (split_on pipe line)
            (trim_stages-SameShown (split_on pipe line) segs stages)
          ∙ ap visible (piped-split_on line)
          ∙ visible-join_words (drop_fd_dup (shell_words cmd)),
    )
