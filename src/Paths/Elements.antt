-- ===== src/Paths/Elements.antt =====
-- An absolute path that `filepath.Clean` returns, as the list of its elements.
use wombat_go.Common.{
  ℕ, true, false, ◌||◌, ◌≡◌, refl, sym, ap, subst, inl, inr, List, [], ◌∷◌, ◌++◌, arith, reverse,
  reverse-cons, append_assoc, is_empty, ◌=?◌, All, Bool-cases, if◌then◌else◌,
}
use wombat_go.Paths.{
  Text, slash, text_eq, has_prefix, has_code, extend_first, split_on, dot, dot_dot, is_abs,
  clean_step, clean_elements, behind_slashes, render_rooted, clean,
}

pub text_eq→eq : (a b : Text) → text_eq a b ≡ true → a ≡ b
text_eq→eq [] [] h = refl
text_eq→eq [] (y ∷ ys) h = cc
text_eq→eq (x ∷ xs) [] h = cc
text_eq→eq (x ∷ xs) (y ∷ ys) h = ground (arith, text_eq→eq xs ys)

pub text_eq_refl : (a : Text) → text_eq a a ≡ true
text_eq_refl [] = refl
text_eq_refl (x ∷ xs) = ground (arith, text_eq_refl xs)

abbrev pub NoSlash : Text → Type 0
NoSlash e = has_code slash e ≡ false

-- An element that `Clean` leaves in an absolute path.
pub record IsElement (e : Text) : Type 0 where
  pub some_code : is_empty e ≡ false
  pub not_dot : text_eq e dot ≡ false
  pub not_dot_dot : text_eq e dot_dot ≡ false
  pub no_slash : NoSlash e

extend_first-NoSlash :
    (c : ℕ) (ps : List Text)
    → (c =? slash) ≡ false
    → All NoSlash ps
    → All NoSlash (extend_first c ps)
extend_first-NoSlash c [] n h = (ground arith, tt)
extend_first-NoSlash c (p ∷ ps) n h = (ground (arith, h.0), h.1)

split_on-NoSlash : (s : Text) → All NoSlash (split_on slash s)
split_on-NoSlash [] = (refl, tt)
split_on-NoSlash (c ∷ s) = elim (Bool-cases (c =? slash)) [
  | inl e ↦ rw e (refl, split_on-NoSlash s)
  | inr e ↦ rw e (extend_first-NoSlash c (split_on slash s) e (split_on-NoSlash s))
]

clean_step-IsElement :
    (kept : List Text) (e : Text)
    → All IsElement kept
    → NoSlash e
    → All IsElement (clean_step true kept e)
unfolding clean_step
clean_step-IsElement kept e k n = elim (Bool-cases (is_empty e || text_eq e dot)) [
  | inl h ↦ rw h k
  | inr h ↦ elim (Bool-cases (text_eq e dot_dot)) [
    | inl up ↦ rw (h, up) (popped kept k)
    | inr down ↦
        rw (h, down)
          (
            record {
              some_code = ground arith;
              not_dot = ground arith;
              not_dot_dot = down;
              no_slash = n;
            },
            k,
          )
  ]
]
  where
    popped :
        (kept : List Text)
        → All IsElement kept
        → All IsElement (elim kept as (λ x. List Text) [
          | [] ↦ if true then [] else dot_dot ∷ []
          | last ∷ rest ↦ if text_eq last dot_dot then dot_dot ∷ last ∷ rest else rest
        ])
    popped [] k = tt
    popped (last ∷ rest) k = rw k.0.not_dot_dot k.1

clean_elements-IsElement :
    (es kept : List Text)
    → All NoSlash es
    → All IsElement kept
    → All IsElement (clean_elements true kept es)
unfolding clean_elements
clean_elements-IsElement [] kept n k = k
clean_elements-IsElement (e ∷ es) kept n k =
    clean_elements-IsElement es (clean_step true kept e) n.1 (clean_step-IsElement kept e k n.0)

All-snoc :
    (xs : List Text) (x : Text) → All IsElement xs → IsElement x → All IsElement (xs ++ x ∷ [])
All-snoc [] x h p = (p, tt)
All-snoc (y ∷ xs) x h p = (h.0, All-snoc xs x h.1 p)

All-reverse : (xs : List Text) → All IsElement xs → All IsElement (reverse xs)
All-reverse [] h = tt
All-reverse (x ∷ xs) h =
    subst (All IsElement) (sym (reverse-cons x xs))
      (All-snoc (reverse xs) x (All-reverse xs h.1) h.0)

-- `Clean` of an absolute path is "/", or its elements each behind a slash; none is empty, "." or
-- ".." or holds a slash.
pub clean_lem :
    (p : Text)
    → is_abs p ≡ true
    → (es : List Text) × (clean p ≡ render_rooted es) × All IsElement es
unfolding clean
clean_lem p h = (
  reverse (clean_elements true [] (split_on slash p)),
  rw h refl,
  All-reverse _ (clean_elements-IsElement (split_on slash p) [] (split_on-NoSlash p) tt),
)

-- Splitting undoes the rendering.
split_on-behind_slashes :
    (e : Text) (es : List Text)
    → NoSlash e
    → All IsElement es
    → split_on slash (e ++ behind_slashes es) ≡ e ∷ es
split_on-behind_slashes [] [] n h = refl
split_on-behind_slashes [] (f ∷ fs) n h =
    ap (◌∷◌ []) (split_on-behind_slashes f fs h.0.no_slash h.1)
split_on-behind_slashes (c ∷ e) es n h =
    ground (arith, split_on-behind_slashes e es (ground arith) h)

pub render_rooted-inj :
    (rs ps : List Text)
    → All IsElement rs
    → All IsElement ps
    → render_rooted rs ≡ render_rooted ps
    → rs ≡ ps
render_rooted-inj [] [] h k e = refl
render_rooted-inj [] (p ∷ ps) h k e = absurd (ground (arith, e, k.0.some_code))
render_rooted-inj (r ∷ rs) [] h k e = absurd (ground (arith, e, h.0.some_code))
render_rooted-inj (r ∷ rs) (p ∷ ps) h k e =
    cc
      (split_on-behind_slashes r rs h.0.no_slash h.1, split_on-behind_slashes p ps k.0.no_slash k.1)

-- A prefix up to a slash is a whole element.
prefix_element :
    (r p z : Text) (ps : List Text)
    → NoSlash r
    → NoSlash p
    → has_prefix (r ++ slash ∷ z) (p ++ behind_slashes ps) ≡ true
    → (r ≡ p) × (has_prefix (slash ∷ z) (behind_slashes ps) ≡ true)
prefix_element [] [] z ps n m h = (refl, h)
prefix_element [] (c ∷ p) z ps n m h = absurd (ground arith)
prefix_element (a ∷ r) [] z [] n m h = cc
prefix_element (a ∷ r) [] z (q ∷ ps) n m h = absurd (ground arith)
prefix_element (a ∷ r) (c ∷ p) z ps n m h =
    let ih = prefix_element r p z ps (ground arith) (ground arith) (ground arith) in
    (ground (arith, ih.0), ih.1)

starts_slash : (rs : List Text) → (z : Text) × (behind_slashes rs ++ slash ∷ [] ≡ slash ∷ z)
starts_slash [] = ([], refl)
starts_slash (r ∷ rs) = (_, refl)

pub behind_slashes-prefix :
    (rs ps : List Text)
    → All IsElement rs
    → All IsElement ps
    → has_prefix (behind_slashes rs ++ slash ∷ []) (behind_slashes ps) ≡ true
    → (rest : List Text) × (ps ≡ rs ++ rest)
behind_slashes-prefix [] ps h k e = (ps, refl)
behind_slashes-prefix (r ∷ rs) [] h k e = absurd (cc e)
behind_slashes-prefix (r ∷ rs) (p ∷ ps) h k e =
    let (z, s) = starts_slash rs in
    let e' : has_prefix (r ++ slash ∷ z) (p ++ behind_slashes ps) ≡ true =
      rw (← s, ← append_assoc r (behind_slashes rs) (slash ∷ [])) (ground arith) in
    let one = prefix_element r p z ps h.0.no_slash k.0.no_slash e' in
    let (rest, more) = behind_slashes-prefix rs ps h.1 k.1 (rw s one.1) in (rest, cc (one.0, more))

-- The other way round: more elements are a longer path.
pub behind_slashes-append :
    (rs : List Text) (e : Text) (rest : List Text)
    → has_prefix (behind_slashes rs ++ slash ∷ []) (behind_slashes (rs ++ e ∷ rest)) ≡ true
behind_slashes-append [] e rest = refl
behind_slashes-append (r ∷ rs) e rest =
    rw append_assoc (prefix_cons r _ _ (behind_slashes-append rs e rest))
  where
    prefix_cons : (r a b : Text) → has_prefix a b ≡ true → has_prefix (r ++ a) (r ++ b) ≡ true
    prefix_cons [] a b h = h
    prefix_cons (c ∷ r) a b h = ground (arith, prefix_cons r a b h)
