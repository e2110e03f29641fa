-- ===== src/Permission/Rules/Containment.antt =====
-- `FSRoot`: what it allows lies under its root, element by element.
use wombat_go.Common.{
  true, false, ◌≡◌, refl, sym, ap, subst, ◌∙◌, ◌↔◌, inl, inr, List, [], ◌∷◌, ◌++◌, arith,
  append-nil, is_empty, All, Bool-cases,
}
use wombat_go.Tool.{cap_exec, intersects}
use wombat_go.Paths.{Text, text_eq, slash, is_abs, join, render_rooted}
use wombat_go.Paths.Elements.{
  IsElement, text_eq→eq, text_eq_refl, clean_lem, render_rooted-inj, behind_slashes-prefix,
  behind_slashes-append,
}
use wombat_go.Permission.{allow, Request}
use wombat_go.Permission.Rules.{Decode, extract_paths, resolve, contains_path, check_paths, fs_root}

-- A path that the test accepts has all elements of the root, in order, before its own.
pub contains_path_sound :
    (rs ps : List Text)
    → All IsElement rs
    → All IsElement ps
    → contains_path (render_rooted rs) (render_rooted ps) ≡ true
    → (rest : List Text) × (ps ≡ rs ++ rest)
unfolding contains_path
contains_path_sound [] ps h k e = (ps, refl)
contains_path_sound (r ∷ rs) [] h k e = absurd (ground (arith, h.0.some_code))
contains_path_sound (r ∷ rs) (p ∷ ps) h k e =
    elim (Bool-cases (text_eq (render_rooted (p ∷ ps)) (render_rooted (r ∷ rs)))) [
      | inl same ↦ (
        [],
        render_rooted-inj (p ∷ ps) (r ∷ rs) k h (text_eq→eq _ _ same) ∙ sym (append-nil (r ∷ rs)),
      )
      | inr other ↦ behind_slashes-prefix (r ∷ rs) (p ∷ ps) h k (ground (arith, other))
    ]

-- Under a root other than "/", the test accepts exactly the paths whose elements begin with those
-- of the root.
pub contains_path_iff :
    (r : Text) (rs ps : List Text)
    → All IsElement (r ∷ rs)
    → All IsElement ps
    → (contains_path (render_rooted (r ∷ rs)) (render_rooted ps) ≡ true)
      ↔ ((rest : List Text) × (ps ≡ (r ∷ rs) ++ rest))
contains_path_iff r rs ps h k = (contains_path_sound (r ∷ rs) ps h k, λ x. under x.0 x.1)
  where
    under :
        (rest : List Text)
        → ps ≡ (r ∷ rs) ++ rest
        → contains_path (render_rooted (r ∷ rs)) (render_rooted ps) ≡ true
    under [] e =
        unfold contains_path in
        rw (e ∙ append-nil (r ∷ rs)) (ground (arith, text_eq_refl (render_rooted (r ∷ rs))))
    under (x ∷ rest) e =
        unfold contains_path in rw e (ground (arith, behind_slashes-append (r ∷ rs) x rest))

-- Under the root "/" the test refuses every path but "/" itself: it looks for the prefix "//".
pub contains_path-slash_root :
    (p : Text) (ps : List Text)
    → All IsElement (p ∷ ps)
    → contains_path (render_rooted []) (render_rooted (p ∷ ps)) ≡ false
unfolding contains_path
contains_path-slash_root [] ps k = cc (k.0.some_code)
contains_path-slash_root (c ∷ p) ps k = ground (arith, k.0.no_slash)

-- An absolute, clean directory.
pub record IsRoot (root : Text) (rs : List Text) : Type 0 where
  pub rendered : root ≡ render_rooted rs
  pub elements : All IsElement rs

-- Where a path lies under the root, with the elements that it adds.
abbrev pub Under : Text → List Text → Text → Type 0
Under root rs p =
    (rest : List Text) × (resolve root p ≡ render_rooted (rs ++ rest)) × All IsElement (rs ++ rest)

join_lem :
    (rs : List Text) (p : Text)
    → (es : List Text) × (join (render_rooted rs) p ≡ render_rooted es) × All IsElement es
unfolding join
join_lem [] [] = clean_lem (slash ∷ []) (unfold is_abs in refl)
join_lem [] (c ∷ p) = clean_lem (slash ∷ slash ∷ c ∷ p) (unfold is_abs in refl)
join_lem (r ∷ rs) [] = clean_lem (render_rooted (r ∷ rs)) (unfold is_abs in refl)
join_lem (r ∷ rs) (c ∷ p) =
    clean_lem (render_rooted (r ∷ rs) ++ slash ∷ c ∷ p) (unfold is_abs in refl)

resolve_lem :
    (root : Text) (rs : List Text) (p : Text)
    → IsRoot root rs
    → (es : List Text) × (resolve root p ≡ render_rooted es) × All IsElement es
unfolding resolve
resolve_lem root rs p v = elim (Bool-cases (is_abs p)) [
  | inl e ↦ rw e (clean_lem p e)
  | inr e ↦ rw (e, v.rendered) (join_lem rs p)
]

pub contains_path-Under :
    (root : Text) (rs : List Text) (p : Text)
    → IsRoot root rs
    → contains_path root (resolve root p) ≡ true
    → Under root rs p
contains_path-Under root rs p v h =
    let (es, e, k) = resolve_lem root rs p v in
    let (rest, more) = contains_path_sound rs es v.elements k (rw (← v.rendered, ← e) h) in
    (rest, e ∙ ap render_rooted more, subst (All IsElement) more k)

check_paths-Under :
    (root : Text) (rs all ps : List Text)
    → IsRoot root rs
    → (check_paths root all ps).0 ≡ allow
    → All (Under root rs) ps
unfolding check_paths
check_paths-Under root rs all [] v h = tt
check_paths-Under root rs all (p ∷ ps) v h = (
  contains_path-Under root rs p v (ground arith),
  check_paths-Under root rs all ps v (ground arith),
)

-- `FSRoot` allows a call only if the tool runs no command, the call names some path, and every
-- path that it names resolves to the root's elements followed by others, none of which is "..":
-- it lies in the root.
pub fs_root-Under :
    (decode : Decode) (root : Text) (rs : List Text) (r : Request)
    → IsRoot root rs
    → (fs_root decode root r).0 ≡ allow
    → (intersects r.tool.caps cap_exec ≡ false)
      × (is_empty (extract_paths decode r.use_block.input) ≡ false)
      × All (Under root rs) (extract_paths decode r.use_block.input)
unfolding fs_root
fs_root-Under decode root rs r v h =
    let ps = extract_paths decode r.use_block.input in
    (ground arith, ground arith, check_paths-Under root rs ps ps v (ground arith))
