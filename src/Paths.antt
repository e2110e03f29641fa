-- ===== src/Paths.antt =====
-- The functions of Go's `strings` and `path/filepath` (on Unix) that the permission rules use,
-- over a text as its code points.
pub mod Elements
use wombat_go.Common.{
  ℕ, Bool, true, false, not, ◌&&◌, ◌||◌, List, [], ◌∷◌, ◌++◌, reverse, is_empty, leb, ◌=?◌,
  if◌then◌else◌,
}

abbrev pub Text : Type 0
Text = List ℕ

abbrev pub slash : ℕ
slash = b'/'

abbrev pub text_eq : Text → Text → Bool
text_eq [] [] = true
text_eq [] (y ∷ ys) = false
text_eq (x ∷ xs) [] = false
text_eq (x ∷ xs) (y ∷ ys) = (x =? y) && text_eq xs ys

-- `strings.HasPrefix(s, prefix)`.
abbrev pub has_prefix : Text → Text → Bool
has_prefix [] s = true
has_prefix (x ∷ xs) [] = false
has_prefix (x ∷ xs) (y ∷ ys) = (x =? y) && has_prefix xs ys

abbrev pub has_code : ℕ → Text → Bool
has_code c [] = false
has_code c (x ∷ xs) = (x =? c) || has_code c xs

-- `unicode.IsSpace`.
unfoldable pub is_space : ℕ → Bool
is_space c =
    (leb 9 c && leb c 13)
    || (c =? 0x20)
    || (c =? 0x85)
    || (c =? 0xa0)
    || (c =? 0x1680)
    || (leb 0x2000 c && leb c 0x200a)
    || (c =? 0x2028)
    || (c =? 0x2029)
    || (c =? 0x202f)
    || (c =? 0x205f)
    || (c =? 0x3000)

unfoldable pub trim_left : (ℕ → Bool) → Text → Text
trim_left p [] = []
trim_left p (c ∷ s) = if p c then trim_left p s else c ∷ s

-- `strings.TrimFunc`.
unfoldable pub trim : (ℕ → Bool) → Text → Text
unfolding trim_left
trim p s = reverse (trim_left p (reverse (trim_left p s)))

unfoldable pub trim_space : Text → Text
unfolding trim is_space
trim_space = trim is_space

-- The first piece grows at the head.
abbrev pub extend_first : ℕ → List Text → List Text
extend_first c [] = (c ∷ []) ∷ []
extend_first c (piece ∷ pieces) = (c ∷ piece) ∷ pieces

-- `strings.Split(s, sep)` at a separator of one code.
abbrev pub split_on : ℕ → Text → List Text
split_on sep [] = [] ∷ []
split_on sep (c ∷ s) = if c =? sep then [] ∷ split_on sep s else extend_first c (split_on sep s)

abbrev pub dot : Text
dot = b'.' ∷ []

abbrev pub dot_dot : Text
dot_dot = b'.' ∷ b'.' ∷ []

unfoldable pub is_abs : Text → Bool
is_abs s = has_prefix (slash ∷ []) s

-- One element of `filepath.Clean`; the elements kept so far, the last one first.
unfoldable pub clean_step : Bool → List Text → Text → List Text
clean_step rooted kept e =
    if is_empty e || text_eq e dot
    then kept
    else if text_eq e dot_dot
    then elim kept [
      | [] ↦ if rooted then [] else dot_dot ∷ []
      | last ∷ rest ↦ if text_eq last dot_dot then dot_dot ∷ last ∷ rest else rest
    ]
    else e ∷ kept

unfoldable pub clean_elements : Bool → List Text → List Text → List Text
unfolding clean_step
clean_elements rooted kept [] = kept
clean_elements rooted kept (e ∷ es) = clean_elements rooted (clean_step rooted kept e) es

-- Each element behind a slash.
abbrev pub behind_slashes : List Text → Text
behind_slashes [] = []
behind_slashes (e ∷ es) = slash ∷ (e ++ behind_slashes es)

abbrev pub render_rooted : List Text → Text
render_rooted [] = slash ∷ []
render_rooted (e ∷ es) = slash ∷ (e ++ behind_slashes es)

abbrev pub render_relative : List Text → Text
render_relative [] = dot
render_relative (e ∷ es) = e ++ behind_slashes es

-- `filepath.Clean`.
unfoldable pub clean : Text → Text
unfolding clean_elements is_abs
clean p =
    let rooted = is_abs p in
    let es = reverse (clean_elements rooted [] (split_on slash p)) in
    if rooted then render_rooted es else render_relative es

-- `filepath.Join` of two parts: an empty part is ignored.
unfoldable pub join : Text → Text → Text
unfolding clean
join a b =
    if is_empty a
    then (if is_empty b then [] else clean b)
    else if is_empty b
    then clean a
    else clean (a ++ slash ∷ b)
