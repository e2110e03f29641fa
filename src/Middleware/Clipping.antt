-- ===== src/Middleware/Clipping.antt =====
-- `WithTruncation`, `Clip`, `ClipHead` and `boundary`, over a string as its bytes.
--
-- `itoa` is how `%d` writes a number, an argument.
pub mod Cuts
use wombat_go.Common.{
  ℕ, zero, suc, ◌+◌, ◌-◌, ◌*◌, ◌/◌, Bool, true, false, not, ◌&&◌, ◌||◌, String, List, [], ◌∷◌, ◌++◌,
  Option, none, some, codes, contains, get_elem?, length, take, drop, leb, ltb, ◌=?◌, if◌then◌else◌,
}
use wombat_go.Paths.{Text}
use wombat_go.Middleware.{Outcome}

-- `utf8.RuneStart`.
abbrev pub rune_start : ℕ → Bool
rune_start b = not (leb 128 b && ltb b 192)

-- Whether a byte may start a rune; the end of the string counts as a start.
abbrev pub starts_at : Option ℕ → Bool
starts_at none = true
starts_at (some b) = rune_start b

-- The loop of `boundary`.
unfoldable pub back_up : Text → ℕ → ℕ
back_up s zero = 0
back_up s (suc n) =
    let rest = back_up s n in if starts_at (get_elem? s (suc n)) then suc n else rest

unfoldable pub boundary : Text → ℕ → ℕ
unfolding back_up
boundary s n = if leb (length s) n then length s else back_up s n

-- How many bytes of this rest belong to a rune that began before it.
unfoldable pub continuations : Text → ℕ
continuations [] = 0
continuations (b ∷ s) = let rest = continuations s in if rune_start b then 0 else suc rest

-- The loop over `start`.
unfoldable pub forward : Text → ℕ → ℕ
unfolding continuations
forward s start = start + continuations (drop start s)

abbrev pub min_clip_side : ℕ
min_clip_side = 64

-- `shorterOf`.
unfoldable pub shorter_of : Text → List Text → Text
shorter_of original [] = original
shorter_of original (c ∷ cs) =
    let rest = shorter_of original cs in if ltb (length c) (length original) then c else rest

-- `limit <= 0 || len(s) <= limit`.
abbrev pub within_limit : Text → ℕ → Bool
within_limit s limit = (limit =? 0) || leb (length s) limit

module _ (itoa : ℕ → Text) where
  unfoldable pub head_marker : ℕ → ℕ → Text
  head_marker cut len =
      codes "\n\n[truncated: showing the first "
      ++ itoa cut
      ++ codes " of "
      ++ itoa len
      ++ codes " bytes, "
      ++ itoa (len - cut)
      ++ codes " omitted "
      ++ em_dash
      ++ codes " narrow the request to see the rest]"
    where
      em_dash : Text
      em_dash = 226 ∷ 128 ∷ 148 ∷ []

  unfoldable pub middle_marker : ℕ → ℕ → Text
  middle_marker omitted len =
      codes "\n\n[... "
      ++ itoa omitted
      ++ codes " of "
      ++ itoa len
      ++ codes " bytes omitted from the middle "
      ++ em_dash
      ++ codes
          " what follows is the TAIL, not a continuation. Narrow the request to see between them ...]\n\n"
    where
      em_dash : Text
      em_dash = 226 ∷ 128 ∷ 148 ∷ []

  abbrev pub front : Text → ℕ → Text
  front s cut = take cut s ++ head_marker cut (length s)

  abbrev pub both_ends : Text → ℕ → ℕ → Text
  both_ends s head start = take head s ++ middle_marker (start - head) (length s) ++ drop start s

  unfoldable pub clip_head : Text → ℕ → Text
  unfolding boundary shorter_of
  clip_head s limit =
      if within_limit s limit then s else shorter_of s (front s (boundary s limit) ∷ [])

  -- From the head's end.
  abbrev pub clip_ends : Text → ℕ → ℕ → Text
  clip_ends s limit head = both_ends s head (forward s (length s - (limit - head)))

  unfoldable pub clip : Text → ℕ → Text
  unfolding clip_head boundary forward shorter_of
  clip s limit =
      if within_limit s limit
      then s
      else if ltb limit (2 * min_clip_side)
      then clip_head s limit
      else shorter_of s (clip_ends s limit (boundary s (limit / 2)) ∷ clip_head s limit ∷ [])

  -- A limit of 0 disables it; errors and exempt tools are left alone.
  unfoldable pub with_truncation : ℕ → List String → String → Outcome → Outcome
  unfolding clip
  with_truncation limit exempt name answer =
      if (limit =? 0) || leb (length answer.output) limit || contains exempt name
      then answer
      else elim answer.error [
        | none ↦ record answer { output = clip answer.output limit }
        | some e ↦ answer
      ]
