-- ===== src/Sse/Scanning.antt =====
-- The lines that the scanner finds in printed lines.
use wombat_go.Common.{
  ℕ, ◌<◌, Bool, true, false, ◌≡◌, refl, ap, String, List, [], ◌∷◌, ◌++◌, Option, All, length, arith,
  leb, ◌=?◌, if◌then◌else◌,
}
use wombat_go.Paths.{Text, split_on, extend_first, has_code}
use wombat_go.Sse.{
  newline, carriage_return, drop_cr, drop_last_empty, scan_lines, new_scanner, scanned,
}
use wombat_go.Sse.Printing.{ended, print_lines, IsLine, Fits}

split_on-append :
    (sep : ℕ) (l s : Text)
    → has_code sep l ≡ false
    → split_on sep (l ++ sep ∷ s) ≡ l ∷ split_on sep s
split_on-append sep [] s h = ground arith
split_on-append sep (c ∷ l) s h = ground (arith, split_on-append sep l s)

pub split_on-cases :
    (sep : ℕ) (s : Text) → (l : Text) × (ls : List Text) × (split_on sep s ≡ l ∷ ls)
split_on-cases sep [] = ([], [], refl)
split_on-cases sep (c ∷ s) = starts (split_on-cases sep s) (c =? sep)
  where
    starts :
        ((l : Text) × (ls : List Text) × (split_on sep s ≡ l ∷ ls))
        → (b : Bool)
        → (l : Text) × (ls : List Text) × ((if b
              then [] ∷ split_on sep s
              else extend_first c (split_on sep s))
            ≡ l ∷ ls)
    starts h true = ([], split_on sep s, refl)
    starts h false = (c ∷ h.0, h.1, ap (extend_first c) h.2)

drop_last_empty-cons :
    (l s : Text)
    → drop_last_empty (l ∷ split_on newline s) ≡ l ∷ drop_last_empty (split_on newline s)
drop_last_empty-cons l s = rw ((split_on-cases newline s).2) refl

has_code-append :
    (c : ℕ) (a b : Text) → has_code c a ≡ false → has_code c b ≡ false → has_code c (a ++ b) ≡ false
has_code-append c [] b h k = k
has_code-append c (x ∷ a) b h k = ground (arith, has_code-append c a b)

ended-no_newline :
    (crlf : Bool) (l : Text) → has_code newline l ≡ false → has_code newline (ended crlf l) ≡ false
ended-no_newline true l h = has_code-append newline l (carriage_return ∷ []) h refl
ended-no_newline false l h = h

abbrev raw : Bool → List Text → List Text
raw crlf [] = []
raw crlf (l ∷ ls) = ended crlf l ∷ raw crlf ls

-- The pieces between the newlines are the lines that were printed.
drop_last_empty-print_lines :
    (crlf : Bool) (ls : List Text)
    → All IsLine ls
    → drop_last_empty (split_on newline (print_lines crlf ls)) ≡ raw crlf ls
unfolding print_lines
drop_last_empty-print_lines crlf [] h = refl
drop_last_empty-print_lines crlf (l ∷ ls) h =
    rw
      (split_on-append newline (ended crlf l) (print_lines crlf ls)
        (ended-no_newline crlf l h.0.no_newline))
      (rw (drop_last_empty-cons (ended crlf l) (print_lines crlf ls))
        (ap (◌∷◌ (ended crlf l)) (drop_last_empty-print_lines crlf ls h.1)))

pub drop_cr_lem : (l : Text) → has_code carriage_return l ≡ false → drop_cr l ≡ l
unfolding drop_cr
drop_cr_lem [] h = refl
drop_cr_lem (c ∷ []) h = ground arith
drop_cr_lem (c ∷ d ∷ s) h = ground (arith, drop_cr_lem (d ∷ s))

drop_cr-append :
    (l : Text) → has_code carriage_return l ≡ false → drop_cr (l ++ carriage_return ∷ []) ≡ l
unfolding drop_cr
drop_cr-append [] h = refl
drop_cr-append (c ∷ []) h = refl
drop_cr-append (c ∷ d ∷ s) h = ground (arith, drop_cr-append (d ∷ s))

drop_cr-ended :
    (crlf : Bool) (l : Text) → has_code carriage_return l ≡ false → drop_cr (ended crlf l) ≡ l
drop_cr-ended true l h = drop_cr-append l h
drop_cr-ended false l h = drop_cr_lem l h

scan_lines-raw :
    (longest : ℕ) (e : Option String) (crlf : Bool) (ls : List Text)
    → All IsLine ls
    → Fits longest crlf ls
    → scan_lines longest e (raw crlf ls) ≡ record { lines = ls; error = e }
unfolding scan_lines
scan_lines-raw longest e crlf [] h f = refl
scan_lines-raw longest e crlf (l ∷ ls) h f = rw (short (length (ended crlf l)) f.0) (
    rw (drop_cr-ended crlf l h.0.no_return)
      (ap (scanned l) (scan_lines-raw longest e crlf ls h.1 f.1)))
  where
    short : (n : ℕ) → n < longest → leb longest n ≡ false
    short n h = ground arith

-- The scanner delivers the printed lines, and the error of the body after them.
pub new_scanner-print_lines :
    (longest : ℕ) (e : Option String) (crlf : Bool) (ls : List Text)
    → All IsLine ls
    → Fits longest crlf ls
    → new_scanner longest e (print_lines crlf ls) ≡ record { lines = ls; error = e }
unfolding new_scanner
new_scanner-print_lines longest e crlf ls h f =
    rw (drop_last_empty-print_lines crlf ls h) (scan_lines-raw longest e crlf ls h f)
