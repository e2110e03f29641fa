-- ===== src/Common/Ids.antt =====
-- Go's `map[string]bool` and `map[string]struct{}` used as sets: a list of texts that is only
-- asked whether it contains a text.
use Prim.Native.Nat.{ℕ}
use Prim.Native.Char.{code}
use Prim.Native.String.{String}
use mathlib.Core.Path.{◌≡◌, refl}
use mathlib.Core.Bool.{Bool, true, false, not, ◌&&◌, ◌||◌}
use mathlib.Core.List.{List, [], ◌∷◌, ◌++◌}
use native.Mathlib.Omega.{arith}
use text.Mathlib.Text.{◌==◌}
use text.Mathlib.TextEquality.{eq_iff}
use wombat_go.Common.Tests.{if◌then◌else◌}

abbrev pub contains : List String → String → Bool
contains [] x = false
contains (y ∷ ys) x = y == x || contains ys x

-- `delete(set, x)`
abbrev pub delete : String → List String → List String
delete x [] = []
delete x (y ∷ ys) = if y == x then delete x ys else y ∷ delete x ys

-- The entries that are not in `ids`.
abbrev pub without : List String → List String → List String
without ids [] = []
without ids (y ∷ ys) = if contains ids y then without ids ys else y ∷ without ids ys

-- No text stands twice.
abbrev pub distinct : List String → Bool
distinct [] = true
distinct (y ∷ ys) = not (contains ys y) && distinct ys

pub contains-append :
    (xs ys : List String) (x : String) → contains (xs ++ ys) x ≡ (contains xs x || contains ys x)
contains-append [] ys x = refl
contains-append (y ∷ xs) ys x = ground (arith, contains-append xs ys x)

pub contains-delete :
    (y : String) (xs : List String) (x : String)
    → contains (delete y xs) x ≡ (not (y == x) && contains xs x)
contains-delete y [] x = ground arith
contains-delete y (z ∷ xs) x =
    ground (arith, contains-delete y xs x, eq_iff z y, eq_iff y x, eq_iff z x)

pub contains-without :
    (ids xs : List String) (x : String)
    → contains (without ids xs) x ≡ (not (contains ids x) && contains xs x)
contains-without ids [] x = ground arith
contains-without ids (z ∷ xs) x = ground (arith, contains-without ids xs x, eq_iff z x)

pub distinct-without :
    (ids xs : List String) → distinct xs ≡ true → distinct (without ids xs) ≡ true
distinct-without ids [] h = refl
distinct-without ids (z ∷ xs) h = ground (arith, distinct-without ids xs, contains-without ids xs z)

pub without-append :
    (ids xs ys : List String) → without ids (xs ++ ys) ≡ without ids xs ++ without ids ys
without-append ids [] ys = refl
without-append ids (x ∷ xs) ys = ground (arith, without-append ids xs ys)

-- A set that contains nothing is empty.
pub eq-nil_of_contains : (xs : List String) → ((x : String) → contains xs x ≡ false) → xs ≡ []
eq-nil_of_contains [] h = refl
eq-nil_of_contains (y ∷ ys) h = ground (arith, h y, eq_iff y y)

-- The code points of a text.
abbrev pub codes : String → List ℕ
codes String.[] = []
codes (String.◌∷◌ c s) = code c ∷ codes s
