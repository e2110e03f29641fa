-- ===== src/Sse/Pieces.antt =====
-- The pieces of a payload between its newlines.
use wombat_go.Common.{
  ℕ, Bool, true, false, ◌≡◌, ◌≢◌, refl, ap, sym, subst, ◌∙◌, List, [], ◌∷◌, ◌++◌, append_assoc,
  append-nil, All, arith, ◌=?◌, if◌then◌else◌,
}
use wombat_go.Paths.{Text, split_on, extend_first, has_code}
use wombat_go.Sse.{newline, carriage_return}
use wombat_go.Sse.Scanning.{split_on-cases}

-- The payload of lines that follow the text so far.
abbrev pub join_onto : Text → List Text → Text
join_onto acc [] = acc
join_onto acc (l ∷ ls) = join_onto ((acc ++ newline ∷ []) ++ l) ls

-- Joining the pieces of a text gives the text back.
abbrev pub join_all : Text → List Text → Text
join_all acc [] = acc
join_all acc (l ∷ ls) = join_onto (acc ++ l) ls

join_all-extend_first :
    (acc : Text) (c : ℕ) (ps : List Text)
    → join_all acc (extend_first c ps) ≡ join_all (acc ++ c ∷ []) ps
join_all-extend_first acc c [] = refl
join_all-extend_first acc c (l ∷ ls) = ap (λ a. join_onto a ls) (cc (append_assoc acc (c ∷ []) l))

join_all-nil :
    (acc : Text) (l : Text) (ls : List Text)
    → join_all acc ([] ∷ l ∷ ls) ≡ join_all (acc ++ newline ∷ []) (l ∷ ls)
join_all-nil acc l ls = rw (append-nil acc) refl

-- At a newline a piece ends.
join_all-newline :
    (acc s : Text)
    → join_all acc ([] ∷ split_on newline s) ≡ join_all (acc ++ newline ∷ []) (split_on newline s)
join_all-newline acc s = let (l, ls, h) = split_on-cases newline s in rw h (join_all-nil acc l ls)

pub join_all-split_on : (s acc : Text) → join_all acc (split_on newline s) ≡ acc ++ s
join_all-split_on [] acc = rw (append-nil acc) refl
join_all-split_on (c ∷ s) acc =
    joins (c =? newline) refl (join_all-split_on s (acc ++ c ∷ [])) ∙ append_assoc acc (c ∷ []) s
  where
    eq_of_eqb : (a b : ℕ) → (a =? b) ≡ true → b ≡ a
    eq_of_eqb a b h = ground arith

    joins :
        (b : Bool)
        → (c =? newline) ≡ b
        → join_all (acc ++ c ∷ []) (split_on newline s) ≡ (acc ++ c ∷ []) ++ s
        → join_all acc (if b then [] ∷ split_on newline s else extend_first c (split_on newline s))
          ≡ (acc ++ c ∷ []) ++ s
    joins true h ih =
        join_all-newline acc s
        ∙ subst (λ n. join_all (acc ++ n ∷ []) (split_on newline s) ≡ (acc ++ c ∷ []) ++ s)
            (sym (eq_of_eqb c newline h)) ih
    joins false h ih = join_all-extend_first acc c (split_on newline s) ∙ ih

pub some_piece : (s : Text) → split_on newline s ≢ []
some_piece s h = let (l, ls, e) = split_on-cases newline s in cons_ne_nil l ls (sym e ∙ h)
  where
    cons_ne_nil : (l : Text) (ls : List Text) → (l ∷ ls) ≢ []
    cons_ne_nil l ls h = ground arith

pub pieces_no_return :
    (s : Text)
    → has_code carriage_return s ≡ false
    → All (λ l. has_code carriage_return l ≡ false) (split_on newline s)
pieces_no_return [] h = (refl, tt)
pieces_no_return (c ∷ s) h = at (c =? newline) (pieces_no_return s (tail h)) (head h)
  where
    tail : has_code carriage_return (c ∷ s) ≡ false → has_code carriage_return s ≡ false
    tail h = ground arith

    head : has_code carriage_return (c ∷ s) ≡ false → (c =? carriage_return) ≡ false
    head h = ground arith

    extended :
        (ps : List Text)
        → (c =? carriage_return) ≡ false
        → All (λ l. has_code carriage_return l ≡ false) ps
        → All (λ l. has_code carriage_return l ≡ false) (extend_first c ps)
    extended [] k t = (rw k refl, tt)
    extended (p ∷ ps) k t = (rw k t.0, t.1)

    at :
        (b : Bool)
        → All (λ l. has_code carriage_return l ≡ false) (split_on newline s)
        → (c =? carriage_return) ≡ false
        → All
            (λ l. has_code carriage_return l ≡ false)
            (if b then [] ∷ split_on newline s else extend_first c (split_on newline s))
    at true t k = (refl, t)
    at false t k = extended (split_on newline s) k t

pub pieces-no_newline : (s : Text) → All (λ l. has_code newline l ≡ false) (split_on newline s)
pieces-no_newline [] = (refl, tt)
pieces-no_newline (c ∷ s) = at (c =? newline) refl (pieces-no_newline s)
  where
    extended :
        (ps : List Text)
        → (c =? newline) ≡ false
        → All (λ l. has_code newline l ≡ false) ps
        → All (λ l. has_code newline l ≡ false) (extend_first c ps)
    extended [] k t = (rw k refl, tt)
    extended (p ∷ ps) k t = (rw k t.0, t.1)

    at :
        (b : Bool)
        → (c =? newline) ≡ b
        → All (λ l. has_code newline l ≡ false) (split_on newline s)
        → All
            (λ l. has_code newline l ≡ false)
            (if b then [] ∷ split_on newline s else extend_first c (split_on newline s))
    at true k t = (refl, t)
    at false k t = extended (split_on newline s) k t
