-- ===== src/Permission/Deciding.antt =====
-- The evaluation of a policy: the first rule with an opinion wins, and silence is refusal.
use wombat_go.Common.{
  false, ◌≡◌, ◌≢◌, refl, List, [], ◌∷◌, ◌++◌, arith, Option, none, some, All, ◌⊎◌, inl, inr,
  Bool-cases,
}
use wombat_go.Permission.{
  Decision, undecided, allow, deny, ask, no_default, Request, Rule, Policy, is_undecided, fallback,
  decide_rules, decide,
}

-- A nil rule, or one that has no opinion on the request.
abbrev pub Declines : Request → Option Rule → Type 0
Declines r none = Unit
Declines r (some rule) = (rule r).0 ≡ undecided

is_undecided-false : (d : Decision) → d ≢ undecided → is_undecided d ≡ false
is_undecided-false undecided n = absurd (n refl)
is_undecided-false allow n = refl
is_undecided-false deny n = refl
is_undecided-false ask n = refl

-- The first rule that is not nil and has an opinion decides, with its reason, whatever rules and
-- whatever default come after it.
pub decide_first :
    (before after : List (Option Rule)) (rule : Rule) (default : Decision) (r : Request)
    → All (Declines r) before
    → (rule r).0 ≢ undecided
    → decide (record { rules = before ++ some rule ∷ after; default = default }) r ≡ rule r
unfolding decide
decide_first [] after rule default r h n = rw (is_undecided-false (rule r).0 n) refl
decide_first (none ∷ before) after rule default r h n =
    decide_first before after rule default r h.1 n
decide_first (some other ∷ before) after rule default r h n =
    ground (arith, h.0, decide_first before after rule default r h.1 n)

decide_rules-ne-undecided :
    (rules : List (Option Rule)) (default : Decision) (r : Request)
    → (decide_rules rules default r).0 ≢ undecided
unfolding decide_rules
decide_rules-ne-undecided [] allow r e = cc
decide_rules-ne-undecided [] deny r e = cc
decide_rules-ne-undecided [] ask r e = cc
decide_rules-ne-undecided [] undecided r e = cc
decide_rules-ne-undecided (none ∷ rules) default r e = decide_rules-ne-undecided rules default r e
decide_rules-ne-undecided (some rule ∷ rules) default r e =
    ground (arith, e, decide_rules-ne-undecided rules default r)

-- Some rule gives the verdict.
abbrev pub GivenBy : Decision → Request → List (Option Rule) → Type 0
GivenBy d r [] = ⊥
GivenBy d r (none ∷ rules) = GivenBy d r rules
GivenBy d r (some rule ∷ rules) = ((rule r).0 ≡ d) ⊎ GivenBy d r rules

-- Each verdict comes from a rule or from the default.
pub decide_rules-GivenBy :
    (rules : List (Option Rule)) (default : Decision) (r : Request) (d : Decision)
    → (decide_rules rules default r).0 ≡ d
    → GivenBy d r rules ⊎ ((fallback default).0 ≡ d)
unfolding decide_rules
decide_rules-GivenBy [] default r d h = inr h
decide_rules-GivenBy (none ∷ rules) default r d h = decide_rules-GivenBy rules default r d h
decide_rules-GivenBy (some rule ∷ rules) default r d h =
    elim (Bool-cases (is_undecided (rule r).0)) [
      | inr e ↦ inl (inl (ground (arith, e)))
      | inl e ↦ elim (decide_rules-GivenBy rules default r d (ground (arith, e))) [
        | inl g ↦ inl (inr g)
        | inr f ↦ inr f
      ]
    ]

-- `Decide` always reaches a verdict.
pub decide-ne-undecided : (p : Policy) (r : Request) → (decide p r).0 ≢ undecided
unfolding decide
decide-ne-undecided p r = decide_rules-ne-undecided p.rules p.default r

-- Where every rule declines and there is no default, the call is refused.
pub decide_closed :
    (rules : List (Option Rule)) (r : Request)
    → All (Declines r) rules
    → decide (record { rules = rules; default = undecided }) r ≡ (deny, no_default)
unfolding decide
decide_closed [] r h = refl
decide_closed (none ∷ rules) r h = decide_closed rules r h.1
decide_closed (some rule ∷ rules) r h = ground (arith, h.0, decide_closed rules r h.1)
