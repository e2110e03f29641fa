-- ===== src/Permission/Gate/Laws.antt =====
-- What `Gate` promises: no call runs without a verdict, and each verdict is recorded once.
use wombat_go.Common.{
  String, Bool, true, false, ◌&&◌, ◌≡◌, ◌⊎◌, List, [], ◌∷◌, arith, Option, some, Result, ok, err,
  contains, eq_iff, if◌then◌else◌,
}
use wombat_go.Llm.{RawMessage}
use wombat_go.Tool.{Def, ToolUse}
use wombat_go.Permission.{allow, ask, Policy, decide}
use wombat_go.Permission.Gate.{
  Grants, grant_key, approved, Approver, Event, requested, decided, GateError, is_denied, abandoned,
  request, gate,
}

abbrev pub ran {ℓ κ} : {E : Type ℓ} {A : Type κ} → Result E A → Bool
ran (ok a) = true
ran (err e) = false

-- The flags of the `Decided` events, in order.
abbrev pub verdicts : List Event → List Bool
verdicts [] = []
verdicts (requested id name reason input ∷ es) = verdicts es
verdicts (decided id name allowed reason source ∷ es) = allowed ∷ verdicts es

abbrev pub asked : List Event → Bool
asked [] = false
asked (requested id name reason input ∷ es) = true
asked (decided id name allowed reason source ∷ es) = asked es

module _ {A : Type 0} (compact : RawMessage → Option RawMessage) (p : Policy) (a : Option Approver)
    (cause : Option String) (d : Def) (use_block : ToolUse) (next : A) (grants : Grants) where
  -- Whatever the policy, the grants and the approver: a call through the gate emits exactly one
  -- `Decided` event, and its flag says whether the tool ran.
  pub gate-verdicts :
      let g = gate compact p a cause d use_block next grants in
      verdicts g.events ≡ ran g.result ∷ []
  unfolding gate
  gate-verdicts = ground arith

  -- A tool runs only if the policy allows the call, or if the policy asks and the same question
  -- was granted before or the approver answers yes to it now.
  pub gate-ran :
      ran (gate compact p a cause d use_block next grants).result ≡ true
      → ((decide p (request d use_block)).0 ≡ allow)
        ⊎ (((decide p (request d use_block)).0 ≡ ask)
            × ((contains grants (grant_key compact d use_block) ≡ true)
                ⊎ ((approve : Approver) × (a ≡ some approve)
                    × (approve (record (request d use_block) {
                      reason = (decide p (request d use_block)).1;
                    })
                        ≡ approved))))
  unfolding gate
  gate-ran h = ground arith

  -- A call adds its key to the grants exactly when a person was asked and the tool then ran;
  -- otherwise the grants stay as they were.
  pub gate-grants :
      let g = gate compact p a cause d use_block next grants in
      g.grants
      ≡ (if asked g.events && ran g.result then grant_key compact d use_block ∷ grants else grants)
  unfolding gate
  gate-grants = ground arith

  -- Every error of the gate wraps `ErrDenied`, but one: the approver failed and the context was
  -- cancelled, and that error carries the cause.
  pub gate-is_denied :
      (e : GateError)
      → (gate compact p a cause d use_block next grants).result ≡ err e
      → is_denied e ≡ false
      → (c : String) × (cause ≡ some c) × (e ≡ abandoned d.name c)
  unfolding gate
  gate-is_denied e h n = ground arith

-- A question that a person answered yes is not asked again: the same call of the same policy
-- runs, with whatever approver, asks nobody and leaves the grants alone.
pub gate-again :
    {A : Type 0} (compact : RawMessage → Option RawMessage) (p : Policy) (a b : Option Approver)
    (cause later : Option String) (d : Def) (use_block : ToolUse) (next again : A) (grants : Grants)
    → asked (gate compact p a cause d use_block next grants).events ≡ true
    → ran (gate compact p a cause d use_block next grants).result ≡ true
    → let g = gate compact p a cause d use_block next grants in
      let g' = gate compact p b later d use_block again g.grants in
      (g'.result ≡ ok again) × (asked g'.events ≡ false) × (g'.grants ≡ g.grants)
unfolding gate
gate-again compact p a b cause later d use_block next again grants h k =
    ground (arith, eq_iff (grant_key compact d use_block) (grant_key compact d use_block))
