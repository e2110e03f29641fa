-- ===== src/Skill/Gating.antt =====
-- What a model is offered, what it may call, and what an eviction takes away.
use wombat_go.Common.{
  Bool, true, false, ◌&&◌, ◌||◌, ◌≡◌, refl, ap, ◌∙◌, sym, subst, String, List, [], ◌∷◌, ◌++◌,
  Option, none, some, contains, contains-append, ◌==◌, eq_iff, arith, if◌then◌else◌,
}
use wombat_go.Llm.{ToolUseId}
use wombat_go.Tool.{Def}
use wombat_go.Skill.{
  Active, body_of, is_active, deactivate, active_names, Registry, gate_for, opens, load_tool_name,
  unload_tool_name, is_meta, GatedSet, names_of, open_tools, visible, retire_if, stays, retire,
  retire_all, reconcile, Guarded, passed, needs_skill, guard_gate, guard,
}

abbrev pub passes : Guarded → Bool
passes passed = true
passes (needs_skill tool skill) = false

passes-guard_gate :
    (o : Option String) (tool : String) (st : Active) → passes (guard_gate o tool st) ≡ opens o st
passes-guard_gate none tool st = refl
passes-guard_gate (some skill) tool st = on (is_active skill st)
  where
    on : (b : Bool) → passes (if b then passed else needs_skill tool skill) ≡ b
    on true = refl
    on false = refl

kept_lem : (x c r q : Bool) → r ≡ (c && q) → (x ≡ true → q ≡ true) → (x || r) ≡ ((x || c) && q)
kept_lem x c r q e h = ground arith

skipped_lem : (x c r q : Bool) → r ≡ (c && q) → (x ≡ true → q ≡ false) → r ≡ ((x || c) && q)
skipped_lem x c r q e h = ground arith

contains-open_tools :
    (reg : Registry) (st : Active) (ds : List Def) (n : String)
    → contains (names_of (open_tools reg st ds)) n
      ≡ (contains (names_of ds) n && opens (gate_for reg n) st)
contains-open_tools reg st [] n = refl
contains-open_tools reg st (d ∷ ds) n =
    on (opens (gate_for reg d.name) st) refl (contains-open_tools reg st ds n)
  where
    same : (d.name == n) ≡ true → opens (gate_for reg n) st ≡ opens (gate_for reg d.name) st
    same h = ap (λ x. opens (gate_for reg x) st) (sym ((eq_iff d.name n).0 h))

    on :
        (o : Bool)
        → opens (gate_for reg d.name) st ≡ o
        → contains (names_of (open_tools reg st ds)) n
          ≡ (contains (names_of ds) n && opens (gate_for reg n) st)
        → contains (names_of (if o then d ∷ open_tools reg st ds else open_tools reg st ds)) n
          ≡ ((d.name == n || contains (names_of ds) n) && opens (gate_for reg n) st)
    on true h ih =
        kept_lem (d.name == n) (contains (names_of ds) n)
          (contains (names_of (open_tools reg st ds)) n) (opens (gate_for reg n) st) ih
          (λ e. same e ∙ h)
    on false h ih =
        skipped_lem (d.name == n) (contains (names_of ds) n)
          (contains (names_of (open_tools reg st ds)) n) (opens (gate_for reg n) st) ih
          (λ e. same e ∙ h)

names_of-append : (ds es : List Def) → names_of (ds ++ es) ≡ names_of ds ++ names_of es
names_of-append [] es = refl
names_of-append (d ∷ ds) es = ap (◌∷◌ d.name) (names_of-append ds es)

meta_names : (a b n : String) → (a == n || (b == n || false)) ≡ (n == a || n == b)
meta_names a b n = ground (arith, eq_iff a n, eq_iff n a, eq_iff b n, eq_iff n b)

-- The names of the tools that a model is offered.
abbrev pub offers : GatedSet → Active → String → Bool
offers s st n = contains (names_of (visible s st)) n

-- A tool is offered exactly where a call of it is let through: of the tools of the base, under any gates
-- and whatever is loaded. The two meta tools, which have their names, are always offered and never
-- refused.
pub visible-guard :
    (s : GatedSet) (st : Active) (n : String)
    → s.load.name ≡ load_tool_name
    → s.unload.name ≡ unload_tool_name
    → offers s st n ≡ ((contains (names_of s.base) n || is_meta n) && passes (guard s.reg n st))
unfolding visible guard
visible-guard s st n l u =
    ap (λ ns. contains ns n) (names_of-append (open_tools s.reg st s.base) (s.load ∷ s.unload ∷ []))
    ∙ contains-append (names_of (open_tools s.reg st s.base)) (s.load.name ∷ s.unload.name ∷ []) n
    ∙ rw (l, u, contains-open_tools s.reg st s.base n)
        (ap ((contains (names_of s.base) n && opens (gate_for s.reg n) st) ||◌)
            (meta_names load_tool_name unload_tool_name n)
          ∙ on (is_meta n) (contains (names_of s.base) n) (opens (gate_for s.reg n) st)
              (guard_gate (gate_for s.reg n) n st) (passes-guard_gate (gate_for s.reg n) n st))
  where
    on :
        (m c q : Bool) (g : Guarded)
        → passes g ≡ q
        → ((c && q) || m) ≡ ((c || m) && passes (if m then passed else g))
    on true c q g e = true_lem (c && q) c
      where
        true_lem : (x c : Bool) → (x || true) ≡ ((c || true) && true)
        true_lem x c = ground arith
    on false c q g e = rw e (false_lem c q)
      where
        false_lem : (c q : Bool) → ((c && q) || false) ≡ ((c || false) && q)
        false_lem c q = ground arith

pub body_of-deactivate :
    (m n : String) (st : Active)
    → body_of n (deactivate m st) ≡ (if m == n then none else body_of n st)
unfolding deactivate
body_of-deactivate m n [] = ground arith
body_of-deactivate m n (l ∷ ls) =
    ground (arith, body_of-deactivate m n ls, eq_iff l.name m, eq_iff l.name n, eq_iff m n)

-- What a reconciliation should leave of an entry: the body, where it is present or was never dispatched.
abbrev pub kept : (ToolUseId → Bool) → Option ToolUseId → Option ToolUseId
kept present none = none
kept present (some id) = if id == "" || present id then some id else none

kept_twice :
    (present : ToolUseId → Bool) (o : Option ToolUseId)
    → kept present (kept present o) ≡ kept present o
kept_twice present none = refl
kept_twice present (some id) = on (stays present id) refl
  where
    on :
        (b : Bool)
        → stays present id ≡ b
        → kept present (if b then some id else none) ≡ (if b then some id else none)
    on true h = rw h refl
    on false h = refl

-- The skill itself is kept or retired, and no other is touched.
body_of-retire :
    (present : ToolUseId → Bool) (m n : String) (st : Active)
    → body_of n (retire present (body_of m st) m st)
      ≡ (if m == n then kept present (body_of n st) else body_of n st)
body_of-retire present m n st = on (body_of m st) refl
  where
    same : (m == n) ≡ true → body_of m st ≡ body_of n st
    same h = ap (λ x. body_of x st) ((eq_iff m n).0 h)

    stay :
        (e : Bool) (o p : Option ToolUseId)
        → (e ≡ true → o ≡ p)
        → kept present o ≡ o
        → p ≡ (if e then kept present p else p)
    stay false o p h k = refl
    stay true o p h k = subst (λ q. q ≡ kept present q) (h refl) (sym k)

    gone :
        (e : Bool) (o p : Option ToolUseId)
        → (e ≡ true → o ≡ p)
        → kept present o ≡ none
        → (if e then none else p) ≡ (if e then kept present p else p)
    gone false o p h k = refl
    gone true o p h k = subst (λ q. none ≡ kept present q) (h refl) (sym k)

    decided :
        (id : ToolUseId) (b : Bool)
        → stays present id ≡ b
        → body_of m st ≡ some id
        → body_of n (retire_if b m st)
          ≡ (if m == n then kept present (body_of n st) else body_of n st)
    decided id true h k = stay (m == n) (body_of m st) (body_of n st) same (rw k (rw h refl))
    decided id false h k =
        body_of-deactivate m n st
        ∙ gone (m == n) (body_of m st) (body_of n st) same (rw k (rw h refl))

    on :
        (o : Option ToolUseId)
        → body_of m st ≡ o
        → body_of n (retire present o m st)
          ≡ (if m == n then kept present (body_of n st) else body_of n st)
    on none k = stay (m == n) (body_of m st) (body_of n st) same (rw k refl)
    on (some id) k = decided id (stays present id) refl k

body_of-retire_all :
    (present : ToolUseId → Bool) (names : List String) (n : String) (st : Active)
    → body_of n (retire_all present names st)
      ≡ (if contains names n then kept present (body_of n st) else body_of n st)
body_of-retire_all present [] n st = refl
body_of-retire_all present (m ∷ names) n st =
    body_of-retire_all present names n (retire present (body_of m st) m st)
    ∙ rw (body_of-retire present m n st) (both (contains names n) (m == n) (body_of n st))
  where
    both :
        (a b : Bool) (o : Option ToolUseId)
        → (if a
            then kept present (if b then kept present o else o)
            else (if b then kept present o else o))
          ≡ (if b || a then kept present o else o)
    both true true o = kept_twice present o
    both true false o = refl
    both false true o = refl
    both false false o = refl

body_of_absent :
    (n : String) (st : Active) → contains (active_names st) n ≡ false → body_of n st ≡ none
body_of_absent n [] h = refl
body_of_absent n (l ∷ ls) h = ground (arith, body_of_absent n ls, h)

-- After a reconciliation a skill is loaded exactly where it was and its body is still present, or it has
-- no call to look for; it keeps that call.
pub body_of-reconcile :
    (present : ToolUseId → Bool) (n : String) (st : Active)
    → body_of n (reconcile present st) ≡ kept present (body_of n st)
unfolding reconcile
body_of-reconcile present n st =
    body_of-retire_all present (active_names st) n st
    ∙ on (contains (active_names st) n) (body_of_absent n st)
  where
    on :
        (b : Bool)
        → (b ≡ false → body_of n st ≡ none)
        → (if b then kept present (body_of n st) else body_of n st) ≡ kept present (body_of n st)
    on true h = refl
    on false h = rw (h refl) refl
