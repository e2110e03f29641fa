-- ===== src/Skill/Loading.antt =====
-- A skill from its load to its end: the tools behind its gate.
use wombat_go.Common.{
  Bool, true, false, ◌≡◌, refl, ap, ◌∙◌, sym, subst, String, Option, none, some, ◌==◌, eq_iff,
  arith, if◌then◌else◌,
}
use wombat_go.Llm.{ToolUseId}
use wombat_go.Skill.{
  Active, body_of, is_some, is_active, deactivate, activate, Skill, Registry, skill_named, gate_for,
  is_meta, reconcile, passed, needs_skill, guard, already_loaded, loaded_body, unloaded, load_known,
  load_found, unload_found, load_skill, unload_known, unload_skill,
}
use wombat_go.Skill.Gating.{kept, body_of-reconcile, body_of-deactivate}

body_of-activate :
    (name : String) (use_id : ToolUseId) (st : Active)
    → body_of name (activate name use_id st) ≡ some use_id
unfolding activate
body_of-activate name use_id st = at (name == name) ((eq_iff name name).1 refl)
  where
    at :
        (b : Bool)
        → b ≡ true
        → (if b then some use_id else body_of name (deactivate name st)) ≡ some use_id
    at true h = refl
    at false h = absurd (ground (arith, h))

-- A tool behind the gate of `name` goes by whether `name` is loaded.
guard_gated :
    (reg : Registry) (tool name : String) (st : Active) (b : Bool)
    → is_meta tool ≡ false
    → gate_for reg tool ≡ some name
    → is_active name st ≡ b
    → guard reg tool st ≡ (if b then passed else needs_skill tool name)
unfolding guard
guard_gated reg tool name st b m g a = rw (m, g, a) refl

load_skill_lem :
    (reg : Registry) (name : String) (use_id : ToolUseId) (s : Skill) (st : Active) (b : Bool)
    → skill_named name reg.skills ≡ some s
    → is_active name st ≡ b
    → load_skill reg name use_id st ≡ load_known b s name use_id st
unfolding load_skill
load_skill_lem reg name use_id s st b k a =
    ap (λ o. load_found o (is_active name st) name use_id st) k
    ∙ ap (λ c. load_known c s name use_id st) a

unload_skill_lem :
    (reg : Registry) (name : String) (s : Skill) (st : Active) (b : Bool)
    → skill_named name reg.skills ≡ some s
    → is_active name st ≡ b
    → unload_skill reg name st ≡ unload_known b name st
unfolding unload_skill
unload_skill_lem reg name s st b k a =
    ap (λ o. unload_found o (is_active name st) name st) k ∙ ap (λ c. unload_known c name st) a

-- A load of a known skill that is not loaded, as a call with an id: before it the tools behind the
-- skill's gate are refused; the load returns the body and they go through; another load returns a
-- stub and changes nothing; once the body is no longer present, or the skill is unloaded, they are
-- refused again.
pub guard-load_skill :
    (reg : Registry) (name tool : String) (use_id later : ToolUseId) (s : Skill) (st : Active)
    → skill_named name reg.skills ≡ some s
    → gate_for reg tool ≡ some name
    → is_meta tool ≡ false
    → is_active name st ≡ false
    → (use_id == "") ≡ false
    → let r = load_skill reg name use_id st in
      (guard reg tool st ≡ needs_skill tool name)
      × (r.0 ≡ loaded_body s.body)
      × (guard reg tool r.1 ≡ passed)
      × (load_skill reg name later r.1 ≡ (already_loaded name, r.1))
      × ((present : ToolUseId → Bool)
          → present use_id ≡ false
          → guard reg tool (reconcile present r.1) ≡ needs_skill tool name)
      × ((unload_skill reg name r.1).0 ≡ unloaded name)
      × (guard reg tool (unload_skill reg name r.1).1 ≡ needs_skill tool name)
guard-load_skill reg name tool use_id later s st k g m a ne =
    let st' = activate name use_id st in
    let body = body_of-activate name use_id st in
    let active : is_active name st' ≡ true = ap is_some body in
    let loads = load_skill_lem reg name use_id s st false k a in
    let unloads = unload_skill_lem reg name s st' true k active in
    subst
      (λ r.
        (guard reg tool st ≡ needs_skill tool name)
        × (r.0 ≡ loaded_body s.body)
        × (guard reg tool r.1 ≡ passed)
        × (load_skill reg name later r.1 ≡ (already_loaded name, r.1))
        × ((present : ToolUseId → Bool)
            → present use_id ≡ false
            → guard reg tool (reconcile present r.1) ≡ needs_skill tool name)
        × ((unload_skill reg name r.1).0 ≡ unloaded name)
        × (guard reg tool (unload_skill reg name r.1).1 ≡ needs_skill tool name))
      (sym loads)
      (
        guard_gated reg tool name st false m g a,
        refl,
        guard_gated reg tool name st' true m g active,
        load_skill_lem reg name later s st' true k active,
        λ present p. guard_gated reg tool name (reconcile present st') false m g (
            ap is_some
              (body_of-reconcile present name st' ∙ ap (kept present) body ∙ evicted present p)),
        ap (λ r. r.0) unloads,
        ap (λ r. guard reg tool r.1) unloads
            ∙ guard_gated reg tool name (deactivate name st') false m g (
                ap is_some (
                  body_of-deactivate name name st'
                  ∙ self (name == name) ((eq_iff name name).1 refl) (body_of name st'))),
      )
  where
    evicted :
        (present : ToolUseId → Bool) → present use_id ≡ false → kept present (some use_id) ≡ none
    evicted present p = rw (ne, p) refl

    self : (b : Bool) → b ≡ true → (o : Option ToolUseId) → (if b then none else o) ≡ none
    self true h o = refl
    self false h o = absurd (ground (arith, h))
