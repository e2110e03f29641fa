-- ===== src/Skill/Examples.antt =====
-- A registry with one skill and one tool behind it.
use wombat_go.Common.{Bool, false, ◌≡◌, refl, ◌&&◌, ◌||◌, String, [], ◌∷◌, none, contains}
use wombat_go.Llm.{ToolUseId}
use wombat_go.Tool.{Def}
use wombat_go.Skill.{
  Active, Skill, Registry, GatedSet, gate, bind, names_of, is_meta, visible, guard, passed,
  needs_skill, reconcile, load_skill, unload_skill, loaded_body, already_loaded, unloaded,
}
use wombat_go.Skill.Gating.{offers, passes, visible-guard}
use wombat_go.Skill.Loading.{guard-load_skill}

abbrev pdf_forms : Skill
pdf_forms = record { name = "pdf-forms"; description = "Filling forms"; body = "# PDF forms" }

abbrev registry : Registry
registry = record {
  skills = pdf_forms ∷ [];
  gates = record { tool = "fill_pdf"; skill = "pdf-forms" } ∷ [];
}

abbrev def_named : String → Def
def_named name = record { name = name; caps = 1; needs = 0 }

abbrev gated : GatedSet
gated = record {
  reg = registry;
  base = def_named "view_file" ∷ def_named "fill_pdf" ∷ [];
  load = def_named "load_skill";
  unload = def_named "unload_skill";
}

visible-guard_example : offers gated [] "fill_pdf" ≡ (
    (contains (names_of gated.base) "fill_pdf" || is_meta "fill_pdf")
    && passes (guard registry "fill_pdf" []))
visible-guard_example = visible-guard gated [] "fill_pdf" refl refl

abbrev loaded_state : Active
loaded_state = record { name = "pdf-forms"; body = "call_1" } ∷ []

abbrev nothing_present : ToolUseId → Bool
nothing_present id = false

guard-load_skill_example :
    let r = load_skill registry "pdf-forms" "call_1" [] in
    (guard registry "fill_pdf" [] ≡ needs_skill "fill_pdf" "pdf-forms")
    × (r.0 ≡ loaded_body "# PDF forms")
    × (guard registry "fill_pdf" r.1 ≡ passed)
    × (load_skill registry "pdf-forms" "call_2" r.1 ≡ (already_loaded "pdf-forms", r.1))
    × ((present : ToolUseId → Bool)
        → present "call_1" ≡ false
        → guard registry "fill_pdf" (reconcile present r.1) ≡ needs_skill "fill_pdf" "pdf-forms")
    × ((unload_skill registry "pdf-forms" r.1).0 ≡ unloaded "pdf-forms")
    × (guard registry "fill_pdf" (unload_skill registry "pdf-forms" r.1).1
        ≡ needs_skill "fill_pdf" "pdf-forms")
guard-load_skill_example =
    guard-load_skill registry "pdf-forms" "fill_pdf" "call_1" "call_2" pdf_forms [] refl refl refl
      refl refl

hides_gated_tools : names_of (visible gated []) ≡ "view_file" ∷ "load_skill" ∷ "unload_skill" ∷ []
unfolding visible
hides_gated_tools = refl

refuses_a_second_gate : gate "sql" "fill_pdf" registry ≡ none
unfolding gate
refuses_a_second_gate = refl

refuses_a_meta_tool : bind registry (def_named "load_skill" ∷ []) gated.load gated.unload ≡ none
unfolding bind
refuses_a_meta_tool = refl
