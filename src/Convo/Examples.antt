-- ===== src/Convo/Examples.antt =====
-- The theorems about transcripts at concrete ones.
use wombat_go.Common.{◌≡◌, ◌↔◌, refl, sym, false, [], ◌∷◌, ok}
use wombat_go.Llm.{role_user, role_assistant, text, tool_use, tool_result, Message, user_text}
use wombat_go.Convo.{Convo, validate}
use wombat_go.Convo.Spec.{IsOpen, IsValid}
use wombat_go.Convo.Extend.{Answers-nil}
use wombat_go.Convo.Validation.{user_ne_assistant, validate-IsValid}

abbrev asking : Convo
asking =
    user_text "list the files"
    ∷ record {
      role = role_assistant;
      content = text "looking" ∷ tool_use "a" "bash" "ls" ∷ tool_use "b" "bash" "pwd" ∷ [];
    }
    ∷ []

abbrev answer : Message
answer = record {
  role = role_user;
  content = tool_result "b" "/work" false ∷ tool_result "a" "x.go" false ∷ [];
}

abbrev answered : Convo
answered =
    user_text "list the files"
    ∷ record {
      role = role_assistant;
      content = text "looking" ∷ tool_use "a" "bash" "ls" ∷ tool_use "b" "bash" "pwd" ∷ [];
    }
    ∷ answer
    ∷ []

validate-answered : validate answered ≡ ok tt
unfolding validate
validate-answered = refl

asking-IsOpen : IsOpen asking
asking-IsOpen = record {
  opens = refl;
  follows = (
    user_ne_assistant,
    (tt, tt),
    Answers-nil,
    ((λ e. user_ne_assistant (sym e)), (tt, (refl, (refl, tt))), Answers-nil, tt),
  );
  unique = refl;
}

validate-IsValid_example : (validate answered ≡ ok tt) ↔ IsValid answered
validate-IsValid_example = validate-IsValid answered
