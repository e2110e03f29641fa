-- ===== src/Strategy/Samples.antt =====
-- A transcript with two tool calls, on which the examples run.
use wombat_go.Common.{◌≡◌, refl, false, String, [], ◌∷◌, ok}
use wombat_go.Llm.{role_user, role_assistant, text, tool_use, tool_result, Message, user_text}
use wombat_go.Convo.{Convo, validate}
use wombat_go.Strategy.{View}
use wombat_go.Strategy.Dropping.{IsFilled}

abbrev pub call : String → Message
call id = record { role = role_assistant; content = tool_use id "bash" "ls" ∷ [] }

abbrev pub result : String → Message
result id = record { role = role_user; content = tool_result id "x.go" false ∷ [] }

abbrev pub reply : Message
reply = record { role = role_assistant; content = text "done" ∷ [] }

abbrev pub long : Convo
long =
    user_text "first"
    ∷ call "a"
    ∷ result "a"
    ∷ reply
    ∷ user_text "second"
    ∷ call "b"
    ∷ result "b"
    ∷ reply
    ∷ user_text "third"
    ∷ []

abbrev pub long_view : View
long_view = record {
  messages = long;
  results = ("a", record { tool = "load_skill"; tags = "skill" ∷ []; bytes = 9000 }) ∷ [];
}

pub validate-long : validate long ≡ ok tt
unfolding validate
validate-long = refl

pub long-IsFilled : IsFilled long
long-IsFilled = (refl, (refl, (refl, (refl, (refl, (refl, (refl, (refl, (refl, tt)))))))))
