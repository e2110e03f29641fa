-- ===== src/Exchange/Examples.antt =====
-- Requests and responses that pass, some that do not, and the theorems at them.
use wombat_go.Common.{
  ℕ, zero, suc, Bool, true, ◌≡◌, ◌≢◌, refl, ap, sym, ◌∙◌, String, [], ◌∷◌, none, some, Result, ok,
  err, arith,
}
use wombat_go.Llm.{text, tool_use, user_text, stop_end_turn, stop_tool_use, Response}
use wombat_go.Paths.{Text, trim_space}
use wombat_go.Strategy.{flat}
use wombat_go.Tool.Dispatch.{returned}
use wombat_go.Run.{Agent, World, replied, no_tool_use, run}
use wombat_go.Exchange.{
  choice_tool, Request, answered, unknown_choice, bad_schema, empty_message, blank_tool_use,
  validate_request, validate_response, with_validation,
}
use wombat_go.Exchange.Checking.{IsSendable, IsActionable, with_validation_iff}
use wombat_go.Exchange.Acting.{IsValidated, run-no_tool_use}

-- A stand-in for `json.Valid`.
abbrev valid : Text → Bool
valid s = true

abbrev request : Request
request = record {
  messages = user_text "list the files" ∷ [];
  tools =
      record { name = "bash"; input_schema = "{}" }
      ∷ record { name = "ls"; input_schema = "" }
      ∷ [];
  mode = choice_tool;
  chosen = "bash";
}

abbrev calls : Response
calls = record { content = tool_use "t1" "bash" "{}" ∷ []; stop_reason = stop_tool_use }

abbrev nameless : Response
nameless = record { content = tool_use "t1" "" "{}" ∷ []; stop_reason = stop_tool_use }

abbrev next : Request → Result String Response
next req = ok calls

refusals :
    (validate_request valid (record request { chosen = "cat" }) ≡ some (unknown_choice "cat"))
    × (validate_request valid
          (record request { tools = record { name = "bash"; input_schema = "\"{}\"" } ∷ [] })
        ≡ some (bad_schema "bash"))
    × (validate_request valid (record request {
      messages = user_text "hi" ∷ record { role = "user"; content = [] } ∷ [];
    })
        ≡ some (empty_message 1 "user"))
    × (validate_response nameless ≡ some blank_tool_use)
unfolding validate_request validate_response trim_space
refusals = (refl, refl, refl, refl)

with_validation_iff_example :
    (with_validation valid next request ≡ answered calls
      → IsSendable valid request × (next request ≡ ok calls) × IsActionable calls)
    × (IsSendable valid request × (next request ≡ ok calls) × IsActionable calls
        → with_validation valid next request ≡ answered calls)
with_validation_iff_example = with_validation_iff valid next request calls

abbrev agent : Agent
agent = record {
  max_iters = 2;
  max_tokens = 1000;
  terminal = "";
  force_last_n = 0;
  strategy = flat;
  find = λ name. none;
  turn_notice = λ iter. "";
}

abbrev response : ℕ → Response
response zero = record { content = text "nothing" ∷ []; stop_reason = stop_end_turn }
response (suc zero) = calls
response (suc (suc n)) = record { content = text "done" ∷ []; stop_reason = stop_end_turn }

abbrev world : World
world = record {
  ends = λ iter after. none;
  reply = λ iter req. replied (response iter) 0;
  handler = λ iter i d u. returned "ok" [];
}

replied-inj : (r r' : Response) (t t' : ℕ) → replied r t ≡ replied r' t' → r ≡ r'
replied-inj r r' t t' h = ground arith

response-validated : (iter : ℕ) → validate_response (response iter) ≡ none
unfolding validate_response
response-validated zero = refl
response-validated (suc zero) = refl
response-validated (suc (suc n)) = refl

world-IsValidated : IsValidated world
world-IsValidated iter req resp thought h =
    ap validate_response (sym (replied-inj (response iter) resp 0 thought h))
    ∙ response-validated iter

run-no_tool_use_example : (run agent world (user_text "list the files" ∷ [])).1 ≢ err no_tool_use
run-no_tool_use_example =
    run-no_tool_use agent world (user_text "list the files" ∷ []) world-IsValidated
