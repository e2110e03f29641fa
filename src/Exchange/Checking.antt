-- ===== src/Exchange/Checking.antt =====
-- What passes, described without the order of the checks.
use wombat_go.Common.{
  ℕ, ◌+◌, Bool, true, false, ◌||◌, ◌≡◌, refl, ap, ◌∙◌, sym, subst, String, List, [], ◌∷◌, Option,
  none, some, Result, ok, err, All, codes, contains, is_empty, ◌==◌, arith, Bool-cases, inl, inr,
}
use wombat_go.Llm.{
  Message, ToolUse, StopReason, stop_end_turn, stop_tool_use, stop_max_tokens, stop_stop_sequence,
  stop_refusal, other_stop, Response, tool_uses,
}
use wombat_go.Paths.{Text}
use wombat_go.Exchange.{
  ToolSpec, ChoiceMode, choice_auto, choice_any, choice_tool, choice_none, other_mode, Request,
  is_json_object, check_messages, check_tools, tool_names, check_choice, or_else, validate_request,
  check_uses, check_stop, validate_response, answered, judge, receive, send_or_refuse,
  with_validation,
}

-- A tool has a name, and a schema that is an object or not supplied.
abbrev pub IsNamed : (Text → Bool) → ToolSpec → Type 0
IsNamed valid t =
    ((t.name == "") ≡ false)
    × ((is_empty (codes t.input_schema) || is_json_object valid (codes t.input_schema)) ≡ true)

abbrev pub IsChoice : List ToolSpec → String → ChoiceMode → Type 0
IsChoice ts chosen choice_tool = ((chosen == "") ≡ false) × (contains (tool_names ts) chosen ≡ true)
IsChoice ts chosen choice_any = is_empty ts ≡ false
IsChoice ts chosen choice_auto = Unit
IsChoice ts chosen choice_none = Unit
IsChoice ts chosen (other_mode mode) = Unit

-- A request that a provider can take.
pub record IsSendable (valid : Text → Bool) (req : Request) : Type 0 where
  pub spoken : is_empty req.messages ≡ false
  pub filled : All (λ m. is_empty m.content ≡ false) req.messages
  pub named : All (IsNamed valid) req.tools
  pub choice : IsChoice req.tools req.chosen req.mode

abbrev pub IsCall : ToolUse → Type 0
IsCall u = ((u.name == "") ≡ false) × ((u.id == "") ≡ false)

-- A response that the loop can act on: one that stops for tools has a call, and its calls have names and
-- ids.
abbrev pub IsActionable : Response → Type 0
IsActionable resp =
    resp.stop_reason ≡ stop_tool_use
    → (is_empty (tool_uses resp.content) ≡ false) × All IsCall (tool_uses resp.content)

check_messages_iff :
    (i : ℕ) (ms : List Message)
    → (check_messages i ms ≡ none → All (λ m. is_empty m.content ≡ false) ms)
      × (All (λ m. is_empty m.content ≡ false) ms → check_messages i ms ≡ none)
unfolding check_messages
check_messages_iff i [] = (λ h. tt, λ h. refl)
check_messages_iff i (m ∷ ms) =
    let ih = check_messages_iff (i + 1) ms in
    elim (Bool-cases (is_empty m.content)) [
      | inl e ↦ (λ h. absurd (ground (arith, h, e)), λ h. absurd (ground (arith, h.0, e)))
      | inr e ↦ (λ h. (e, ih.0 (ground (arith, h, e))), λ h. ground (arith, ih.1 h.1, e))
    ]

check_tools_iff :
    (valid : Text → Bool) (i : ℕ) (ts : List ToolSpec)
    → (check_tools valid i ts ≡ none → All (IsNamed valid) ts)
      × (All (IsNamed valid) ts → check_tools valid i ts ≡ none)
unfolding check_tools
check_tools_iff valid i [] = (λ h. tt, λ h. refl)
check_tools_iff valid i (t ∷ ts) =
    let ih = check_tools_iff valid (i + 1) ts in
    (
      λ h. ((ground (arith, h), ground (arith, h)), ih.0 (ground (arith, h))),
      λ h. ground (arith, h.0.0, h.0.1, ih.1 h.1),
    )

check_choice_iff :
    (req : Request) (mode : ChoiceMode)
    → (check_choice req mode ≡ none → IsChoice req.tools req.chosen mode)
      × (IsChoice req.tools req.chosen mode → check_choice req mode ≡ none)
unfolding check_choice
check_choice_iff req choice_tool =
    (λ h. (ground (arith, h), ground (arith, h)), λ h. ground (arith, h.0, h.1))
check_choice_iff req choice_any = (λ h. ground (arith, h), λ h. ground (arith, h))
check_choice_iff req choice_auto = (λ h. tt, λ h. refl)
check_choice_iff req choice_none = (λ h. tt, λ h. refl)
check_choice_iff req (other_mode mode) = (λ h. tt, λ h. refl)

or_else_iff :
    (a b : Option _)
    → (or_else a b ≡ none → (a ≡ none) × (b ≡ none))
      × ((a ≡ none) × (b ≡ none) → or_else a b ≡ none)
or_else_iff none b = (λ h. (refl, h), λ h. h.1)
or_else_iff (some e) b = (λ h. absurd (cc h), λ h. absurd (cc h.0))

validate_request_iff :
    (valid : Text → Bool) (req : Request)
    → (validate_request valid req ≡ none → IsSendable valid req)
      × (IsSendable valid req → validate_request valid req ≡ none)
unfolding validate_request
validate_request_iff valid req =
    let (ms, sm) = check_messages_iff 0 req.messages in
    let (ts, st) = check_tools_iff valid 0 req.tools in
    let (cs, sc) = check_choice_iff req req.mode in
    let (os, so) =
      or_else_iff (check_messages 0 req.messages)
        (or_else (check_tools valid 0 req.tools) (check_choice req req.mode)) in
    let (ps, sp) = or_else_iff (check_tools valid 0 req.tools) (check_choice req req.mode) in
    elim (Bool-cases (is_empty req.messages)) [
      | inl e ↦ (λ h. absurd (ground (arith, h, e)), λ h. absurd (cc (h.spoken, e)))
      | inr e ↦ rw e (
        λ h.
            let o = os h in
            let p = ps o.1 in
            record { spoken = e; filled = ms o.0; named = ts p.0; choice = cs p.1 },
        λ h. so (sm h.filled, sp (st h.named, sc h.choice)),
      )
    ]

check_uses_iff :
    (us : List ToolUse)
    → (check_uses us ≡ none → All IsCall us) × (All IsCall us → check_uses us ≡ none)
unfolding check_uses
check_uses_iff [] = (λ h. tt, λ h. refl)
check_uses_iff (u ∷ us) =
    let ih = check_uses_iff us in
    (
      λ h. ((ground (arith, h), ground (arith, h)), ih.0 (ground (arith, h))),
      λ h. ground (arith, h.0.0, h.0.1, ih.1 h.1),
    )

check_stop_iff :
    (stop : StopReason) (us : List ToolUse)
    → (check_stop stop us ≡ none → stop ≡ stop_tool_use → (is_empty us ≡ false) × All IsCall us)
      × ((stop ≡ stop_tool_use → (is_empty us ≡ false) × All IsCall us) → check_stop stop us ≡ none)
unfolding check_stop
check_stop_iff stop_tool_use us =
    let ih = check_uses_iff us in
    elim (Bool-cases (is_empty us)) [
      | inl e ↦ (λ h. absurd (ground (arith, h, e)), λ h. absurd (cc ((h refl).0, e)))
      | inr e ↦ rw e (λ h k. (refl, ih.0 h), λ h. ih.1 (h refl).1)
    ]
check_stop_iff stop_end_turn us = (λ h k. absurd (cc k), λ h. refl)
check_stop_iff stop_max_tokens us = (λ h k. absurd (cc k), λ h. refl)
check_stop_iff stop_stop_sequence us = (λ h k. absurd (cc k), λ h. refl)
check_stop_iff stop_refusal us = (λ h k. absurd (cc k), λ h. refl)
check_stop_iff (other_stop reason) us = (λ h k. absurd (cc k), λ h. refl)

pub validate_response_iff :
    (resp : Response)
    → (validate_response resp ≡ none → IsActionable resp)
      × (IsActionable resp → validate_response resp ≡ none)
unfolding validate_response
validate_response_iff resp = check_stop_iff resp.stop_reason (tool_uses resp.content)

module _ {F : Type 0} (valid : Text → Bool) where
  receive_iff :
      (reply : Result F Response) (resp : Response)
      → (receive reply ≡ answered resp → (reply ≡ ok resp) × IsActionable resp)
        × ((reply ≡ ok resp) × IsActionable resp → receive reply ≡ answered resp)
  unfolding receive
  receive_iff (err e) resp = (λ h. absurd (cc h), λ h. absurd (cc h.0))
  receive_iff (ok r) resp = (judged (validate_response r) refl, accepted)
    where
      judged :
          (o : Option _)
          → validate_response r ≡ o
          → judge {F = F} o r ≡ answered resp
          → Path (Result F Response) (ok r) (ok resp) × IsActionable resp
      judged none e h =
          let same : r ≡ resp = ground (arith, h) in
          (ap ok same, subst IsActionable same ((validate_response_iff r).0 e))
      judged (some c) e h = absurd (cc h)

      accepted :
          Path (Result F Response) (ok r) (ok resp) × IsActionable resp
          → judge {F = F} (validate_response r) r ≡ answered resp
      accepted h =
          let same : r ≡ resp = ground (arith, h.0) in
          ap (λ o. judge o r) ((validate_response_iff r).1 (subst IsActionable (sym same) h.1))
          ∙ ap answered same

-- `WithValidation` passes a response on without an error exactly when the request is one that a provider
-- can take, the wrapped client answered it with that response, and the loop can act on it.
pub with_validation_iff :
    {F : Type 0} (valid : Text → Bool) (next : Request → Result F Response) (req : Request)
    (resp : Response)
    → (with_validation valid next req ≡ answered resp
        → IsSendable valid req × (next req ≡ ok resp) × IsActionable resp)
      × (IsSendable valid req × (next req ≡ ok resp) × IsActionable resp
          → with_validation valid next req ≡ answered resp)
unfolding with_validation
with_validation_iff {F = F} valid next req resp =
    let (rs, sr) = receive_iff valid (next req) resp in
    (
      sent (validate_request valid req) refl,
      λ h.
          ap (λ o. send_or_refuse o (next req)) ((validate_request_iff valid req).1 h.0)
          ∙ sr (h.1, h.2),
    )
  where
    sent :
        (o : Option _)
        → validate_request valid req ≡ o
        → send_or_refuse o (next req) ≡ answered resp
        → IsSendable valid req × (next req ≡ ok resp) × IsActionable resp
    sent none e h =
        let r = (receive_iff valid (next req) resp).0 h in
        ((validate_request_iff valid req).0 e, r.0, r.1)
    sent (some c) e h = absurd (cc h)
