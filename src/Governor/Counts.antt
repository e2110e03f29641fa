-- ===== src/Governor/Counts.antt =====
-- The counters of a budget are counts of the acts.
use wombat_go.Common.{
  ℕ, ◌+◌, Bool, true, false, ◌≡◌, refl, ap, ◌∙◌, List, [], ◌∷◌, arith, if◌then◌else◌,
}
use wombat_go.Governor.{
  Money, Budget, step, add_tool_call, enter_subagent, exit_subagent, add_call, Act, called, stepped,
  dispatched, entered, exited, expired, cancelled, perform, perform_all,
}

abbrev pub is_stepped : {M : Type 0} → Act M → Bool
is_stepped stepped = true
is_stepped (called usd tokens) = false
is_stepped (dispatched key) = false
is_stepped entered = false
is_stepped exited = false
is_stepped expired = false
is_stepped cancelled = false

abbrev pub is_dispatched : {M : Type 0} → Act M → Bool
is_dispatched (dispatched key) = true
is_dispatched (called usd tokens) = false
is_dispatched stepped = false
is_dispatched entered = false
is_dispatched exited = false
is_dispatched expired = false
is_dispatched cancelled = false

abbrev pub is_expired : {M : Type 0} → Act M → Bool
is_expired expired = true
is_expired (called usd tokens) = false
is_expired stepped = false
is_expired (dispatched key) = false
is_expired entered = false
is_expired exited = false
is_expired cancelled = false

abbrev pub is_cancelled : {M : Type 0} → Act M → Bool
is_cancelled cancelled = true
is_cancelled (called usd tokens) = false
is_cancelled stepped = false
is_cancelled (dispatched key) = false
is_cancelled entered = false
is_cancelled exited = false
is_cancelled expired = false

abbrev pub count : {M : Type 0} → (Act M → Bool) → List (Act M) → ℕ
count p [] = 0
count p (a ∷ acts) = if p a then 1 + count p acts else count p acts

module _ {M : Type 0} (money : Money M) where
  -- What the model calls cost, in their order.
  abbrev pub spent : M → List (Act M) → M
  spent total [] = total
  spent total (called usd tokens ∷ acts) = spent (money.add total usd) acts
  spent total (stepped ∷ acts) = spent total acts
  spent total (dispatched key ∷ acts) = spent total acts
  spent total (entered ∷ acts) = spent total acts
  spent total (exited ∷ acts) = spent total acts
  spent total (expired ∷ acts) = spent total acts
  spent total (cancelled ∷ acts) = spent total acts

  pub perform_all-usd :
      (acts : List (Act M)) (b : Budget M) → (perform_all money acts b).usd ≡ spent b.usd acts
  unfolding perform_all perform step add_tool_call enter_subagent exit_subagent add_call
  perform_all-usd [] b = refl
  perform_all-usd (called usd tokens ∷ acts) b =
      perform_all-usd acts (add_call money usd tokens b) ∙ ap (λ m. spent m acts) (ground arith)
  perform_all-usd (stepped ∷ acts) b =
      perform_all-usd acts (step b) ∙ ap (λ m. spent m acts) (ground arith)
  perform_all-usd (dispatched key ∷ acts) b =
      perform_all-usd acts (add_tool_call key b) ∙ ap (λ m. spent m acts) (ground arith)
  perform_all-usd (entered ∷ acts) b =
      perform_all-usd acts (enter_subagent b).1 ∙ ap (λ m. spent m acts) (ground arith)
  perform_all-usd (exited ∷ acts) b =
      perform_all-usd acts (exit_subagent b) ∙ ap (λ m. spent m acts) (ground arith)
  perform_all-usd (expired ∷ acts) b = perform_all-usd acts (perform money expired b)
  perform_all-usd (cancelled ∷ acts) b = perform_all-usd acts (perform money cancelled b)

  perform-steps :
      (a : Act M) (b : Budget M)
      → (perform money a b).steps ≡ (if is_stepped a then 1 + b.steps else b.steps)
  unfolding perform step add_tool_call enter_subagent exit_subagent add_call
  perform-steps (called usd tokens) b = ground arith
  perform-steps stepped b = ground arith
  perform-steps (dispatched key) b = ground arith
  perform-steps entered b = ground arith
  perform-steps exited b = ground arith
  perform-steps expired b = refl
  perform-steps cancelled b = refl

  pub perform_all-steps :
      (acts : List (Act M)) (b : Budget M)
      → (perform_all money acts b).steps ≡ b.steps + count is_stepped acts
  unfolding perform_all
  perform_all-steps [] b = omega arith
  perform_all-steps (a ∷ acts) b =
      ground (arith, perform_all-steps acts (perform money a b), perform-steps a b)

  perform-tool_calls :
      (a : Act M) (b : Budget M)
      → (perform money a b).tool_calls
        ≡ (if is_dispatched a then 1 + b.tool_calls else b.tool_calls)
  unfolding perform step add_tool_call enter_subagent exit_subagent add_call
  perform-tool_calls (called usd tokens) b = ground arith
  perform-tool_calls stepped b = ground arith
  perform-tool_calls (dispatched key) b = ground arith
  perform-tool_calls entered b = ground arith
  perform-tool_calls exited b = ground arith
  perform-tool_calls expired b = refl
  perform-tool_calls cancelled b = refl

  pub perform_all-tool_calls :
      (acts : List (Act M)) (b : Budget M)
      → (perform_all money acts b).tool_calls ≡ b.tool_calls + count is_dispatched acts
  unfolding perform_all
  perform_all-tool_calls [] b = omega arith
  perform_all-tool_calls (a ∷ acts) b =
      ground (arith, perform_all-tool_calls acts (perform money a b), perform-tool_calls a b)
