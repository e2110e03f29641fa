-- ===== src/Strategy/Sequences.antt =====
-- `Compacted`, and `Sequence` of any strategies that keep transcripts valid.
use wombat_go.Common.{
  ℕ, String, true, false, ◌-◌, ◌≡◌, refl, sym, subst, ◌⊎◌, inl, inr, List, [], ◌∷◌, arith, length,
  drop, take, ◌=?◌, ok, ◌==◌, eq_iff, All, All-drop, none, some, Bool-cases, Option-cases,
}
use wombat_go.Llm.{role_user, Message, user_text}
use wombat_go.Convo.{Convo, validate}
use wombat_go.Convo.Spec.{IsValid}
use wombat_go.Convo.Validation.{validate-IsValid}
use wombat_go.Strategy.{
  View, Results, Strategy, flat, sequence_from, sequence, Window, apply_window, cut_at, anchor,
  drop_pairs, safe_cut, is_fresh_at, DropTagged, apply_drop_tagged, victims, prepend, Compacted,
  summarized, apply_compacted,
}
use wombat_go.Strategy.Cut.{safe_cut_lem, drop-IsValid}
use wombat_go.Strategy.Windows.{validate-apply_window}
use wombat_go.Strategy.Dropping.{
  StartsFilled, IsFilled, drop_pairs-IsFilled, validate-apply_drop_tagged,
}

-- A user text put before a transcript that opens with a user turn joins that turn.
prepend-IsValid : (c : Convo) (s : String) → IsValid c → IsValid (prepend c (user_text s))
unfolding prepend
prepend-IsValid [] s v = absurd v.before.opens
prepend-IsValid (m ∷ c) s v =
    let same : (m.role == role_user) ≡ true =
      ground (arith, eq_iff m.role role_user, v.before.opens) in
    rw same (record {
      before = record {
        opens = v.before.opens;
        follows =
            (v.before.follows.0, (tt, v.before.follows.1), v.before.follows.2, v.before.follows.3);
        unique = v.before.unique;
      };
      settled = v.settled;
    })

prepend-IsFilled : (c : Convo) (s : String) → IsFilled c → IsFilled (prepend c (user_text s))
unfolding prepend
prepend-IsFilled [] s f = (refl, tt)
prepend-IsFilled (m ∷ c) s f = elim (Bool-cases (m.role == role_user)) [
  | inl e ↦ rw e (refl, f.1)
  | inr e ↦ rw e (refl, f)
]

summarized-IsValid :
    (c : Convo) (cut : ℕ) (fn : List Message → String)
    → IsValid c
    → is_fresh_at c cut ≡ true
    → IsValid (summarized c cut fn)
unfolding summarized
summarized-IsValid c cut fn v h =
    let rest = drop-IsValid c cut v h in
    elim (Bool-cases (fn (take cut c) == "")) [
      | inl e ↦ rw e rest
      | inr e ↦ rw e (prepend-IsValid (drop cut c) _ rest)
    ]

summarized-IsFilled :
    (c : Convo) (cut : ℕ) (fn : List Message → String) → IsFilled c → IsFilled (summarized c cut fn)
unfolding summarized
summarized-IsFilled c cut fn f =
    let rest = All-drop _ cut c f in
    elim (Bool-cases (fn (take cut c) == "")) [
      | inl e ↦ rw e rest
      | inr e ↦ rw e (prepend-IsFilled (drop cut c) _ rest)
    ]

-- A cut that `SafeCut` returns, and that is not 0, leaves a valid transcript under its summary.
summarized_at_cut :
    (c : Convo) (want : ℕ) (fn : List Message → String)
    → validate c ≡ ok tt
    → (safe_cut c want =? 0) ≡ false
    → validate (summarized c (safe_cut c want) fn) ≡ ok tt
summarized_at_cut c want fn h n = elim (safe_cut_lem c want).1 [
  | inl e ↦ absurd (ground (arith, e))
  | inr fresh ↦ (validate-IsValid _).1 (summarized-IsValid c _ fn ((validate-IsValid c).0 h) fresh)
]

-- `Compacted` keeps a valid transcript valid, whatever the compactor returns.
pub validate-apply_compacted :
    (s : Compacted) (v : View)
    → validate v.messages ≡ ok tt
    → validate (apply_compacted s v) ≡ ok tt
unfolding apply_compacted
validate-apply_compacted s v h = elim (Option-cases s.compactor) [
  | inl e ↦ rw e h
  | inr (fn, e) ↦
      let c = v.messages in
      let below = summarized_at_cut c (length c - s.keep) fn h in rw e (ground (arith, below))
]

-- What a strategy must promise so that it may stand in a sequence.
pub record KeepsValid (st : Strategy) : Type 0 where
  pub valid :
      (v : View) → validate v.messages ≡ ok tt → IsFilled v.messages → validate (st v) ≡ ok tt
  pub filled : (v : View) → IsFilled v.messages → IsFilled (st v)

starts : (c : Convo) → IsFilled c → StartsFilled c
starts [] f = tt
starts (m ∷ c) f = f.0

cut_at-IsFilled : (c : Convo) (i : ℕ) → IsFilled c → IsFilled (cut_at c i)
unfolding cut_at
cut_at-IsFilled c i f = elim (Bool-cases (i =? 0)) [
  | inl e ↦ rw e f
  | inr e ↦ rw e (All-drop _ i c f)
]

pub flat-KeepsValid : KeepsValid flat
unfolding flat
flat-KeepsValid = record { valid = λ v h f. h; filled = λ v f. f }

window_cases :
    (w : Window) (v : View)
    → (apply_window w v ≡ v.messages)
      ⊎ (apply_window w v ≡ cut_at v.messages (safe_cut v.messages (anchor w (length v.messages))))
unfolding apply_window
window_cases w v = ground arith

apply_window-IsFilled : (w : Window) (v : View) → IsFilled v.messages → IsFilled (apply_window w v)
apply_window-IsFilled w v f = elim (window_cases w v) [
  | inl e ↦ subst IsFilled (sym e) f
  | inr e ↦ subst IsFilled (sym e) (cut_at-IsFilled v.messages _ f)
]

pub apply_window-KeepsValid : (w : Window) → KeepsValid (apply_window w)
apply_window-KeepsValid w = record {
  valid = λ v h f. validate-apply_window w v h;
  filled = apply_window-IsFilled w;
}

drop_tagged_cases :
    (d : DropTagged) (v : View)
    → (apply_drop_tagged d v ≡ v.messages)
      ⊎ (apply_drop_tagged d v ≡ drop_pairs v.messages (victims d v))
unfolding apply_drop_tagged
drop_tagged_cases d v = ground arith

apply_drop_tagged-IsFilled :
    (d : DropTagged) (v : View) → IsFilled v.messages → IsFilled (apply_drop_tagged d v)
apply_drop_tagged-IsFilled d v f = elim (drop_tagged_cases d v) [
  | inl e ↦ subst IsFilled (sym e) f
  | inr e ↦ subst IsFilled (sym e) (drop_pairs-IsFilled v.messages _ f)
]

pub apply_drop_tagged-KeepsValid : (d : DropTagged) → KeepsValid (apply_drop_tagged d)
apply_drop_tagged-KeepsValid d = record {
  valid = λ v h f. validate-apply_drop_tagged d v h (starts v.messages f);
  filled = apply_drop_tagged-IsFilled d;
}

compacted_none : (s : Compacted) (v : View) → s.compactor ≡ none → apply_compacted s v ≡ v.messages
unfolding apply_compacted
compacted_none s v e = rw e refl

compacted_cases :
    (s : Compacted) (v : View) (fn : List Message → String)
    → s.compactor ≡ some fn
    → (apply_compacted s v ≡ v.messages)
      ⊎ (apply_compacted s v
          ≡ summarized v.messages (safe_cut v.messages (length v.messages - s.keep)) fn)
unfolding apply_compacted
compacted_cases s v fn e = rw e (ground arith)

apply_compacted-IsFilled :
    (s : Compacted) (v : View) → IsFilled v.messages → IsFilled (apply_compacted s v)
apply_compacted-IsFilled s v f = elim (Option-cases s.compactor) [
  | inl e ↦ subst IsFilled (sym (compacted_none s v e)) f
  | inr (fn, e) ↦ elim (compacted_cases s v fn e) [
    | inl r ↦ subst IsFilled (sym r) f
    | inr r ↦ subst IsFilled (sym r) (summarized-IsFilled v.messages _ fn f)
  ]
]

pub apply_compacted-KeepsValid : (s : Compacted) → KeepsValid (apply_compacted s)
apply_compacted-KeepsValid s = record {
  valid = λ v h f. validate-apply_compacted s v h;
  filled = apply_compacted-IsFilled s;
}

sequence_from-valid :
    (ss : List Strategy) (msgs : List Message) (rs : Results)
    → All KeepsValid ss
    → validate msgs ≡ ok tt
    → IsFilled msgs
    → (validate (sequence_from ss msgs rs) ≡ ok tt) × IsFilled (sequence_from ss msgs rs)
unfolding sequence_from
sequence_from-valid [] msgs rs k h f = (h, f)
sequence_from-valid (st ∷ ss) msgs rs k h f =
    let v : View = record { messages = msgs; results = rs } in
    sequence_from-valid ss (st v) rs k.1 (k.0.valid v h f) (k.0.filled v f)

-- `Sequence` of strategies that each keep a transcript valid and without empty turns does so too.
pub validate-sequence :
    (ss : List Strategy) (v : View)
    → All KeepsValid ss
    → validate v.messages ≡ ok tt
    → IsFilled v.messages
    → (validate (sequence ss v) ≡ ok tt) × IsFilled (sequence ss v)
unfolding sequence
validate-sequence ss v = sequence_from-valid ss v.messages v.results
