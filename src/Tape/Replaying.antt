-- ===== src/Tape/Replaying.antt =====
-- A session that was recorded, and its replay.
use wombat_go.Common.{
  ℕ, suc, ◌+◌, ◌<◌, Bool, true, false, ◌≡◌, refl, ap, ◌∙◌, sym, subst, List, [], ◌∷◌, map, ◌++◌,
  append_assoc, append-nil, none, some, ok, ◌>>=◌, length, length-append, get_elem?, leb, arith,
  All, if◌then◌else◌, true_ne_false,
}
use wombat_go.Paths.{Text}
use wombat_go.Tape.{
  RecKey, same_key, kind_tool, Codec, open_tape, loaded_tape, no_entries, record_mode, replay, Tape,
  take, take_from, count_miss, count_hit, set_at, record_entry, write, Replied, answered, Call,
  key_of, call_in, tools, run_calls, on_take, replay_hit, decoded, ToolResponse,
}
use wombat_go.Tape.Loading.{
  same_key→eq, same_key_refl, IsWritable, response, lines_of, responses, load-lines_of, entry_of,
}

abbrev pub live_answers : List Call → List (Replied × Bool)
live_answers [] = []
live_answers (c ∷ cs) = (answered c.live, true) ∷ live_answers cs

abbrev pub recorded_answers : List Call → List (Replied × Bool)
recorded_answers [] = []
recorded_answers (c ∷ cs) = (answered c.live, false) ∷ recorded_answers cs

module _ (codec : Codec) where
  -- The tape after a call that ran and was written.
  abbrev with_line : Call → Tape → Tape
  with_line c t =
      write none (codec.encode (entry_of c (response codec c) (t.next (key_of c))))
        (record (count_miss t) { next = set_at (key_of c) (t.next (key_of c) + 1) t.next })

  tools-record :
      (c : Call) (t : Tape)
      → t.mode ≡ record_mode
      → t.is_open ≡ true
      → c.fault ≡ none
      → tools codec c t ≡ (answered c.live, true, with_line c t)
  unfolding tools record_entry
  tools-record c t m o f = rw (m, o, f) refl

  -- Recording: every call runs, and its line is written.
  run_calls-lines_of :
      (cs : List Call) (t : Tape)
      → t.mode ≡ record_mode
      → t.is_open ≡ true
      → All (IsWritable codec) cs
      → ((run_calls codec cs t).0 ≡ live_answers cs)
        × ((run_calls codec cs t).1.written ≡ t.written ++ lines_of codec t.next cs)
  unfolding run_calls
  run_calls-lines_of [] t m o f = (refl, sym (append-nil t.written))
  run_calls-lines_of (c ∷ cs) t m o f =
      let (a, w) = run_calls-lines_of cs (with_line c t) m o f.1 in
      rw (tools-record c t m o f.0.fault)
        (ap (◌∷◌ (answered c.live, true)) a, w ∙ append_assoc t.written _ _)

  get_elem?-middle :
      (done : List Text) (r : Text) (rest : List Text)
      → get_elem? (done ++ r ∷ rest) (length done) ≡ some r
  get_elem?-middle [] r rest = refl
  get_elem?-middle (x ∷ done) r rest = get_elem?-middle done r rest

  -- The tape after the next response under a key.
  abbrev moved : RecKey → ℕ → Tape → Tape
  moved k n t = count_hit (record t { cursor = set_at k (n + 1) t.cursor })

  take_from_lem :
      (k : RecKey) (seq done : List Text) (r : Text) (rest : List Text) (t : Tape)
      → seq ≡ done ++ r ∷ rest
      → t.cursor k ≡ length done
      → take_from k seq t ≡ (some r, moved k (length done) t)
  take_from_lem k [] done r rest t e c =
      absurd (omega (arith, ap length e, length-append done (r ∷ rest)))
  take_from_lem k (x ∷ seq) done r rest t e c =
      let total : length (x ∷ seq) ≡ length done + suc (length rest) =
        ap length e ∙ length-append done (r ∷ rest) in
      rw (before (length (x ∷ seq)) (t.cursor k) (omega (arith, total, c))) (
        ap (λ n. (get_elem? (x ∷ seq) n, moved k n t)) c
        ∙ ap (λ es. (get_elem? es (length done), moved k (length done) t)) e
        ∙ ap (λ o. (o, moved k (length done) t)) (get_elem?-middle done r rest))
    where
      before : (a b : ℕ) → b < a → leb a b ≡ false
      before a b h = ground arith

  take-moved :
      (k : RecKey) (done : RecKey → List Text) (r : Text) (rest : List Text) (t : Tape)
      → t.loaded k ≡ done k ++ r ∷ rest
      → t.cursor k ≡ length (done k)
      → take k t ≡ (some r, moved k (length (done k)) t)
  unfolding take
  take-moved k done r rest t e c = take_from_lem k (t.loaded k) (done k) r rest t e c

  tools-replay :
      (d : Call) (r : ToolResponse) (t t' : Tape)
      → t.mode ≡ replay
      → codec.EncodableTool r
      → d.ended ≡ none
      → take (key_of d) t ≡ (some (codec.encode_tool r), t')
      → tools codec d t ≡ (answered r, false, t')
  unfolding tools
  tools-replay d r t t' m w e k =
      ap (λ mode. call_in codec mode d t) m
      ∙ ap (on_take codec replay d) k
      ∙ ap (λ o. (replay_hit codec o (codec.encode_tool r), false, t')) e
      ∙ ap (λ o. (decoded codec o, false, t')) (codec.decodes_tool r w)

  -- The responses that were given, with one more.
  abbrev given : (RecKey → List Text) → RecKey → Text → RecKey → List Text
  given done k r y = if same_key y k then done y ++ r ∷ [] else done y

  first_left :
      (o : Bool) (done rest : List Text) (r : Text) (ls : List Text)
      → o ≡ true
      → ls ≡ done ++ (if o then r ∷ rest else rest)
      → ls ≡ done ++ r ∷ rest
  first_left true done rest r ls e h = h
  first_left false done rest r ls e h = absurd (true_ne_false (sym e))

  left-given :
      (o : Bool) (done rest : List Text) (r : Text)
      → done ++ (if o then r ∷ rest else rest) ≡ (if o then done ++ r ∷ [] else done) ++ rest
  left-given true done rest r = sym (append_assoc done (r ∷ []) rest)
  left-given false done rest r = refl

  length-given :
      (o : Bool) (done here : List Text) (r : Text) (n : ℕ)
      → (o ≡ true → here ≡ done)
      → n ≡ length done
      → (if o then length here + 1 else n) ≡ length (if o then done ++ r ∷ [] else done)
  length-given true done here r n h e =
      omega (arith, ap length (h refl), length-append done (r ∷ []))
  length-given false done here r n h e = e

  -- Replaying: what is left of every sequence starts with the answer that was recorded.
  run_calls-replay :
      (again : Call → Call) (cs : List Call) (t : Tape) (done : RecKey → List Text)
      → t.mode ≡ replay
      → ((c : Call) → (again c).key ≡ c.key)
      → All (IsWritable codec) cs
      → All (λ c. (again c).ended ≡ none) cs
      → ((k : RecKey) → t.loaded k ≡ done k ++ responses codec k cs)
      → ((k : RecKey) → t.cursor k ≡ length (done k))
      → (run_calls codec (map again cs) t).0 ≡ recorded_answers cs
  unfolding run_calls
  run_calls-replay again [] t done m s w e l c = refl
  run_calls-replay again (x ∷ cs) t done m s w e l c =
      let k = key_of x in
      let r = response codec x in
      let t' = moved k (length (done k)) t in
      rw
        (tools-replay (again x) x.live t t' m w.0.reply e.0 (
          subst (λ key. take (record { kind = kind_tool; key = key }) t ≡ (some r, t')) (sym (s x))
            (take-moved k done r (responses codec k cs) t
              (first_left (same_key k k) (done k) (responses codec k cs) r (t.loaded k)
                (same_key_refl k) (l k))
              (c k))))
        (ap (◌∷◌ (answered x.live, false)) (
          run_calls-replay again cs t' (given done k r) m s w.1 e.1
            (λ y. l y ∙ left-given (same_key y k) (done y) (responses codec y cs) r)
            (λ y.
              length-given (same_key y k) (done y) (done k) r (t.cursor y)
                (λ h. ap done (sym (same_key→eq y k h))) (c y))))

-- A session of tool calls that is recorded on an empty tape and replayed from what was written gives the
-- same answers, in order, and no handler runs in the replay, whatever it would answer then. In the
-- session every call has a key, can be encoded, and no write fails; in the replay each call has the
-- key that it had when it was recorded, and no context has ended.
pub run_calls-replay-record :
    (codec : Codec) (cs : List Call) (again : Call → Call)
    → All (IsWritable codec) cs
    → ((c : Call) → (again c).key ≡ c.key)
    → All (λ c. (again c).ended ≡ none) cs
    → (t : Tape) × (v : Tape) × (open_tape codec.decode record_mode none ≡ ok t)
      × ((run_calls codec cs t).0 ≡ live_answers cs)
      × (open_tape codec.decode replay (some (run_calls codec cs t).1.written) ≡ ok v)
      × ((run_calls codec (map again cs) v).0 ≡ recorded_answers cs)
unfolding open_tape loaded_tape
run_calls-replay-record codec cs again writable same ends =
    let t = loaded_tape record_mode no_entries in
    let (answers, lines) = run_calls-lines_of codec cs t refl refl writable in
    let (by, loads, sequences) = load-lines_of codec cs writable in
    let v = loaded_tape replay by in
    (
      t,
      v,
      refl,
      answers,
      ap (λ ls. open_tape codec.decode replay (some ls)) lines
          ∙ ap (λ r. r >>= λ b. ok (loaded_tape replay b)) loads,
      run_calls-replay codec again cs v (λ k. []) refl same writable ends sequences (λ k. refl),
    )
