-- ===== src/Tape/Loading.antt =====
-- What a load makes of the lines that a session wrote.
use wombat_go.Common.{
  ℕ, ◌+◌, ◌≤◌, Bool, true, false, ◌≡◌, refl, ap, ◌∙◌, sym, List, [], ◌∷◌, ◌++◌, append_assoc,
  append-nil, none, ok, ◌>>=◌, leb, ◌==◌, eq_iff, arith, All, if◌then◌else◌,
}
use wombat_go.Paths.{Text}
use wombat_go.Tape.{
  RecKey, same_key, kind_tool, Entry, Codec, SeqEntry, ByKey, add_entry, load_line, load_lines,
  insert, sort, responses_of, Call, key_of, set_at,
}

pub same_key→eq : (a b : RecKey) → same_key a b ≡ true → a ≡ b
same_key→eq a b h = ground (arith, h, eq_iff a.kind b.kind, eq_iff a.key b.key)

pub same_key_refl : (a : RecKey) → same_key a a ≡ true
same_key_refl a = ground (arith, eq_iff a.kind a.kind, eq_iff a.key a.key)

-- The line that a call writes, with its number.
abbrev pub entry_of : Call → Text → ℕ → Entry
entry_of c resp n = record {
  kind = kind_tool;
  key = c.key;
  seq = n;
  request = c.request;
  response = resp;
}

module _ (codec : Codec) where
  abbrev pub response : Call → Text
  response c = codec.encode_tool c.live

  -- A call that the codec can write, under a key.
  pub record IsWritable (c : Call) : Type 0 where
    pub key : (c.key == "") ≡ false
    pub entry : (n : ℕ) → codec.Encodable (entry_of c (response c) n)
    pub reply : codec.EncodableTool c.live
    pub fault : c.fault ≡ none

  -- The lines of calls, where `next` numbers each key.
  abbrev pub lines_of : (RecKey → ℕ) → List Call → List Text
  lines_of next [] = []
  lines_of next (c ∷ cs) =
      codec.encode (entry_of c (response c) (next (key_of c)))
      ∷ lines_of (set_at (key_of c) (next (key_of c) + 1) next) cs

  -- The responses under a key, in their order.
  abbrev pub responses : RecKey → List Call → List Text
  responses k [] = []
  responses k (c ∷ cs) =
      let rest = responses k cs in if same_key k (key_of c) then response c ∷ rest else rest

  abbrev numbered : RecKey → ℕ → List Call → List SeqEntry
  numbered k n [] = []
  numbered k n (c ∷ cs) =
      let more = numbered k (n + 1) cs in
      let rest = numbered k n cs in
      if same_key k (key_of c) then record { seq = n; resp = response c } ∷ more else rest

  abbrev gathered : (RecKey → ℕ) → List Call → ByKey → ByKey
  gathered next [] by = by
  gathered next (c ∷ cs) by =
      gathered (set_at (key_of c) (next (key_of c) + 1) next) cs
        (add_entry (key_of c) (record { seq = next (key_of c); resp = response c }) by)

  load_line-encode :
      (n : ℕ) (c : Call) (resp : Text) (k : ℕ) (by : ByKey)
      → (c.key == "") ≡ false
      → codec.Encodable (entry_of c resp k)
      → load_line codec.decode n (codec.encode (entry_of c resp k)) by
        ≡ ok (add_entry (key_of c) (record { seq = k; resp = resp }) by)
  unfolding load_line
  load_line-encode n c resp k by h w =
      let e = entry_of c resp k in
      rw (codec.trimmed e w, codec.not_blank e w, codec.decodes e w, h) refl

  -- Every line of a session loads.
  load_lines-lines_of :
      (n : ℕ) (next : RecKey → ℕ) (cs : List Call) (by : ByKey)
      → All IsWritable cs
      → load_lines codec.decode n (lines_of next cs) by ≡ ok (gathered next cs by)
  unfolding load_lines
  load_lines-lines_of n next [] by h = refl
  load_lines-lines_of n next (c ∷ cs) by h =
      ap
        (λ r.
          r
          >>= load_lines codec.decode (n + 1)
              (lines_of (set_at (key_of c) (next (key_of c) + 1) next) cs))
        (load_line-encode n c (response c) (next (key_of c)) by h.0.key
          (h.0.entry (next (key_of c))))
      ∙ load_lines-lines_of (n + 1) (set_at (key_of c) (next (key_of c) + 1) next) cs _ h.1

  -- What is gathered under a key.
  gathered-numbered :
      (next : RecKey → ℕ) (cs : List Call) (by : ByKey) (k : RecKey)
      → gathered next cs by k ≡ by k ++ numbered k (next k) cs
  gathered-numbered next [] by k = sym (append-nil (by k))
  gathered-numbered next (c ∷ cs) by k =
      gathered-numbered (set_at (key_of c) (next (key_of c) + 1) next) cs
        (add_entry (key_of c) (record { seq = next (key_of c); resp = response c }) by) k
      ∙ on (same_key k (key_of c)) (same_key→eq k (key_of c))
    where
      on :
          (o : Bool)
          → (o ≡ true → k ≡ key_of c)
          → (if o then by k ++ record { seq = next (key_of c); resp = response c } ∷ [] else by k)
              ++ numbered k (if o then next (key_of c) + 1 else next k) cs
            ≡ by k
              ++ (if o
                  then record { seq = next k; resp = response c } ∷ numbered k (next k + 1) cs
                  else numbered k (next k) cs)
      on false e = refl
      on true e =
          append_assoc (by k) (record { seq = next (key_of c); resp = response c } ∷ [])
            (numbered k (next (key_of c) + 1) cs)
          ∙ ap
              (λ x. by k ++ record { seq = next x; resp = response c } ∷ numbered k (next x + 1) cs)
              (sym (e refl))

  insert-numbered :
      (k : RecKey) (n m : ℕ) (r : Text) (cs : List Call)
      → n ≤ m
      → insert (record { seq = n; resp = r }) (numbered k m cs)
        ≡ record { seq = n; resp = r } ∷ numbered k m cs
  insert-numbered k n m r [] h = refl
  insert-numbered k n m r (c ∷ cs) h = on (same_key k (key_of c)) (insert-numbered k n m r cs h)
    where
      le→leb : (a b : ℕ) → a ≤ b → leb a b ≡ true
      le→leb a b h = ground arith

      on :
          (o : Bool)
          → insert (record { seq = n; resp = r }) (numbered k m cs)
            ≡ record { seq = n; resp = r } ∷ numbered k m cs
          → insert
              (record { seq = n; resp = r })
              (if o
                then record { seq = m; resp = response c } ∷ numbered k (m + 1) cs
                else numbered k m cs)
            ≡ record { seq = n; resp = r }
              ∷ (if o
                  then record { seq = m; resp = response c } ∷ numbered k (m + 1) cs
                  else numbered k m cs)
      on true e = rw (le→leb n m h) refl
      on false e = e

  -- Numbers that go up are sorted.
  sort-numbered : (k : RecKey) (n : ℕ) (cs : List Call) → sort (numbered k n cs) ≡ numbered k n cs
  unfolding sort
  sort-numbered k n [] = refl
  sort-numbered k n (c ∷ cs) =
      on (same_key k (key_of c)) (sort-numbered k (n + 1) cs) (sort-numbered k n cs)
    where
      on :
          (o : Bool)
          → sort (numbered k (n + 1) cs) ≡ numbered k (n + 1) cs
          → sort (numbered k n cs) ≡ numbered k n cs
          → sort (
              if o
              then record { seq = n; resp = response c } ∷ numbered k (n + 1) cs
              else numbered k n cs)
            ≡ (if o
                then record { seq = n; resp = response c } ∷ numbered k (n + 1) cs
                else numbered k n cs)
      on true a b =
          ap (insert (record { seq = n; resp = response c })) a
          ∙ insert-numbered k n (n + 1) (response c) cs (omega arith)
      on false a b = b

  responses_of-numbered :
      (k : RecKey) (n : ℕ) (cs : List Call) → responses_of (numbered k n cs) ≡ responses k cs
  responses_of-numbered k n [] = refl
  responses_of-numbered k n (c ∷ cs) =
      on (same_key k (key_of c)) (responses_of-numbered k (n + 1) cs) (responses_of-numbered k n cs)
    where
      on :
          (o : Bool)
          → responses_of (numbered k (n + 1) cs) ≡ responses k cs
          → responses_of (numbered k n cs) ≡ responses k cs
          → responses_of (
              if o
              then record { seq = n; resp = response c } ∷ numbered k (n + 1) cs
              else numbered k n cs)
            ≡ (if o then response c ∷ responses k cs else responses k cs)
      on true a b = ap (◌∷◌ (response c)) a
      on false a b = b

  -- A session on an empty tape is loaded as its responses.
  pub load-lines_of :
      (cs : List Call)
      → All IsWritable cs
      → (by : ByKey) × (load_lines codec.decode 1 (lines_of (λ k. 0) cs) (λ k. []) ≡ ok by)
        × ((k : RecKey) → responses_of (sort (by k)) ≡ responses k cs)
  load-lines_of cs h =
      let by = gathered (λ k. 0) cs (λ k. []) in
      (
        by,
        load_lines-lines_of 1 (λ k. 0) cs (λ k. []) h,
        λ k.
            ap (λ es. responses_of (sort es)) (gathered-numbered (λ k. 0) cs (λ k. []) k)
            ∙ ap responses_of (sort-numbered k 0 cs)
            ∙ responses_of-numbered k 0 cs,
      )
