-- ===== src/Tape.antt =====
-- tape/tape.go, with the tool half of tape/middleware.go and tape/codec.go: recording and replay.
--
-- `encoding/json` is the `Codec` argument, with SHA-256 taken as a given key. The file is its lines.
-- What `Open` and `Write` fail with is an argument. The mutex makes each method one step.
pub mod Loading
pub mod Replaying
mod Examples
use wombat_go.Common.{
  ℕ, zero, suc, ◌+◌, ◌-◌, Bool, true, false, not, ◌&&◌, ◌||◌, ◌≡◌, String, List, [], ◌∷◌, ◌++◌, map,
  Option, none, some, Result, ok, err, ◌>>=◌, get_elem?, length, is_empty, leb, ◌==◌, ◌=?◌,
  if◌then◌else◌,
}
use wombat_go.Paths.{Text, trim}

pub data Mode : Type 0 where
  auto record_mode replay : Mode

pub record RecKey : Type 0 where
  pub kind : String
  pub key : String

abbrev pub same_key : RecKey → RecKey → Bool
same_key a b = a.kind == b.kind && a.key == b.key

abbrev pub kind_llm : String
kind_llm = "llm"

abbrev pub kind_tool : String
kind_tool = "tool"

-- One line of the tape.
pub record Entry : Type 0 where
  pub kind : String
  pub key : String
  pub seq : ℕ
  pub request : Text
  pub response : Text

-- The result of a tool, as it is recorded.
pub record ToolResponse : Type 0 where
  pub ok : Bool
  pub output : Text
  pub error : String

-- `isSpace`.
abbrev pub is_blank : ℕ → Bool
is_blank c = (c =? b' ') || (c =? 9) || (c =? 10) || (c =? 13)

-- `trimSpace`.
unfoldable pub trim_blank : Text → Text
trim_blank = trim is_blank

-- `canonical` and `json.Unmarshal`. An entry of valid UTF-8 and valid raw JSON is encoded to one line that
-- is not blank, and decodes to what it was; so does such a response.
pub record Codec : Type 1 where
  pub encode : Entry → Text
  pub decode : Text → Option Entry
  pub encode_tool : ToolResponse → Text
  pub decode_tool : Text → Option ToolResponse
  pub Encodable : Entry → Type 0
  pub EncodableTool : ToolResponse → Type 0
  pub not_blank : (e : Entry) → Encodable e → is_empty (encode e) ≡ false
  pub trimmed : (e : Entry) → Encodable e → trim_blank (encode e) ≡ encode e
  pub decodes : (e : Entry) → Encodable e → decode (encode e) ≡ some e
  pub decodes_tool : (r : ToolResponse) → EncodableTool r → decode_tool (encode_tool r) ≡ some r

pub record SeqEntry : Type 0 where
  pub seq : ℕ
  pub resp : Text

abbrev pub ByKey : Type 0
ByKey = RecKey → List SeqEntry

-- The errors of a load, with the number of the line, or no file at all.
pub data LoadError : Type 0 where
  bad_entry : ℕ → LoadError
  unknown_kind : ℕ → LoadError
  no_key : ℕ → LoadError
  no_file : LoadError

-- `byKey[k] = append(byKey[k], e)`
abbrev pub add_entry : RecKey → SeqEntry → ByKey → ByKey
add_entry k e by x = if same_key x k then by x ++ e ∷ [] else by x

abbrev pub load_entry : ℕ → Option Entry → ByKey → Result LoadError ByKey
load_entry n none by = err (bad_entry n)
load_entry n (some e) by =
    if not (e.kind == kind_llm || e.kind == kind_tool)
    then err (unknown_kind n)
    else if e.key == ""
    then err (no_key n)
    else ok (
        add_entry (record { kind = e.kind; key = e.key })
          (record { seq = e.seq; resp = e.response }) by)

unfoldable pub load_line : (Text → Option Entry) → ℕ → Text → ByKey → Result LoadError ByKey
unfolding trim_blank
load_line decode n line by =
    if is_empty (trim_blank line) then ok by else load_entry n (decode (trim_blank line)) by

-- The loop over the lines.
unfoldable pub load_lines : (Text → Option Entry) → ℕ → List Text → ByKey → Result LoadError ByKey
unfolding load_line
load_lines decode n [] by = ok by
load_lines decode n (l ∷ ls) by = load_line decode n l by >>= load_lines decode (n + 1) ls

-- `slices.SortStableFunc` by `seq`.
abbrev pub insert : SeqEntry → List SeqEntry → List SeqEntry
insert e [] = e ∷ []
insert e (x ∷ xs) = if leb e.seq x.seq then e ∷ x ∷ xs else x ∷ insert e xs

unfoldable pub sort : List SeqEntry → List SeqEntry
sort [] = []
sort (e ∷ es) = insert e (sort es)

abbrev pub responses_of : List SeqEntry → List Text
responses_of [] = []
responses_of (e ∷ es) = e.resp ∷ responses_of es

pub record Stats : Type 0 where
  pub hits : ℕ
  pub misses : ℕ
  pub recorded : ℕ

-- `is_open` is `f != nil`, and `written` what was appended to the file.
pub record Tape : Type 0 where
  pub mode : Mode
  pub loaded : RecKey → List Text
  pub cursor : RecKey → ℕ
  pub next : RecKey → ℕ
  pub stats : Stats
  pub is_open : Bool
  pub write_err : Option String
  pub written : List Text

abbrev pub is_replay : Mode → Bool
is_replay auto = false
is_replay record_mode = false
is_replay replay = true

unfoldable pub loaded_tape : Mode → ByKey → Tape
unfolding sort
loaded_tape mode by = record {
  mode = mode;
  loaded = λ k. responses_of (sort (by k));
  cursor = λ k. 0;
  next = λ k. length (by k);
  stats = record { hits = 0; misses = 0; recorded = 0 };
  is_open = not (is_replay mode);
  write_err = none;
  written = [];
}

abbrev pub no_entries : ByKey
no_entries k = []

-- `Open`; the file is its lines, or missing.
unfoldable pub open_tape : (Text → Option Entry) → Mode → Option (List Text) → Result LoadError Tape
unfolding loaded_tape load_lines
open_tape decode mode (some lines) =
    load_lines decode 1 lines no_entries >>= λ by. ok (loaded_tape mode by)
open_tape decode replay none = err no_file
open_tape decode auto none = ok (loaded_tape auto no_entries)
open_tape decode record_mode none = ok (loaded_tape record_mode no_entries)

abbrev pub count_hit : Tape → Tape
count_hit t = record t { stats = record t.stats { hits = t.stats.hits + 1 } }

abbrev pub count_miss : Tape → Tape
count_miss t = record t { stats = record t.stats { misses = t.stats.misses + 1 } }

abbrev pub set_at : RecKey → ℕ → (RecKey → ℕ) → RecKey → ℕ
set_at k n f x = if same_key x k then n else f x

-- Where the sequence is used up, the last response repeats.
abbrev pub take_at : Bool → RecKey → List Text → ℕ → Tape → Option Text × Tape
take_at true k seq i t = (get_elem? seq (length seq - 1), count_hit t)
take_at false k seq i t =
    (get_elem? seq i, count_hit (record t { cursor = set_at k (i + 1) t.cursor }))

abbrev pub take_from : RecKey → List Text → Tape → Option Text × Tape
take_from k [] t = (none, count_miss t)
take_from k (r ∷ seq) t = take_at (leb (length (r ∷ seq)) (t.cursor k)) k (r ∷ seq) (t.cursor k) t

unfoldable pub take : RecKey → Tape → Option Text × Tape
take k t = take_from k (t.loaded k) t

-- The first failure stays.
abbrev pub set_write_err : String → Tape → Tape
set_write_err e t = elim t.write_err [ none ↦ record t { write_err = some e } | some first ↦ t ]

abbrev pub closed_text : String
closed_text = "tape: closed"

-- The append; a failure of `canonical` or of `Write` is an argument.
abbrev pub write : Option String → Text → Tape → Tape
write (some e) line t = set_write_err e t
write none line t = record t {
  written = t.written ++ line ∷ [];
  stats = record t.stats { recorded = t.stats.recorded + 1 };
}

abbrev pub record_if : Bool → (Entry → Text) → Option String → RecKey → Text → Text → Tape → Tape
record_if false encode fault k req resp t = set_write_err closed_text t
record_if true encode fault k req resp t =
    write fault
      (encode
        (record { kind = k.kind; key = k.key; seq = t.next k; request = req; response = resp }))
      (record t { next = set_at k (t.next k + 1) t.next })

unfoldable pub record_entry : (Entry → Text) → Option String → RecKey → Text → Text → Tape → Tape
record_entry encode fault k req resp t = record_if t.is_open encode fault k req resp t

-- `Close`, but for the error of closing the file.
unfoldable pub close_tape : Tape → Option String × Tape
close_tape t = (t.write_err, record t { is_open = false })

-- What the middleware returns: an answer, live or recorded, or one of its own errors.
pub data Replied : Type 0 where
  answered : ToolResponse → Replied
  cancelled : String → Replied
  undecodable : Replied
  tape_miss : Replied

-- A call with its key and canonical request; whether the context has ended, what the handler would
-- answer, and whether writing would fail.
pub record Call : Type 0 where
  pub key : String
  pub request : Text
  pub ended : Option String
  pub live : ToolResponse
  pub fault : Option String

abbrev pub key_of : Call → RecKey
key_of c = record { kind = kind_tool; key = c.key }

module _ (codec : Codec) where
  -- Whether the handler ran is the second component.
  abbrev pub call_live : Call → Tape → Replied × Bool × Tape
  call_live c t = (
    answered c.live,
    true,
    record_entry codec.encode c.fault (key_of c) c.request (codec.encode_tool c.live) t,
  )

  abbrev pub decoded : Option ToolResponse → Replied
  decoded none = undecodable
  decoded (some r) = answered r

  abbrev pub replay_hit : Option String → Text → Replied
  replay_hit (some cause) raw = cancelled cause
  replay_hit none raw = decoded (codec.decode_tool raw)

  abbrev pub on_take : Mode → Call → Option Text × Tape → Replied × Bool × Tape
  on_take mode c (some raw, t) = (replay_hit c.ended raw, false, t)
  on_take replay c (none, t) = (tape_miss, false, t)
  on_take auto c (none, t) = call_live c t
  on_take record_mode c (none, t) = call_live c t

  -- `Tools`.
  abbrev pub call_in : Mode → Call → Tape → Replied × Bool × Tape
  call_in record_mode c t = call_live c (count_miss t)
  call_in auto c t = on_take auto c (take (key_of c) t)
  call_in replay c t = on_take replay c (take (key_of c) t)

  unfoldable pub tools : Call → Tape → Replied × Bool × Tape
  unfolding take record_entry
  tools c t = call_in t.mode c t

  -- Calls one after another: what they return, whether each ran, and the tape.
  unfoldable pub run_calls : List Call → Tape → List (Replied × Bool) × Tape
  unfolding tools
  run_calls [] t = ([], t)
  run_calls (c ∷ cs) t =
      let one = tools c t in let rest = run_calls cs one.2 in ((one.0, one.1) ∷ rest.0, rest.1)
