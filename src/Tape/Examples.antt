-- ===== src/Tape/Examples.antt =====
-- A session of two calls with one key, under a codec that can write those.
use wombat_go.Common.{
  ℕ, ◌+◌, ◌-◌, true, false, ◌≡◌, refl, List, [], ◌∷◌, ◌++◌, map, Option, none, some, Result, ok,
  err, arith,
}
use wombat_go.Paths.{Text, trim, trim_left}
use wombat_go.Tape.{
  Entry, ToolResponse, Codec, kind_tool, trim_blank, is_blank, Call, Tape, open_tape, record_mode,
  replay, run_calls, tools, take, record_entry, load_lines, load_line, loaded_tape, sort, answered,
}
use wombat_go.Tape.Loading.{IsWritable}
use wombat_go.Tape.Replaying.{live_answers, recorded_answers, run_calls-replay-record}

abbrev first : Text → ℕ
first [] = 0
first (c ∷ s) = c

-- An entry whose response is one code.
record IsShort (e : Entry) : Type 0 where
  kind : e.kind ≡ kind_tool
  key : e.key ≡ "k"
  request : e.request ≡ []
  code : ℕ
  response : e.response ≡ code ∷ []

record IsShortReply (r : ToolResponse) : Type 0 where
  ok : r.ok ≡ true
  error : r.error ≡ ""
  code : ℕ
  output : r.output ≡ code ∷ []

abbrev encode : Entry → Text
encode e = (e.seq + 100) ∷ (first e.response + 100) ∷ []

abbrev decode : Text → Option Entry
decode (n ∷ c ∷ []) =
    some (record {
      kind = kind_tool;
      key = "k";
      seq = n - 100;
      request = [];
      response = (c - 100) ∷ [];
    })
decode s = none

abbrev encode_tool : ToolResponse → Text
encode_tool r = first r.output ∷ []

abbrev decode_tool : Text → Option ToolResponse
decode_tool (c ∷ []) = some (record { ok = true; output = c ∷ []; error = "" })
decode_tool s = none

two_codes : (a b : ℕ) → trim_blank ((a + 100) ∷ (b + 100) ∷ []) ≡ (a + 100) ∷ (b + 100) ∷ []
unfolding trim_blank trim trim_left
two_codes a b = rw (dark a, dark b) refl
  where
    dark : (a : ℕ) → is_blank (a + 100) ≡ false
    dark a = ground arith

entry_back : (e : Entry) → IsShort e → decode (encode e) ≡ some e
entry_back e h = ground (arith, h.kind, h.key, h.request, h.response)

reply_back : (r : ToolResponse) → IsShortReply r → decode_tool (encode_tool r) ≡ some r
reply_back r h = ground (arith, h.ok, h.error, h.output)

abbrev codec : Codec
codec = record {
  encode = encode;
  decode = decode;
  encode_tool = encode_tool;
  decode_tool = decode_tool;
  Encodable = IsShort;
  EncodableTool = IsShortReply;
  not_blank = λ e h. refl;
  trimmed = λ e h. two_codes e.seq (first e.response);
  decodes = entry_back;
  decodes_tool = reply_back;
}

abbrev reply : ℕ → ToolResponse
reply c = record { ok = true; output = c ∷ []; error = "" }

abbrev call : ℕ → Call
call c = record { key = "k"; request = []; ended = none; live = reply c; fault = none }

abbrev session : List Call
session = call 7 ∷ call 9 ∷ []

-- In the replay every handler would answer 0.
abbrev again : Call → Call
again c = record c { ended = none; live = reply 0 }

writable : (c : ℕ) → IsWritable codec (call c)
writable c = record {
  key = refl;
  entry = λ n. record { kind = refl; key = refl; request = refl; code = c; response = refl };
  reply = record { ok = refl; error = refl; code = c; output = refl };
  fault = refl;
}

run_calls-replay-record_example :
    (t : Tape) × (v : Tape) × (open_tape codec.decode record_mode none ≡ ok t)
    × ((run_calls codec session t).0 ≡ live_answers session)
    × (open_tape codec.decode replay (some (run_calls codec session t).1.written) ≡ ok v)
    × ((run_calls codec (map again session) v).0 ≡ recorded_answers session)
run_calls-replay-record_example =
    run_calls-replay-record codec session again (writable 7, (writable 9, tt)) (λ c. refl)
      (refl, (refl, tt))

abbrev replayed : Tape
replayed = record {
  mode = replay;
  loaded = λ k. (7 ∷ []) ∷ (9 ∷ []) ∷ [];
  cursor = λ k. 0;
  next = λ k. 2;
  stats = record { hits = 0; misses = 0; recorded = 0 };
  is_open = false;
  write_err = none;
  written = [];
}

-- One call more than was recorded: the last response repeats.
repeats_the_last :
    (run_calls codec (call 0 ∷ call 0 ∷ call 0 ∷ []) replayed).0
    ≡ (answered (reply 7), false) ∷ (answered (reply 9), false) ∷ (answered (reply 9), false) ∷ []
unfolding run_calls tools take
repeats_the_last = refl

abbrev tape_or : {E : Type 0} → Result E Tape → Tape
tape_or (ok t) = t
tape_or (err e) = replayed

abbrev failing_call : Call
failing_call = record (call 0) { fault = some "no space left on device" }

-- Two failed writes leave a gap in the numbers, which the next session fills: its response comes before
-- one that was recorded earlier.
abbrev written_with_gap : List Text
written_with_gap =
    (run_calls codec (call 1 ∷ failing_call ∷ failing_call ∷ call 2 ∷ [])
      (tape_or (open_tape decode record_mode none))).1.written

abbrev written_later : List Text
written_later =
    (run_calls codec (call 3 ∷ [])
      (tape_or (open_tape decode record_mode (some written_with_gap)))).1.written

gap_reorders :
    (run_calls codec
      (call 0 ∷ call 0 ∷ call 0 ∷ [])
      (tape_or (open_tape decode replay (some (written_with_gap ++ written_later))))).0
    ≡ (answered (reply 1), false) ∷ (answered (reply 3), false) ∷ (answered (reply 2), false) ∷ []
unfolding run_calls tools take record_entry open_tape loaded_tape load_lines load_line sort
    trim_blank trim trim_left
gap_reorders = refl
