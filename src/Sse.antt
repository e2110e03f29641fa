-- ===== src/Sse.antt =====
-- llm/internal/sse/sse.go: the reader of an event stream, over the bytes of a body.
--
-- `bufio.Scanner` with `ScanLines` is modelled with its limit on a line; a body has the error
-- that ends it, if any. The loop of a client over `Next` has fuel, one unit more than lines.
pub mod Printing
pub mod Scanning
pub mod Pieces
pub mod Lines
pub mod Reading
pub mod Ending
mod Examples
use wombat_go.Common.{
  ℕ, zero, suc, Bool, true, false, ◌&&◌, String, List, [], ◌∷◌, ◌++◌, Option, none, some, codes,
  is_empty, length, leb, ◌=?◌, if◌then◌else◌,
}
use wombat_go.Paths.{Text, text_eq, split_on}

abbrev pub newline : ℕ
newline = b'\n'

abbrev pub carriage_return : ℕ
carriage_return = 13

-- `payload` is the field `Data`.
pub record Event : Type 0 where
  pub typ : Text
  pub payload : Text

-- 8 MiB.
unfoldable pub max_line : ℕ
max_line = 8388608

-- `bytes.TrimSuffix(line, "\r")`.
unfoldable pub drop_cr : Text → Text
drop_cr [] = []
drop_cr (c ∷ []) = if c =? carriage_return then [] else c ∷ []
drop_cr (c ∷ d ∷ s) = c ∷ drop_cr (d ∷ s)

-- What follows the last newline is a line only where it is not empty.
abbrev pub drop_last_empty : List Text → List Text
drop_last_empty [] = []
drop_last_empty (l ∷ []) = if is_empty l then [] else l ∷ []
drop_last_empty (l ∷ k ∷ ls) = l ∷ drop_last_empty (k ∷ ls)

-- The lines that `Scan` delivers, and `sc.Err()` after them.
pub record Scanner : Type 0 where
  pub lines : List Text
  pub error : Option String

abbrev pub too_long : String
too_long = "bufio.Scanner: token too long"

abbrev pub scanned : Text → Scanner → Scanner
scanned l rest = record rest { lines = l ∷ rest.lines }

-- A line that does not fit in the buffer with its newline ends the scan.
unfoldable pub scan_lines : ℕ → Option String → List Text → Scanner
unfolding drop_cr
scan_lines longest e [] = record { lines = []; error = e }
scan_lines longest e (l ∷ ls) =
    let rest = scan_lines longest e ls in
    if leb longest (length l)
    then record { lines = []; error = some too_long }
    else scanned (drop_cr l) rest

unfoldable pub new_scanner : ℕ → Option String → Text → Scanner
unfolding scan_lines
new_scanner longest e body = scan_lines longest e (drop_last_empty (split_on newline body))

-- The variables of `Next`.
pub record Pending : Type 0 where
  pub typ : Text
  pub payload : Text
  pub saw_data : Bool
  pub any : Bool

abbrev pub nothing_pending : Pending
nothing_pending = record { typ = []; payload = []; saw_data = false; any = false }

abbrev pub event_of : Pending → Event
event_of p = record { typ = p.typ; payload = p.payload }

abbrev pub cut_at : Bool → ℕ → Text → Text × Text → Text × Text
cut_at true c s rest = ([], s)
cut_at false c s rest = (c ∷ rest.0, rest.1)

-- `bytes.Cut(line, ":")`; a line without a colon is the field.
unfoldable pub cut_colon : Text → Text × Text
cut_colon [] = ([], [])
cut_colon (c ∷ s) = cut_at (c =? b':') c s (cut_colon s)

-- `bytes.TrimPrefix(value, " ")`.
abbrev pub trim_one_space : Text → Text
trim_one_space [] = []
trim_one_space (c ∷ s) = if c =? b' ' then s else c ∷ s

abbrev pub event_field : Text
event_field = codes "event"

abbrev pub data_field : Text
data_field = codes "data"

unfoldable pub note_field : Text → Text → Pending → Pending
note_field field value p =
    if text_eq field event_field
    then record p { typ = value; any = true }
    else if text_eq field data_field
    then record p {
      payload = (if p.saw_data then p.payload ++ newline ∷ [] else p.payload) ++ value;
      saw_data = true;
      any = true;
    }
    else p

-- What a line without its "\r" adds; a blank line and a comment add nothing.
unfoldable pub note_line : Text → Pending → Pending
unfolding note_field cut_colon
note_line [] p = p
note_line (c ∷ s) p =
    if c =? b':'
    then p
    else note_field (cut_colon (c ∷ s)).0 (trim_one_space (cut_colon (c ∷ s)).1) p

-- After the last line: a read error drops what has accumulated.
abbrev pub at_end : Option String → Pending → Option Event
at_end (some e) p = none
at_end none p = if p.any then some (event_of p) else none

-- A blank line dispatches whatever has accumulated.
abbrev pub dispatch_or :
    Bool → Pending → List Text → Option Event × List Text → Option Event × List Text
dispatch_or true p ls rest = (some (event_of p), ls)
dispatch_or false p ls rest = rest

-- The loop of `Next`: the event, and the lines that are left.
unfoldable pub next_lines : Option String → Pending → List Text → Option Event × List Text
unfolding note_line drop_cr
next_lines e p [] = (at_end e p, [])
next_lines e p (raw ∷ ls) =
    dispatch_or (is_empty (drop_cr raw) && p.any) p ls (next_lines e (note_line (drop_cr raw) p) ls)

pub record Reader : Type 0 where
  pub sc : Scanner
  pub cur : Event
  pub err : Option String

abbrev pub latch : Option String → Option String → Option String
latch (some e) old = some e
latch none old = old

abbrev pub arrive : Reader → Option Event × List Text → Bool × Reader
arrive r (some ev, ls) = (true, record r { sc = record r.sc { lines = ls }; cur = ev })
arrive r (none, ls) =
    (false, record r { sc = record r.sc { lines = ls }; err = latch r.sc.error r.err })

unfoldable pub next : Reader → Bool × Reader
unfolding next_lines
next r = arrive r (next_lines r.sc.error nothing_pending r.sc.lines)

unfoldable pub new_reader : ℕ → Option String → Text → Reader
unfolding new_scanner
new_reader longest e body = record {
  sc = new_scanner longest e body;
  cur = record { typ = []; payload = [] };
  err = none;
}

-- `for r.Next() { handle(r.Event()) }`, and then `r.Err()`.
abbrev pub handled :
    Event → Option (List Event × Option String) → Option (List Event × Option String)
handled ev none = none
handled ev (some (evs, e)) = some (ev ∷ evs, e)

abbrev pub handle_or_stop :
    Bool × Reader → Option (List Event × Option String) → Option (List Event × Option String)
handle_or_stop (true, r) rest = handled r.cur rest
handle_or_stop (false, r) rest = some ([], r.err)

unfoldable pub read_events : ℕ → Reader → Option (List Event × Option String)
unfolding next
read_events zero r = none
read_events (suc fuel) r = handle_or_stop (next r) (read_events fuel (next r).1)

unfoldable pub read_all : Reader → Option (List Event × Option String)
unfolding read_events
read_all r = read_events (suc (length r.sc.lines)) r
