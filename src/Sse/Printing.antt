-- ===== src/Sse/Printing.antt =====
-- What a provider writes into an event stream: events with comment lines before them. An
-- independent description of the format, against which the reader is judged.
use wombat_go.Common.{ℕ, ◌<◌, Bool, true, false, ◌≡◌, List, [], ◌∷◌, ◌++◌, All, codes, length}
use wombat_go.Paths.{Text, split_on, has_code}
use wombat_go.Sse.{Event, newline, carriage_return}

-- An event, with the keep-alive comments that precede it.
pub record Chunk : Type 0 where
  pub comments : List Text
  pub event : Event

abbrev pub comment_line : Text → Text
comment_line c = b':' ∷ c

abbrev pub event_line : Text → Text
event_line v = codes "event: " ++ v

abbrev pub data_line : Text → Text
data_line v = codes "data: " ++ v

abbrev pub comment_lines : List Text → List Text → List Text
comment_lines [] rest = rest
comment_lines (c ∷ cs) rest = comment_line c ∷ comment_lines cs rest

abbrev pub data_lines : List Text → List Text → List Text
data_lines [] rest = rest
data_lines (l ∷ ls) rest = data_line l ∷ data_lines ls rest

-- An empty type has no line.
abbrev pub type_lines : Text → List Text → List Text
type_lines [] rest = rest
type_lines (c ∷ s) rest = event_line (c ∷ s) ∷ rest

-- One data line for each line of the payload.
unfoldable pub event_lines : Event → List Text → List Text
event_lines ev rest = type_lines ev.typ (data_lines (split_on newline ev.payload) ([] ∷ rest))

unfoldable pub stream_lines : List Chunk → List Text
unfolding event_lines
stream_lines [] = []
stream_lines (k ∷ ks) = comment_lines k.comments (event_lines k.event (stream_lines ks))

-- With lines that end in "\n", or in "\r\n".
abbrev pub ended : Bool → Text → Text
ended true l = l ++ carriage_return ∷ []
ended false l = l

unfoldable pub print_lines : Bool → List Text → Text
print_lines crlf [] = []
print_lines crlf (l ∷ ls) = ended crlf l ++ newline ∷ print_lines crlf ls

unfoldable pub print_stream : Bool → List Chunk → Text
unfolding print_lines stream_lines
print_stream crlf ks = print_lines crlf (stream_lines ks)

-- A text without a carriage return and without a newline.
pub record IsLine (l : Text) : Type 0 where
  pub no_newline : has_code newline l ≡ false
  pub no_return : has_code carriage_return l ≡ false

-- A type is one line, and a payload has no carriage return.
pub record IsPrintable (k : Chunk) : Type 0 where
  pub comments : All IsLine k.comments
  pub typ : IsLine k.event.typ
  pub payload : has_code carriage_return k.event.payload ≡ false

-- Every line is shorter than the scanner's limit.
abbrev pub Fits : ℕ → Bool → List Text → Type 0
Fits longest crlf = All (λ l. length (ended crlf l) < longest)

abbrev pub events_of : List Chunk → List Event
events_of [] = []
events_of (k ∷ ks) = k.event ∷ events_of ks
