-- ===== src/Sse/Examples.antt =====
-- Runs of the reader, and the theorems at concrete streams.
use wombat_go.Common.{true, ◌≡◌, refl, List, [], ◌∷◌, ◌++◌, none, some, codes, All, arith}
use wombat_go.Paths.{Text}
use wombat_go.Sse.{
  Event, new_reader, new_scanner, scan_lines, drop_cr, cut_colon, note_field, note_line, next_lines,
  next, read_events, read_all,
}
use wombat_go.Sse.Printing.{Chunk, event_lines, stream_lines, print_stream, IsPrintable, Fits}
use wombat_go.Sse.Reading.{read_all-print_stream}
use wombat_go.Sse.Ending.{read_all-ends}

abbrev two_lines : Text
two_lines = codes "a" ++ b'\n' ∷ codes "b"

abbrev delta : Chunk
delta = record {
  comments = codes " keep-alive" ∷ [];
  event = record { typ = codes "delta"; payload = two_lines };
}

abbrev untyped : Chunk
untyped = record { comments = []; event = record { typ = []; payload = codes "[DONE]" } }

abbrev stream : List Chunk
stream = delta ∷ untyped ∷ []

abbrev printable : All IsPrintable stream
printable = (
  record {
    comments = (record { no_newline = refl; no_return = refl }, tt);
    typ = record { no_newline = refl; no_return = refl };
    payload = refl;
  },
  (
    record { comments = tt; typ = record { no_newline = refl; no_return = refl }; payload = refl },
    tt,
  ),
)

fits : Fits 20 true (stream_lines stream)
unfolding stream_lines event_lines
fits = (
  omega arith,
  (omega arith, (omega arith, (omega arith, (omega arith, (omega arith, (omega arith, tt)))))),
)

read_all-print_stream_example :
    read_all (new_reader 20 none (print_stream true stream))
    ≡ some (delta.event ∷ untyped.event ∷ [], none)
read_all-print_stream_example = read_all-print_stream 20 none true stream printable fits

-- A line of five codes with a limit of four.
read_all-ends_example :
    (evs : List Event) × (read_all (new_reader 4 none (codes "data:"))
      ≡ some (evs, (new_scanner 4 none (codes "data:")).error))
read_all-ends_example = read_all-ends 4 none (codes "data:")

abbrev lines_of_test : Text
lines_of_test = codes "data" ++ b'\n' ∷ codes "data:x" ++ b'\n' ∷ codes "id: 4"

-- An empty first data line keeps its newline, and a stream without a last blank line has an event.
reads_the_last_event :
    read_all (new_reader 100 none lines_of_test)
    ≡ some (record { typ = []; payload = b'\n' ∷ codes "x" } ∷ [], none)
unfolding read_all read_events next next_lines new_reader new_scanner scan_lines drop_cr cut_colon
    note_field note_line
reads_the_last_event = refl

-- A read error drops it.
drops_the_last_event :
    read_all (new_reader 100 (some "reset") lines_of_test) ≡ some ([], some "reset")
unfolding read_all read_events next next_lines new_reader new_scanner scan_lines drop_cr cut_colon
    note_field note_line
drops_the_last_event = refl
