-- ===== src/Sse/Reading.antt =====
-- The events that the reader makes of printed lines.
use wombat_go.Common.{
  ℕ, zero, suc, ◌<◌, Bool, true, false, ◌≡◌, ◌≢◌, refl, ap, ◌∙◌, String, List, [], ◌∷◌, ◌++◌,
  Option, none, some, All, length, arith,
}
use wombat_go.Paths.{Text, split_on, has_code}
use wombat_go.Sse.{
  newline, carriage_return, Event, drop_cr, Pending, nothing_pending, note_line, note_field,
  cut_colon, next_lines, Reader, next, new_reader, read_events, read_all, handled,
}
use wombat_go.Sse.Printing.{
  Chunk, comment_lines, data_lines, type_lines, event_lines, stream_lines, print_stream, IsLine,
  IsPrintable, Fits, events_of,
}
use wombat_go.Sse.Pieces.{join_onto, join_all, join_all-split_on, some_piece, pieces_no_return}
use wombat_go.Sse.Lines.{stream_lines-IsLine, length-stream_lines}
use wombat_go.Sse.Scanning.{drop_cr_lem, new_scanner-print_lines}

-- What has accumulated after the line of the type.
abbrev typed : Text → Pending
typed [] = nothing_pending
typed (c ∷ s) = record nothing_pending { typ = c ∷ s; any = true }

abbrev with_payload : Text → Pending → Pending
with_payload d p = record p { payload = d; saw_data = true; any = true }

module _ (e : Option String) where
  -- A line that is not blank is noted, and the loop goes on.
  next_lines-cons :
      (p : Pending) (c : ℕ) (s : Text) (ls : List Text)
      → has_code carriage_return (c ∷ s) ≡ false
      → next_lines e p ((c ∷ s) ∷ ls) ≡ next_lines e (note_line (c ∷ s) p) ls
  unfolding next_lines
  next_lines-cons p c s ls h = rw (drop_cr_lem (c ∷ s) h) refl

  -- Comments change nothing.
  next_lines-comment_lines :
      (p : Pending) (cs rest : List Text)
      → All IsLine cs
      → next_lines e p (comment_lines cs rest) ≡ next_lines e p rest
  unfolding note_line
  next_lines-comment_lines p [] rest h = refl
  next_lines-comment_lines p (c ∷ cs) rest h =
      next_lines-cons p b':' c (comment_lines cs rest) (h.0.no_return)
      ∙ next_lines-comment_lines p cs rest h.1

  next_lines-type_lines :
      (v : Text) (rest : List Text)
      → IsLine v
      → next_lines e nothing_pending (type_lines v rest) ≡ next_lines e (typed v) rest
  unfolding note_line note_field cut_colon
  next_lines-type_lines [] rest h = refl
  next_lines-type_lines (c ∷ s) rest h = next_lines-cons nothing_pending b'e' _ rest h.no_return

  -- Further data lines are joined with newlines.
  next_lines-data_lines :
      (p : Pending) (acc : Text) (ls rest : List Text)
      → All (λ l. has_code carriage_return l ≡ false) ls
      → next_lines e (with_payload acc p) (data_lines ls rest)
        ≡ next_lines e (with_payload (join_onto acc ls) p) rest
  unfolding note_line note_field cut_colon
  next_lines-data_lines p acc [] rest h = refl
  next_lines-data_lines p acc (l ∷ ls) rest h =
      next_lines-cons (with_payload acc p) b'd' _ (data_lines ls rest) h.0
      ∙ next_lines-data_lines p ((acc ++ newline ∷ []) ++ l) ls rest h.1

  next_lines-first_data :
      (v l : Text) (ls rest : List Text)
      → All (λ l. has_code carriage_return l ≡ false) (l ∷ ls)
      → next_lines e (typed v) (data_lines (l ∷ ls) rest)
        ≡ next_lines e (with_payload (join_onto l ls) (typed v)) rest
  unfolding note_line note_field cut_colon
  next_lines-first_data [] l ls rest h =
      next_lines-cons (typed []) b'd' _ (data_lines ls rest) h.0
      ∙ next_lines-data_lines (typed []) l ls rest h.1
  next_lines-first_data (c ∷ v) l ls rest h =
      next_lines-cons (typed (c ∷ v)) b'd' _ (data_lines ls rest) h.0
      ∙ next_lines-data_lines (typed (c ∷ v)) l ls rest h.1

typ_typed : (v : Text) → (typed v).typ ≡ v
typ_typed [] = refl
typ_typed (c ∷ s) = refl

module _ (e : Option String) where
  -- The blank line dispatches.
  next_lines-blank :
      (v d : Text) (rest : List Text)
      → next_lines e (with_payload d (typed v)) ([] ∷ rest)
        ≡ (some (record { typ = v; payload = d }), rest)
  unfolding next_lines drop_cr
  next_lines-blank v d rest = rw (typ_typed v) refl

  next_lines-payload :
      (v : Text) (ps : List Text) (d : Text) (rest : List Text)
      → All (λ l. has_code carriage_return l ≡ false) ps
      → ps ≢ []
      → join_all [] ps ≡ d
      → next_lines e (typed v) (data_lines ps ([] ∷ rest))
        ≡ (some (record { typ = v; payload = d }), rest)
  next_lines-payload v [] d rest h ne j = absurd (ne refl)
  next_lines-payload v (l ∷ ls) d rest h ne j =
      next_lines-first_data e v l ls ([] ∷ rest) h ∙ rw j (next_lines-blank v d rest)

  -- The lines of one event with its comments give the event, and leave the lines after it.
  next_lines-event_lines :
      (k : Chunk) (rest : List Text)
      → IsPrintable k
      → next_lines e nothing_pending (comment_lines k.comments (event_lines k.event rest))
        ≡ (some k.event, rest)
  unfolding event_lines
  next_lines-event_lines k rest h =
      next_lines-comment_lines e nothing_pending k.comments (event_lines k.event rest) h.comments
      ∙ next_lines-type_lines e k.event.typ _ h.typ
      ∙ next_lines-payload k.event.typ (split_on newline k.event.payload) k.event.payload rest
          (pieces_no_return k.event.payload h.payload) (some_piece k.event.payload)
          (join_all-split_on k.event.payload [])

-- The loop of a client, over a body that ended with `e`.
abbrev reader_at : Option String → List Text → Event → Reader
reader_at e ls cur = record { sc = record { lines = ls; error = e }; cur = cur; err = none }

read_events-nil :
    (e : Option String) (cur : Event) (fuel : ℕ)
    → read_events (suc fuel) (reader_at e [] cur) ≡ some ([], e)
unfolding read_events next next_lines
read_events-nil none cur fuel = refl
read_events-nil (some x) cur fuel = refl

read_events-cons :
    (e : Option String) (k : Chunk) (rest : List Text) (cur : Event) (fuel : ℕ)
    → IsPrintable k
    → read_events (suc fuel) (reader_at e (comment_lines k.comments (event_lines k.event rest)) cur)
      ≡ handled k.event (read_events fuel (reader_at e rest k.event))
unfolding read_events next
read_events-cons e k rest cur fuel h = rw (next_lines-event_lines e k rest h) refl

read_events-stream_lines :
    (e : Option String) (ks : List Chunk) (cur : Event) (fuel : ℕ)
    → All IsPrintable ks
    → length ks < fuel
    → read_events fuel (reader_at e (stream_lines ks) cur) ≡ some (events_of ks, e)
unfolding stream_lines
read_events-stream_lines e ks cur zero h lt = absurd (omega (arith, lt))
read_events-stream_lines e [] cur (suc fuel) h lt = read_events-nil e cur fuel
read_events-stream_lines e (k ∷ ks) cur (suc fuel) h lt =
    read_events-cons e k (stream_lines ks) cur fuel h.0
    ∙ ap (handled k.event) (read_events-stream_lines e ks k.event fuel h.1 (omega (arith, lt)))

-- A printed stream is read back: where types are lines, payloads have no carriage return, and every
-- line is shorter than the limit, the reader delivers the events in order, whichever way lines end
-- and whatever comments stand between them, and then the error that ended the body, if one did.
pub read_all-print_stream :
    (longest : ℕ) (e : Option String) (crlf : Bool) (ks : List Chunk)
    → All IsPrintable ks
    → Fits longest crlf (stream_lines ks)
    → read_all (new_reader longest e (print_stream crlf ks)) ≡ some (events_of ks, e)
unfolding read_all new_reader print_stream
read_all-print_stream longest e crlf ks h f =
    rw (new_scanner-print_lines longest e crlf (stream_lines ks) (stream_lines-IsLine ks h) f) (
      read_events-stream_lines e ks _ (suc (length (stream_lines ks))) h
        (omega (arith, length-stream_lines ks)))
