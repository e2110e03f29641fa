-- ===== src/Sse/Lines.antt =====
-- The lines of a printed stream are lines, and more than its events.
use wombat_go.Common.{◌≤◌, false, ◌≡◌, refl, List, [], ◌∷◌, All, length, arith}
use wombat_go.Paths.{Text, split_on, has_code}
use wombat_go.Sse.{newline, carriage_return}
use wombat_go.Sse.Printing.{
  Chunk, comment_lines, data_lines, type_lines, event_lines, stream_lines, IsLine, IsPrintable,
}
use wombat_go.Sse.Pieces.{pieces_no_return, pieces-no_newline}

data_lines-IsLine :
    (ps rest : List Text) → All IsLine ps → All IsLine rest → All IsLine (data_lines ps rest)
data_lines-IsLine [] rest h k = k
data_lines-IsLine (p ∷ ps) rest h k = (
  record { no_newline = h.0.no_newline; no_return = h.0.no_return },
  data_lines-IsLine ps rest h.1 k,
)

comment_lines-IsLine :
    (cs rest : List Text) → All IsLine cs → All IsLine rest → All IsLine (comment_lines cs rest)
comment_lines-IsLine [] rest h k = k
comment_lines-IsLine (c ∷ cs) rest h k = (
  record { no_newline = h.0.no_newline; no_return = h.0.no_return },
  comment_lines-IsLine cs rest h.1 k,
)

type_lines-IsLine :
    (v : Text) (rest : List Text) → IsLine v → All IsLine rest → All IsLine (type_lines v rest)
type_lines-IsLine [] rest h k = k
type_lines-IsLine (c ∷ s) rest h k =
    (record { no_newline = h.no_newline; no_return = h.no_return }, k)

All-IsLine :
    (ps : List Text)
    → All (λ l. has_code newline l ≡ false) ps
    → All (λ l. has_code carriage_return l ≡ false) ps
    → All IsLine ps
All-IsLine [] h k = tt
All-IsLine (p ∷ ps) h k = (record { no_newline = h.0; no_return = k.0 }, All-IsLine ps h.1 k.1)

pub stream_lines-IsLine : (ks : List Chunk) → All IsPrintable ks → All IsLine (stream_lines ks)
unfolding stream_lines event_lines
stream_lines-IsLine [] h = tt
stream_lines-IsLine (k ∷ ks) h = comment_lines-IsLine k.comments _ h.0.comments (
    type_lines-IsLine k.event.typ _ h.0.typ (
      data_lines-IsLine (split_on newline k.event.payload) _
        (All-IsLine (split_on newline k.event.payload) (pieces-no_newline k.event.payload)
          (pieces_no_return k.event.payload h.0.payload))
        (record { no_newline = refl; no_return = refl }, stream_lines-IsLine ks h.1)))

length-comment_lines : (cs rest : List Text) → length rest ≤ length (comment_lines cs rest)
length-comment_lines [] rest = omega arith
length-comment_lines (c ∷ cs) rest = omega (arith, length-comment_lines cs rest)

length-data_lines : (ps rest : List Text) → length rest ≤ length (data_lines ps rest)
length-data_lines [] rest = omega arith
length-data_lines (p ∷ ps) rest = omega (arith, length-data_lines ps rest)

length-type_lines : (v : Text) (rest : List Text) → length rest ≤ length (type_lines v rest)
length-type_lines [] rest = omega arith
length-type_lines (c ∷ s) rest = omega arith

pub length-stream_lines : (ks : List Chunk) → length ks ≤ length (stream_lines ks)
unfolding stream_lines event_lines
length-stream_lines [] = omega arith
length-stream_lines (k ∷ ks) =
    let rest : List Text = [] ∷ stream_lines ks in
    let datas = data_lines (split_on newline k.event.payload) rest in
    omega (
      arith,
      length-stream_lines ks,
      length-data_lines (split_on newline k.event.payload) rest,
      length-type_lines k.event.typ datas,
      length-comment_lines k.comments (type_lines k.event.typ datas),
    )
