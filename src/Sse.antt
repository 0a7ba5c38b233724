-- ===== src/Sse.antt =====
-- packages/client/src/sse.ts: the parser of `text/event-stream`. The texts that the streaming
-- `TextDecoder` gives are the argument, and what it gives at its end.
use bee_agent.Prelude.{
  ℕ, zero, suc, ◌+◌, Bool, true, false, ◌&&◌, Option, none, some, or_else, List, [], ◌∷◌, ◌++◌,
  ◌==◌, ltb, if◌then◌else◌, take, drop, length,
}
use bee_agent.Prelude.Units.{Text, units, same_text}
use bee_agent.Context.Json.{join}
pub mod Boundary
pub mod Chunks

pub record SseFrame : Type 0 where
  pub id : Option Text
  pub event : Option Text
  pub data_text : Text

pub record FrameBoundary : Type 0 where
  pub index : ℕ
  pub end : ℕ

-- `startsWith`
abbrev pub starts_with : Text → Text → Bool
starts_with [] text = true
starts_with (c ∷ pattern) [] = false
starts_with (c ∷ pattern) (d ∷ text) = c == d && starts_with pattern text

abbrev pub next_index : Option ℕ → Option ℕ
next_index none = none
next_index (some i) = some (suc i)

-- `indexOf` of a pattern that is not empty, with `none` for -1
unfoldable pub index_of : Text → Text → Option ℕ
index_of pattern [] = none
index_of pattern (c ∷ text) =
    let later = next_index (index_of pattern text) in
    if starts_with pattern (c ∷ text) then some 0 else later

abbrev pub unix_break : Text
unix_break = 10 ∷ 10 ∷ []

abbrev pub windows_break : Text
windows_break = 13 ∷ 10 ∷ 13 ∷ 10 ∷ []

-- `findFrameBoundary`, from the two indexes
abbrev pub first_boundary : (unix windows : Option ℕ) → Option FrameBoundary
first_boundary none none = none
first_boundary none (some windows) = some (record { index = windows; end = windows + 4 })
first_boundary (some unix) none = some (record { index = unix; end = unix + 2 })
first_boundary (some unix) (some windows) =
    if ltb unix windows
    then some (record { index = unix; end = unix + 2 })
    else some (record { index = windows; end = windows + 4 })

unfoldable pub find_frame_boundary : Text → Option FrameBoundary
find_frame_boundary buffer =
    first_boundary (index_of unix_break buffer) (index_of windows_break buffer)

abbrev add_unit : ℕ → List Text → List Text
add_unit c [] = (c ∷ []) ∷ []
add_unit c (line ∷ lines) = (c ∷ line) ∷ lines

-- `raw.split(/\r?\n/)`
unfoldable pub split_lines : Text → List Text
split_lines [] = [] ∷ []
split_lines (c ∷ text) =
    let rest = split_lines text in
    if c == 10
    then [] ∷ rest
    else if c == 13 && starts_with (10 ∷ []) text
    then rest
    else add_unit c rest

-- The variables of `parseFrame`.
pub record Fields : Type 0 where
  pub id : Option Text
  pub event : Option Text
  pub data_texts : List Text

abbrev field_of : Text → Option ℕ → Text
field_of line none = line
field_of line (some separator) = take separator line

abbrev value_of : Text → Option ℕ → Text
value_of line none = []
value_of line (some separator) = drop (separator + 1) line

abbrev strip_space : Text → Text
strip_space value = if starts_with (32 ∷ []) value then drop 1 value else value

abbrev set_field : Text → Text → Fields → Fields
set_field field value f =
    if same_text field (units "id")
    then record f { id = some value }
    else if same_text field (units "event")
    then record f { event = some value }
    else if same_text field (units "data")
    then record f { data_texts = f.data_texts ++ value ∷ [] }
    else f

-- One line of `parseFrame`; an empty one and a comment are left out.
unfoldable pub read_line : Text → Fields → Fields
unfolding same_text index_of
read_line [] f = f
read_line (c ∷ line) f =
    let separator = index_of (58 ∷ []) (c ∷ line) in
    if c == 58
    then f
    else set_field (field_of (c ∷ line) separator) (strip_space (value_of (c ∷ line) separator)) f

unfoldable pub read_lines : List Text → Fields → Fields
unfolding read_line
read_lines [] f = f
read_lines (line ∷ lines) f = read_lines lines (read_line line f)

abbrev is_frame : Fields → Bool
is_frame f = elim f.id [
  | some id ↦ true
  | none ↦ elim f.event [
    | some event ↦ true
    | none ↦ elim f.data_texts [ [] ↦ false | _ ∷ _ ↦ true ]
  ]
]

-- `parseFrame`
unfoldable pub parse_frame : Text → Option SseFrame
unfolding read_lines split_lines
parse_frame raw =
    let f = read_lines (split_lines raw) (record { id = none; event = none; data_texts = [] }) in
    if is_frame f
    then some (record { id = f.id; event = f.event; data_text = join (10 ∷ []) f.data_texts })
    else none

abbrev pub yield_frame : Option SseFrame → List SseFrame → List SseFrame
yield_frame none frames = frames
yield_frame (some frame) frames = frame ∷ frames

-- The inner loop, on fuel: the frames that it yields, and the buffer that it leaves.
unfoldable pub drain : ℕ → Text → List SseFrame × Text
unfolding find_frame_boundary parse_frame
drain zero buffer = ([], buffer)
drain (suc fuel) buffer = elim (find_frame_boundary buffer) [
  | none ↦ ([], buffer)
  | some boundary ↦
      let rest = drain fuel (drop boundary.end buffer) in
      (yield_frame (parse_frame (take boundary.index buffer)) rest.0, rest.1)
]

-- Every round takes at least two code units off the buffer.
abbrev pub drained : Text → List SseFrame × Text
drained buffer = drain (length buffer) buffer

-- The outer loop and what follows it.
unfoldable pub read_chunks : (buffer : Text) (chunks : List Text) (flushed : Text) → List SseFrame
unfolding drain parse_frame
read_chunks buffer [] flushed = yield_frame (parse_frame (buffer ++ flushed)) []
read_chunks buffer (chunk ∷ chunks) flushed =
    let frames = drained (buffer ++ chunk) in frames.0 ++ read_chunks frames.1 chunks flushed

-- `parseSseStream`
unfoldable pub parse_sse_stream : (chunks : List Text) (flushed : Text) → List SseFrame
unfolding read_chunks
parse_sse_stream chunks flushed = read_chunks [] chunks flushed
