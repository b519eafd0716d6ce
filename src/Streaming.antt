-- ===== src/Streaming.antt =====
-- `StreamingJsonFieldExtractor` of termin_server/ai_provider.py: a scanner that reads the JSON object
-- of a tool call as it arrives and emits the text of its string fields.
pub mod Chunks
pub mod Runs
pub mod Fields
pub mod Objects
pub mod Arrays
pub mod Finish
mod Tests
use termin_server.Base.{
  ℕ, suc, ◌+◌, ◌-◌, Bool, true, false, List, [], ◌∷◌, ◌++◌, Text, length, drop, is_empty, is_space,
  ◌==◌, leb, if◌then◌else◌,
}

pub data State : Type 0 where
  seek_key in_key seek_colon seek_value in_string_value in_other_value done : State

pub data Event : Type 0 where
  field_delta : (field delta : Text) → Event
  field_done : (field value : Text) → Event

-- `depth` falls below 0 only on the way into `done`, where it is read no more; here it stops at 0.
pub record Extractor : Type 0 where
  pub buffer : Text
  pub pos : ℕ
  pub state : State
  pub current_key : Text
  pub current_value_chars : Text
  pub value_start_pos : ℕ
  pub escape : Bool
  pub depth : ℕ

abbrev pub initial : Extractor
initial = record {
  buffer = [];
  pos = 0;
  state = seek_key;
  current_key = [];
  current_value_chars = [];
  value_start_pos = 0;
  escape = false;
  depth = 0;
}

abbrev pub backslash : ℕ
backslash = 0x5C

abbrev pub quote : ℕ
quote = 0x22

-- `_decode_escape`
unfoldable pub decode_escape : ℕ → ℕ
decode_escape c =
    if c == b'n'
    then 10
    else if c == b't'
    then 9
    else if c == b'r'
    then 13
    else if c == b'b'
    then 8
    else if c == b'f'
    then 12
    else c

-- A closing brace, in the states that heed it.
close_brace : Extractor → Extractor
close_brace s =
    let depth = s.depth - 1 in
    if leb depth 0
    then record s { depth = depth; state = done }
    else record s { depth = depth; state = seek_key }

-- One round of the loop of `_scan`, but for the position, which every branch moves on by one.
unfoldable pub scan_char : ℕ → Extractor → State → List Event × Extractor
unfolding close_brace
scan_char c s seek_key =
    if c == quote
    then ([], record s { current_key = []; state = in_key })
    else if c == b'{'
    then ([], record s { depth = s.depth + 1 })
    else if c == b'}'
    then ([], close_brace s)
    else ([], s)
scan_char c s in_key =
    if s.escape
    then ([], record s { current_key = s.current_key ++ c ∷ []; escape = false })
    else if c == backslash
    then ([], record s { escape = true })
    else if c == quote
    then ([], record s { state = seek_colon })
    else ([], record s { current_key = s.current_key ++ c ∷ [] })
scan_char c s seek_colon = if c == b':' then ([], record s { state = seek_value }) else ([], s)
scan_char c s seek_value =
    if is_space c
    then ([], s)
    else if c == quote
    then ([], record s { current_value_chars = []; state = in_string_value })
    else if c == b'{'
    then ([], record s { depth = s.depth + 1; state = seek_key })
    else ([], record s { state = in_other_value; value_start_pos = s.pos })
scan_char c s in_string_value =
    if s.escape
    then (
      field_delta s.current_key (decode_escape c ∷ []) ∷ [],
      record s {
        current_value_chars = s.current_value_chars ++ decode_escape c ∷ [];
        escape = false;
      },
    )
    else if c == backslash
    then ([], record s { escape = true })
    else if c == quote
    then (
      field_done s.current_key s.current_value_chars ∷ [],
      record s { current_key = []; current_value_chars = []; state = seek_key },
    )
    else (
      field_delta s.current_key (c ∷ []) ∷ [],
      record s { current_value_chars = s.current_value_chars ++ c ∷ [] },
    )
scan_char c s in_other_value =
    if c == b','
    then ([], record s { state = seek_key })
    else if c == b'}'
    then ([], close_brace s)
    else ([], s)
scan_char c s done = ([], s)

unfoldable pub advance : ℕ → Extractor → List Event × Extractor
advance c s = let (events, s') = scan_char c s s.state in (events, record s' { pos = s'.pos + 1 })

-- The loop of `_scan`, over the characters of the buffer from the position on.
unfoldable pub scan_rest : Text → Extractor → List Event × Extractor
scan_rest [] s = ([], s)
scan_rest (c ∷ cs) s =
    let (events, s') = advance c s in let (more, s'') = scan_rest cs s' in (events ++ more, s'')

pub scan : Extractor → List Event × Extractor
scan s = scan_rest (drop s.pos s.buffer) s

pub feed : Text → Extractor → List Event × Extractor
feed chunk s = if is_empty chunk then ([], s) else scan (record s { buffer = s.buffer ++ chunk })
