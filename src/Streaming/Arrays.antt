-- ===== src/Streaming/Arrays.antt =====
-- A string field behind an array of several items.
use termin_server.Base.{
  ℕ, List, [], ◌∷◌, ◌++◌, Text, ◌≡◌, refl, arith, ap, ◌∙◌, flat_map, count, count-append,
  append_assoc, append-nil, is_space,
}
use termin_server.Streaming.{
  Event, in_key, seek_key, seek_colon, seek_value, in_string_value, in_other_value, initial, quote,
  feed,
}
use termin_server.Streaming.Chunks.{feed-scan_rest, with_text}
use termin_server.Streaming.Runs.{Mode, mode, run, run-mode}
use termin_server.Streaming.Fields.{
  escape_key, escape_char, print_field, field_events, at, emit, run_open, run_key, run_value,
}

run_other :
    (x rest key chars : Text) (d : ℕ)
    → count b',' x ≡ 0
    → count b'}' x ≡ 0
    → run (x ++ b',' ∷ rest) (at in_other_value key chars d) ≡ run rest (at seek_key key chars d)
unfolding run count
run_other [] rest key chars d h k = refl
run_other (c ∷ x) rest key chars d h k = ground (arith, run_other x rest key chars d)

run_skip :
    (x rest key chars : Text) (d : ℕ)
    → count b':' x ≡ 0
    → run (x ++ b':' ∷ rest) (at seek_colon key chars d) ≡ run rest (at seek_value key chars d)
unfolding run count
run_skip [] rest key chars d h = refl
run_skip (c ∷ x) rest key chars d h = ground (arith, run_skip x rest key chars d)

count-escape_key : (t : Text) → count b':' t ≡ 0 → count b':' (flat_map escape_key t) ≡ 0
unfolding count escape_key
count-escape_key [] h = refl
count-escape_key (c ∷ t) h =
    ground (arith, count-escape_key t, count-append b':' (escape_key c) (flat_map escape_key t))

-- The text from the closing bracket, from behind the first comma, and from the first item on.
abbrev from_bracket : (t v : Text) → Text
from_bracket t v = b']' ∷ b',' ∷ b' ' ∷ (print_field (t, v) ++ b'}' ∷ [])

abbrev from_second : (b t v : Text) → Text
from_second b t v = b' ' ∷ quote ∷ (flat_map escape_key b ++ quote ∷ from_bracket t v)

abbrev from_first : (x b t v : Text) → Text
from_first x b t v = x ++ b',' ∷ from_second b t v

-- `{"k": [x, "b"], "t": "v"}`
pub print_array : (k x b t v : Text) → Text
print_array k x b t v =
    b'{' ∷ quote ∷ (flat_map escape_key k ++ quote ∷ b':' ∷ b' ' ∷ b'[' ∷ from_first x b t v)

run_brace :
    (rest key chars : Text)
    → run (b'{' ∷ rest) (at seek_key key chars 0) ≡ run rest (at seek_key key chars 1)
unfolding run
run_brace rest key chars = refl

run_start :
    (rest key chars : Text) (d : ℕ)
    → run (b' ' ∷ quote ∷ rest) (at seek_value key chars d) ≡ run rest (at in_string_value key [] d)
unfolding run is_space
run_start rest key chars d = refl

run_bracket :
    (rest key chars : Text) (d : ℕ)
    → run (b':' ∷ b' ' ∷ b'[' ∷ rest) (at seek_colon key chars d)
      ≡ run rest (at in_other_value key chars d)
unfolding run is_space
run_bracket rest key chars d = refl

run_space :
    (rest key chars : Text) (d : ℕ)
    → run (b' ' ∷ quote ∷ rest) (at seek_key key chars d) ≡ run rest (at in_key [] chars d)
unfolding run
run_space rest key chars d = refl

abbrev skipped : Text → Text
skipped t = b']' ∷ b',' ∷ b' ' ∷ quote ∷ (flat_map escape_key t ++ quote ∷ [])

count-skipped : (t : Text) → count b':' t ≡ 0 → count b':' (skipped t) ≡ 0
unfolding count
count-skipped t h =
    ground (arith, count-escape_key t h, count-append b':' (flat_map escape_key t) (quote ∷ []))

split_field :
    (t v : Text)
    → b']' ∷ b',' ∷ b' ' ∷ (print_field (t, v) ++ b'}' ∷ [])
      ≡ skipped t ++ b':' ∷ b' ' ∷ quote ∷ (flat_map escape_char v ++ quote ∷ b'}' ∷ [])
unfolding print_field
split_field t v = simp append_assoc

-- Between the array's last item and the next value the scanner waits for a colon.
run_next :
    (t v key chars : Text) (d : ℕ)
    → count b':' t ≡ 0
    → run (b']' ∷ b',' ∷ b' ' ∷ (print_field (t, v) ++ b'}' ∷ [])) (at seek_colon key chars d)
      ≡ emit (field_events (key, v)) (run (b'}' ∷ []) (at seek_key [] [] d))
unfolding print_field field_events
run_next t v key chars d h =
    rw
      (
        split_field t v,
        run_skip (skipped t) (b' ' ∷ quote ∷ (flat_map escape_char v ++ quote ∷ b'}' ∷ [])) key
            chars d (count-skipped t h),
        run_start,
        run_value,
      )
      refl

run_array :
    (k x b t v : Text)
    → count b',' x ≡ 0
    → count b'}' x ≡ 0
    → count b':' t ≡ 0
    → run (print_array k x b t v) (mode initial)
      ≡ emit (field_events (b, v)) (run (b'}' ∷ []) (at seek_key [] [] 1))
unfolding print_array
run_array k x b t v p r h =
    run_brace (quote ∷ (flat_map escape_key k ++ quote ∷ b':' ∷ b' ' ∷ b'[' ∷ from_first x b t v))
      [] []
    ∙ run_open (flat_map escape_key k ++ quote ∷ b':' ∷ b' ' ∷ b'[' ∷ from_first x b t v) [] [] 1
    ∙ run_key k (b':' ∷ b' ' ∷ b'[' ∷ from_first x b t v) [] [] 1
    ∙ run_bracket (from_first x b t v) k [] 1
    ∙ run_other x (from_second b t v) k [] 1 p r
    ∙ run_space (flat_map escape_key b ++ quote ∷ from_bracket t v) k [] 1
    ∙ run_key b (from_bracket t v) [] [] 1
    ∙ run_next t v b [] 1 h

-- Where a string field follows an array of two items, the second a string, the extractor emits the
-- field's value under the name of that second item, and nothing else. The first item is any text
-- without a comma or a closing brace, and the field's name has no colon.
pub feed-print_array :
    (k x b t v : Text)
    → count b',' x ≡ 0
    → count b'}' x ≡ 0
    → count b':' t ≡ 0
    → (feed (print_array k x b t v) initial).0 ≡ field_events (b, v)
feed-print_array k x b t v p r h = rw (feed-scan_rest (print_array k x b t v) initial refl) (
    ap (λ (o : List Event × Mode). o.0)
      (run-mode (print_array k x b t v) (with_text (print_array k x b t v) initial)
        ∙ run_array k x b t v p r h)
    ∙ unfold run in append-nil _)
