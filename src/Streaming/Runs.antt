-- ===== src/Streaming/Runs.antt =====
-- The scanner without its buffer and positions, which no event depends on.
use termin_server.Base.{ℕ, List, [], ◌∷◌, ◌++◌, Text, Bool, ◌≡◌, refl, arith, ap, sym, ◌∙◌}
use termin_server.Streaming.{Extractor, Event, State, seek_key, scan_char, advance, scan_rest}

pub record Mode : Type 0 where
  pub state : State
  pub key : Text
  pub chars : Text
  pub escape : Bool
  pub depth : ℕ

abbrev pub mode : Extractor → Mode
mode s = record {
  state = s.state;
  key = s.current_key;
  chars = s.current_value_chars;
  escape = s.escape;
  depth = s.depth;
}

abbrev pub extractor : Mode → Extractor
extractor m = record {
  buffer = [];
  pos = 0;
  state = m.state;
  current_key = m.key;
  current_value_chars = m.chars;
  value_start_pos = 0;
  escape = m.escape;
  depth = m.depth;
}

abbrev pub outcome : List Event × Extractor → List Event × Mode
outcome (events, s) = (events, mode s)

unfoldable pub run : Text → Mode → List Event × Mode
unfolding advance scan_char
run [] m = ([], m)
run (c ∷ cs) m =
    let (events, s) = advance c (extractor m) in
    let (more, m') = run cs (mode s) in (events ++ more, m')

scan_char-mode :
    (c : ℕ) (s : Extractor) (st : State)
    → outcome (scan_char c (extractor (mode s)) st) ≡ outcome (scan_char c s st)
unfolding scan_char
scan_char-mode c s seek_key = ground arith
scan_char-mode c s st = ground arith

advance-mode :
    (c : ℕ) (s : Extractor) → outcome (advance c (extractor (mode s))) ≡ outcome (advance c s)
unfolding advance
advance-mode c s = scan_char-mode c s s.state

abbrev onward : List Event × Mode → Text → List Event × Mode
onward (events, m) cs = let (more, m') = run cs m in (events ++ more, m')

run-cons :
    (c : ℕ) (cs : Text) (m : Mode) → run (c ∷ cs) m ≡ onward (outcome (advance c (extractor m))) cs
unfolding run
run-cons c cs m = refl

-- The events of a scan, and the mode that it ends in, depend on the mode that it starts in.
pub run-mode : (cs : Text) (s : Extractor) → outcome (scan_rest cs s) ≡ run cs (mode s)
unfolding scan_rest
run-mode [] s = unfold run in refl
run-mode (c ∷ cs) s =
    let events : List Event = (advance c s).0 in
    ap (λ (r : List Event × Mode). (events ++ r.0, r.1)) (run-mode cs (advance c s).1)
    ∙ sym (run-cons c cs (mode s) ∙ ap (λ (r : List Event × Mode). onward r cs) (advance-mode c s))
