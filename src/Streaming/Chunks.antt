-- ===== src/Streaming/Chunks.antt =====
-- How a text is cut into chunks makes no difference to the extractor.
use termin_server.Base.{
  ℕ, ◌+◌, List, [], ◌∷◌, ◌++◌, Text, length, length-append, drop-length-append, ◌≡◌, refl, arith,
  append_assoc, append-nil, flat_map, ◌∙◌,
}
use termin_server.Streaming.{
  Extractor, Event, State, seek_key, scan_char, advance, scan_rest, scan, feed,
}

-- All of the buffer has been scanned.
abbrev pub IsDrained : Extractor → Type 0
IsDrained s = s.pos ≡ length s.buffer

-- What a run emits, and the extractor that it leaves.
abbrev pub then_feed : List Event × Extractor → Text → List Event × Extractor
then_feed (events, s) chunk = let (more, s') = feed chunk s in (events ++ more, s')

-- Chunk after chunk.
unfoldable pub feed_all : List Text → Extractor → List Event × Extractor
feed_all [] s = ([], s)
feed_all (chunk ∷ chunks) s =
    let (events, s') = feed chunk s in let (more, s'') = feed_all chunks s' in (events ++ more, s'')

abbrev pub with_text : Text → Extractor → Extractor
with_text t s = record s { buffer = s.buffer ++ t }

scan_char-with_text :
    (t : Text) (c : ℕ) (s : Extractor) (st : State)
    → scan_char c (with_text t s) st ≡ ((scan_char c s st).0, with_text t (scan_char c s st).1)
unfolding scan_char
scan_char-with_text t c s seek_key = ground arith
scan_char-with_text t c s st = ground arith

advance-with_text :
    (t : Text) (c : ℕ) (s : Extractor)
    → advance c (with_text t s) ≡ ((advance c s).0, with_text t (advance c s).1)
unfolding advance
advance-with_text t c s = rw (scan_char-with_text t c s s.state) refl

-- The text behind the scanned part is not looked at.
scan_rest-with_text :
    (t : Text) (cs : Text) (s : Extractor)
    → scan_rest cs (with_text t s) ≡ ((scan_rest cs s).0, with_text t (scan_rest cs s).1)
unfolding scan_rest
scan_rest-with_text t [] s = refl
scan_rest-with_text t (c ∷ cs) s =
    rw (advance-with_text t c s, scan_rest-with_text t cs (advance c s).1) refl

scan_rest-append :
    (xs ys : Text) (s : Extractor)
    → scan_rest (xs ++ ys) s ≡ (
      (scan_rest xs s).0 ++ (scan_rest ys (scan_rest xs s).1).0,
      (scan_rest ys (scan_rest xs s).1).1,
    )
unfolding scan_rest
scan_rest-append [] ys s = refl
scan_rest-append (x ∷ xs) ys s = simp (scan_rest-append xs ys (advance x s).1, append_assoc)

scan_char-buffer :
    (c : ℕ) (s : Extractor) (st : State)
    → ((scan_char c s st).1.buffer ≡ s.buffer) × ((scan_char c s st).1.pos ≡ s.pos)
unfolding scan_char
scan_char-buffer c s seek_key = ground arith
scan_char-buffer c s st = ground arith

scan_rest-buffer :
    (cs : Text) (s : Extractor)
    → ((scan_rest cs s).1.buffer ≡ s.buffer) × ((scan_rest cs s).1.pos ≡ s.pos + length cs)
unfolding scan_rest advance
scan_rest-buffer [] s = (refl, omega arith)
scan_rest-buffer (c ∷ cs) s =
    let (b, p) = scan_char-buffer c s s.state in
    let (b', p') = scan_rest-buffer cs (advance c s).1 in (b' ∙ b, omega arith)

pub feed-scan_rest :
    (chunk : Text) (s : Extractor)
    → IsDrained s
    → feed chunk s ≡ scan_rest chunk (with_text chunk s)
unfolding feed scan
feed-scan_rest [] s d = unfold scan_rest in rw append-nil refl
feed-scan_rest (c ∷ cs) s d = rw (d, drop-length-append s.buffer (c ∷ cs)) refl

pub feed-IsDrained : (chunk : Text) (s : Extractor) → IsDrained s → IsDrained (feed chunk s).1
feed-IsDrained chunk s d =
    let (b, p) = scan_rest-buffer chunk (with_text chunk s) in
    rw (feed-scan_rest chunk s d, b, p) (omega (arith, length-append s.buffer chunk))

feed-append : (a b : Text) (s : Extractor) → IsDrained s → feed (a ++ b) s ≡ then_feed (feed a s) b
feed-append a b s d =
    let after : Extractor = (scan_rest a (with_text a s)).1 in
    let drained : IsDrained after = rw (← feed-scan_rest a s d) (feed-IsDrained a s d) in
    rw
      (
        feed-scan_rest (a ++ b) s d,
        feed-scan_rest a s d,
        feed-scan_rest b after drained,
        scan_rest-append a b,
        ← append_assoc,
      )
      (rw (scan_rest-with_text b a (with_text a s)) refl)

-- Feeding a text in chunks emits the events, and leaves the extractor, that feeding it whole does,
-- from any extractor whose buffer has been scanned to its end, as that of a new one has.
pub feed_all-flatten :
    (chunks : List Text) (s : Extractor)
    → IsDrained s
    → feed_all chunks s ≡ feed (flat_map (λ (t : Text). t) chunks) s
unfolding feed_all
feed_all-flatten [] s d = unfold feed in refl
feed_all-flatten (a ∷ chunks) s d =
    rw
      (
        feed-append a (flat_map (λ (t : Text). t) chunks) s d,
        feed_all-flatten chunks (feed a s).1 (feed-IsDrained a s d),
      )
      refl
