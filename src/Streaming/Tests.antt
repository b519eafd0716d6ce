-- ===== src/Streaming/Tests.antt =====
-- Runs of the extractor, and its theorems at concrete texts.
use termin_server.Base.{Text, [], ◌∷◌, List, codes, flat_map, is_space, ◌≡◌, refl}
use termin_server.Streaming.{
  field_delta, field_done, initial, feed, scan, scan_rest, advance, scan_char, decode_escape,
}
use termin_server.Streaming.Chunks.{feed_all, feed_all-flatten}
use termin_server.Streaming.Fields.{Field, field_events, Finishes}
use termin_server.Streaming.Objects.{
  json_char, json_string, json_fields, json_object, feed_all-json_object,
}

extractor : Unit {0}
unfolding feed scan scan_rest advance scan_char decode_escape is_space
extractor = tt

feed_test :
    (feed (codes "{\"a\": \"x\\ny\", \"n\": 12, \"b\": {\"c\": \"z\"}}") initial).0
    ≡ field_delta (codes "a") (codes "x")
      ∷ field_delta (codes "a") (10 ∷ [])
      ∷ field_delta (codes "a") (codes "y")
      ∷ field_done (codes "a") (codes "x\ny")
      ∷ field_delta (codes "c") (codes "z")
      ∷ field_done (codes "c") (codes "z")
      ∷ []
unfolding extractor
feed_test = refl

-- A `\u` escape is passed on as its letter and digits.
unicode_test :
    (feed (codes "{\"a\": \"\\u0041\"}") initial).0
    ≡ field_delta (codes "a") (codes "u")
      ∷ field_delta (codes "a") (codes "0")
      ∷ field_delta (codes "a") (codes "0")
      ∷ field_delta (codes "a") (codes "4")
      ∷ field_delta (codes "a") (codes "1")
      ∷ field_done (codes "a") (codes "u0041")
      ∷ []
unfolding extractor
unicode_test = refl

abbrev cut : List Text
cut = codes "{\"a\": \"h" ∷ codes "i\\" ∷ codes "n\", \"b\": \"\"}" ∷ []

feed_all-flatten_example : feed_all cut initial ≡ feed (flat_map (λ (t : Text). t) cut) initial
feed_all-flatten_example = feed_all-flatten cut initial refl

abbrev two_fields : List Field
two_fields = (codes "a", codes "hi\n") ∷ (codes "b", []) ∷ []

spelled_cut : flat_map (λ (t : Text). t) cut ≡ json_object two_fields
unfolding json_object json_fields json_string json_char
spelled_cut = refl

feed_all-json_object_example : Finishes (flat_map field_events two_fields) (feed_all cut initial)
feed_all-json_object_example =
    feed_all-json_object two_fields cut
      (((refl, tt), (refl, (refl, (refl, tt)))), (((refl, tt), tt), tt)) spelled_cut
