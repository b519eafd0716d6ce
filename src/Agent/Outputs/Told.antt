-- ===== src/Agent/Outputs/Told.antt =====
-- What the streaming loop of an agent tells about its end.
use termin_server.Base.{
  ℕ, zero, suc, List, [], ◌∷◌, ◌++◌, Option, none, some, Text, Json, map, append-nil, Option-cases,
  List-cases, inl, inr, ◌≡◌, refl, sym, ap, ◌∙◌,
}
use termin_server.Streaming.{Event, feed}
use termin_server.Streaming.Finish.{finish}
use termin_server.Agent.{Message}
use termin_server.Agent.Outputs.{
  Answer, Api, Ran, output, api_error, stream_error, too_many_turns, Session, ToolEvent, scanned,
  flushed, output_done, BlockEvent, tool_start, json_delta, block_stop, other_event, Extractors,
  get_extractor, feed_block, stop_block, produced, first_output, streamed_turn, streamed_answer,
  streamed_loop, anthropic_agent_loop_streaming,
}

-- The outputs among the events
abbrev pub outputs_of : List ToolEvent → List Json
outputs_of [] = []
outputs_of (scanned tool e ∷ es) = outputs_of es
outputs_of (flushed tool field v ∷ es) = outputs_of es
outputs_of (output_done j ∷ es) = j ∷ outputs_of es

-- The output of a run that returns
abbrev pub returned : Ran → List Json
returned (output j) = j ∷ []
returned api_error = []
returned stream_error = []
returned too_many_turns = []

outputs_of-append :
    (es fs : List ToolEvent) → outputs_of (es ++ fs) ≡ outputs_of es ++ outputs_of fs
outputs_of-append [] fs = refl
outputs_of-append (scanned tool e ∷ es) fs = outputs_of-append es fs
outputs_of-append (flushed tool field v ∷ es) fs = outputs_of-append es fs
outputs_of-append (output_done j ∷ es) fs =
    ap (λ (js : List Json). j ∷ js) (outputs_of-append es fs)

outputs_of-scanned : (tool : Text) (es : List Event) → outputs_of (map (scanned tool) es) ≡ []
outputs_of-scanned tool [] = refl
outputs_of-scanned tool (e ∷ es) = outputs_of-scanned tool es

outputs_of-flushed :
    (tool : Text) (fs : List (Text × Json))
    → outputs_of (map (λ (f : Text × Json). flushed tool f.0 f.1) fs) ≡ []
outputs_of-flushed tool [] = refl
outputs_of-flushed tool (f ∷ fs) = outputs_of-flushed tool fs

module _ {S : Type 0} (api : Api S) where
  outputs_of-feed_block :
      (i : ℕ) (partial : Text) (o : Option (Text × _)) (xs : Extractors)
      → outputs_of (feed_block api i partial o xs).0 ≡ []
  unfolding feed_block
  outputs_of-feed_block i partial none xs = refl
  outputs_of-feed_block i partial (some (tool, ex)) xs = outputs_of-scanned tool (feed partial ex).0

  outputs_of-stop_block : (o : Option (Text × _)) → outputs_of (stop_block api o) ≡ []
  unfolding stop_block
  outputs_of-stop_block none = refl
  outputs_of-stop_block (some (tool, ex)) = outputs_of-flushed tool (finish api.strip api.loads ex)

  outputs_of-produced :
      (es : List BlockEvent) (xs : Extractors) → outputs_of (produced api es xs) ≡ []
  unfolding produced
  outputs_of-produced [] xs = refl
  outputs_of-produced (tool_start i tool ∷ es) xs = outputs_of-produced es _
  outputs_of-produced (json_delta i partial ∷ es) xs =
      outputs_of-append (feed_block api i partial (get_extractor i xs) xs).0 _
      ∙ rw (outputs_of-feed_block i partial (get_extractor i xs) xs) (outputs_of-produced es _)
  outputs_of-produced (block_stop i ∷ es) xs =
      outputs_of-append (stop_block api (get_extractor i xs)) _
      ∙ rw (outputs_of-stop_block (get_extractor i xs)) (outputs_of-produced es xs)
  outputs_of-produced (other_event ∷ es) xs = outputs_of-produced es xs

  -- A run adds the output that it returns, and no other.
  abbrev Tells : List ToolEvent → Ran × Session S → Type 0
  Tells before o = outputs_of o.1.told ≡ outputs_of before ++ returned o.0

  abbrev Rest : Type 0
  Rest = List Message → Session S → Ran × Session S

  abbrev Telling : Rest → Type 0
  Telling f = (messages : List Message) (w : Session S) → Tells w.told (f messages w)

  answer-Tells :
      (f : Rest)
      → Telling f
      → (messages : List Message) (o : Option Answer) (w : Session S)
      → Tells w.told (streamed_answer api f messages o w)
  unfolding streamed_answer streamed_turn
  answer-Tells f k messages none w = sym (append-nil _)
  answer-Tells f k messages (some a) w = elim (List-cases a.calls) [
    | inl e ↦ rw (e, streamed_answer) (outputs_of-append w.told _)
    | inr (c, cs, e) ↦
        rw (e, streamed_answer)
          (elim (Option-cases (first_output (c ∷ cs))) [
            | inl n ↦ rw n (k _ _)
            | inr (j, s) ↦ rw s (outputs_of-append w.told _)
          ])
  ]

  loop-Tells : (n : ℕ) → Telling (streamed_loop api n)
  unfolding streamed_loop
  loop-Tells zero messages w = sym (append-nil _)
  loop-Tells (suc n) messages w =
      let events = produced api (api.stream messages) [] in
      answer-Tells (streamed_loop api n) (loop-Tells n) messages (api.respond messages)
        (record w { asked = w.asked ++ messages ∷ []; told = w.told ++ events })
      ∙ ap (λ (js : List Json). js ++ returned (streamed_loop api (suc n) messages w).0)
          (outputs_of-append w.told events
            ∙ rw (outputs_of-produced (api.stream messages) []) (append-nil _))

  -- The streaming loop tells of an output exactly once where it returns, and it is the output that it
  -- returns; where it raises, it tells of none.
  pub anthropic_agent_loop_streaming-told :
      (max_turns : ℕ) (messages : List Message) (s : S)
      → outputs_of (anthropic_agent_loop_streaming api max_turns messages s).1.told
        ≡ returned (anthropic_agent_loop_streaming api max_turns messages s).0
  unfolding anthropic_agent_loop_streaming
  anthropic_agent_loop_streaming-told max_turns messages s =
      loop-Tells max_turns messages (record { state = s; asked = []; told = [] })
