-- ===== src/Streaming/Finish.antt =====
-- What `StreamingJsonFieldExtractor` of termin_server/ai_provider.py says at the end of its block:
-- `finish` and `parsed_object`. `str.strip` and `json.loads` are parameters.
use termin_server.Base.{
  ℕ, zero, suc, ◌-◌, List, [], ◌∷◌, ◌++◌, Option, some, Text, count, Json, j_null, j_bool, j_num,
  j_str, j_arr, j_obj, Members, empty, member,
}
use termin_server.Streaming.{Extractor}

abbrev pub repeat : ℕ → Text → Text
repeat zero t = []
repeat (suc n) t = t ++ repeat n t

-- The fields that are no strings, in their order.
pub others : Members → List (Text × Json)
others empty = []
others (member k (j_str s) d) = others d
others (member k j_null d) = (k, j_null) ∷ others d
others (member k (j_bool b) d) = (k, j_bool b) ∷ others d
others (member k (j_num t) d) = (k, j_num t) ∷ others d
others (member k (j_arr xs) d) = (k, j_arr xs) ∷ others d
others (member k (j_obj o) d) = (k, j_obj o) ∷ others d

-- The closing braces that are missing
pub balanced : Text → Text
balanced text = text ++ repeat (count b'{' text - count b'}' text) (b'}' ∷ [])

module _ (strip : Text → Text) (loads : Text → Option Json) where
  pub parsed_object : Extractor → Members
  unfolding balanced
  parsed_object ex = elim (loads (balanced (strip ex.buffer))) [ some (j_obj d) ↦ d | j ↦ empty ]

  pub finish : Extractor → List (Text × Json)
  unfolding balanced others
  finish ex = elim (loads (balanced (strip ex.buffer))) [ some (j_obj d) ↦ others d | j ↦ [] ]
