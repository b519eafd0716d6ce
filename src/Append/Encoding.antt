-- ===== src/Append/Encoding.antt =====
-- A text for each JSON value, and its reader: an instance of the parameters of an append. The text of a
-- list starts with a number of steps that is enough to read it.
use termin_server.Base.{
  ℕ, zero, suc, ◌+◌, true, false, [], ◌∷◌, ◌++◌, Option, none, some, Text, length, Json, j_null,
  j_bool, j_num, j_str, j_arr, j_obj, Jsons, nil, cons, Members, empty, member, ◌≡◌, refl, arith,
  is_empty, ◌==◌, ◌≤◌, if◌then◌else◌,
}

abbrev split : ℕ → Text → Text × Text
split zero s = ([], s)
split (suc n) [] = ([], [])
split (suc n) (c ∷ s) = let (t, rest) = split n s in (c ∷ t, rest)

split-length : (t rest : Text) → split (length t) (t ++ rest) ≡ (t, rest)
split-length [] rest = refl
split-length (c ∷ t) rest = rw (split-length t rest) refl

-- The text of a value in front of another text, and the steps it takes to read.
mutual
  encode : Json → Text → Text
  encode j_null s = 0 ∷ s
  encode (j_bool true) s = 1 ∷ s
  encode (j_bool false) s = 2 ∷ s
  encode (j_num t) s = 3 ∷ length t ∷ (t ++ s)
  encode (j_str t) s = 4 ∷ length t ∷ (t ++ s)
  encode (j_arr xs) s = 5 ∷ encode_all xs s
  encode (j_obj d) s = 6 ∷ encode_members d s

  encode_all : Jsons → Text → Text
  encode_all nil s = 0 ∷ s
  encode_all (cons x xs) s = 1 ∷ encode x (encode_all xs s)

  encode_members : Members → Text → Text
  encode_members empty s = 0 ∷ s
  encode_members (member k v d) s = 1 ∷ length k ∷ (k ++ encode v (encode_members d s))

mutual
  steps : Json → ℕ
  steps (j_arr xs) = suc (steps_all xs)
  steps (j_obj d) = suc (steps_members d)
  steps x = 1

  steps_all : Jsons → ℕ
  steps_all nil = 1
  steps_all (cons x xs) = suc (steps x + steps_all xs)

  steps_members : Members → ℕ
  steps_members empty = 1
  steps_members (member k v d) = suc (suc (steps v + steps_members d))

abbrev then_some : {A B C : Type 0} → (A → B) → Option (A × C) → Option (B × C)
then_some f none = none
then_some f (some (a, s)) = some (f a, s)

-- The value after a key, with what is behind both.
abbrev keyed :
    Text → Option (Json × Text) → (Text → Option (Members × Text)) → Option (Members × Text)
keyed k none rest = none
keyed k (some (v, s)) rest = then_some (member k v) (rest s)

abbrev consed : Option (Json × Text) → (Text → Option (Jsons × Text)) → Option (Jsons × Text)
consed none rest = none
consed (some (x, s)) rest = then_some (cons x) (rest s)

abbrev texted : (Text → Json) → Text → Option (Json × Text)
texted f [] = none
texted f (n ∷ s) = let (t, rest) = split n s in some (f t, rest)

mutual
  decode : ℕ → Text → Option (Json × Text)
  decode zero s = none
  decode (suc n) [] = none
  decode (suc n) (c ∷ s) =
      let array = then_some j_arr (decode_all n s) in
      let object = then_some j_obj (decode_members n s) in
      if c == 0
      then some (j_null, s)
      else if c == 1
      then some (j_bool true, s)
      else if c == 2
      then some (j_bool false, s)
      else if c == 3
      then texted j_num s
      else if c == 4
      then texted j_str s
      else if c == 5
      then array
      else object

  decode_all : ℕ → Text → Option (Jsons × Text)
  decode_all zero s = none
  decode_all (suc n) [] = none
  decode_all (suc n) (c ∷ s) =
      let more = consed (decode n s) (λ rest. decode_all n rest) in
      if c == 0 then some (nil, s) else more

  decode_key : ℕ → Text → Option (Members × Text)
  decode_key n [] = none
  decode_key zero (m ∷ s) = none
  decode_key (suc n) (m ∷ s) =
      let (k, rest) = split m s in keyed k (decode n rest) (λ u. decode_members n u)

  decode_members : ℕ → Text → Option (Members × Text)
  decode_members zero s = none
  decode_members (suc n) [] = none
  decode_members (suc n) (c ∷ s) =
      let more = decode_key n s in if c == 0 then some (empty, s) else more

-- Reading what was written.
mutual
  unfolding encode encode_all encode_members steps steps_all steps_members decode decode_all
      decode_members decode_key

  decode-encode : (x : Json) (s : Text) (n : ℕ) → steps x ≤ n → decode n (encode x s) ≡ some (x, s)
  decode-encode j_null s (suc n) h = refl
  decode-encode (j_bool true) s (suc n) h = refl
  decode-encode (j_bool false) s (suc n) h = refl
  decode-encode (j_num t) s (suc n) h = rw (split-length t s) refl
  decode-encode (j_str t) s (suc n) h = rw (split-length t s) refl
  decode-encode (j_arr xs) s (suc n) h = rw (decode_all-encode_all xs s n (omega arith)) refl
  decode-encode (j_obj d) s (suc n) h = rw (decode_members-encode_members d s n (omega arith)) refl
  decode-encode j_null s zero h = absurd (omega arith)
  decode-encode (j_bool b) s zero h = absurd (omega arith)
  decode-encode (j_num t) s zero h = absurd (omega arith)
  decode-encode (j_str t) s zero h = absurd (omega arith)
  decode-encode (j_arr xs) s zero h = absurd (omega arith)
  decode-encode (j_obj d) s zero h = absurd (omega arith)

  decode_all-encode_all :
      (xs : Jsons) (s : Text) (n : ℕ)
      → steps_all xs ≤ n
      → decode_all n (encode_all xs s) ≡ some (xs, s)
  decode_all-encode_all nil s zero h = absurd (omega arith)
  decode_all-encode_all nil s (suc n) h = refl
  decode_all-encode_all (cons x xs) s zero h = absurd (omega arith)
  decode_all-encode_all (cons x xs) s (suc n) h =
      rw
        (
          decode-encode x (encode_all xs s) n (omega arith),
          decode_all-encode_all xs s n (omega arith),
        )
        refl

  decode_members-encode_members :
      (d : Members) (s : Text) (n : ℕ)
      → steps_members d ≤ n
      → decode_members n (encode_members d s) ≡ some (d, s)
  decode_members-encode_members empty s zero h = absurd (omega arith)
  decode_members-encode_members empty s (suc n) h = refl
  decode_members-encode_members (member k v d) s zero h = absurd (omega arith)
  decode_members-encode_members (member k v d) s (suc zero) h = absurd (omega arith)
  decode_members-encode_members (member k v d) s (suc (suc n)) h =
      rw
        (
          split-length k (encode v (encode_members d s)),
          decode-encode v (encode_members d s) n (omega arith),
          decode_members-encode_members d s n (omega arith),
        )
        refl

abbrev only : Option (Jsons × Text) → Option Json
only none = none
only (some (xs, s)) = some (j_arr xs)

unfoldable pub loads : Text → Option Json
unfolding decode_all
loads [] = none
loads (n ∷ s) = only (decode_all n s)

unfoldable pub dumps : Jsons → Text
unfolding encode_all steps_all
dumps xs = steps_all xs ∷ encode_all xs []

pub loads-dumps : (xs : Jsons) → loads (dumps xs) ≡ some (j_arr xs)
unfolding loads dumps
loads-dumps xs = rw (decode_all-encode_all xs [] (steps_all xs) (omega arith)) refl

pub is_empty-dumps : (xs : Jsons) → is_empty (dumps xs) ≡ false
unfolding dumps
is_empty-dumps xs = refl
