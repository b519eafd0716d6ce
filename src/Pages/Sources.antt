-- ===== src/Pages/Sources.antt =====
-- Which data a page is sent with.
use termin_server.Base.{
  true, false, List, [], ◌∷◌, ◌++◌, Option, none, some, Text, codes, text_eq, text_eq_iff,
  text_eq_refl, one_of, is_empty, Bool-cases, inl, inr, ◌≡◌, refl,
}
use termin_server.Pages.{
  Node, Nodes, no_dict, node, no_nodes, child, Props, Needs, add, add_some, collect,
  data_source_types, walk, walk_all,
}

-- A component that stands somewhere in a tree.
mutual
  pub data Within (kind : Text) (p : Props) : Node → Type 0 where
    here : (children : Nodes) → Within kind p (node kind p children)
    below :
        (k : Text) (q : Props) (children : Nodes)
        → WithinAny kind p children
        → Within kind p (node k q children)

  pub data WithinAny (kind : Text) (p : Props) : Nodes → Type 0 where
    first : (c : Node) (cs : Nodes) → Within kind p c → WithinAny kind p (child c cs)
    later : (c : Node) (cs : Nodes) → WithinAny kind p cs → WithinAny kind p (child c cs)

-- Nothing that is needed gets lost.
pub record Grows (n m : Needs) : Type 0 where
  pub grows_sources : (x : Text) → one_of x n.sources ≡ true → one_of x m.sources ≡ true
  pub grows_refs : (x : Text) → one_of x n.ref_lists ≡ true → one_of x m.ref_lists ≡ true

Grows-trans : {n m k : Needs} → Grows n m → Grows m k → Grows n k
Grows-trans f g = record {
  grows_sources = λ x h. g.grows_sources x (f.grows_sources x h);
  grows_refs = λ x h. g.grows_refs x (f.grows_refs x h);
}

one_of-append-left :
    (x : Text) (xs ys : List Text) → one_of x xs ≡ true → one_of x (xs ++ ys) ≡ true
one_of-append-left x [] ys h = cc
one_of-append-left x (y ∷ xs) ys h = elim (Bool-cases (text_eq x y)) [
  | inl t ↦ rw t refl
  | inr f ↦ rw f (one_of-append-left x xs ys (rw f at h))
]

one_of-last : (x : Text) (xs : List Text) → one_of x (xs ++ x ∷ []) ≡ true
one_of-last x [] = rw (text_eq_refl x) refl
one_of-last x (y ∷ xs) = elim (Bool-cases (text_eq x y)) [
  | inl t ↦ rw t refl
  | inr f ↦ rw f (one_of-last x xs)
]

pub one_of-add : (x : Text) (xs : List Text) → one_of x (add x xs) ≡ true
one_of-add x xs = elim (Bool-cases (one_of x xs)) [
  | inl t ↦ rw (t, add) t
  | inr f ↦ rw (f, add) (one_of-last x xs)
]

pub one_of-add-left :
    (x y : Text) (xs : List Text) → one_of x xs ≡ true → one_of x (add y xs) ≡ true
one_of-add-left x y xs h = elim (Bool-cases (one_of y xs)) [
  | inl t ↦ rw (t, add) h
  | inr f ↦ rw (f, add) (one_of-append-left x xs (y ∷ []) h)
]

one_of-add_some-left :
    (x : Text) (o : Option Text) (xs : List Text)
    → one_of x xs ≡ true
    → one_of x (add_some o xs) ≡ true
one_of-add_some-left x none xs h = h
one_of-add_some-left x (some y) xs h = elim (Bool-cases (is_empty y)) [
  | inl t ↦ rw (t, add_some) h
  | inr f ↦ rw (f, add_some) (one_of-add-left x y xs h)
]

one_of-add_some :
    (x : Text) (o : Option Text) (xs : List Text)
    → o ≡ some x
    → is_empty x ≡ false
    → one_of x (add_some o xs) ≡ true
one_of-add_some x o xs e h = rw (e, add_some) (rw (h, add_some) (one_of-add x xs))

collect-Grows : (kind : Text) (p : Props) (n : Needs) → Grows n (collect kind p n)
unfolding collect
collect-Grows kind p n = elim (Bool-cases (one_of kind data_source_types)) [
  | inl t ↦
      rw (t, collect)
        (record {
          grows_sources = λ x h. one_of-add_some-left x p.source _ h;
          grows_refs = λ x h. h;
        })
  | inr f ↦
      rw (f, collect)
        (elim (Bool-cases (text_eq kind (codes "field_input"))) [
          | inl t ↦ rw t (record {
            grows_sources = λ x h. h;
            grows_refs = λ x h. one_of-add_some-left x p.reference_content _ h;
          })
          | inr n ↦ rw n (record { grows_sources = λ x h. h; grows_refs = λ x h. h })
        ])
]

mutual
  unfolding walk

  walk-Grows : (c : Node) (n : Needs) → Grows n (walk c n)
  walk-Grows no_dict n = record { grows_sources = λ x h. h; grows_refs = λ x h. h }
  walk-Grows (node kind p children) n =
      Grows-trans (collect-Grows kind p n) (walk_all-Grows children (collect kind p n))

  walk_all-Grows : (cs : Nodes) (n : Needs) → Grows n (walk_all cs n)
  walk_all-Grows no_nodes n = record { grows_sources = λ x h. h; grows_refs = λ x h. h }
  walk_all-Grows (child c cs) n = Grows-trans (walk-Grows c n) (walk_all-Grows cs (walk c n))

-- A component that is given data: a source of its own, or a list of references.
pub record NeedsSource (kind : Text) (p : Props) (x : Text) : Type 0 where
  pub is_source : one_of kind data_source_types ≡ true
  pub source_is : p.source ≡ some x
  pub nonblank : is_empty x ≡ false

pub record NeedsRefs (kind : Text) (p : Props) (x : Text) : Type 0 where
  pub is_field : text_eq kind (codes "field_input") ≡ true
  pub reference_is : p.reference_content ≡ some x
  pub nonblank : is_empty x ≡ false

collect-source :
    (kind : Text) (p : Props) (x : Text) (n : Needs)
    → NeedsSource kind p x
    → one_of x (collect kind p n).sources ≡ true
unfolding collect
collect-source kind p x n s =
    rw (s.is_source, collect) (one_of-add_some x p.source n.sources s.source_is s.nonblank)

field_input-source :
    (kind : Text) → kind ≡ codes "field_input" → one_of kind data_source_types ≡ false
field_input-source kind h = rw h refl

collect-refs :
    (kind : Text) (p : Props) (x : Text) (n : Needs)
    → NeedsRefs kind p x
    → one_of x (collect kind p n).ref_lists ≡ true
unfolding collect
collect-refs kind p x n s =
    rw (field_input-source kind ((text_eq_iff kind (codes "field_input")).0 s.is_field), collect)
      (rw s.is_field (one_of-add_some x p.reference_content n.ref_lists s.reference_is s.nonblank))

mutual
  unfolding walk

  walk-source :
      (kind : Text) (p : Props) (x : Text) {c : Node} (n : Needs)
      → NeedsSource kind p x
      → Within kind p c
      → one_of x (walk c n).sources ≡ true
  walk-source kind p x n s (here children) =
      (walk_all-Grows children (collect kind p n)).grows_sources x (collect-source kind p x n s)
  walk-source kind p x n s (below k q children w) = walk_all-source kind p x (collect k q n) s w

  pub walk_all-source :
      (kind : Text) (p : Props) (x : Text) {cs : Nodes} (n : Needs)
      → NeedsSource kind p x
      → WithinAny kind p cs
      → one_of x (walk_all cs n).sources ≡ true
  walk_all-source kind p x n s (first c cs w) =
      (walk_all-Grows cs (walk c n)).grows_sources x (walk-source kind p x n s w)
  walk_all-source kind p x n s (later c cs w) = walk_all-source kind p x (walk c n) s w

mutual
  unfolding walk

  walk-refs :
      (kind : Text) (p : Props) (x : Text) {c : Node} (n : Needs)
      → NeedsRefs kind p x
      → Within kind p c
      → one_of x (walk c n).ref_lists ≡ true
  walk-refs kind p x n s (here children) =
      (walk_all-Grows children (collect kind p n)).grows_refs x (collect-refs kind p x n s)
  walk-refs kind p x n s (below k q children w) = walk_all-refs kind p x (collect k q n) s w

  pub walk_all-refs :
      (kind : Text) (p : Props) (x : Text) {cs : Nodes} (n : Needs)
      → NeedsRefs kind p x
      → WithinAny kind p cs
      → one_of x (walk_all cs n).ref_lists ≡ true
  walk_all-refs kind p x n s (first c cs w) =
      (walk_all-Grows cs (walk c n)).grows_refs x (walk-refs kind p x n s w)
  walk_all-refs kind p x n s (later c cs w) = walk_all-refs kind p x (walk c n) s w
