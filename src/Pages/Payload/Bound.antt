-- ===== src/Pages/Payload/Bound.antt =====
-- The data that a payload binds.
use mathlib.Core.Option as Option
use termin_server.Base.{
  true, List, [], ◌∷◌, Members, insert, sym, Option, none, some, Text, text_eq, text_eq_iff,
  text_eq_refl, one_of, Bool-cases, Option-cases, inl, inr, ◌⊎◌, map, subst, ◌≡◌, refl, ap, ◌∙◌,
  arith,
}
use termin_server.Pages.{Props, Needs, add, walk_all, Page, Viewer, resolve_page_for}
use termin_server.Pages.Actions.{BoundData, attach_all}
use termin_server.Pages.Actions.Kept.{
  Bound, Showing, Showing-refl, insert-Bound, insert-Bound-self, some-injective, attach_all-Bound,
}
use termin_server.Pages.Payload.{
  Context, Payload, built, no_page, bind_sources, bind_page, built_of, build_bootstrap_payload,
  payload_of, union, sorted, place, precedes, channel_of, no_needs,
}
use termin_server.Pages.Sources.{
  WithinAny, NeedsSource, NeedsRefs, walk_all-source, walk_all-refs, one_of-add, one_of-add-left,
}

one_of-union-left :
    (x : Text) (xs ys : List Text) → one_of x xs ≡ true → one_of x (union xs ys) ≡ true
unfolding union
one_of-union-left x xs [] h = h
one_of-union-left x xs (y ∷ ys) h = one_of-union-left x (add y xs) ys (one_of-add-left x y xs h)

one_of-union-right :
    (x : Text) (xs ys : List Text) → one_of x ys ≡ true → one_of x (union xs ys) ≡ true
unfolding union
one_of-union-right x xs [] h = cc
one_of-union-right x xs (y ∷ ys) h = elim (Bool-cases (text_eq x y)) [
  | inl t ↦
      one_of-union-left x (add y xs) ys
        (subst (λ (z : Text). one_of x (add z xs) ≡ true) ((text_eq_iff x y).0 t) (one_of-add x xs))
  | inr f ↦ one_of-union-right x (add y xs) ys (rw f at h)
]

one_of-place : (x y : Text) (ss : List Text) → one_of x (place y ss) ≡ one_of x (y ∷ ss)
unfolding place
one_of-place x y [] = refl
one_of-place x y (t ∷ ts) = elim (Bool-cases (precedes y t)) [
  | inl b ↦ rw (b, place) refl
  | inr f ↦ rw (f, place) (rw (one_of-place x y ts) (ground (arith)))
]

one_of-sorted : (x : Text) (ss : List Text) → one_of x (sorted ss) ≡ one_of x ss
unfolding sorted
one_of-sorted x [] = refl
one_of-sorted x (s ∷ ss) = one_of-place x s (sorted ss) ∙ rw (one_of-sorted x ss) refl

no_page-built : {p : Payload} → no_page ≡ built p → ⊥
no_page-built h = cc

built-injective : {p q : Payload} → built p ≡ built q → p ≡ q
built-injective h = cc

one_of-map :
    (f : Text → Text) (x : Text) (ss : List Text)
    → one_of x ss ≡ true
    → one_of (f x) (map f ss) ≡ true
one_of-map f x [] h = cc
one_of-map f x (s ∷ ss) h = elim (Bool-cases (text_eq x s)) [
  | inl t ↦ rw (ap f ((text_eq_iff x s).0 t)) (rw (text_eq_refl (f s)) refl)
  | inr n ↦ elim (Bool-cases (text_eq (f x) (f s))) [
    | inl t ↦ rw t refl
    | inr m ↦ rw m (one_of-map f x ss (rw n at h))
  ]
]

module _ (ctx : Context) where
  -- What a source shows to somebody: the rows that the storage gives, as they are redacted
  abbrev pub Shows : List Text → Text → BoundData → Type 0
  Shows scopes x bound =
      (rows : List Members) × (ctx.records x ≡ some rows) × Bound (ctx.redact x scopes rows) x bound

  insert-Shows :
      (scopes : List Text) (x src : Text) (rows : List Members) (bound : BoundData)
      → ctx.records src ≡ some rows
      → Shows scopes x bound
      → Shows scopes x (insert src (ctx.redact src scopes rows) bound)
  insert-Shows scopes x src rows bound e (old, o, b) = (
    old,
    o,
    insert-Bound _ x src (ctx.redact src scopes rows) bound b (λ t.
        let same = (text_eq_iff src x).0 t in
        let there = subst (λ y. ctx.records y ≡ some rows) same e in
        subst (λ y. Showing (ctx.redact x scopes old) (ctx.redact y scopes rows)) (sym same)
          (subst (λ r. Showing (ctx.redact x scopes old) (ctx.redact x scopes r))
            (some-injective (sym o ∙ there)) (Showing-refl (ctx.redact x scopes old)))),
  )

  insert-Shows-self :
      (scopes : List Text) (x src : Text) (rows : List Members) (bound : BoundData)
      → ctx.records src ≡ some rows
      → text_eq x src ≡ true
      → Shows scopes x (insert src (ctx.redact src scopes rows) bound)
  insert-Shows-self scopes x src rows bound e t =
      let same = (text_eq_iff x src).0 t in
      (
        rows,
        subst (λ y. ctx.records y ≡ some rows) (sym same) e,
        insert-Bound-self _ x src (ctx.redact src scopes rows) bound t (
            subst (λ y. Showing (ctx.redact y scopes rows) (ctx.redact src scopes rows)) (sym same)
              (Showing-refl (ctx.redact src scopes rows))),
      )

  bind_sources-Shows :
      (scopes : List Text) (x : Text) (srcs : List Text) (bound out : BoundData)
      → bind_sources ctx scopes srcs bound ≡ some out
      → (one_of x srcs ≡ true) ⊎ Shows scopes x bound
      → Shows scopes x out
  unfolding bind_sources
  bind_sources-Shows scopes x [] bound out h (inl k) = cc
  bind_sources-Shows scopes x [] bound out h (inr b) = subst (Shows scopes x) (some-injective h) b
  bind_sources-Shows scopes x (src ∷ srcs) bound out h k =
      let (rows, e, i) = (Option.bind-eq-some_iff (ctx.records src) _).0 h in
      bind_sources-Shows scopes x srcs _ out i (elim k [
        | inl j ↦ elim (Bool-cases (text_eq x src)) [
          | inl t ↦ inr (insert-Shows-self scopes x src rows bound e t)
          | inr f ↦ inl (rw f at j)
        ]
        | inr b ↦ inr (insert-Shows scopes x src rows bound e b)
      ])

  -- What a payload promises: that it shows every component's source and every list of references, and a subscription to each source.
  pub record Supplied (scopes : List Text) (p : Payload) : Type 0 where
    pub sources_bound :
        (kind : Text) (q : Props) (x : Text)
        → WithinAny kind q p.component_tree_ir.children
        → NeedsSource kind q x
        → Shows scopes x p.bound_data
    pub refs_bound :
        (kind : Text) (q : Props) (x : Text)
        → WithinAny kind q p.component_tree_ir.children
        → NeedsRefs kind q x
        → Shows scopes x p.bound_data
    pub subscribed :
        (kind : Text) (q : Props) (x : Text)
        → WithinAny kind q p.component_tree_ir.children
        → NeedsSource kind q x
        → one_of (channel_of ctx x) p.subscriptions_to_open ≡ true

  built_of-some :
      (page : Page) (v : Viewer) (n : Needs) (o : Option BoundData) (p : Payload)
      → built_of ctx page v n o ≡ built p
      → (shown : BoundData) × (o ≡ some shown) × (payload_of ctx page v n shown ≡ p)
  built_of-some page v n none p h = cc
  built_of-some page v n (some shown) p h = (shown, refl, built-injective h)

  abbrev needs_of : Page → Needs
  needs_of page = walk_all page.children (no_needs ctx)

  payload_of-Supplied :
      (page : Page) (v : Viewer) (bound shown : BoundData)
      → bind_sources ctx v.scopes (union (needs_of page).sources (needs_of page).ref_lists) []
        ≡ some bound
      → attach_all v.scopes ctx.sm_lookup page.children bound ≡ some shown
      → Supplied v.scopes (payload_of ctx page v (needs_of page) shown)
  unfolding payload_of
  payload_of-Supplied page v bound shown b a =
      let n = needs_of page in
      let keeps : (x : Text)
          → one_of x (union n.sources n.ref_lists) ≡ true
          → Shows v.scopes x shown =
        λ x h.
          let (rows, e, s) =
            bind_sources-Shows v.scopes x (union n.sources n.ref_lists) [] bound b (inl h) in
          (rows, e, attach_all-Bound v.scopes ctx.sm_lookup _ x page.children bound shown a s) in
      record {
        sources_bound = λ kind q x w s. keeps x (
            one_of-union-left x n.sources n.ref_lists
              (walk_all-source kind q x (no_needs ctx) s w));
        refs_bound = λ kind q x w s. keeps x (
            one_of-union-right x n.sources n.ref_lists (walk_all-refs kind q x (no_needs ctx) s w));
        subscribed = λ kind q x w s.
            one_of-sorted (channel_of ctx x) (map (channel_of ctx) n.sources)
            ∙ one_of-map (channel_of ctx) x n.sources (walk_all-source kind q x (no_needs ctx) s w);
      }

  bind_page-Supplied :
      (page : Page) (v : Viewer) (p : Payload)
      → bind_page ctx page v (needs_of page) ≡ built p
      → (page ≡ p.component_tree_ir) × Supplied v.scopes p
  unfolding bind_page payload_of
  bind_page-Supplied page v p h =
      let n = needs_of page in
      let (shown, e, q) = built_of-some page v n _ p h in
      let (bound, b, a) =
        (Option.bind-eq-some_iff (bind_sources ctx v.scopes (union n.sources n.ref_lists) []) _).0
          e in
      (
        ap (λ (r : Payload). r.component_tree_ir) q,
        subst (Supplied v.scopes) q (payload_of-Supplied page v bound shown b a),
      )

  -- A payload that is built is that of the page that the path leads to. For the source of every
  -- component of the page that shows data, and for what each input field refers to, it holds as many rows
  -- as the storage gives, redacted for the viewer's scopes, each with the same values but for the actions
  -- that are attached to it; and it opens a subscription to every source.
  pub build_bootstrap_payload-Supplied :
      (path : Text) (v : Viewer) (p : Payload)
      → build_bootstrap_payload ctx path v ≡ built p
      → (resolve_page_for ctx.lower ctx.pages path v ≡ some p.component_tree_ir)
        × Supplied v.scopes p
  unfolding build_bootstrap_payload bind_page payload_of
  build_bootstrap_payload-Supplied path v p h =
      elim (Option-cases (resolve_page_for ctx.lower ctx.pages path v)) [
        | inl n ↦ absurd (no_page-built (rw (n, build_bootstrap_payload) at h))
        | inr (page, e) ↦
            let (q, s) = bind_page-Supplied page v p (rw (e, build_bootstrap_payload) at h) in
            (e ∙ ap some q, s)
      ]
