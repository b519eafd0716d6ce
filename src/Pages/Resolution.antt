-- ===== src/Pages/Resolution.antt =====
-- Which page a path leads to.
use mathlib.Core.List.{Memᴰ}
use mathlib.Core.List.Memᴰ
use termin_server.Base.{
  Bool, true, false, List, [], ◌∷◌, Option, none, some, Text, text_eq, text_eq_iff, Bool-cases, inl,
  inr, subst, ◌≡◌, ◌≢◌, refl, sym, ap, ◌∙◌,
}
use termin_server.Pages.{Page, Viewer, slug_of, with_slug, with_role, choose, resolve_page_for}

true-false : {b : Bool} → b ≡ true → b ≡ false → ⊥
true-false h k = cc

text_eq-false : (s t : Text) → text_eq s t ≡ false → s ≢ t
text_eq-false s t h e = true-false ((text_eq_iff s t).1 e) h

with_slug-Mem :
    (slug : Text) (pages : List Page) {q : Page}
    → Memᴰ q (with_slug slug pages)
    → Memᴰ q pages × (q.slug ≡ slug)
unfolding with_slug
with_slug-Mem slug [] m = absurd (Memᴰ.not-nil m)
with_slug-Mem slug (p ∷ pages) {q} m = elim (Bool-cases (text_eq p.slug slug)) [
  | inl t ↦ elim (Memᴰ.cases_cons (subst (Memᴰ q) (rw (t, with_slug) refl) m)) [
    | inl e ↦ (Memᴰ.head e, ap (λ (r : Page). r.slug) e ∙ (text_eq_iff p.slug slug).0 t)
    | inr k ↦ (Memᴰ.tail (with_slug-Mem slug pages k).0, (with_slug-Mem slug pages k).1)
  ]
  | inr f ↦
      let k = with_slug-Mem slug pages (subst (Memᴰ q) (rw (f, with_slug) refl) m) in
      (Memᴰ.tail k.0, k.1)
]

Mem-with_slug :
    (slug : Text) (pages : List Page) {q : Page}
    → Memᴰ q pages
    → q.slug ≡ slug
    → Memᴰ q (with_slug slug pages)
unfolding with_slug
Mem-with_slug slug [] m h = absurd (Memᴰ.not-nil m)
Mem-with_slug slug (p ∷ pages) (Memᴰ.head e) h =
    rw
      (
        subst (λ (s : Text). text_eq s slug ≡ true) (ap (λ (r : Page). r.slug) e)
            ((text_eq_iff _ slug).1 h),
        with_slug,
      )
      (Memᴰ.head e)
Mem-with_slug slug (p ∷ pages) (Memᴰ.tail m) h = elim (Bool-cases (text_eq p.slug slug)) [
  | inl t ↦ rw (t, with_slug) (Memᴰ.tail (Mem-with_slug slug pages m h))
  | inr f ↦ rw (f, with_slug) (Mem-with_slug slug pages m h)
]

module _ (lower : Text → Text) where
  -- The page of a slug for a role: one of them, of the role if any of them is of it.
  pub record IsFor (role : Text) (pages : List Page) (p : Page) : Type 0 where
    pub listed : Memᴰ p pages
    pub fits : (q : Page) → Memᴰ q pages → lower q.role ≡ lower role → lower p.role ≡ lower role

  abbrev pub Resolves : Text → Text → List Page → Option Page → Type 0
  Resolves slug role pages none = (q : Page) → Memᴰ q pages → q.slug ≢ slug
  Resolves slug role pages (some p) =
      Memᴰ p pages
      × (p.slug ≡ slug)
      × ((q : Page)
          → Memᴰ q pages
          → q.slug ≡ slug
          → lower q.role ≡ lower role
          → lower p.role ≡ lower role)

  abbrev Chosen : Text → List Page → Option Page → Type 0
  Chosen role pages none = (q : Page) → Memᴰ q pages → ⊥
  Chosen role pages (some p) = IsFor role pages p

  abbrev OfRole : Text → List Page → Option Page → Type 0
  OfRole role pages none = (q : Page) → Memᴰ q pages → lower q.role ≢ lower role
  OfRole role pages (some p) = Memᴰ p pages × (lower p.role ≡ lower role)

  OfRole-tail :
      (role : Text) (p : Page) (pages : List Page) (o : Option Page)
      → lower p.role ≢ lower role
      → OfRole role pages o
      → OfRole role (p ∷ pages) o
  OfRole-tail role p pages none n h = λ q m e. elim (Memᴰ.cases_cons m) [
    | inl k ↦ n (ap (λ (r : Page). lower r.role) (sym k) ∙ e)
    | inr k ↦ h q k e
  ]
  OfRole-tail role p pages (some r) n h = (Memᴰ.tail h.0, h.1)

  with_role-OfRole :
      (role : Text) (pages : List Page) → OfRole role pages (with_role lower role pages)
  unfolding with_role
  with_role-OfRole role [] = λ q m e. Memᴰ.not-nil m
  with_role-OfRole role (p ∷ pages) = elim (Bool-cases (text_eq (lower p.role) (lower role))) [
    | inl t ↦ rw (t, with_role) (Memᴰ.head refl, (text_eq_iff (lower p.role) (lower role)).0 t)
    | inr f ↦
        rw (f, with_role)
          (OfRole-tail role p pages (with_role lower role pages) (text_eq-false _ _ f)
            (with_role-OfRole role pages))
  ]

  IsFor-default :
      (role : Text) (p : Page) (pages : List Page) (o : Option Page)
      → OfRole role (p ∷ pages) o
      → Chosen role (p ∷ pages) (elim o [ some r ↦ some r | none ↦ some p ])
  IsFor-default role p pages none h = record {
    listed = Memᴰ.head refl;
    fits = λ q m e. absurd (h q m e);
  }
  IsFor-default role p pages (some r) h = record { listed = h.0; fits = λ q m e. h.1 }

  choose-Chosen : (role : Text) (pages : List Page) → Chosen role pages (choose lower role pages)
  unfolding choose
  choose-Chosen role [] = λ q m. Memᴰ.not-nil m
  choose-Chosen role (p ∷ []) = record {
    listed = Memᴰ.head refl;
    fits = λ q m e. ap (λ (r : Page). lower r.role) (sym (Memᴰ.eq_of_singleton m)) ∙ e;
  }
  choose-Chosen role (p ∷ q ∷ ps) =
      IsFor-default role p (q ∷ ps) (with_role lower role (p ∷ q ∷ ps))
        (with_role-OfRole role (p ∷ q ∷ ps))

  Chosen-Resolves :
      (slug role : Text) (pages : List Page) (o : Option Page)
      → Chosen role (with_slug slug pages) o
      → Resolves slug role pages o
  Chosen-Resolves slug role pages none h = λ q m e. h q (Mem-with_slug slug pages m e)
  Chosen-Resolves slug role pages (some p) h =
      let k = with_slug-Mem slug pages h.listed in
      (k.0, k.1, λ q m e. h.fits q (Mem-with_slug slug pages m e))

  -- A path leads to a page of the slug that `slug_of` gives for it whenever there is one, and where a
  -- page of this slug has the user's role, up to case, to one that has it; without such a page it leads
  -- to a page of the slug all the same.
  pub resolve_page_for-Resolves :
      (pages : List Page) (path : Text) (v : Viewer)
      → Resolves (slug_of path) v.role pages (resolve_page_for lower pages path v)
  unfolding resolve_page_for
  resolve_page_for-Resolves pages path v =
      Chosen-Resolves (slug_of path) v.role pages _
        (choose-Chosen v.role (with_slug (slug_of path) pages))
