-- ===== src/Pages/Shell.antt =====
-- The HTML shell of a page: `_safe_inline_json` and `build_shell_html` of termin_server/bootstrap.py.
use termin_server.Base.{
  ℕ, Bool, true, false, List, [], ◌∷◌, ◌++◌, Text, codes, one_of, is_empty, join, map, ◌==◌, ◌||◌,
  ◌&&◌, if◌then◌else◌, Bool-cases, inl, inr, ==_iff, subst, ◌≡◌, ◌⊎◌, append_assoc, refl, sym, ap,
  ◌∙◌,
}

-- `raw.replace("</", r"<\/")`
pub escape_end_tags : Text → Text
escape_end_tags [] = []
escape_end_tags (c ∷ []) = c ∷ []
escape_end_tags (c ∷ d ∷ s) =
    let rest = escape_end_tags (d ∷ s) in
    let behind = escape_end_tags s in
    if c == b'<' && d == b'/' then b'<' ∷ b'\\' ∷ b'/' ∷ behind else c ∷ rest

-- The URLs that are kept: each once, where it comes first
pub dedupe : List Text → List Text → List Text
dedupe seen [] = []
dedupe seen (url ∷ urls) =
    let rest = dedupe seen urls in
    let more = dedupe (url ∷ seen) urls in
    if is_empty url || one_of url seen then rest else url ∷ more

pub keep_urls : List Text → List Text
keep_urls [] = []
keep_urls (url ∷ urls) = let rest = keep_urls urls in if is_empty url then rest else url ∷ rest

abbrev pub newline : Text
newline = 10 ∷ []

pub script_tag : Text → Text
script_tag url = codes "<script src=\"" ++ (url ++ codes "\" defer></script>")

pub style_tag : Text → Text
style_tag url = codes "<link rel=\"stylesheet\" href=\"" ++ (url ++ codes "\">")

-- `_SHELL_TEMPLATE.format(…)`
pub shell_template : (title styles json scripts : Text) → Text
shell_template title styles json scripts = join newline (
    codes "<!DOCTYPE html>"
    ∷ codes "<html lang=\"en\">"
    ∷ codes "<head>"
    ∷ codes "<meta charset=\"utf-8\">"
    ∷ codes "<meta name=\"viewport\" content=\"width=device-width, initial-scale=1\">"
    ∷ (codes "<title>" ++ (title ++ codes "</title>"))
    ∷ styles
    ∷ codes "</head>"
    ∷ codes "<body>"
    ∷ codes "<div id=\"termin-root\"></div>"
    ∷ (codes "<script>window.__termin_bootstrap = " ++ (json ++ codes ";</script>"))
    ∷ codes "<script src=\"/runtime/termin.js\" defer></script>"
    ∷ scripts
    ∷ codes "</body>"
    ∷ codes "</html>"
    ∷ []
    ∷ [])

-- `build_shell_html`, from the `json.dumps` of its payload
pub build_shell_html :
    (dumped : Text)
    → (bundle_urls : List Text) → (page_title : Text) → (style_urls : List Text) → Text
unfolding escape_end_tags dedupe keep_urls script_tag style_tag shell_template
build_shell_html dumped bundle_urls page_title style_urls =
    shell_template (if is_empty page_title then codes "Termin App" else page_title)
      (join newline (map style_tag (keep_urls style_urls))) (escape_end_tags dumped)
      (join newline (map script_tag (dedupe [] bundle_urls)))

and-left : (a b : Bool) → (a && b) ≡ true → a ≡ true
and-left true b h = refl
and-left false b h = cc

-- Whether an end tag begins anywhere, `</`
pub has_end_tag : Text → Bool
has_end_tag [] = false
has_end_tag (c ∷ []) = false
has_end_tag (c ∷ d ∷ s) = (c == b'<' && d == b'/') || has_end_tag (d ∷ s)

has_end_tag-behind : (c : ℕ) (s : Text) → (c == b'<') ≡ false → has_end_tag (c ∷ s) ≡ has_end_tag s
unfolding has_end_tag
has_end_tag-behind c [] h = refl
has_end_tag-behind c (d ∷ s) h = rw h refl

-- The first character stays.
escape_end_tags-head : (d : ℕ) (s : Text) → (t : Text) × (escape_end_tags (d ∷ s) ≡ d ∷ t)
unfolding escape_end_tags
escape_end_tags-head d [] = ([], refl)
escape_end_tags-head d (e ∷ s) = elim (Bool-cases (d == b'<' && e == b'/')) [
  | inl t ↦ (
    b'\\' ∷ b'/' ∷ escape_end_tags s,
    rw (t, escape_end_tags)
        (ap (λ (c : ℕ). c ∷ b'\\' ∷ b'/' ∷ escape_end_tags s)
          (sym ((==_iff d b'<').0 (and-left _ _ t)))),
  )
  | inr f ↦ (escape_end_tags (e ∷ s), rw (f, escape_end_tags) refl)
]

has_end_tag-cons :
    (c d : ℕ) (s : Text)
    → (c == b'<' && d == b'/') ≡ false
    → has_end_tag (escape_end_tags (d ∷ s)) ≡ false
    → has_end_tag (c ∷ escape_end_tags (d ∷ s)) ≡ false
unfolding has_end_tag
has_end_tag-cons c d s f h =
    let (t, e) = escape_end_tags-head d s in
    rw e (rw f (subst (λ (u : Text). has_end_tag u ≡ false) e h))

-- The escaped text holds no `</`.
escape_end_tags-has_end_tag : (s : Text) → has_end_tag (escape_end_tags s) ≡ false
unfolding escape_end_tags has_end_tag
escape_end_tags-has_end_tag [] = refl
escape_end_tags-has_end_tag (c ∷ []) = refl
escape_end_tags-has_end_tag (c ∷ d ∷ s) = elim (Bool-cases (c == b'<' && d == b'/')) [
  | inl t ↦
      rw (t, escape_end_tags)
        (has_end_tag-behind b'/' (escape_end_tags s) refl ∙ escape_end_tags-has_end_tag s)
  | inr f ↦ rw (f, escape_end_tags) (has_end_tag-cons c d s f (escape_end_tags-has_end_tag (d ∷ s)))
]

-- A text without an end tag stays as it is.
escape_end_tags-same : (s : Text) → (escape_end_tags s ≡ s) ⊎ (has_end_tag s ≡ true)
unfolding escape_end_tags has_end_tag
escape_end_tags-same [] = inl refl
escape_end_tags-same (c ∷ []) = inl refl
escape_end_tags-same (c ∷ d ∷ s) = elim (Bool-cases (c == b'<' && d == b'/')) [
  | inl t ↦ inr (rw t refl)
  | inr f ↦ elim (escape_end_tags-same (d ∷ s)) [
    | inl e ↦ inl (rw (escape_end_tags, f) (ap (λ (r : Text). c ∷ r) e))
    | inr h ↦ inr (rw f h)
  ]
]

-- Around the JSON of a payload
abbrev pub Around : Text → Text → Text → (Text → Text) → Type 0
Around dumped front back shell =
    (json : Text) × (shell dumped
      ≡ front
        ++ (codes "<script>window.__termin_bootstrap = " ++ (json ++ (codes ";</script>" ++ back))))
    × (has_end_tag json ≡ false)
    × ((json ≡ dumped) ⊎ (has_end_tag dumped ≡ true))

-- Whatever the payload, the shell is the same two texts around one script that assigns a JSON text to
-- the bootstrap variable. That text holds no `</`, so that the first end tag behind its beginning is the
-- one that ends the script, and it is the payload's own JSON where that holds no `</` either.
pub build_shell_html-Around :
    (bundle_urls : List Text) (page_title : Text) (style_urls : List Text)
    → (front : Text) × (back : Text) × ((dumped : Text)
        → Around dumped front back (λ s. build_shell_html s bundle_urls page_title style_urls))
unfolding build_shell_html shell_template
build_shell_html-Around bundle_urls page_title style_urls =
    let title = if is_empty page_title then codes "Termin App" else page_title in
    let styles = join newline (map style_tag (keep_urls style_urls)) in
    let scripts = join newline (map script_tag (dedupe [] bundle_urls)) in
    (
      codes
            "<!DOCTYPE html>\n<html lang=\"en\">\n<head>\n<meta charset=\"utf-8\">\n<meta name=\"viewport\" content=\"width=device-width, initial-scale=1\">\n<title>"
          ++ (title
              ++ (codes "</title>\n"
                  ++ (styles ++ codes "\n</head>\n<body>\n<div id=\"termin-root\"></div>\n"))),
      codes "\n<script src=\"/runtime/termin.js\" defer></script>\n"
          ++ (scripts ++ codes "\n</body>\n</html>\n"),
      λ dumped. (
        escape_end_tags dumped,
        simp append_assoc,
        escape_end_tags-has_end_tag dumped,
        escape_end_tags-same dumped,
      ),
    )
