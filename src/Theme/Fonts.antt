-- ===== src/Theme/Fonts.antt =====
-- fontOptions.ts: the curated fonts, and the style sheet links that `ensureFontLoaded` appends to
-- the document, each at most once. The set of loaded fonts and the links are the module's state.
use mullet.Base.{
  Text, codes, text_eq, text_eq_iff, find, any, map, List, [], ◌∷◌, ◌++◌, ◌≡◌, refl, sym, ap, subst,
  arith, Bool, true, false, ◌∙◌, Bool-cases, Option, none, some, inl, inr, ◌||◌, if◌then◌else◌,
}

pub record FontOption : Type 0 where
  pub label : Text
  pub value : Text
  pub google_font : Option Text

abbrev font : Text → Text → Option Text → FontOption
font l v g = record { label = l; value = v; google_font = g }

abbrev manrope : Text
manrope = codes "Manrope:wght@400;500;600;700;800"

abbrev space_grotesk : Text
space_grotesk = codes "Space+Grotesk:wght@500;600;700"

unfoldable pub font_options : List FontOption
font_options =
    font (codes "System UI") (codes "system-ui, sans-serif") none
    ∷ font (codes "Georgia (Serif)") (codes "Georgia, serif") none
    ∷ font (codes "Manrope") (codes "'Manrope', sans-serif") (some manrope)
    ∷ font (codes "Inter") (codes "'Inter', sans-serif") (some (codes "Inter:wght@400;600;700"))
    ∷ font (codes "Space Grotesk") (codes "'Space Grotesk', sans-serif") (some space_grotesk)
    ∷ font (codes "Poppins") (codes "'Poppins', sans-serif")
        (some (codes "Poppins:wght@400;600;700"))
    ∷ font (codes "Playfair Display (Serif)") (codes "'Playfair Display', serif")
        (some (codes "Playfair+Display:wght@600;700"))
    ∷ font (codes "JetBrains Mono") (codes "'JetBrains Mono', monospace")
        (some (codes "JetBrains+Mono:wght@500;700"))
    ∷ []

-- `FONT_OPTIONS[0].value`
abbrev pub default_font : Text
default_font = codes "system-ui, sans-serif"

-- `loadedGoogleFonts` and the `href`s of the links in `document.head`, in their order.
pub record FontState : Type 0 where
  pub loaded : List Text
  pub links : List Text

abbrev seeds : List Text
seeds = manrope ∷ space_grotesk ∷ []

unfoldable pub initial_fonts : FontState
initial_fonts = record { loaded = seeds; links = [] }

unfoldable pub href : Text → Text
href g = codes "https://fonts.googleapis.com/css2?family=" ++ (g ++ codes "&display=swap")

abbrev has : Text → List Text → Bool
has g = any (text_eq g)

-- The font that has to be fetched for a font family, if any: `option?.googleFont`.
unfoldable pub google_font_of : Text → Option Text
google_font_of family = elim (find (λ f. text_eq f.value family) font_options) [
  | none ↦ none
  | some f ↦ f.google_font
]

-- `loadedGoogleFonts.add(g)` and the appended link
abbrev fetch : FontState → Text → FontState
fetch s g = record { loaded = s.loaded ++ g ∷ []; links = s.links ++ href g ∷ [] }

-- `if (!option?.googleFont || loadedGoogleFonts.has(option.googleFont)) return;` and the rest
unfoldable pub request : FontState → Option Text → FontState
request s none = s
request s (some g) = if has g s.loaded then s else fetch s g

unfoldable pub ensure_font_loaded : FontState → Text → FontState
ensure_font_loaded s family = request s (google_font_of family)

pub ensure_all : FontState → List Text → FontState
ensure_all s [] = s
ensure_all s (family ∷ families) = ensure_all (ensure_font_loaded s family) families

-- No element stands twice.
abbrev pub Distinct : List Text → Type 0
Distinct [] = Unit
Distinct (g ∷ gs) = (has g gs ≡ false) × Distinct gs

text_eq_self : (s : Text) → text_eq s s ≡ true
text_eq_self s = (text_eq_iff s s).1 refl

text_eq_symm : (s t : Text) → text_eq s t ≡ false → text_eq t s ≡ false
text_eq_symm s t h = elim (Bool-cases (text_eq t s)) [
  | inl e ↦ let p = (text_eq_iff t s).0 e in absurd (cc (h, (text_eq_iff s t).1 (sym p)))
  | inr e ↦ e
]

has-append : (g : Text) (xs ys : List Text) → has g (xs ++ ys) ≡ (has g xs || has g ys)
has-append g [] ys = refl
has-append g (x ∷ xs) ys = ground (arith, has-append g xs ys)

Distinct-snoc :
    (g : Text) (gs : List Text) → Distinct gs → has g gs ≡ false → Distinct (gs ++ g ∷ [])
Distinct-snoc g [] _ _ = (refl, tt)
Distinct-snoc g (x ∷ gs) (h, hs) n = (
  ground (arith, has-append x gs (g ∷ []), text_eq_symm g x),
  Distinct-snoc g gs hs (ground arith),
)

map-snoc : (gs : List Text) (g : Text) → map href (gs ++ g ∷ []) ≡ map href gs ++ href g ∷ []
map-snoc [] g = refl
map-snoc (x ∷ gs) g = ap (λ r. href x ∷ r) (map-snoc gs g)

append-snoc : (xs ys : List Text) (y : Text) → xs ++ (ys ++ y ∷ []) ≡ (xs ++ ys) ++ y ∷ []
append-snoc [] ys y = refl
append-snoc (x ∷ xs) ys y = ap (λ r. x ∷ r) (append-snoc xs ys y)

-- The links are those of fonts fetched once each, none of them a font that `index.html` loads.
pub record IsFetched (s : FontState) (fonts : List Text) : Type 0 where
  pub loaded : s.loaded ≡ seeds ++ fonts
  pub links : s.links ≡ map href fonts
  pub distinct : Distinct (seeds ++ fonts)

fetch-IsFetched :
    (s : FontState) (fonts : List Text) (g : Text)
    → IsFetched s fonts
    → has g s.loaded ≡ false
    → IsFetched (fetch s g) (fonts ++ g ∷ [])
fetch-IsFetched s fonts g inv n = record {
  loaded = ap (λ r. r ++ g ∷ []) inv.loaded ∙ sym (append-snoc seeds fonts g);
  links = ap (λ r. r ++ href g ∷ []) inv.links ∙ sym (map-snoc fonts g);
  distinct =
      subst Distinct (sym (append-snoc seeds fonts g))
        (Distinct-snoc g (seeds ++ fonts) inv.distinct (ap (has g) (sym inv.loaded) ∙ n));
}

request-IsFetched :
    (s : FontState) (fonts : List Text) (o : Option Text)
    → IsFetched s fonts
    → (fonts' : List Text) × IsFetched (request s o) fonts'
unfolding request
request-IsFetched s fonts none inv = (fonts, inv)
request-IsFetched s fonts (some g) inv = elim (Bool-cases (has g s.loaded)) [
  | inl old ↦ rw old (fonts, inv)
  | inr new ↦ rw new (fonts ++ g ∷ [], fetch-IsFetched s fonts g inv new)
]

ensure_all_from :
    (families : List Text) (s : FontState) (fonts : List Text)
    → IsFetched s fonts
    → (fonts' : List Text) × IsFetched (ensure_all s families) fonts'
unfolding ensure_all ensure_font_loaded
ensure_all_from [] s fonts inv = (fonts, inv)
ensure_all_from (family ∷ families) s fonts inv =
    let (fonts', inv') = request-IsFetched s fonts (google_font_of family) inv in
    ensure_all_from families (ensure_font_loaded s family) fonts' inv'

-- Whatever font families are asked for, in whatever order and however often, the links appended to
-- the document are those of pairwise distinct fonts, none of which index.html loads already.
pub ensure_all-IsFetched :
    (families : List Text)
    → (fonts : List Text) × IsFetched (ensure_all initial_fonts families) fonts
unfolding initial_fonts
ensure_all-IsFetched families =
    ensure_all_from families initial_fonts []
      (record { loaded = refl; links = refl; distinct = (refl, (refl, tt)) })

request_again : (s : FontState) (o : Option Text) → request (request s o) o ≡ request s o
unfolding request
request_again s none = refl
request_again s (some g) = elim (Bool-cases (has g s.loaded)) [
  | inl old ↦ rw old (rw old)
  | inr new ↦
      let now : has g (s.loaded ++ g ∷ []) ≡ true =
        ground (arith, has-append g s.loaded (g ∷ []), text_eq_self g) in
      rw new (rw now)
]

-- A second call for the same font family changes nothing: no second link, and no new entry.
pub ensure_font_loaded_again :
    (s : FontState) (family : Text)
    → ensure_font_loaded (ensure_font_loaded s family) family ≡ ensure_font_loaded s family
unfolding ensure_font_loaded
ensure_font_loaded_again s family = request_again s (google_font_of family)
