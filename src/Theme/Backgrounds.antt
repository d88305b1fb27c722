-- ===== src/Theme/Backgrounds.antt =====
-- tokens.ts: `parseBackgroundImages` and `backgroundCSS`, and the `imagesKey` of BackgroundLayer.tsx
-- and PhotoAlbumWidget.tsx, by which both notice a changed list.
use mullet.Base.{
  ℕ, Text, codes, split, join, split-Lacks, split-join, Lacks, trim, trim_idempotent, trim-Lacks,
  filter, map, is_nil, not, get_elem?, or_else, All, List, [], ◌∷◌, ◌++◌, ◌≡◌, ◌≢◌, refl, sym, ap,
  ◌∙◌, if◌then◌else◌,
}
use mullet.Theme.Tokens.{Background, BackgroundType}

-- The line feed that separates the URLs.
abbrev pub line_feed : ℕ
line_feed = 10

unfoldable pub parse_background_images : Text → List Text
parse_background_images value =
    filter (λ line. not (is_nil line)) (map trim (split line_feed value))

unfoldable pub images_key : List Text → Text
images_key images = join line_feed images

unfoldable pub background_css : Background → Text
background_css background = elim background.type [
  | BackgroundType.image ↦
      codes "center/cover no-repeat url("
      ++ (or_else (get_elem? (parse_background_images background.value) 0) [] ++ codes ")")
  | _ ↦ background.value
]

-- A URL as the parser returns it.
abbrev pub IsClean : Text → Type 0
IsClean url = (url ≢ []) × Lacks line_feed url × (trim url ≡ url)

parse-IsClean_lines :
    (lines : List Text)
    → All (Lacks line_feed) lines
    → All IsClean (filter (λ line. not (is_nil line)) (map trim lines))
parse-IsClean_lines [] _ = tt
parse-IsClean_lines (line ∷ lines) (h, hs) =
    keep (trim line) _ (trim-Lacks line_feed line h) (trim_idempotent line)
      (parse-IsClean_lines lines hs)
  where
    keep :
        (url : Text) (rest : List Text)
        → Lacks line_feed url
        → trim url ≡ url
        → All IsClean rest
        → All IsClean (if not (is_nil url) then url ∷ rest else rest)
    keep [] rest l t r = r
    keep (c ∷ url) rest l t r = ((λ e. cc, l, t), r)

-- Whatever text an admin entered, each image URL is non-empty, holds no line feed and has no white
-- space around it.
pub parse_background_images-IsClean : (value : Text) → All IsClean (parse_background_images value)
unfolding parse_background_images
parse_background_images-IsClean value = parse-IsClean_lines _ (split-Lacks line_feed value)

filter-IsClean :
    (urls : List Text)
    → All IsClean urls
    → filter (λ line. not (is_nil line)) (map trim urls) ≡ urls
filter-IsClean [] _ = refl
filter-IsClean ([] ∷ urls) ((h, _, _), _) = absurd (h refl)
filter-IsClean ((c ∷ url) ∷ urls) ((_, l, t), hs) =
    rw t (ap (λ r. (c ∷ url) ∷ r) (filter-IsClean urls hs))

All-Lacks : (urls : List Text) → All IsClean urls → All (Lacks line_feed) urls
All-Lacks [] _ = tt
All-Lacks (url ∷ urls) ((_, l, _), hs) = (l, All-Lacks urls hs)

-- Joining clean URLs by line feeds and parsing the text again gives the same URLs.
pub parse-images_key :
    (urls : List Text) → All IsClean urls → parse_background_images (images_key urls) ≡ urls
unfolding parse_background_images images_key
parse-images_key [] _ = unfold split join trim in refl
parse-images_key (url ∷ urls) h =
    rw (split-join line_feed url urls (All-Lacks (url ∷ urls) h)) (filter-IsClean (url ∷ urls) h)

-- Two background texts whose image keys agree list the same images.
pub images_key_injective :
    (v w : Text)
    → images_key (parse_background_images v) ≡ images_key (parse_background_images w)
    → parse_background_images v ≡ parse_background_images w
images_key_injective v w e =
    sym (parse-images_key _ (parse_background_images-IsClean v))
    ∙ ap parse_background_images e
    ∙ parse-images_key _ (parse_background_images-IsClean w)
