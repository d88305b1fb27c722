-- ===== src/Display/Slides.antt =====
-- BackgroundLayer.tsx, and the same slideshow in PhotoAlbumWidget.tsx: the images of a text, the
-- index of the active slide, and its two effects. An effect runs after a render in which what it
-- depends on has changed; `seen` is the `imagesKey` of the render before.
use mullet.Base.{
  ℕ, ◌+◌, ◌<◌, Text, text_eq, text_eq_iff, Option, some, List, [], ◌∷◌, length, get_elem?,
  get_elem?_total, ◌≡◌, ◌≢◌, refl, sym, subst, ◌∙◌, arith, leb, Bool-cases, inl, inr, if◌then◌else◌,
}
use mullet.Base.Cycles.{next}
use native.Mathlib.Nat.{mod-lt}
use mullet.Theme.Tokens.{Background, BackgroundType}
use mullet.Theme.Backgrounds.{parse_background_images, images_key, images_key_injective}

-- `background.type === 'image' ? parseBackgroundImages(background.value) : []`
unfoldable pub layer_images : Background → List Text
layer_images background = elim background.type [
  | BackgroundType.image ↦ parse_background_images background.value
  | _ ↦ []
]

-- The text that the images are read from, the key of the last render, and the index.
pub record Slideshow : Type 0 where
  pub value : Text
  pub seen : Text
  pub index : ℕ

unfoldable pub slides : Slideshow → List Text
slides s = parse_background_images s.value

-- The first render, whose effect sets the index to 0.
unfoldable pub open_slideshow : Text → Slideshow
open_slideshow value = record {
  value = value;
  seen = images_key (parse_background_images value);
  index = 0;
}

-- A render with a new value, and the effect on `imagesKey` after it.
unfoldable pub change : Slideshow → Text → Slideshow
change s value =
    let key = images_key (parse_background_images value) in
    record { value = value; seen = key; index = if text_eq s.seen key then s.index else 0 }

-- A tick of the interval, which is there for two images or more.
unfoldable pub advance : Slideshow → Slideshow
advance s =
    if leb (length (slides s)) 1 then s else record s { index = next (length (slides s)) s.index }

-- The slide with class `active`.
unfoldable pub active_slide : Slideshow → Option Text
active_slide s = get_elem? (slides s) s.index

pub data SlideEvent : Type 0 where
  tick : SlideEvent
  render : Text → SlideEvent

unfoldable pub play : Slideshow → List SlideEvent → Slideshow
play s [] = s
play s (SlideEvent.tick ∷ events) = play (advance s) events
play s (SlideEvent.render value ∷ events) = play (change s value) events

-- `seen` is the key of the images, and the index is that of a slide, if there is a slide.
pub record IsShowing (s : Slideshow) : Type 0 where
  pub key : s.seen ≡ images_key (slides s)
  pub in_range : slides s ≢ [] → s.index < length (slides s)

length_pos {ℓ} : {A : Type ℓ} (xs : List A) → xs ≢ [] → 0 < length xs
length_pos [] h = absurd (h refl)
length_pos (x ∷ xs) h = omega arith

open_slideshow-IsShowing : (value : Text) → IsShowing (open_slideshow value)
unfolding open_slideshow slides
open_slideshow-IsShowing value = record { key = refl; in_range = λ h. length_pos _ h }

advance-IsShowing : (s : Slideshow) → IsShowing s → IsShowing (advance s)
unfolding advance slides
advance-IsShowing s inv = elim (Bool-cases (leb (length (slides s)) 1)) [
  | inl few ↦ rw few inv
  | inr more ↦
      rw more
        (record { key = inv.key; in_range = λ h. mod-lt (s.index + 1) (length_pos (slides s) h) })
]

change-IsShowing : (s : Slideshow) (value : Text) → IsShowing s → IsShowing (change s value)
unfolding change slides
change-IsShowing s value inv =
    elim (Bool-cases (text_eq s.seen (images_key (parse_background_images value)))) [
      | inl same ↦
          let same_images : slides s ≡ parse_background_images value =
            images_key_injective s.value value (sym inv.key ∙ (text_eq_iff _ _).0 same) in
          rw same (record {
            key = refl;
            in_range = subst (λ xs. xs ≢ [] → s.index < length xs) same_images inv.in_range;
          })
      | inr other ↦ rw other (record { key = refl; in_range = λ h. length_pos _ h })
    ]

play-IsShowing :
    (s : Slideshow) (events : List SlideEvent) → IsShowing s → IsShowing (play s events)
unfolding play
play-IsShowing s [] inv = inv
play-IsShowing s (SlideEvent.tick ∷ events) inv =
    play-IsShowing (advance s) events (advance-IsShowing s inv)
play-IsShowing s (SlideEvent.render value ∷ events) inv =
    play-IsShowing (change s value) events (change-IsShowing s value inv)

-- Whatever edits and ticks happen, in whatever order, a slideshow with an image has an active
-- slide: the index never points beyond the list.
pub play-active :
    (value : Text) (events : List SlideEvent)
    → slides (play (open_slideshow value) events) ≢ []
    → (url : Text) × (active_slide (play (open_slideshow value) events) ≡ some url)
unfolding active_slide
play-active value events h =
    get_elem?_total _ _
      ((play-IsShowing (open_slideshow value) events (open_slideshow-IsShowing value)).in_range h)
