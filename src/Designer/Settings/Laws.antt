-- ===== src/Designer/Settings/Laws.antt =====
-- Saving the settings of a card: what it stores, and that it loses nothing that the card shows.
use mullet.Base.{
  ltb, Bool-cases, inl, inr, ℕ, Bool, true, false, Option, none, some, or_else, List, [], ◌∷◌, ◌≡◌,
  ◌≢◌, refl, if◌then◌else◌, ◌∙◌, is_some,
}
use mullet.Theme.Tokens.{PartialTokens, no_tokens}
use mullet.Plugins.Contract.{UiPlugin}
use mullet.Display.{Halign, Valign}
use mullet.Display.Card.{source_of, body_style, BodyStyle}
use mullet.Display.ShapeData.{query_ids}
use mullet.Designer.{Card}
use mullet.Designer.Server.{put_card, head_of, listed_ids, place_id, in_order}
use mullet.Designer.Settings.{
  CardForm, open_settings, settings_body, supports_multi, ids_of_one, off_center_h, off_center_v,
}

-- Sending the centre as null changes nothing of how a card is drawn.
off_center-body_style :
    (h : Halign) (v : Valign)
    → body_style (off_center_h h) (off_center_v v) ≡ body_style (some h) (some v)
unfolding body_style
off_center-body_style Halign.left Valign.top = refl
off_center-body_style Halign.left Valign.center = refl
off_center-body_style Halign.left Valign.bottom = refl
off_center-body_style Halign.center Valign.top = refl
off_center-body_style Halign.center Valign.center = refl
off_center-body_style Halign.center Valign.bottom = refl
off_center-body_style Halign.right Valign.top = refl
off_center-body_style Halign.right Valign.center = refl
off_center-body_style Halign.right Valign.bottom = refl

or_center-body_style :
    (h : Option Halign) (v : Option Valign)
    → body_style (some (or_else h Halign.center)) (some (or_else v Valign.center)) ≡ body_style h v
unfolding body_style
or_center-body_style none none = refl
or_center-body_style none (some v) = refl
or_center-body_style (some h) none = refl
or_center-body_style (some h) (some v) = refl

listed_source :
    (ids : List ℕ) (one : Option ℕ) → ids ≢ [] → query_ids (source_of (listed_ids ids) one) ≡ ids
unfolding query_ids source_of
listed_source [] one h = absurd (h refl)
listed_source (id ∷ ids) one h = refl

place_id_filled : (id : ℕ) (ids : List ℕ) → place_id id ids ≢ []
place_id_filled id [] = λ e. cc
place_id_filled id (i ∷ ids) = elim (Bool-cases (ltb i id)) [
  | inl h ↦ rw h (λ e. cc)
  | inr h ↦ rw h (λ e. cc)
]

ids_stored :
    (ids : List ℕ) → query_ids (source_of (listed_ids (in_order ids)) (head_of ids)) ≡ in_order ids
unfolding query_ids source_of
ids_stored [] = refl
ids_stored (id ∷ ids) =
    listed_source (in_order (id ∷ ids)) (some id) (place_id_filled id (in_order ids))

one_stored : (o : Option ℕ) → query_ids (source_of none o) ≡ ids_of_one o
unfolding query_ids source_of
one_stored none = refl
one_stored (some id) = refl

-- A list of sources as the server sends it: absent, or not empty and in the order of the ids.
abbrev pub IsServed : Option (List ℕ) → Type 0
IsServed none = Unit
IsServed (some ids) = (ids ≢ []) × (in_order ids ≡ ids)

pub opened_in_order :
    (ids : Option (List ℕ)) (id : Option ℕ)
    → IsServed ids
    → in_order (or_else ids (ids_of_one id)) ≡ or_else ids (ids_of_one id)
opened_in_order none none _ = refl
opened_in_order none (some id) _ = refl
opened_in_order (some ids) id (n, e) = e

asked_opened :
    (ids : Option (List ℕ)) (id : Option ℕ)
    → IsServed ids
    → or_else ids (ids_of_one id) ≡ query_ids (source_of ids id)
unfolding query_ids source_of
asked_opened none none _ = refl
asked_opened none (some id) _ = refl
asked_opened (some []) id (n, e) = absurd (n refl)
asked_opened (some (i ∷ ids)) id _ = refl

module _ {Number : Type 0} where
  -- What the server stores when the settings `f` of a card are saved.
  abbrev pub saved : Option (UiPlugin Number) → CardForm Number → Card Number → Card Number
  saved plugin f c = put_card (settings_body (supports_multi plugin) f c) c

  -- The data sources that a card asks for.
  abbrev pub asked : Card Number → List ℕ
  asked c = query_ids (source_of c.data_plugin_instance_ids c.data_plugin_instance_id)

  abbrev pub style_of : Card Number → Option BodyStyle
  style_of c = body_style c.content_halign c.content_valign

  asked_as :
      (multi : Bool) (f : CardForm Number) (c : Card Number)
      → asked (put_card (settings_body multi f c) c) ≡ (
          if multi
          then in_order f.data_plugin_instance_ids
          else asked (record c { data_plugin_instance_id = f.data_plugin_instance_id }))
  unfolding put_card settings_body
  asked_as true f c = ids_stored f.data_plugin_instance_ids
  asked_as false f c = refl

  style_as :
      (multi : Bool) (f : CardForm Number) (c : Card Number)
      → style_of (put_card (settings_body multi f c) c)
        ≡ body_style (some f.content_halign) (some f.content_valign)
  unfolding put_card settings_body
  style_as true f c = off_center-body_style f.content_halign f.content_valign
  style_as false f c = off_center-body_style f.content_halign f.content_valign

  pub resent_theme :
      (o : Option (PartialTokens Number))
      → (if is_some o then some (or_else o no_tokens) else none) ≡ o
  resent_theme none = refl
  resent_theme (some t) = refl

  -- What a card shows besides its header, and where.
  abbrev pub KeepsShown : Card Number → Card Number → Type 0
  KeepsShown c s =
      (asked s ≡ asked c)
      × (style_of s ≡ style_of c)
      × (s.theme_override ≡ c.theme_override)
      × (s.x ≡ c.x)
      × (s.y ≡ c.y)
      × (s.w ≡ c.w)
      × (s.h ≡ c.h)

  untouched_as :
      (plugin : Option (UiPlugin Number)) (multi : Bool) (c : Card Number)
      → IsServed c.data_plugin_instance_ids
      → KeepsShown c (put_card (settings_body multi (open_settings plugin c) c) c)
  unfolding put_card settings_body open_settings
  untouched_as plugin true c served = (
    ids_stored _
        ∙ opened_in_order c.data_plugin_instance_ids c.data_plugin_instance_id served
        ∙ asked_opened c.data_plugin_instance_ids c.data_plugin_instance_id served,
    style_as true (open_settings plugin c) c
        ∙ or_center-body_style c.content_halign c.content_valign,
    resent_theme c.theme_override,
    refl,
    refl,
    refl,
    refl,
  )
  untouched_as plugin false c served = (
    refl,
    style_as false (open_settings plugin c) c
        ∙ or_center-body_style c.content_halign c.content_valign,
    resent_theme c.theme_override,
    refl,
    refl,
    refl,
    refl,
  )

  -- Saving a card's settings makes the card ask for exactly the data sources that the form shows:
  -- all that are selected for a plugin that merges sources, else the one selected, or none, where
  -- the card has no list of sources. Its alignment is drawn as the form shows it.
  pub saved_shows_form :
      (plugin : Option (UiPlugin Number)) (f : CardForm Number) (c : Card Number)
      → c.data_plugin_instance_ids ≡ none
      → (asked (saved plugin f c) ≡ (
          if supports_multi plugin
          then in_order f.data_plugin_instance_ids
          else ids_of_one f.data_plugin_instance_id))
        × (style_of (saved plugin f c) ≡ body_style (some f.content_halign) (some f.content_valign))
  saved_shows_form plugin f c e = (
    asked_as (supports_multi plugin) f c ∙ by_case (supports_multi plugin),
    style_as (supports_multi plugin) f c,
  )
    where
      by_case :
          (multi : Bool)
          → (if multi
              then in_order f.data_plugin_instance_ids
              else asked (record c { data_plugin_instance_id = f.data_plugin_instance_id }))
            ≡ (if multi
                then in_order f.data_plugin_instance_ids
                else ids_of_one f.data_plugin_instance_id)
      by_case true = refl
      by_case false = rw (e) (one_stored f.data_plugin_instance_id)

  -- Saving the settings of a card as they open changes neither the sources that the card asks for,
  -- nor its alignment, its theme override, its place or its size, where the card's list of sources
  -- is one as the server sends it: absent, or not empty and in the order of the ids.
  pub save_untouched :
      (plugin : Option (UiPlugin Number)) (c : Card Number)
      → IsServed c.data_plugin_instance_ids
      → KeepsShown c (saved plugin (open_settings plugin c) c)
  save_untouched plugin c served = untouched_as plugin (supports_multi plugin) c served
