-- ===== src/Designer/Settings/Again.antt =====
-- Saving the settings of a card a second time.
use mullet.Base.{
  ℕ, Text, trim, String, str_eq, eq_iff, Bool, true, false, Option, none, some, or_else, is_some,
  List, [], ◌∷◌, All, ◌≡◌, ◌≢◌, refl, sym, ap, ◌∙◌, if◌then◌else◌, trim_idempotent, Bool-cases, inl,
  inr,
}
use mullet.Theme.Json.{Json, null, bool, num, str, arr, obj, Fields, get}
use mullet.Theme.Tokens.{no_tokens}
use mullet.Plugins.Contract.{UiPlugin, ConfigField}
use mullet.Display.{Halign, Valign}
use mullet.Designer.{Card}
use mullet.Designer.Server.{put_card, head_of, listed_ids}
use mullet.Designer.Settings.{
  open_settings, settings_body, supports_multi, schema_of, initial_config, or_default, with_key,
  ids_of_one, off_center_h, off_center_v, sent_text, sent_halign,
}
use mullet.Designer.Settings.Laws.{IsServed, opened_in_order, saved, resent_theme}

resent_text : (u : Text) → trim u ≡ u → sent_text (trim (or_else (sent_text u) [])) ≡ sent_text u
unfolding trim
resent_text [] e = refl
resent_text (c ∷ u) e = ap sent_text e

resent_halign :
    (u : Text) (h : Halign)
    → trim u ≡ u
    → sent_halign (trim (or_else (sent_text u) [])) (or_else (sent_halign u h) Halign.left)
      ≡ sent_halign u h
unfolding trim
resent_halign [] h e = refl
resent_halign (c ∷ u) h e = ap (λ t. sent_halign t h) e

resent_center_h :
    (h : Halign) → off_center_h (or_else (off_center_h h) Halign.center) ≡ off_center_h h
resent_center_h Halign.left = refl
resent_center_h Halign.center = refl
resent_center_h Halign.right = refl

resent_center_v :
    (v : Valign) → off_center_v (or_else (off_center_v v) Valign.center) ≡ off_center_v v
resent_center_v Valign.top = refl
resent_center_v Valign.center = refl
resent_center_v Valign.bottom = refl

resent_ids : (ids : List ℕ) → or_else (listed_ids ids) (ids_of_one (head_of ids)) ≡ ids
resent_ids [] = refl
resent_ids (id ∷ ids) = refl

module _ {Number : Type 0} where
  abbrev pub HasDistinctKeys : List (String × ConfigField Number) → Type 0
  HasDistinctKeys [] = Unit
  HasDistinctKeys ((key, f) ∷ schema) = All (λ e. e.0 ≢ key) schema × HasDistinctKeys schema

  default_twice : (d : Option (Json Number)) → or_default (or_default none d) d ≡ or_default none d
  default_twice none = refl
  default_twice (some null) = refl
  default_twice (some (bool b)) = refl
  default_twice (some (num x)) = refl
  default_twice (some (str s)) = refl
  default_twice (some (arr vs)) = refl
  default_twice (some (obj fs)) = refl

  or_default_twice : (v d : Option (Json Number)) → or_default (or_default v d) d ≡ or_default v d
  or_default_twice none d = default_twice d
  or_default_twice (some null) d = default_twice d
  or_default_twice (some (bool b)) d = refl
  or_default_twice (some (num x)) d = refl
  or_default_twice (some (str s)) d = refl
  or_default_twice (some (arr vs)) d = refl
  or_default_twice (some (obj fs)) d = refl

  get-with_key :
      (key : String) (v : Option (Json Number)) (fs : Fields Number)
      → get key fs ≡ none
      → get key (with_key key v fs) ≡ v
  get-with_key key none fs e = e
  get-with_key key (some v) fs e = rw ((eq_iff key key).1 refl) refl

  get-with_other :
      (key other : String) (v : Option (Json Number)) (fs : Fields Number)
      → key ≢ other
      → get key (with_key other v fs) ≡ get key fs
  get-with_other key other none fs n = refl
  get-with_other key other (some v) fs n = elim (Bool-cases (str_eq other key)) [
    | inl h ↦ absurd (n (sym ((eq_iff other key).0 h)))
    | inr h ↦ rw (h) refl
  ]

  get-initial_none :
      (key : String) (schema : List (String × ConfigField Number)) (config : Fields Number)
      → All (λ e. e.0 ≢ key) schema
      → get key (initial_config schema config) ≡ none
  get-initial_none key [] config _ = refl
  get-initial_none key ((k, f) ∷ schema) config (n, ns) =
      get-with_other key k _ _ (λ e. n (sym e)) ∙ get-initial_none key schema config ns

  -- The rest of a schema reads a config that has one more key, which it lacks, the same.
  initial-with_key :
      (key : String) (v : Option (Json Number)) (fs : Fields Number)
      (schema : List (String × ConfigField Number))
      → All (λ e. e.0 ≢ key) schema
      → initial_config schema (with_key key v fs) ≡ initial_config schema fs
  initial-with_key key v fs [] _ = refl
  initial-with_key key v fs ((k, f) ∷ schema) (n, ns) =
      rw (get-with_other k key v fs n, initial-with_key key v fs schema ns) refl

  initial_config_twice :
      (schema : List (String × ConfigField Number)) (config : Fields Number)
      → HasDistinctKeys schema
      → initial_config schema (initial_config schema config) ≡ initial_config schema config
  initial_config_twice [] config _ = refl
  initial_config_twice ((k, f) ∷ schema) config (ns, d) =
      rw
        (
          get-with_key k (or_default (get k config) f.default) (initial_config schema config)
              (get-initial_none k schema config ns),
          initial-with_key k (or_default (get k config) f.default) (initial_config schema config)
              schema ns,
          initial_config_twice schema config d,
          or_default_twice (get k config) f.default,
        )
        refl

  -- The card that is stored when the settings are saved as they open.
  abbrev pub resaved : Option (UiPlugin Number) → Bool → Card Number → Card Number
  resaved plugin multi c = put_card (settings_body multi (open_settings plugin c) c) c

  resaved_twice :
      (plugin : Option (UiPlugin Number)) (multi : Bool) (c : Card Number)
      → HasDistinctKeys (schema_of plugin)
      → IsServed c.data_plugin_instance_ids
      → resaved plugin multi (resaved plugin multi c) ≡ resaved plugin multi c
  unfolding put_card settings_body open_settings
  resaved_twice plugin true c d served =
      let u = trim (or_else c.header_text []) in
      rw
        (
          initial_config_twice (schema_of plugin) c.config d,
          resent_text u (trim_idempotent (or_else c.header_text [])),
          resent_halign u (or_else c.header_halign Halign.left)
              (trim_idempotent (or_else c.header_text [])),
          resent_center_h (or_else c.content_halign Halign.center),
          resent_center_v (or_else c.content_valign Valign.center),
          resent_theme (
              if is_some c.theme_override then some (or_else c.theme_override no_tokens) else none),
          opened_in_order c.data_plugin_instance_ids c.data_plugin_instance_id served,
          resent_ids (or_else c.data_plugin_instance_ids (ids_of_one c.data_plugin_instance_id)),
          opened_in_order c.data_plugin_instance_ids c.data_plugin_instance_id served,
        )
        refl
  resaved_twice plugin false c d served =
      let u = trim (or_else c.header_text []) in
      rw
        (
          initial_config_twice (schema_of plugin) c.config d,
          resent_text u (trim_idempotent (or_else c.header_text [])),
          resent_halign u (or_else c.header_halign Halign.left)
              (trim_idempotent (or_else c.header_text [])),
          resent_center_h (or_else c.content_halign Halign.center),
          resent_center_v (or_else c.content_valign Valign.center),
          resent_theme (
              if is_some c.theme_override then some (or_else c.theme_override no_tokens) else none),
        )
        refl

  -- Saving settings untouched.
  abbrev pub untouched : Option (UiPlugin Number) → Card Number → Card Number
  untouched plugin c = saved plugin (open_settings plugin c) c

  -- Opening a card's settings again after saving them untouched, and saving them untouched once
  -- more, changes nothing, if the schema of the card's plugin names each key once and the
  -- card's list of sources is one as the server sends it.
  pub save_settles :
      (plugin : Option (UiPlugin Number)) (c : Card Number)
      → HasDistinctKeys (schema_of plugin)
      → IsServed c.data_plugin_instance_ids
      → untouched plugin (untouched plugin c) ≡ untouched plugin c
  save_settles plugin c d served = resaved_twice plugin (supports_multi plugin) c d served
