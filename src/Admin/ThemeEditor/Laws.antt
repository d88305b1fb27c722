-- ===== src/Admin/ThemeEditor/Laws.antt =====
-- ThemeEditorPage.tsx and ThemeTokenFields.tsx: saving, loading, importing and uploading.
use mullet.Base.{
  Text, false, not, some, List, [], ◌∷◌, ◌++◌, filter, is_nil, trim, join, map, split, split-append,
  All, ◌≡◌, ◌≢◌, refl, ap, sym, ◌∙◌, Bool-cases, inl, inr,
}
use mullet.Theme.Tokens.{merge}
use mullet.Theme.Json.{Floats}
use mullet.Theme.Backgrounds.{parse_background_images, IsClean, images_key, parse-images_key}
use mullet.Admin.ThemeEditor.{
  Editor, StoredTheme, SaveReply, open_editor, load_theme, save_theme, sent_theme, is_blank,
  images_with,
}

filter_lines :
    (xs ys : List Text)
    → filter (λ line. not (is_nil line)) (map trim (xs ++ ys))
      ≡ filter (λ line. not (is_nil line)) (map trim xs)
        ++ filter (λ line. not (is_nil line)) (map trim ys)
filter_lines [] ys = refl
filter_lines (x ∷ xs) ys = elim (Bool-cases (is_nil (trim x))) [
  | inl h ↦ rw h (filter_lines xs ys)
  | inr h ↦ rw h (ap (λ r. trim x ∷ r) (filter_lines xs ys))
]

not_nil : (t : Text) → t ≢ [] → is_nil t ≡ false
not_nil [] h = absurd (h refl)
not_nil (c ∷ t) h = refl

clean_kept : (urls : List Text) → All IsClean urls → filter (λ v. not (is_blank v)) urls ≡ urls
clean_kept [] _ = refl
clean_kept (url ∷ urls) ((n, _, t), hs) =
    rw (t, not_nil url n) (ap (λ r. url ∷ r) (clean_kept urls hs))

append-nil : (xs : List Text) → xs ++ [] ≡ xs
append-nil [] = refl
append-nil (x ∷ xs) = ap (λ r. x ∷ r) (append-nil xs)

listed :
    (existing : Text) (urls : List Text)
    → All IsClean urls
    → parse_background_images (join 10 (existing ∷ urls)) ≡ parse_background_images existing ++ urls
unfolding join parse_background_images images_key
listed existing [] _ = sym (append-nil (parse_background_images existing))
listed existing (url ∷ urls) k =
    ap (λ r. filter (λ line. not (is_nil line)) (map trim r))
      (split-append 10 existing (images_key (url ∷ urls)))
    ∙ filter_lines (split 10 existing) (split 10 (images_key (url ∷ urls)))
    ∙ ap (λ r. parse_background_images existing ++ r) (parse-images_key (url ∷ urls) k)

-- After an upload the background lists the images that it listed before and then the new ones, if
-- its text is not blank and the URLs are clean.
pub upload_appends :
    (existing : Text) (urls : List Text)
    → trim existing ≢ []
    → All IsClean urls
    → parse_background_images (images_with existing urls) ≡ parse_background_images existing ++ urls
unfolding images_with
upload_appends existing urls h c =
    rw (not_nil (trim existing) h, clean_kept urls c) (listed existing urls c)

module _ (floats : Floats) where
  open floats use {Number}

  -- A theme with a name that is not blank is sent, and opening what was sent shows the name, the
  -- choice of the default and the tokens that were saved.
  pub save-load_theme :
      (reply : SaveReply) (e : Editor Number)
      → is_blank e.name ≡ false
      → (t : StoredTheme Number) × ((save_theme floats reply e).0 ≡ some t)
        × ((load_theme floats t (open_editor floats false)).tokens ≡ e.tokens)
        × ((load_theme floats t (open_editor floats false)).name ≡ e.name)
        × ((load_theme floats t (open_editor floats false)).is_default ≡ e.is_default)
  unfolding save_theme sent_theme load_theme open_editor merge
  save-load_theme reply e h = (sent_theme floats e, rw h refl, refl, refl, refl)
