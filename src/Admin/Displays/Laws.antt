-- ===== src/Admin/Displays/Laws.antt =====
-- DisplaysPage.tsx: a display that is opened in its form and saved as it is.
use mullet.Base.{
  ℕ, suc, Text, Bool, true, false, Option, none, some, [], ◌∷◌, is_nil, is_some, or_else, ◌≡◌, ◌≢◌,
  ◌↔◌, subst, refl, ap, some_inj, arith, ◌==◌, ◌∙◌, sym,
}
use mullet.Base.Ints.{pos}
use mullet.Admin.Displays.{
  Display, edit_values, display_body, put_display, sent_time, default_start, default_end,
}

not_nil : (t : Text) → t ≢ [] → is_nil t ≡ false
not_nil [] h = absurd (h refl)
not_nil (c ∷ t) h = refl

positive : (n : ℕ) → (suc n == 0) ≡ false
positive n = ground arith

sent_time-kept :
    (enabled : Bool) (d : Text) (time : Option Text)
    → d ≢ []
    → time ≢ some []
    → (sent_time enabled (or_else time d) ≡ time) ↔ (is_some time ≡ enabled)
sent_time-kept enabled [] time n h = absurd (n refl)
sent_time-kept true (c ∷ d) none n h = (λ e. cc, λ e. cc)
sent_time-kept false (c ∷ d) none n h = (λ e. refl, λ e. refl)
sent_time-kept enabled (c ∷ d) (some []) n h = absurd (h refl)
sent_time-kept true (c ∷ d) (some (b ∷ t)) n h = (λ e. refl, λ e. refl)
sent_time-kept false (c ∷ d) (some (b ∷ t)) n h = (λ e. cc, λ e. cc)

-- A time that is sent is set exactly if night mode is on, and is not the empty text.
sent_time-set :
    (enabled : Bool) (d : Text) (time : Option Text)
    → d ≢ []
    → time ≢ some []
    → (is_some (sent_time enabled (or_else time d)) ≡ enabled)
      × (sent_time enabled (or_else time d) ≢ some [])
sent_time-set enabled [] time n h = absurd (n refl)
sent_time-set true (c ∷ d) none n h = (refl, λ e. cc (some_inj (c ∷ d) [] e))
sent_time-set false d time n h = (refl, λ e. cc)
sent_time-set enabled (c ∷ d) (some []) n h = absurd (h refl)
sent_time-set true (c ∷ d) (some (b ∷ t)) n h = (refl, λ e. cc (some_inj (b ∷ t) [] e))

module _ {Number : Type 0} where
  -- The form for a display, opened and submitted.
  unfoldable pub save_display : Display Number → Option (Display Number)
  save_display d = put_display (display_body (edit_values d)) d

  -- What a display that is stored has.
  pub record IsStored (d : Display Number) : Type 0 where
    pub named : d.name ≢ []
    pub addressed : d.slug ≢ []
    pub rotation : ℕ
    pub rotates : d.rotation_seconds ≡ pos (suc rotation)
    pub start : d.night_start ≢ some []
    pub end : d.night_end ≢ some []

  sent_times : Display Number → Display Number
  sent_times d = record d {
    night_start = sent_time d.night_mode_enabled (or_else d.night_start default_start);
    night_end = sent_time d.night_mode_enabled (or_else d.night_end default_end);
  }

  saved_times : (d : Display Number) → IsStored d → save_display d ≡ some (sent_times d)
  unfolding save_display put_display display_body edit_values sent_times
  saved_times d v =
      rw (not_nil d.name v.named, not_nil d.slug v.addressed, v.rotates, positive v.rotation) refl

  -- A display with a name, an address and a rotation that is opened and saved as it is comes back the
  -- same exactly if it has the two times of the night when night mode is on and neither when it is
  -- off: saving it with night mode off erases them, and saving it with night mode on sets them.
  pub save_display_iff :
      (d : Display Number)
      → IsStored d
      → (save_display d ≡ some d) ↔ (
          (is_some d.night_start ≡ d.night_mode_enabled)
          × (is_some d.night_end ≡ d.night_mode_enabled))
  unfolding sent_times
  save_display_iff d v =
      let start =
        sent_time-kept d.night_mode_enabled default_start d.night_start (λ e. cc) v.start in
      let end = sent_time-kept d.night_mode_enabled default_end d.night_end (λ e. cc) v.end in
      (
        λ e.
            let same = some_inj (sent_times d) d (sym (saved_times d v) ∙ e) in
            (start.0 (ap (λ s. s.night_start) same), end.0 (ap (λ s. s.night_end) same)),
        λ (s, t). saved_times d v ∙ rw (start.1 s, end.1 t) refl,
      )

  -- A second save changes nothing.
  pub save_display_again :
      (d saved : Display Number)
      → IsStored d
      → save_display d ≡ some saved
      → save_display saved ≡ some saved
  unfolding sent_times
  save_display_again d saved v e =
      let same = some_inj (sent_times d) saved (sym (saved_times d v) ∙ e) in
      let (s, s') =
        sent_time-set d.night_mode_enabled default_start d.night_start (λ e. cc) v.start in
      let (t, t') = sent_time-set d.night_mode_enabled default_end d.night_end (λ e. cc) v.end in
      subst (λ r. save_display r ≡ some r) same
        ((save_display_iff (sent_times d) (record {
          named = v.named;
          addressed = v.addressed;
          rotation = v.rotation;
          rotates = v.rotates;
          start = s';
          end = t';
        })).1
          (s, t))
