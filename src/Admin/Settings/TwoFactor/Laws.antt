-- ===== src/Admin/Settings/TwoFactor/Laws.antt =====
-- SettingsPage.tsx: `TwoFactorSection` as a state machine.
use mullet.Base.{
  Text, true, false, ◌&&◌, not, Option, none, some, List, [], is_nil, is_some, ◌≡◌, ◌≢◌, ◌↔◌, inl,
  inr, refl, Bool-cases,
}
use mullet.Admin.Settings.TwoFactor.{
  TwoFactor, TotpStatus, Step, status, enroll, disable, regenerate, EnrollReply, start_enroll,
  settle_enroll, buttons, joined, offered, codes_buttons, step_buttons, status_buttons,
}

nil_at :
    (step : Step) (backup_codes : Option (List Text)) (s : TotpStatus) (t : TwoFactor)
    → t.backup_codes ≡ backup_codes
    → (joined (codes_buttons backup_codes) (step_buttons step s t) ≡ []) ↔ (
        (step ≡ enroll)
        × (backup_codes ≡ none)
        × ((t.enroll_loaded && not (is_nil t.secret)) ≡ false))
unfolding codes_buttons step_buttons status_buttons
nil_at step (some backup_codes) s t h = (λ e. cc, λ (_, e, _). cc)
nil_at status none s t h = (λ e. absurd (offers t.backup_codes h e), λ (e, _, _). cc)
  where
    offers : (o : Option (List Text)) → o ≡ none → status_buttons o s ≢ []
    offers none _ = elim (Bool-cases s.enabled) [ inl e ↦ rw e (λ n. cc) | inr e ↦ rw e (λ n. cc) ]
    offers (some c) o = absurd (cc)
nil_at enroll none s t h = elim (Bool-cases (t.enroll_loaded && not (is_nil t.secret))) [
  | inl e ↦ rw e (λ n. cc, λ (_, _, n). cc)
  | inr e ↦ rw e (λ n. (refl, refl, refl), λ n. refl)
]
nil_at disable none s t h = (λ e. cc, λ (e, _, _). cc)
nil_at regenerate none s t h = (λ e. cc, λ (e, _, _). cc)

-- The section, once its status is loaded, offers no button exactly while the step to enrol has no
-- secret to show and no backup codes are shown.
pub buttons_nil_iff :
    (t : TwoFactor) (s : TotpStatus)
    → t.totp_status ≡ some s
    → (buttons t ≡ []) ↔ (
        (t.step ≡ enroll)
        × (t.backup_codes ≡ none)
        × ((t.enroll_loaded && not (is_nil t.secret)) ≡ false))
unfolding buttons offered
buttons_nil_iff t s h =
    rw h (nil_at t.step t.backup_codes s (record t { totp_status = some s }) refl)

-- When the server refuses the first enrolment, the section shows the error and offers no button, not
-- even one to go back.
pub enroll_dead_end :
    (t : TwoFactor) (s : TotpStatus) (m : Text)
    → t.totp_status ≡ some s
    → t.backup_codes ≡ none
    → t.secret ≡ []
    → (buttons (settle_enroll (EnrollReply.refused m) (start_enroll t)) ≡ [])
      × (is_some (settle_enroll (EnrollReply.refused m) (start_enroll t)).enroll_error ≡ true)
unfolding buttons offered codes_buttons step_buttons settle_enroll start_enroll
enroll_dead_end t s m h c e = rw (h, c, e) (refl, refl)
