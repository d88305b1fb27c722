-- ===== src/Designer/SaveStatus.antt =====
-- DesignerPage.tsx: `withSaveStatus`. Its state is the status shown, the timer that
-- `savedTimeoutRef` holds and the timers that are running. A save begins, and later succeeds or
-- fails; a timer that runs out sets the status to idle. Saves may overlap, since nothing waits.
use mullet.Base.{
  ℕ, ◌+◌, ◌-◌, true, not, Option, none, some, List, [], ◌∷◌, filter, any, All, All-filter, ◌↔◌,
  some_inj, ◌≡◌, ◌≢◌, ◌⊎◌, inl, inr, refl, sym, ap, subst, ◌∙◌, arith, ◌==◌, ==_iff,
}

pub data Status : Type 0 where
  idle saving saved error : Status

pub record Saving : Type 0 where
  pub status : Status
  pub saved_timeout : Option ℕ
  pub running : List ℕ
  pub next_timer : ℕ
  pub in_flight : ℕ

abbrev without : ℕ → List ℕ → List ℕ
without t = filter (λ r. not (r == t))

-- `if (savedTimeoutRef.current) { clearTimeout(…); … = null; }`
unfoldable pub clear : Saving → Option ℕ → Saving
clear s none = s
clear s (some t) = record s { saved_timeout = none; running = without t s.running }

unfoldable pub begin : Saving → Saving
unfolding clear
begin s =
    let cleared = clear s s.saved_timeout in
    record cleared { status = saving; in_flight = s.in_flight + 1 }

unfoldable pub succeed : Saving → Saving
succeed s = record s {
  status = saved;
  saved_timeout = some s.next_timer;
  running = s.next_timer ∷ s.running;
  next_timer = s.next_timer + 1;
  in_flight = s.in_flight - 1;
}

unfoldable pub fail : Saving → Saving
fail s = record s { status = error; in_flight = s.in_flight - 1 }

-- A running timer runs out.
unfoldable pub expire : ℕ → Saving → Saving
expire t s = record s { status = idle; running = without t s.running }

-- The first state of the page.
abbrev pub first_saving : Saving
first_saving = record {
  status = idle;
  saved_timeout = none;
  running = [];
  next_timer = 0;
  in_flight = 0;
}

-- One thing that happens while saves do not overlap: a save begins only when none is in flight.
pub data Step : Saving → Saving → Type 0 where
  begins : {s : Saving} → s.in_flight ≡ 0 → Step s (begin s)
  succeeds : {s : Saving} → s.in_flight ≡ 1 → Step s (succeed s)
  fails : {s : Saving} → s.in_flight ≡ 1 → Step s (fail s)
  expires : {s : Saving} (t : ℕ) → any (λ r. r == t) s.running ≡ true → Step s (expire t s)

pub data Reach : Saving → Type 0 where
  here : Reach first_saving
  next : {s t : Saving} → Reach s → Step s t → Reach t

-- Between saves only the timer that the page holds may run; during a save none runs.
abbrev IsResting : Saving → Type 0
IsResting s =
    (s.in_flight ≡ 0) × (s.status ≢ saving) × All (λ r. s.saved_timeout ≡ some r) s.running

abbrev IsBusy : Saving → Type 0
IsBusy s = (s.in_flight ≡ 1) × (s.status ≡ saving) × (s.running ≡ [])

none_runs : (running : List ℕ) → All (λ r. ◌≡◌ {A = Option ℕ} none (some r)) running → running ≡ []
none_runs [] _ = refl
none_runs (r ∷ running) (h, _) = absurd (cc)

without-nil :
    (t : ℕ) (running : List ℕ)
    → All (λ r. ◌≡◌ {A = Option ℕ} (some t) (some r)) running
    → without t running ≡ []
without-nil t [] _ = refl
without-nil t (r ∷ running) (h, hs) =
    rw ((==_iff r t).1 (sym (some_inj t r h))) (without-nil t running hs)

clear-nil : (s : Saving) (o : Option ℕ) → All (λ r. o ≡ some r) s.running → (clear s o).running ≡ []
unfolding clear
clear-nil s none h = none_runs s.running h
clear-nil s (some t) h = without-nil t s.running h

Step-invariant : {s t : Saving} → Step s t → IsResting s ⊎ IsBusy s → IsResting t ⊎ IsBusy t
unfolding begin succeed fail expire
Step-invariant (begins {s} z) (inl (f, n, all)) =
    inr (omega arith, refl, clear-nil s s.saved_timeout all)
Step-invariant (begins z) (inr (f, b, r)) = absurd (omega arith)
Step-invariant (succeeds o) (inl (f, n, all)) = absurd (omega arith)
Step-invariant (succeeds {s} o) (inr (f, b, r)) = inl (omega arith, (λ e. cc), rw r (refl, tt))
Step-invariant (fails o) (inl (f, n, all)) = absurd (omega arith)
Step-invariant (fails {s} o) (inr (f, b, r)) = inl (omega arith, (λ e. cc), rw r tt)
Step-invariant (expires {s} t m) (inl (f, n, all)) =
    inl (f, (λ e. cc), All-filter _ (λ r. not (r == t)) s.running all)
Step-invariant (expires {s} t m) (inr (f, b, r)) = absurd (cc (ap (any (λ q. q == t)) r))

Reach-invariant : {s : Saving} → Reach s → IsResting s ⊎ IsBusy s
Reach-invariant here = inl (refl, (λ e. cc), tt)
Reach-invariant (next r st) = Step-invariant st (Reach-invariant r)

-- While saves do not overlap, the page says that it is saving exactly while a save is in flight.
pub saving_iff_in_flight : (s : Saving) → Reach s → (s.status ≡ saving) ↔ (s.in_flight ≡ 1)
saving_iff_in_flight s r = by_case (Reach-invariant r)
  where
    by_case : IsResting s ⊎ IsBusy s → (s.status ≡ saving) ↔ (s.in_flight ≡ 1)
    by_case (inl (f, n, _)) = (λ e. absurd (n e), λ e. absurd (omega arith))
    by_case (inr (f, b, _)) = (λ _. f, λ _. b)

-- Two saves that overlap and then a third.
abbrev pub overlapped : Saving → Saving
overlapped s = begin (succeed (succeed (begin (begin s))))

still_runs :
    (n : ℕ) (running : List ℕ) → any (λ r. r == n) (without (n + 1) ((n + 1) ∷ n ∷ running)) ≡ true
still_runs n running = ground arith

succeed-begin :
    (t : Saving)
    → (any (λ r. r == t.next_timer) (begin (succeed (succeed t))).running ≡ true)
      × ((begin (succeed (succeed t))).in_flight ≡ t.in_flight - 1 - 1 + 1)
unfolding begin succeed clear
succeed-begin t = (still_runs t.next_timer t.running, refl)

begin_counts :
    (s : Saving) → ((begin s).next_timer ≡ s.next_timer) × ((begin s).in_flight ≡ s.in_flight + 1)
unfolding begin clear
begin_counts s = by_case s.saved_timeout
  where
    by_case :
        (o : Option ℕ)
        → ((clear s o).next_timer ≡ s.next_timer) × ◌≡◌ {A = ℕ} (s.in_flight + 1) (s.in_flight + 1)
    by_case none = (refl, refl)
    by_case (some t) = (refl, refl)

expire_idle :
    (n : ℕ) (s : Saving) → ((expire n s).status ≡ idle) × ((expire n s).in_flight ≡ s.in_flight)
unfolding expire
expire_idle n s = (refl, refl)

-- Where two saves overlap, the second success drops the first one's timer from the page's reach
-- without stopping it. It still runs when a third save has begun, and when it runs out the page
-- shows no status although that save is in flight.
pub overlap_hides_saving :
    (s : Saving)
    → (any (λ r. r == s.next_timer) (overlapped s).running ≡ true)
      × ((expire s.next_timer (overlapped s)).status ≡ idle)
      × ((expire s.next_timer (overlapped s)).in_flight ≡ s.in_flight + 1)
overlap_hides_saving s =
    let twice = begin (begin s) in
    (
      subst (λ m. any (λ r. r == m) (overlapped s).running ≡ true)
          ((begin_counts (begin s)).0 ∙ (begin_counts s).0) (succeed-begin twice).0,
      (expire_idle s.next_timer (overlapped s)).0,
      (expire_idle s.next_timer (overlapped s)).1
          ∙ (succeed-begin twice).1
          ∙ counted _ _ s.in_flight (begin_counts (begin s)).1 (begin_counts s).1,
    )
  where
    counted : (a b c : ℕ) → a ≡ b + 1 → b ≡ c + 1 → a - 1 - 1 + 1 ≡ c + 1
    counted a b c h k = omega arith
