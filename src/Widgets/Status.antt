-- ===== src/Widgets/Status.antt =====
-- What the cards of server health, packages, media, one home entity and the current weather choose to
-- show of their rows: plugins/server-health, package-tracker, media-now-playing, home-entity and
-- weather-current. `lower` is `toLowerCase`.
use mullet.Base.{
  ℕ, suc, Text, codes, text_eq, is_nil, is_space, Bool, true, false, not, ◌&&◌, ◌||◌, any, Option,
  none, some, or_else, is_some, List, [], ◌∷◌, map, find, leb, ltb, ◌==◌, if◌then◌else◌, ◌≡◌, arith,
  Option-cases, inl, inr,
}

pub data ServerClass : Type 0 where
  good bad warn : ServerClass

unfoldable pub server_class : (Text → Text) → Text → ServerClass
server_class lower status =
    let s = lower status in
    if text_eq s (codes "up")
      || text_eq s (codes "online")
      || text_eq s (codes "healthy")
      || text_eq s (codes "running")
    then good
    else if text_eq s (codes "down")
        || text_eq s (codes "offline")
        || text_eq s (codes "error")
        || text_eq s (codes "stopped")
        || text_eq s (codes "unhealthy")
    then bad
    else warn

-- The thresholds of a bar, for a whole percentage.
unfoldable pub bar_class : ℕ → ServerClass
bar_class percent = if leb 90 percent then bad else if leb 70 percent then warn else good

pub record InfraServiceRow : Type 0 where
  pub status : Text
  pub cpu_percent : Option ℕ
  pub memory_percent : Option ℕ
  pub disk_percent : Option ℕ

-- The bars of a service: showBars is not false, the card is higher than two rows, and a value is there.
unfoldable pub shows_bars : Option Bool → ℕ → InfraServiceRow → Bool
shows_bars show_bars h svc =
    or_else show_bars true
    && ltb 2 h
    && (is_some svc.cpu_percent || is_some svc.memory_percent || is_some svc.disk_percent)

-- `STAGES`, and the index of a text in a list
abbrev pub stages : List Text
stages =
    codes "ordered"
    ∷ codes "pre_transit"
    ∷ codes "in_transit"
    ∷ codes "out_for_delivery"
    ∷ codes "delivered"
    ∷ []

abbrev next_index : Option ℕ → Option ℕ
next_index none = none
next_index (some n) = some (suc n)

abbrev index_of : List Text → Text → Option ℕ
index_of [] s = none
index_of (t ∷ more) s = if text_eq t s then some 0 else next_index (index_of more s)

-- `s.replace(/\s+/g, '_')`; the flag says that the unit before was a space.
abbrev pub underscored : Bool → Text → Text
underscored after [] = []
underscored after (c ∷ s) =
    let in_space = underscored true s in
    let in_word = underscored false s in
    if is_space c then (if after then in_space else 95 ∷ in_space) else c ∷ in_word

unfoldable pub stage_index : (Text → Text) → Text → Option ℕ
unfolding is_space
stage_index lower status = index_of stages (underscored false (lower status))

unfoldable pub is_delivered : (Text → Text) → Text → Bool
is_delivered lower status = text_eq (lower status) (codes "delivered")

-- `status.replace(/_/g, ' ')`
unfoldable pub format_status : Text → Text
format_status = map (λ c. if c == 95 then 32 else c)

pub record MediaStatusRow : Type 0 where
  pub is_playing : ℕ
  pub title : Option Text

unfoldable pub pick_player : List MediaStatusRow → Option MediaStatusRow
pick_player [] = none
pick_player (d ∷ rows) =
    some (or_else (find (λ (r : MediaStatusRow). not (r.is_playing == 0)) (d ∷ rows)) d)

-- `!player || (!player.is_playing && !player.title)`
abbrev has_title : Option Text → Bool
has_title none = false
has_title (some s) = not (is_nil s)

abbrev plays_nothing : Option MediaStatusRow → Bool
plays_nothing none = true
plays_nothing (some p) = p.is_playing == 0 && not (has_title p.title)

unfoldable pub nothing_playing : List MediaStatusRow → Bool
unfolding pick_player
nothing_playing rows = plays_nothing (pick_player rows)

-- A card of media or of the current weather that drops its details.
unfoldable pub is_compact : ℕ → ℕ → Bool
is_compact w h = leb h 2 || leb w 3

found-holds :
    (rows : List MediaStatusRow)
    → any (λ (r : MediaStatusRow). not (r.is_playing == 0)) rows ≡ true
    → plays_nothing (find (λ (r : MediaStatusRow). not (r.is_playing == 0)) rows) ≡ false
found-holds [] h = absurd (cc)
found-holds (d ∷ rows) h = ground (arith, found-holds rows)

-- Where a player plays, the card shows one that plays, not an idle one that stands before it.
pub nothing_playing_playing :
    (rows : List MediaStatusRow)
    → any (λ (r : MediaStatusRow). not (r.is_playing == 0)) rows ≡ true
    → nothing_playing rows ≡ false
unfolding nothing_playing
nothing_playing_playing [] h = absurd (cc)
nothing_playing_playing (d ∷ rows) h =
    let playing = found-holds (d ∷ rows) h in
    elim (Option-cases (find (λ (r : MediaStatusRow). not (r.is_playing == 0)) (d ∷ rows))) [
      | inl e ↦ absurd (cc (rw e at playing))
      | inr (p, e) ↦ rw e (rw e at playing)
    ]
