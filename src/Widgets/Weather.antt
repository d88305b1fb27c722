-- ===== src/Widgets/Weather.antt =====
-- plugins/shared/conditionIcons.tsx: which icon a condition has, and whether it is night; and the days
-- that plugins/weather-forecast/WeatherForecastWidget.tsx shows. `lower` is `toLowerCase`, and
-- `collates` says that a text stands before another by the locale.
use mullet.Base.{
  ℕ, ◌+◌, ◌*◌, ◌/◌, ◌%◌, ◌≤◌, ◌<◌, min, Text, codes, text_eq, is_nil, Bool, true, false, not, ◌||◌,
  Option, none, some, or_else, List, [], ◌∷◌, ◌++◌, take, length, ltb, leb, ◌==◌, if◌then◌else◌,
  ◌≡◌, refl, ◌∙◌, arith, zero, suc,
}
use mullet.Base.Sorts.{sort_by, length-sort_by}
use mullet.Calendar.Decimal.{decimal, pad_2, pad_2-decimal}

pub data Glyph : Type 0 where
  sun moon cloud_sun cloud_moon drizzle rain snow thunderstorm fog thermometer : Glyph

pub record ConditionIcon : Type 0 where
  pub glyph : Glyph
  pub filled : Bool

abbrev pub glyph_of : Text → Bool → Glyph
glyph_of s is_night =
    if text_eq s (codes "clear")
    then (if is_night then moon else sun)
    else if text_eq s (codes "clouds")
    then (if is_night then cloud_moon else cloud_sun)
    else if text_eq s (codes "drizzle")
    then drizzle
    else if text_eq s (codes "rain")
    then rain
    else if text_eq s (codes "snow")
    then snow
    else if text_eq s (codes "thunderstorm")
    then thunderstorm
    else if text_eq s (codes "fog")
        || text_eq s (codes "mist")
        || text_eq s (codes "haze")
        || text_eq s (codes "smoke")
    then fog
    else thermometer

-- `ConditionIcon`, for `toLowerCase`, the condition, night and `variant === 'filled'`
unfoldable pub condition_icon : (Text → Text) → Option Text → Bool → Bool → ConditionIcon
condition_icon lower condition is_night filled = record {
  glyph = glyph_of (lower (or_else condition [])) is_night;
  filled = filled;
}

-- `s < t` on texts
unfoldable pub text_ltb : Text → Text → Bool
text_ltb [] [] = false
text_ltb [] (d ∷ t) = true
text_ltb (c ∷ s) [] = false
text_ltb (c ∷ s) (d ∷ t) = let rest = text_ltb s t in if c == d then rest else ltb c d

unfoldable pub clock_text : ℕ → ℕ → Text
clock_text hours minutes = pad_2 (decimal hours) ++ (58 ∷ pad_2 (decimal minutes))

-- `isNightTime` at a time of day; `!sunrise` holds of a text that is empty.
unfoldable pub is_night_time : Option Text → Option Text → ℕ → ℕ → Bool
is_night_time none _ hours minutes = false
is_night_time (some sunrise) none hours minutes = false
is_night_time (some sunrise) (some sunset) hours minutes =
    if is_nil sunrise || is_nil sunset
    then false
    else text_ltb (clock_text hours minutes) sunrise
      || not (text_ltb (clock_text hours minutes) sunset)

clock_text-digits :
    (h m : ℕ)
    → h < 100
    → m < 100
    → clock_text h m ≡ (48 + h / 10) ∷ (48 + h % 10) ∷ 58 ∷ (48 + m / 10) ∷ (48 + m % 10) ∷ []
unfolding clock_text
clock_text-digits h m p q = rw (pad_2-decimal h p, pad_2-decimal m q) refl

text_ltb-clock_text :
    (h m i n : ℕ)
    → h < 24
    → m < 60
    → i < 24
    → n < 60
    → text_ltb (clock_text h m) (clock_text i n) ≡ ltb (h * 60 + m) (i * 60 + n)
unfolding text_ltb
text_ltb-clock_text h m i n p q r s =
    rw
      (
        clock_text-digits h m (omega arith) (omega arith),
        clock_text-digits i n (omega arith) (omega arith),
      )
      (ground arith)

-- A sunrise and a sunset that are times of day: it is night before the one and from the other on,
-- by the minutes of the day.
pub is_night_time_iff :
    (h m i n j o : ℕ)
    → h < 24
    → m < 60
    → i < 24
    → n < 60
    → j < 24
    → o < 60
    → is_night_time (some (clock_text i n)) (some (clock_text j o)) h m
      ≡ (ltb (h * 60 + m) (i * 60 + n) || not (ltb (h * 60 + m) (j * 60 + o)))
unfolding is_night_time
is_night_time_iff h m i n j o p q r s u v =
    rw (clock_text-filled i n r s, clock_text-filled j o u v)
      (rw (text_ltb-clock_text h m i n p q r s, text_ltb-clock_text h m j o p q u v) refl)
  where
    clock_text-filled : (h m : ℕ) → h < 24 → m < 60 → is_nil (clock_text h m) ≡ false
    clock_text-filled h m p q = rw (clock_text-digits h m (omega arith) (omega arith)) refl

pub record ForecastRow : Type 0 where
  pub date : Text
  pub condition : Text
  -- none stands for null; the chance is in percent.
  pub precip_chance : Option ℕ

-- `maxDaysForWidth`
unfoldable pub max_days : ℕ → ℕ
max_days w = if leb w 4 then 2 else if leb w 5 then 3 else if leb w 6 then 4 else 5

unfoldable pub forecast_days :
    (Text → Text → Bool) → Option ℕ → ℕ → List ForecastRow → List ForecastRow
unfolding max_days
forecast_days collates days w rows =
    take (min (or_else days 5) (min (max_days w) (length rows)))
      (sort_by (λ (a b : ForecastRow). collates a.date b.date) rows)

-- `d.precip_chance != null && d.precip_chance > 0`
unfoldable pub shows_precip : ForecastRow → Bool
shows_precip d = ltb 0 (or_else d.precip_chance 0)

length-take : (n : ℕ) (rows : List ForecastRow) → length (take n rows) ≡ min n (length rows)
length-take zero rows = omega arith
length-take (suc n) [] = omega arith
length-take (suc n) (x ∷ rows) = omega (arith, length-take n rows)

-- As many days are shown as there are rows, but no more than asked for (or 5), nor than fit the
-- width: from 2 to 5.
pub length-forecast_days :
    (collates : Text → Text → Bool) (days : Option ℕ) (w : ℕ) (rows : List ForecastRow)
    → (length (forecast_days collates days w rows)
        ≡ min (or_else days 5) (min (max_days w) (length rows)))
      × (2 ≤ max_days w)
      × (max_days w ≤ 5)
unfolding forecast_days
length-forecast_days collates days w rows =
    let less = λ (a b : ForecastRow). collates a.date b.date in
    (
      length-take (min (or_else days 5) (min (max_days w) (length rows))) (sort_by less rows)
          ∙ omega (arith, length-sort_by less rows),
      ground arith,
      ground arith,
    )
