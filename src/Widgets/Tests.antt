-- ===== src/Widgets/Tests.antt =====
-- The widgets' functions at concrete inputs.
use mullet.Base.{
  ℕ, ◌+◌, ◌*◌, ◌||◌, not, ltb, ◌==◌, true, false, codes, Text, none, List, [], ◌∷◌, filter, length,
  ◌≡◌, ◌<◌, refl, map, All, is_nil, some, arith, Option, join, if◌then◌else◌,
}
use mullet.Base.Ints.{pos, ℤ}
use mullet.Theme.Tokens.{default_theme}
use mullet.Widgets.Groups.{group_by, sort}
use mullet.Widgets.Hashes.{
  two_32, to_int32, times_31_plus, hash_from, unsigned_from, palette, color_for_id,
}
use mullet.Widgets.Quotes.{Quote, quotes, day_key, quote_for_day}
use mullet.Widgets.Status.{stage_index, bar_class, ServerClass, nothing_playing}
use mullet.Widgets.Weather.{Glyph, condition_icon, is_night_time, clock_text, is_night_time_iff}
use mullet.Widgets.Style.{card_style}
use mullet.Widgets.Groups.Keys.{count}
use mullet.Widgets.Tasks.{
  TaskRow, TaskListRow, visible_tasks, task_list, shown_group, is_shown_in, IsTasksOf,
  task_groups_correct,
}
use mullet.Widgets.Home.{HomeDeviceRow, StatusClass, status_class, home_status}

abbrev task : Text → ℕ → ℕ → ℤ → TaskRow
task title list completed order = record {
  id = title;
  task_list_id = list;
  title = title;
  completed = completed;
  due_date = none;
  sort_order = order;
  priority = codes "normal";
}

abbrev tasks : List TaskRow
tasks =
    task (codes "b") 1 0 (pos 2)
    ∷ task (codes "c") 2 0 (pos 1)
    ∷ task (codes "a") 1 0 (pos 1)
    ∷ task (codes "d") 1 1 (pos 0)
    ∷ []

shows_in_order :
    task_list (λ t. t) false 6 (record { id = 2; name = codes "Shop" } ∷ []) tasks
    ≡ record {
      header = codes "Tasks";
      tasks =
          record { done = false; title = codes "a"; urgent = false; due = none }
          ∷ record { done = false; title = codes "b"; urgent = false; due = none }
          ∷ [];
    }
      ∷ record {
        header = codes "Shop";
        tasks = record { done = false; title = codes "c"; urgent = false; due = none } ∷ [];
      }
      ∷ []
unfolding task_list visible_tasks group_by sort
shows_in_order = refl

abbrev shop : List TaskListRow
shop = record { id = 2; name = codes "Shop" } ∷ []

task_groups_correct_example :
    (groups : List (ℕ × List TaskRow)) × (task_list (λ t. t) false 6 shop tasks
      ≡ map (shown_group (λ t. t) 6 shop) groups)
    × All (IsTasksOf false tasks) groups
    × ((id : ℕ)
        → count ◌==◌ id groups ≡ (if is_nil (filter (is_shown_in false id) tasks) then 0 else 1))
task_groups_correct_example = task_groups_correct (λ t. t) false 6 shop tasks

abbrev lock : HomeDeviceRow
lock = record {
  id = codes "1";
  name = codes "Front door";
  area = none;
  device_type = codes "lock";
  state = codes "unlocked";
  icon = none;
}

warns_unlocked : status_class (λ t. t) (codes "lock") (codes "unlocked") ≡ StatusClass.bad
unfolding status_class
warns_unlocked = refl

shows_other : length (home_status (λ t. t) true 4 (lock ∷ lock ∷ [])) ≡ length (lock ∷ [])
unfolding home_status group_by
shows_other = refl

keeps_blur : (card_style {Number = ℕ} (default_theme 1)).card_blur ≡ codes "16px"
unfolding card_style
keeps_blur = refl

small_hash : 7 < two_32
small_hash = omega arith

-- A long text whose hash is negative.
colors : color_for_id (codes "calendar-of-the-kitchen") ≡ some (codes "#9E9D24")
unfolding color_for_id palette hash_from to_int32 times_31_plus
colors = refl

-- The decimal text of the three numbers of 25 November 2026.
abbrev decimal : ℕ → Text
decimal n = if n == 2026 then codes "2026" else if n == 10 then codes "10" else codes "25"

abbrev author_of : Option Quote → Text
author_of none = []
author_of (some q) = q.author

quote_of_november : author_of (quote_for_day decimal 2026 10 25) ≡ codes "Leonardo da Vinci"
unfolding quote_for_day quotes day_key unsigned_from join
quote_of_november = refl

is_night_time_iff_example :
    is_night_time (some (clock_text 6 45)) (some (clock_text 17 30)) 17 30
    ≡ (ltb (17 * 60 + 30) (6 * 60 + 45) || not (ltb (17 * 60 + 30) (17 * 60 + 30)))
is_night_time_iff_example =
    is_night_time_iff 17 30 6 45 17 30 (omega arith) (omega arith) (omega arith) (omega arith)
      (omega arith) (omega arith)

abbrev same_text : Text → Text
same_text s = s

cloudy_night :
    condition_icon same_text (some (codes "clouds")) true false
    ≡ record { glyph = Glyph.cloud_moon; filled = false }
unfolding condition_icon
cloudy_night = refl

out_for_delivery : stage_index same_text (codes "out for  delivery") ≡ some 3
unfolding stage_index
out_for_delivery = refl

busy : bar_class 70 ≡ ServerClass.warn
unfolding bar_class
busy = refl

one_plays :
    nothing_playing
      (record { is_playing = 0; title = none } ∷ record { is_playing = 1; title = none } ∷ [])
    ≡ false
unfolding nothing_playing
one_plays = refl
