-- ===== src/Widgets/Tasks.antt =====
-- task-list/TaskListWidget.tsx: the groups and lines that the widget shows. `format_due` stands for
-- the due date as the browser's locale writes it.
use mullet.Base.{
  ℕ, ◌==◌, leb, Bool, not, codes, Text, text_eq, is_nil, Option, none, some, or_else, List, [], ◌∷◌,
  map, filter, if◌then◌else◌, ==_iff, ◌≡◌, ◌∙◌, ap, ◌&&◌, ◌||◌, true, false, All, All-map,
  Bool-cases, inl, inr, refl,
}
use mullet.Base.Ints.{ℤ, pos}
use mullet.Widgets.Groups.{group_by, sort, IsSorted, at_rank, sort_correct}
use mullet.Widgets.Groups.Keys.{count, count-map, group_by-count, group_by-rows}

pub record TaskRow : Type 0 where
  pub id : Text
  pub task_list_id : ℕ
  pub title : Text
  pub completed : ℕ
  pub due_date : Option Text
  pub sort_order : ℤ
  pub priority : Text

pub record TaskListRow : Type 0 where
  pub id : ℕ
  pub name : Text

pub record TaskLine : Type 0 where
  pub done : Bool
  pub title : Text
  pub urgent : Bool
  pub due : Option Text

pub record TaskGroup : Type 0 where
  pub header : Text
  pub tasks : List TaskLine

unfoldable pub visible_tasks : Bool → List TaskRow → List TaskRow
visible_tasks show_completed rows =
    if show_completed then rows else filter (λ t. t.completed == 0) rows

abbrev pub id_groups : List TaskRow → List (ℕ × List TaskRow)
id_groups visible = group_by ◌==◌ (λ t. t.task_list_id) visible

-- `listByID.get(listID)`: of two lists with one id the later one counts.
abbrev pub name_of : List TaskListRow → ℕ → Option Text
name_of [] id = none
name_of (l ∷ lists) id =
    let later = name_of lists id in
    elim later [ none ↦ if l.id == id then some l.name else none | some n ↦ some n ]

module _ (format_due : Text → Text) where
  abbrev pub due_of : Bool → Option Text → Option Text
  due_of compact none = none
  due_of compact (some due) =
      if compact then none else if is_nil due then none else some (format_due due)

  abbrev pub line_of : Bool → TaskRow → TaskLine
  line_of compact t = record {
    done = not (t.completed == 0);
    title = t.title;
    urgent = text_eq t.priority (codes "high");
    due = due_of compact t.due_date;
  }

  -- The groups shown, in order; with none the widget says that there is nothing to do. `height` is
  -- the card's.
  unfoldable pub task_list : Bool → ℕ → List TaskListRow → List TaskRow → List TaskGroup
  task_list show_completed height lists rows =
      map
        (λ g. record {
          header = or_else (name_of lists g.0) (codes "Tasks");
          tasks = map (line_of (leb height 3)) (sort (λ t. t.sort_order) g.1);
        })
        (id_groups (visible_tasks show_completed rows))

abbrev pub position : TaskRow → ℤ
position t = t.sort_order

-- A task of this list that is not hidden as completed.
abbrev pub is_shown_in : Bool → ℕ → TaskRow → Bool
is_shown_in show_completed id t = (show_completed || t.completed == 0) && t.task_list_id == id

-- The tasks of a list in the order of their positions, those at one position in the order of the rows.
abbrev pub IsTasksOf : Bool → List TaskRow → ℕ × List TaskRow → Type 0
IsTasksOf show_completed rows (id, tasks) =
    IsSorted position tasks
    × ((n : ℤ)
        → filter (at_rank position n) tasks
          ≡ filter (at_rank position n) (filter (is_shown_in show_completed id) rows))

-- A group under the name of its list, or under Tasks; a low card is compact.
abbrev pub shown_group : (Text → Text) → ℕ → List TaskListRow → ℕ × List TaskRow → TaskGroup
shown_group format_due height lists (id, tasks) = record {
  header = or_else (name_of lists id) (codes "Tasks");
  tasks = map (line_of format_due (leb height 3)) tasks;
}

filter-filter :
    (p q : TaskRow → Bool) (rows : List TaskRow)
    → filter q (filter p rows) ≡ filter (λ t. p t && q t) rows
filter-filter p q [] = refl
filter-filter p q (t ∷ rows) = elim (Bool-cases (p t)) [
  | inl e ↦ rw e (ap (λ r. if q t then t ∷ r else r) (filter-filter p q rows))
  | inr e ↦ rw e (filter-filter p q rows)
]

visible_in :
    (show_completed : Bool) (id : ℕ) (rows : List TaskRow)
    → filter (λ t. t.task_list_id == id) (visible_tasks show_completed rows)
      ≡ filter (is_shown_in show_completed id) rows
unfolding visible_tasks
visible_in true id rows = refl
visible_in false id rows = filter-filter (λ t. t.completed == 0) (λ t. t.task_list_id == id) rows

All-sorted :
    (P : ℕ × List TaskRow → Type 0) (groups : List (ℕ × List TaskRow))
    → All (λ g. P (g.0, sort position g.1)) groups
    → All P (map (λ g. (g.0, sort position g.1)) groups)
All-sorted P [] _ = tt
All-sorted P (g ∷ groups) (h, hs) = (h, All-sorted P groups hs)

-- The widget shows groups of tasks, each under the name of its list or under Tasks. There is one group
-- for each list with a task to show and none for another; a task is to be shown if completed ones
-- are shown or it is not completed. A group has exactly the tasks to be shown of its list, in the
-- order of their positions, and those at one position in the order of the rows.
pub task_groups_correct :
    (format_due : Text → Text) (show_completed : Bool) (height : ℕ) (lists : List TaskListRow)
    (rows : List TaskRow)
    → (groups : List (ℕ × List TaskRow)) × (task_list format_due show_completed height lists rows
        ≡ map (shown_group format_due height lists) groups)
      × All (IsTasksOf show_completed rows) groups
      × ((id : ℕ)
          → count ◌==◌ id groups
            ≡ (if is_nil (filter (is_shown_in show_completed id) rows) then 0 else 1))
unfolding task_list
task_groups_correct format_due show_completed height lists rows =
    let visible = visible_tasks show_completed rows in
    let grouped = id_groups visible in
    (
      map (λ g. (g.0, sort position g.1)) grouped,
      map_map grouped,
      All-sorted (IsTasksOf show_completed rows) grouped
          (All-map ordered grouped (group_by-rows ◌==◌ (λ t. t.task_list_id) ==_iff visible)),
      λ id.
          count-map ◌==◌ (sort position) id grouped
          ∙ group_by-count ◌==◌ (λ t. t.task_list_id) ==_iff id visible
          ∙ ap (λ r. if is_nil r then 0 else 1) (visible_in show_completed id rows),
    )
  where
    ordered :
        (g : ℕ × List TaskRow)
        → g.1 ≡ filter (λ t. t.task_list_id == g.0) (visible_tasks show_completed rows)
        → IsTasksOf show_completed rows (g.0, sort position g.1)
    ordered g e = (
      (sort_correct position g.1 (pos 0)).0,
      λ n.
          (sort_correct position g.1 n).1
          ∙ ap (filter (at_rank position n)) (e ∙ visible_in show_completed g.0 rows),
    )

    map_map :
        (groups : List (ℕ × List TaskRow))
        → map (λ g. shown_group format_due height lists (g.0, sort position g.1)) groups
          ≡ map (shown_group format_due height lists) (map (λ g. (g.0, sort position g.1)) groups)
    map_map [] = refl
    map_map (g ∷ groups) =
        ap (λ r. shown_group format_due height lists (g.0, sort position g.1) ∷ r) (map_map groups)
