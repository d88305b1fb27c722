-- ===== src/Plugins/Registry/Laws.antt =====
-- The registry as a table: its ids are keys, and its sizes are ordered.
use mullet.Base.{
  ℕ, ◌≤◌, String, str_eq, eq_iff, some, or_else, find-holds, All, find-All, ◌≡◌, refl, arith,
}
use mullet.Plugins.Contract.{UiPlugin, GridSize}
use mullet.Plugins.Registry.{ui_plugins, get_ui_plugin}

abbrev pub LeSize : GridSize → GridSize → Type 0
LeSize a b = (a.w ≤ b.w) × (a.h ≤ b.h)

module _ {Number : Type 0} (number : ℕ → Number) where
  -- A plugin's sizes are ordered, and none is empty.
  pub record HasSizes (p : UiPlugin Number) : Type 0 where
    pub width : 1 ≤ p.min_size.w
    pub height : 1 ≤ p.min_size.h
    pub small : LeSize p.min_size p.default_size
    pub large : LeSize p.default_size (or_else p.max_size p.default_size)

  registered : All (λ p. get_ui_plugin number p.id ≡ some p) (ui_plugins number)
  unfolding get_ui_plugin
  registered = (
    refl,
    (
      refl,
      (
        refl,
        (
          refl,
          (
            refl,
            (
              refl,
              (
                refl,
                (
                  refl,
                  (
                    refl,
                    (
                      refl,
                      (refl, (refl, (refl, (refl, (refl, (refl, (refl, (refl, (refl, tt))))))))),
                    ),
                  ),
                ),
              ),
            ),
          ),
        ),
      ),
    ),
  )

  -- The lookup returns a plugin only under its own id, and each plugin of the list is found
  -- under its id: no two share one.
  pub get_ui_plugin_correct :
      (id : String) (p : UiPlugin Number)
      → get_ui_plugin number id ≡ some p
      → (p.id ≡ id) × All (λ q. get_ui_plugin number q.id ≡ some q) (ui_plugins number)
  get_ui_plugin_correct id p h = (
    (eq_iff p.id id).0
        (find-holds (λ q. str_eq q.id id) (ui_plugins number) p (unfold get_ui_plugin in h)),
    registered,
  )

  sizes : All HasSizes (ui_plugins number)
  sizes = omega arith

  -- Each plugin that the lookup returns has ordered sizes.
  pub get_ui_plugin-HasSizes :
      (id : String) (p : UiPlugin Number) → get_ui_plugin number id ≡ some p → HasSizes p
  unfolding get_ui_plugin
  get_ui_plugin-HasSizes id p h =
      find-All HasSizes (λ q. str_eq q.id id) (ui_plugins number) p sizes h
