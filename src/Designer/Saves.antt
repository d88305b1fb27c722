-- ===== src/Designer/Saves.antt =====
-- DesignerPage.tsx: `load`, and the actions that `withSaveStatus` runs. Most of them do not look at
-- whether the server accepted their request; saving the settings of a card or screen does.
use mullet.Base.{
  ℕ, Text, codes, Bool, true, false, Option, none, some, List, [], ◌∷◌, ◌++◌, find, is_nil,
  if◌then◌else◌, ◌==◌, ◌≡◌, ◌≢◌, ◌↔◌, ◌⊎◌, refl, arith, ==_iff,
}
use mullet.Designer.{Card, Screen, PluginInstance}
use mullet.Designer.SaveStatus.{Saving, saved, begin, succeed, fail}
use mullet.Admin.Displays.Screens.{load_screens}

-- How the request of an action settles: ok, not ok with the text of the answer, or an exception.
pub data Reply : Type 0 where
  ok lost : Reply
  refused : Text → Reply

-- What `load` gets, or none where one of its requests throws.
pub record Loaded (Number : Type 0) : Type 0 where
  pub screens : List (Screen Number)
  pub screen : Screen Number
  pub cards : List (Card Number)

pub record Page (Number : Type 0) : Type 0 where
  pub saving : Saving
  pub screens : List (Screen Number)
  pub screen : Option (Screen Number)
  pub cards : List (Card Number)
  pub loading : Bool
  pub selected_card_id : Option ℕ

-- `data_plugin_instance_ids` where the list is there and not empty, or else the one id.
ids_of : Option (List ℕ) → Option ℕ → List ℕ
ids_of none none = []
ids_of none (some id) = id ∷ []
ids_of (some []) none = []
ids_of (some []) (some id) = id ∷ []
ids_of (some (i ∷ ids)) o = i ∷ ids

abbrev name_of : Option PluginInstance → Text
name_of none = codes "Unknown source"
name_of (some i) = i.instance_name

-- `ids.map(…).join(', ')`, and the text for no id.
source_names : List PluginInstance → List ℕ → Text
source_names instances [] = []
source_names instances (id ∷ []) = name_of (find (λ i. i.id == id) instances)
source_names instances (id ∷ j ∷ ids) =
    name_of (find (λ i. i.id == id) instances) ++ (codes ", " ++ source_names instances (j ∷ ids))

unfoldable pub data_source_label : {Number : Type 0} → Card Number → List PluginInstance → Text
unfolding ids_of source_names
data_source_label c instances =
    let ids = ids_of c.data_plugin_instance_ids c.data_plugin_instance_id in
    if is_nil ids then codes "No data source" else source_names instances ids

==_self : (n : ℕ) → (n == n) ≡ true
==_self n = (==_iff n n).1 refl

abbrev deselect : ℕ → Option ℕ → Option ℕ
deselect id none = none
deselect id (some s) = if s == id then none else some s

module _ {Number : Type 0} where
  unfoldable pub load : Loaded Number → Page Number → Page Number
  load l p = record p {
    screens = load_screens l.screens;
    screen = some l.screen;
    cards = l.cards;
    loading = false;
  }

-- What the promise of an action settles with, and the page then.
pub data Outcome (Number : Type 0) : Type 0 where
  done threw : Page Number → Outcome Number

abbrev pub page_of : {Number : Type 0} → Outcome Number → Page Number
page_of (done p) = p
page_of (threw p) = p

-- `!res.ok`
pub data Response : Type 0 where
  accepted denied : Response

module _ {Number : Type 0} where
  -- `await apiFetch(…)`, and what follows it: only an exception ends the action here. (An answer 401
  -- also ends the session, as in Admin/Session.)
  unfoldable pub api_fetch :
      Reply → Page Number → (Response → Page Number → Outcome Number) → Outcome Number
  api_fetch ok p next = next accepted p
  api_fetch (refused m) p next = next denied p
  api_fetch lost p next = threw p

  -- `if (!res.ok) throw …`
  unfoldable pub or_throw : Response → Page Number → (Page Number → Outcome Number) → Outcome Number
  or_throw accepted p next = next p
  or_throw denied p next = threw p

  -- `await load()`
  unfoldable pub reload : Option (Loaded Number) → Page Number → Outcome Number
  reload none p = threw p
  reload (some l) p = done (load l p)

  settle_action : Outcome Number → Outcome Number
  settle_action (done p) = done (record p { saving = succeed p.saving })
  settle_action (threw p) = threw (record p { saving = fail p.saving })

  unfoldable pub with_save_status : (Page Number → Outcome Number) → Page Number → Outcome Number
  unfolding settle_action
  with_save_status action p = settle_action (action (record p { saving = begin p.saving }))

  unfoldable pub create_card : Reply → Option (Loaded Number) → Page Number → Outcome Number
  create_card reply l = with_save_status (λ p. api_fetch reply p (λ _ q. reload l q))

  -- `handleDeleteCard`, with the answer to `confirm`.
  unfoldable pub handle_delete_card :
      Bool → ℕ → Reply → Option (Loaded Number) → Page Number → Outcome Number
  handle_delete_card false id reply l p = done p
  handle_delete_card true id reply l p =
      with_save_status
        (λ q.
          api_fetch reply q
            λ _ r. reload l (record r { selected_card_id = deselect id r.selected_card_id }))
        p

  unfoldable pub handle_save_card_settings :
      Reply → Option (Loaded Number) → Page Number → Outcome Number
  handle_save_card_settings reply l = with_save_status λ p.
      api_fetch reply p
        λ res q. or_throw res q (λ r. reload l (record r { selected_card_id = none }))

  -- A new card, and a card whose deletion is confirmed, is shown as saved exactly if neither its
  -- request nor the load that follows throws, so also where the server refused it; the settings of a
  -- card are shown as saved exactly if the server accepted them and the load does not throw, and
  -- they stay open where it did not accept them.
  pub actions_saved_iff :
      (id : ℕ) (reply : Reply) (l : Option (Loaded Number)) (p : Page Number)
      → (((page_of (create_card reply l p)).saving.status ≡ saved) ↔ ((reply ≢ lost) × (l ≢ none)))
        × (((page_of (handle_delete_card true id reply l p)).saving.status ≡ saved)
            ↔ ((reply ≢ lost) × (l ≢ none)))
        × (((page_of (handle_save_card_settings reply l p)).saving.status ≡ saved)
            ↔ ((reply ≡ ok) × (l ≢ none)))
        × ((reply ≡ ok)
            ⊎ ((page_of (handle_save_card_settings reply l p)).selected_card_id
                ≡ p.selected_card_id))
  unfolding create_card handle_delete_card handle_save_card_settings with_save_status api_fetch
      or_throw reload load succeed fail
  actions_saved_iff id ok none p = ground arith
  actions_saved_iff id ok (some l) p = ground arith
  actions_saved_iff id (refused m) none p = ground arith
  actions_saved_iff id (refused m) (some l) p = ground arith
  actions_saved_iff id lost none p = ground arith
  actions_saved_iff id lost (some l) p = ground arith

  -- When the server refuses to delete the selected card, the card is still shown, it is no longer
  -- selected, and the page says that it is saved.
  pub delete_refused :
      (card : Card Number) (m : Text) (l : Loaded Number) (p : Page Number)
      → p.selected_card_id ≡ some card.id
      → ((page_of (handle_delete_card true card.id (refused m) (some l) p)).cards ≡ l.cards)
        × ((page_of (handle_delete_card true card.id (refused m) (some l) p)).selected_card_id
            ≡ none)
        × ((page_of (handle_delete_card true card.id (refused m) (some l) p)).saving.status ≡ saved)
  unfolding handle_delete_card with_save_status api_fetch reload load succeed
  delete_refused card m l p h = (refl, rw (h, ==_self card.id) refl, refl)
