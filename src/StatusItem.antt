-- ===== src/StatusItem.antt =====
-- status-menu-item/status-item.c: the icons of the modems in the status area.
-- The icons of one modem are in `StatusItem.Icons`. Drawing is the list of the icons that are put side by side; `listed` is what
-- `connui_cell_modem_get_modems` returns.
pub mod Icons
pub mod Lists
pub mod Updates
pub mod History
pub mod Shown
mod Tests
use connui_cellular.Prelude.{
  ℕ, zero, suc, String, Bool, true, false, not, ◌&&◌, ◌||◌, Option, none, some, List, [], ◌∷◌, ◌++◌,
  ◌==◌, string_eq, ltb, nat_beq, is_some, if◌then◌else◌,
}
use connui_cellular.Types.{Bearer}
use connui_cellular.StatusItem.Icons.{NetState, Modem, new_modem, refresh, is_changed}

-- `_find_modem`
pub find : String → List Modem → Option Modem
find id [] = none
find id (m ∷ ms) = let rest = find id ms in if m.id == id then some m else rest

-- `_get_modem`, which adds a modem at the end
pub ensure : String → List Modem → List Modem
unfolding find
ensure id ms = if is_some (find id ms) then ms else ms ++ new_modem id ∷ []

-- A write through the pointer that `_find_modem` returns.
pub modify : String → (Modem → Modem) → List Modem → List Modem
modify id f [] = []
modify id f (m ∷ ms) = let rest = modify id f ms in if m.id == id then f m ∷ ms else m ∷ rest

-- `g_list_remove`
pub remove : String → List Modem → List Modem
remove id [] = []
remove id (m ∷ ms) = let rest = remove id ms in if m.id == id then ms else m ∷ rest

pub data Display : Type 0 where
  on dimmed off : Display

abbrev pub Icons : Type 0
Icons = Option (String × Option String)

pub record Item : Type 0 where
  pub modems : List Modem
  pub display_state : Display
  pub offline : Bool
  pub display_was_off : Bool
  pub modems_changed : Bool
  pub drawn : List Icons  -- what the status area shows

-- One modem's part of the drawing, empty if it is not known or has no icon yet.
pub slot_of : Option Modem → Icons
slot_of none = none
slot_of (some m) = elim m.bars [ none ↦ none | some b ↦ some (b, m.mode) ]

pub draw : ℕ → List String → List Modem → List Icons
unfolding slot_of find
draw zero ids ms = []
draw (suc n) [] ms = []
draw (suc n) (id ∷ ids) ms = slot_of (find id ms) ∷ draw n ids ms

pub refresh_all : Bool → List Modem → List Modem
unfolding refresh
refresh_all offline [] = []
refresh_all offline (m ∷ ms) = refresh offline m ∷ refresh_all offline ms

pub any_changed : Bool → List Modem → Bool
unfolding is_changed
any_changed offline [] = false
any_changed offline (m ∷ ms) = is_changed offline m || any_changed offline ms

pub found_changed : Bool → Option Modem → Bool
unfolding is_changed
found_changed offline none = false
found_changed offline (some m) = is_changed offline m

abbrev pub is_off : Display → Bool
is_off off = true
is_off _ = false

pub data Event : Type 0 where
  display : Display → Event
  flightmode : Bool → Event
  removed : String → Event
  present : String → Event
  net_status : String → NetState → Event
  connmgr_status : String → Bearer → Event

pub add_all : List String → List Modem
add_all [] = []
add_all (id ∷ ids) = new_modem id ∷ add_all ids

-- The private data, zeroed, with the modems that are there at the start.
abbrev pub blank : List String → Item
unfolding add_all
blank listed = record {
  modems = add_all listed;
  display_state = on;
  offline = false;
  display_was_off = false;
  modems_changed = false;
  drawn = [];
}

module _ (listed : List String) where
  pub redraw : Bool → List Modem → Item → Item
  unfolding draw
  redraw changed ms t =
      if changed
      then record t { modems = ms; drawn = draw 2 listed ms }
      else record t { modems = ms }

  -- `update_icon` for all modems, and for one
  pub update_all : Item → Item
  unfolding redraw refresh_all any_changed
  update_all t =
      if is_off t.display_state
      then record t { display_was_off = true }
      else redraw (t.modems_changed || any_changed t.offline t.modems)
          (refresh_all t.offline t.modems) t

  pub update_one : String → Item → Item
  unfolding redraw refresh found_changed ensure modify
  update_one id t =
      let ms = ensure id t.modems in
      if is_off t.display_state
      then record t { display_was_off = true }
      else redraw (found_changed t.offline (find id ms)) (modify id (refresh t.offline) ms) t

  pub shown_again : Display → Item → Item
  unfolding update_all
  shown_again on t =
      if t.display_was_off then record (update_all t) { display_was_off = false } else t
  shown_again d t = t

  -- The callbacks: `display_cb`, `flightmode_cb`, `_modem_status_cb` for REMOVED and for any other
  -- status, `_net_status_cb` and `_connmgr_status_cb`.
  unfoldable pub step : Event → Item → Item
  unfolding update_all update_one shown_again remove
  step (display d) t = shown_again d (record t { display_state = d })
  step (flightmode offline) t = update_all (record t { offline = offline })
  step (removed id) t =
      if is_some (find id t.modems)
      then update_all (record t { modems_changed = true; modems = remove id t.modems })
      else t
  step (present id) t =
      if is_some (find id t.modems)
      then t
      else update_all (record t { modems = t.modems ++ new_modem id ∷ [] })
  step (net_status id s) t =
      update_one id
        (record t { modems = modify id (λ m. record m { state = s }) (ensure id t.modems) })
  step (connmgr_status id b) t =
      update_one id
        (record t { modems = modify id (λ m. record m { bearer = b }) (ensure id t.modems) })

  -- `connui_cellular_status_item_init`
  unfoldable pub init : Item
  unfolding update_all blank
  init = update_all (blank listed)

  unfoldable pub run : List Event → Item → Item
  unfolding step
  run [] t = t
  run (e ∷ es) t = run es (step e t)
