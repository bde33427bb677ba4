-- ===== src/Settings/Modems.antt =====
-- cpa/cellular-settings-modem.c: the picker of modems. `named` is whether the library knows the model and
-- the serial number of a modem, without which it is not listed; `active` is the row that is selected.
pub mod Listed
use connui_cellular.Prelude.{
  ℕ, zero, suc, ◌+◌, ◌≡◌, ◌≢◌, refl, sym, ap, subst, ◌∙◌, String, Bool, true, false, not, ◌&&◌,
  ◌||◌, Option, none, some, List, [], ◌∷◌, ◌++◌, ◌==◌, nat_eq, string_eq, eq_iff, ltb,
  if◌then◌else◌, inl, inr, arith, Bool-cases, is_some,
}
use connui_cellular.Sim.{
  SimStatus, rejected, locked, ok_pin_required, ok_puk_required, ok_puk2_required,
}

pub record Picker : Type 0 where
  pub rows : List String
  pub modem_id : Option String
  pub active_row : ℕ
  pub sensitive : Bool
  pub cancels : ℕ  -- how often the calls of the modem shown were cancelled
  pub closed : Bool

unfoldable pub length : List String → ℕ
length [] = 0
length (id ∷ ids) = suc (length ids)

unfoldable pub mem : String → List String → Bool
mem id [] = false
mem id (j ∷ js) = j == id || mem id js

-- The row of a modem, and the rows without it.
pub index_of : String → List String → ℕ
index_of id [] = 0
index_of id (j ∷ js) = let next = suc (index_of id js) in if j == id then 0 else next

pub drop_row : String → List String → List String
drop_row id [] = []
drop_row id (j ∷ js) = let rest = drop_row id js in if j == id then js else j ∷ rest

-- `_modem_selector_append_modem`
pub append_modem : Bool → String → List String → List String
append_modem named id rows = if named then rows ++ id ∷ [] else rows

-- The loop of `_modem_state_cb`, for a modem that was removed.
pub remove_row : ℕ → String → Picker → Picker
unfolding index_of drop_row mem
remove_row active id p =
    if mem id p.rows
    then (if index_of id p.rows == active
        then record p { rows = drop_row id p.rows; modem_id = none; cancels = p.cancels + 1 }
        else record p { rows = drop_row id p.rows })
    else p

-- The end of `_modem_state_cb`, and without a modem the dialog is closed.
pub set_usable : Picker → Picker
unfolding length
set_usable p = record p { sensitive = ltb 1 (length p.rows) }

pub refresh : Picker → Picker
unfolding length set_usable
refresh p = if length p.rows == 0 then record p { closed = true } else set_usable p

pub add_row : Bool → String → Picker → Picker
unfolding length mem append_modem set_usable
add_row named id p =
    if length p.rows == 0
    then record p { closed = true }
    else set_usable (if mem id p.rows then p else record p { rows = append_modem named id p.rows })

-- `_modem_state_cb`, for REMOVED and for any other status
pub modem_removed : ℕ → String → Picker → Picker
unfolding remove_row refresh
modem_removed active id p = refresh (remove_row active id p)

pub modem_present : Bool → String → Picker → Picker
unfolding add_row
modem_present named id p = add_row named id p

-- The rows at the start.
pub append_all : (String → Bool) → List String → List String → List String
unfolding append_modem
append_all named [] rows = rows
append_all named (id ∷ ids) rows = append_all named ids (append_modem (named id) id rows)

-- `_modem_widgets_create`: none if there is no modem to list
pub widgets_create : (String → Bool) → List String → Option Picker
unfolding append_all length
widgets_create named modems =
    let rows = append_all named modems [] in
    if length rows == 0
    then none
    else some (record {
      rows = rows;
      modem_id = none;
      active_row = 0;
      sensitive = false;
      cancels = 0;
      closed = false;
    })

-- What the handler of a selection does next.
pub data Effect : Type 0 where
  shows : String → Effect
  selects : ℕ → Effect

abbrev same_modem : Option String → String → Bool
same_modem none id = false
same_modem (some j) id = j == id

-- `_modem_selection_changed_cb`: the row `active` of the modem `id` is selected; `applied` is what
-- saving the settings of the modem before returns, if there is one.
pub selection_changed : Bool → ℕ → String → Picker → Option Effect × Picker
unfolding length
selection_changed applied active id p =
    let usable = ltb 1 (length p.rows) in
    if same_modem p.modem_id id
    then (none, record p { sensitive = usable })
    else if is_some p.modem_id && not applied
    then (some (selects p.active_row), record p { modem_id = some id; cancels = p.cancels + 1 })
    else (
      some (shows id),
      record p {
        active_row = active;
        modem_id = some id;
        sensitive = usable;
        cancels = p.cancels + 1;
      },
    )

-- The note of `_modem_show` for a modem whose SIM cannot be used.
pub note_type : SimStatus → String
note_type rejected = "sim_rejected"
note_type locked = "sim_locked"
note_type ok_pin_required = "no_pin"
note_type ok_puk_required = "no_pin"
note_type ok_puk2_required = "no_pin"
note_type status = "no_sim"

-- The signals of the modems.
pub data Event : Type 0 where
  removed : ℕ → String → Event
  present : Bool → String → Event

pub step : Event → Picker → Picker
unfolding modem_removed modem_present
step (removed active id) p = if p.closed then p else modem_removed active id p
step (present named id) p = if p.closed then p else modem_present named id p

-- The picker after the signals, the latest first.
pub run : Picker → List Event → Picker
unfolding step
run p [] = p
run p (e ∷ past) = step e (run p past)
