-- ===== src/CodeUi.antt =====
-- lib/code-ui.c: the dialogs that ask for a SIM's codes, and the state that the status of the SIM and
-- the answers of the user take them through.
-- `Ui` is the static `_code_ui` and what the file holds outside it: the filters of the root window,
-- the idle sources, and the callbacks that it has registered with lib/sim.c.
pub mod Codes
pub mod Status
pub mod Session
pub mod Emergency
mod Tests
use connui_cellular.Prelude.{
  ℕ, ◌+◌, ◌-◌, String, Bool, true, false, Option, none, some, List, [], ◌∷◌, ltb, if◌then◌else◌,
}
use connui_cellular.Sim.{SimStatus}

-- connui_cell_code_ui_state
pub data State : Type 0 where
  idle sim_error pin_error pin_retry ok startup pin_enable new_pin sim_unlock confirm_pin : State

-- STATE_IS_ERROR
abbrev pub state_is_error : State → Bool
state_is_error sim_error = true
state_is_error pin_error = true
state_is_error _ = false

-- The texts for `pin_message`, by the name of the translation.
pub data Message : Type 0 where
  incorrect_pin_change : Message
  incorrect_pin_1_tries : Message
  incorrect_pin_2_tries : ℕ → Message
  incorrect_pin_0_tries : Message
  incorrect_puk : ℕ → Message

pub record Ui : Type 0 where
  pub modem_id : String
  pub state : State
  pub error_note : Option String
  pub dialog : Bool
  pub note : Bool
  pub pin_message : Option Message
  pub code : Option String
  pub pin_verified : Bool
  pub sim_status_timeout : ℕ
  pub get_current_pin : Bool
  pub show_status_notes : Bool
  pub sim_status : SimStatus
  pub verified_ok : Bool
  pub filters_count : ℕ  -- `code_ui_filters_count`
  pub filters : ℕ  -- the filters that the root window has
  pub timers : ℕ  -- pending sources that run `sim_status_timeout_cb`
  pub status_open : Bool  -- `connui_cell_code_ui_sim_status_cb` is registered
  pub code_open : Bool  -- `connui_cell_code_ui_code_cb` is registered
  pub launched : List String  -- the notes shown, the latest first

abbrev drop_filter : Ui → Ui
drop_filter u =
    if ltb 0 u.filters_count
    then record u { filters_count = u.filters_count - 1; filters = u.filters - 1 }
    else u

-- The end of a dialog, as `get_code`, `verify_code_cb` and `destroy` write it.
unfoldable pub close_dialog : Ui → Ui
close_dialog u = if u.dialog then drop_filter (record u { dialog = false }) else u

-- `connui_cell_code_ui_create_dialog`, on the state that outlives it; it refuses while there is a
-- dialog.
unfoldable pub create_dialog : Ui → Ui
create_dialog u =
    if u.dialog
    then u
    else if u.show_status_notes
    then record u {
      dialog = true;
      pin_message = none;
      filters_count = u.filters_count + 1;
      filters = u.filters + 1;
    }
    else record u { dialog = true; pin_message = none }

-- `connui_cell_code_ui_pin_correct`, which takes one filter away and sets the count to 0.
unfoldable pub pin_correct : Ui → Ui
pin_correct u =
    let v =
      if u.dialog
      then (if ltb 0 u.filters_count
          then record u { dialog = false; filters_count = 0; filters = u.filters - 1 }
          else record u { dialog = false })
      else u in
    record v { sim_status = SimStatus.ok; state = ok }
