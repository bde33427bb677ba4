-- ===== src/CodeUi/Status.antt =====
-- The callbacks of lib/code-ui.c: `sim_status_cb`, `sim_status_timeout_cb`, `verify_code_cb`, and the
-- end, `destroy`.
pub mod Steps
use connui_cellular.Prelude.{
  ℕ, ◌+◌, ◌-◌, String, Bool, true, false, not, ◌&&◌, ◌||◌, Option, none, some, List, [], ◌∷◌, ◌==◌,
  nat_eq, string_eq, ltb, if◌then◌else◌,
}
use connui_cellular.Sim.{
  SimStatus, unknown, no_sim, ok_pin_required, ok_puk_required, ok_puk2_required, rejected, locked,
  CodeType, pin, puk,
}
use connui_cellular.CodeUi.{
  State, sim_error, pin_error, pin_retry, ok, startup, state_is_error, Message,
  incorrect_pin_1_tries, incorrect_pin_2_tries, incorrect_pin_0_tries, incorrect_puk, Ui,
  close_dialog, pin_correct,
}

-- The four `launch_..._note`: the state, and the note.
abbrev pub launch : State → String → Ui → Ui
launch s note_type u = record u { state = s; launched = note_type ∷ u.launched }

-- A note that is shown now, or kept for later with a state.
pub note_or : State → State → String → Ui → Ui
note_or shown kept note_type u =
    if u.show_status_notes
    then launch shown note_type u
    else record u { error_note = some note_type; state = kept }

abbrev pub is_startup : State → Bool
is_startup startup = true
is_startup _ = false

-- `connui_cell_security_code_register`, `connui_cell_sim_status_close` at the end of `sim_status_cb`.
pub finish_status : Bool → Ui → Ui
finish_status registered u =
    if not (state_is_error u.state)
    then (if registered
        then record u { code_open = true; status_open = false }
        else record u { state = sim_error; status_open = false })
    else record u { status_open = false }

-- `wait_better_status`; `id` is what `g_timeout_add` returns.
pub wait_better_status : ℕ → Ui → Ui
wait_better_status id u = record u { sim_status_timeout = id; timers = u.timers + 1 }

pub drop_timeout : Ui → Ui
drop_timeout u =
    if u.sim_status_timeout == 0
    then u
    else record u { sim_status_timeout = 0; timers = u.timers - 1 }

module _ (id : ℕ) (registered : Bool) where
  -- The switch of `sim_status_cb`. The response to an open note ends its dialog.
  pub by_status : SimStatus → Ui → Ui
  unfolding note_or finish_status wait_better_status
  by_status SimStatus.ok u =
      if u.note then record u { state = ok } else finish_status registered (record u { state = ok })
  by_status rejected u = finish_status registered (note_or sim_error sim_error "sim_rejected" u)
  by_status no_sim u =
      finish_status registered
        (if is_startup u.state then u else note_or sim_error sim_error "no_sim" u)
  by_status ok_pin_required u =
      finish_status registered
        (if is_startup u.state || u.pin_verified then u else note_or pin_error pin_retry "no_pin" u)
  by_status ok_puk_required u =
      finish_status registered
        (if is_startup u.state || u.pin_verified then u else note_or pin_error pin_retry "no_pin" u)
  by_status locked u = finish_status registered (note_or sim_error sim_error "sim_locked" u)
  by_status unknown u =
      if is_startup u.state
      then wait_better_status id u
      else finish_status registered (note_or sim_error sim_error "no_sim" u)
  by_status ok_puk2_required u = wait_better_status id u

  -- `connui_cell_code_ui_sim_status_cb`
  unfoldable pub sim_status_cb : String → SimStatus → Ui → Ui
  unfolding by_status drop_timeout
  sim_status_cb modem_id status u =
      if modem_id == u.modem_id
      then by_status status (record (drop_timeout u) { sim_status = status })
      else u

-- `sim_status_timeout_cb`, run by the main loop, which drops the source.
unfoldable pub sim_status_timeout_cb : Ui → Ui
sim_status_timeout_cb u = record u {
  sim_status_timeout = 0;
  state = sim_error;
  status_open = false;
  timers = u.timers - 1;
}

-- The text for the next dialog; `left` is none if the attempts could not be read.
abbrev pub attempts_message : CodeType → Option ℕ → Option Message
attempts_message pin none = some incorrect_pin_1_tries
attempts_message pin (some n) =
    if n == 1
    then some incorrect_pin_1_tries
    else if ltb 1 n
    then some (incorrect_pin_2_tries n)
    else some incorrect_pin_0_tries
attempts_message puk none = some (incorrect_puk 1)
attempts_message puk (some n) = some (incorrect_puk n)
attempts_message ty left = none

abbrev pub kept_code : CodeType → Option String → Option String
kept_code pin code = none
kept_code puk code = none
kept_code ty code = code

-- Both callbacks are exchanged: the codes' is closed, and the status's is registered again.
abbrev pub watch_status : Bool → Ui → Ui
watch_status registered u =
    if registered
    then record u { code_open = false; status_open = true }
    else launch sim_error "no_sim" (record u { code_open = false })

-- `connui_cell_code_ui_verify_code_cb`; `registered` is what `connui_cell_sim_status_register` returns.
unfoldable pub verify_code_cb : CodeType → Bool → Option ℕ → Bool → Ui → Ui
unfolding pin_correct close_dialog
verify_code_cb ty true left registered u =
    pin_correct (if u.show_status_notes then u else record u { verified_ok = true })
verify_code_cb ty false left registered u = watch_status registered (record (close_dialog u) {
  pin_verified = true;
  sim_status = no_sim;
  code = kept_code ty u.code;
  pin_message = attempts_message ty left;
})
