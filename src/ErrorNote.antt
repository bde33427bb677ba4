-- ===== src/ErrorNote.antt =====
-- conndlgs/cell-dialog-error-note.c: the dialog of the connectivity dialogs that shows notes of the
-- cellular modems, the file's static variables as a record. ErrorNote.Status has the callbacks of the
-- modems' and the network's status.
pub mod Status
pub mod Shown
mod Tests
use connui_cellular.Prelude.{
  ℕ, ◌+◌, String, Bool, true, false, not, ◌&&◌, ◌||◌, Option, none, some, List, [], ◌∷◌, ◌++◌, ◌==◌,
  nat_eq, string_eq, if◌then◌else◌, Table, is_some,
}
use connui_cellular.Types.{RegStatus}

-- connui_cell_code_ui_error_note_type_to_text of lib/code-ui.c: the message, without its translation
-- and the name of the modem before it.
unfoldable pub note_text : String → Option String
note_text t =
    if t == "no_sim"
    then some "conn_ni_no_sim_card_in"
    else if t == "no_pin"
    then some "conn_ni_no_pin_for_sim"
    else if t == "no_network"
    then some "conn_ni_no_cell_network"
    else if t == "sim_locked"
    then some "conn_ni_sim_lock"
    else if t == "req_autoconn_confirmation_dlg"
    then some "conn_nc_use_device_psd_auto"
    else if t == "sim_rejected"
    then some "conn_ni_sim_rejected"
    else if t == "sim_reg_fail"
    then some "conn_ni_sim_reg_fail"
    else if t == "sim_select_network"
    then some "conn_ni_select_network"
    else if t == "modem_failure"
    then some "conn_ni_modem_failure"
    else if t == "modem_poweroff"
    then some "conn_ni_sim_failure"
    else if t == "home_notification"
    then some "conn_fi_phone_limit_dialog_home"
    else if t == "roaming_notification"
    then some "conn_fi_phone_limit_dialog_roaming"
    else none

-- A dialog, by what is connected to its response.
pub data Dialog : Type 0 where
  information : Dialog
  limit : Dialog
  unconnected : Dialog

-- The keys of GConf that the file reads and writes.
pub record Settings : Type 0 where
  pub home_ntfy_enable : Bool
  pub roam_ntfy_enable : Bool
  pub home_ntfy_period : String
  pub roam_ntfy_period : String
  pub home_acknowledged : Bool
  pub roaming_acknowledged : Bool
  pub auto_connect_asked : Bool
  pub auto_connect : List String

pub record Note : Type 0 where
  pub dialog : Option Dialog
  pub done_func : Bool  -- it is set
  pub done_func_dialog_id : Option ℕ  -- none is -1
  pub done : List (Option ℕ × Bool)  -- its calls, the latest first
  pub gconf : Bool  -- a client is held
  pub gconf_notify : ℕ
  pub notifies : List ℕ  -- the notifications that GConf has for the file
  pub next_notify : ℕ
  pub is_home : Bool
  pub home_pending_ack : Bool
  pub roaming_pending_ack : Bool
  pub reg_status : Table String RegStatus
  pub asked_notes : List String  -- the idle sources of `show_error_note`, the latest first
  pub settings : Settings
  pub crashed : Bool  -- `_dialog` was read while it was NULL

unfoldable pub remove_notify : ℕ → List ℕ → List ℕ
remove_notify id [] = []
remove_notify id (j ∷ js) = let rest = remove_notify id js in if j == id then rest else j ∷ rest

-- The parts of `cell_dialog_error_note_close`.
abbrev pub call_done : Bool → Note → Note
call_done process_pending n =
    if n.done_func
    then record n {
      done = (n.done_func_dialog_id, process_pending) ∷ n.done;
      done_func_dialog_id = some 0;
      done_func = false;
    }
    else n

abbrev pub drop_gconf : Note → Note
drop_gconf n =
    if n.gconf
    then record n { notifies = remove_notify n.gconf_notify n.notifies; gconf = false }
    else n

unfoldable pub close : Bool → Note → Note
unfolding remove_notify
close process_pending n = drop_gconf (call_done process_pending (record n { dialog = none }))

-- `cell_dialog_error_set_warning_acknowledged`
unfoldable pub set_warning_acknowledged : Bool → Note → Note
set_warning_acknowledged b n = record n {
  settings =
      if n.is_home
      then record n.settings { home_acknowledged = b }
      else record n.settings { roaming_acknowledged = b };
}

-- `iap_dialog_error_note_autoconnect_enabled`
unfoldable pub autoconnect_enabled : List String → Bool
autoconnect_enabled [] = false
autoconnect_enabled (s ∷ ss) = s == "GPRS" || s == "*" || autoconnect_enabled ss

-- `iap_dialog_error_note_limit_dialog`, without its widgets and counters
unfoldable pub limit_dialog : String → Note → Note
unfolding set_warning_acknowledged
limit_dialog note_type n =
    set_warning_acknowledged false
      (record n { dialog = some limit; is_home = note_type == "home_notification" })

-- `iap_dialog_error_note_psd_auto_dialog`, which puts its buttons and its handler into `_dialog`, the
-- dialog of before, and reads `_dialog->vbox`; the dialog that it makes has neither.
unfoldable pub psd_auto_dialog : Note → Note
psd_auto_dialog n =
    if is_some n.dialog then record n { dialog = some unconnected } else record n { crashed = true }

-- The end of `iap_dialog_error_note_show`, when the dialog may be shown.
unfoldable pub create_dialog : String → Note → Note
unfolding limit_dialog close autoconnect_enabled psd_auto_dialog
create_dialog note_type n =
    if (note_type == "home_notification" && not n.settings.home_ntfy_enable)
      || (note_type == "roaming_notification" && not n.settings.roam_ntfy_enable)
    then close false n
    else if note_type == "home_notification" || note_type == "roaming_notification"
    then limit_dialog note_type n
    else if note_type == "req_autoconn_confirmation_dlg"
    then (if n.settings.auto_connect_asked || autoconnect_enabled n.settings.auto_connect
        then close false n
        else psd_auto_dialog n)
    else record n { dialog = some information }

-- gconf_client_notify_add, whose handle the file keeps
unfoldable pub watch : Note → Note
watch n = record n {
  gconf_notify = n.next_notify;
  notifies = n.next_notify ∷ n.notifies;
  next_notify = n.next_notify + 1;
}

abbrev show_on : Bool → String → Note → Bool × Note
show_on true note_type n = (true, create_dialog note_type (watch (record n { gconf = true })))
show_on false note_type n = (false, n)

-- `iap_dialog_error_note_show`: what it returns. The type is none if the message has no arguments;
-- `client`: GConf has a client.
unfoldable pub show : Bool → ℕ → Option String → Note → Bool × Note
unfolding note_text create_dialog watch
show client iap_id none n = (false, n)
show client iap_id (some note_type) n =
    if not (is_some (note_text note_type))
    then (false, n)
    else if note_type == "no_network"
    then (true, n)
    else show_on (n.gconf || client) note_type
        (record n { done_func_dialog_id = some iap_id; done_func = true })

-- The user's answers.
pub data Response : Type 0 where
  ok cancel : Response  -- the dialog is answered
  disable_warning disconnect : Response  -- buttons of the limit dialog

-- `cell_dialog_error_note_disable_warning_cb`
unfoldable pub disable_warning_cb : Note → Note
unfolding set_warning_acknowledged close
disable_warning_cb n = close true (
    set_warning_acknowledged true (record n {
      settings =
          if n.is_home
          then record n.settings { home_ntfy_enable = false; home_ntfy_period = "0" }
          else record n.settings { roam_ntfy_enable = false; roam_ntfy_period = "0" };
    }))

-- `cell_dialog_error_set_auto_connect`; `garbage` is what its uninitialised list holds.
unfoldable pub set_auto_connect : List String → String → Note → Note
set_auto_connect garbage type n = record n {
  settings = record n.settings { auto_connect = garbage ++ (type ∷ []) };
}

-- The loop of `disconnect_button_clicked_cb`, over the values that were read before it.
unfoldable pub drop_auto_connect : List String → List String → Note → Note
unfolding set_auto_connect
drop_auto_connect garbage [] n = n
drop_auto_connect garbage (s ∷ ss) n = drop_auto_connect garbage ss (
    if s == "GPRS"
    then set_auto_connect garbage "" n
    else if s == "*"
    then set_auto_connect garbage "WLAN_INFRA" n
    else n)

unfoldable pub disconnect_cb : List String → Note → Note
unfolding drop_auto_connect set_warning_acknowledged
disconnect_cb garbage n =
    set_warning_acknowledged true (drop_auto_connect garbage n.settings.auto_connect n)

-- What the signals of a dialog run; the dialog of the automatic connection has no handler, since that is
-- connected to the dialog of before.
unfoldable pub run_signal : List String → Option Dialog → Response → Note → Note
unfolding close set_warning_acknowledged disable_warning_cb disconnect_cb
run_signal garbage (some information) ok n = close false n
run_signal garbage (some information) cancel n = close false n
run_signal garbage (some limit) ok n = close true (set_warning_acknowledged true n)
run_signal garbage (some limit) cancel n = close true (set_warning_acknowledged true n)
run_signal garbage (some limit) disable_warning n = disable_warning_cb n
run_signal garbage (some limit) disconnect n = disconnect_cb garbage n
run_signal garbage _ _ n = n

unfoldable pub respond : List String → Response → Note → Note
unfolding run_signal
respond garbage r n = run_signal garbage n.dialog r n
