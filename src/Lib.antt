-- ===== src/Lib.antt =====
-- Verification of connui-cellular, the cellular connectivity UI library of Maemo Leste.
--
-- The library (lib/) talks to oFono's modems over D-Bus and offers its clients (the status menu, the
-- settings applet, the dialogs of conndlgs/) calls that register callbacks and change settings. Modelled
-- are parts of lib/ that keep state of their own, and six clients: the status item, the error notes,
-- the roaming dialog, the home item, the settings applet and its dialog of networks:
--
-- - ServiceCall: the table of outstanding calls of lib/service-call.c. `new_call` is the pair
--   service_call_next_id and service_call_add that every caller makes; `take`, `remove_call` and
--   `cancel_service_call` are service_call_take, service_call_remove and
--   connui_cell_cancel_service_call. A pointer to a call is its identifier.
-- - Sim: the sim_data of a modem in lib/sim.c, `parse_property` for _parse_property, `get_status` for
--   _get_status. Sim.Signals has the idle sources and the signals; Sim.Security the operations on
--   codes: verify_code, verify_required_pin, connui_cell_security_code_set_active, _set_enabled and
--   (in Sim.Security.Change) _change. Sim.Security's `Service` is oFono and the clients: either may
--   change the sim_data while it runs. A failed g_assert is `none`. Sim.Getters has what clients ask by
--   the path of a modem, over the modems of the context.
-- - CodeUi: lib/code-ui.c, the client of lib/sim.c that asks the user for codes. CodeUi.Codes has
--   connui_cell_code_ui_get_code, _code_get_new_code and _code_cb; CodeUi.Status has _sim_status_cb,
--   sim_status_timeout_cb and _verify_code_cb; CodeUi.Session _init, _update_sim_status and _destroy,
--   with the lock; CodeUi.Emergency the keypad, _dialog_input, and the emergency mode, over what
--   libcodelockui's CluiCodeDialog holds, a parameter.
-- - Datacounter: lib/datacounter.c, the counter of transferred data, and Datacounter.Clients its
--   register, close, reset and save. GConf is the parameter `GConf`.
-- - StatusItem: status-menu-item/status-item.c, the icons of the modems in the status area. `icons` is
--   _get_icons, `update_all` and `update_one` are connui_cellular_status_item_update_icon without and
--   with a modem, and `step` has the callbacks.
-- - Notifier: the notification that lib/net.c, lib/connmgr.c and lib/modem.c share, over any data. Net,
--   Connmgr and Modem are these files' data and properties as such data. Net.Search is the search for
--   networks (connui_cell_net_list and net_list_cb), Net.Operator connui_cell_net_get_operator_name,
--   and Net.CallerId the client of ServiceCall that asks telepathy for the caller's identity. Modem has
--   _parse_interfaces, with the managers on the interfaces; Modem.Getters what clients ask by path.
-- - Sups: lib/sups.c, the other client of ServiceCall, on one modem: `service_call` for
--   _sups_service_call, `do_call` for _do_call, `replied` and `cancelled` for the three callbacks with
--   a result and without, `add` and `remove` for what lib/modem.c calls.
-- - ErrorNote: conndlgs/cell-dialog-error-note.c, a client that shows notes: `show` for
--   iap_dialog_error_note_show, `respond` for the signals of its dialogs, and in ErrorNote.Status
--   _net_status_cb and _modem_status_cb.
-- - Context: connui_cell_context_get and _destroy of lib/context.c, and the functions that register and
--   close clients or make calls, as far as they decide on the context's life.
-- - Roaming: conndlgs/cell-dialog-roaming.c, `show` for iap_dialog_roaming_show and `respond` for the
--   responses of its dialogs.
-- - HomeItem: home-item/operator-name-cbs-home-item.c, the operators' names on the home screen; `run`
--   has its three callbacks.
-- - NetSelection: cpa/net-selection.c, the applet's dialog of networks: `show`, `hide`, `destroy`,
--   `select` and `select_current` are cellular_net_selection_show and so on, and `net_list_cb`,
--   `select_cb` and `inetstate_status_cb` its callbacks. `show` and the events are in
--   NetSelection.Session; the note of a refusal, which runs the main loop, ends with an event of its
--   own. connui_cell_net_select and connui_cell_reset_network stop at a g_assert in lib/net.c; here
--   they are calls that are recorded and, as where assertions are compiled out, have no effect.
-- - Settings: cpa/cellular-settings.c and -call.c, the applet's requests for a modem's settings and the
--   counter `pending`; `handle` has the callbacks of the requests, `wait` the loops that run until
--   `pending` is 0, and Settings.Apply cellular_settings_apply. Settings.Choices is -sim.c and -net.c,
--   Settings.Modems the picker of -modem.c.
-- - Errors: the error codes of include/connui-cellular.h, and in Errors.Names the table connui_errors of
--   lib/context.c. Glib: the values of D-Bus properties.
--
-- The loop of connui_cell_code_ui_code_get_new_code runs on fuel, as much as there are responses of the
-- user; each round takes at least one. Every other loop is structural recursion. Identifiers of calls
-- wrap at 2 ^ 32; the theorems on fresh identifiers need fewer than 2 ^ 32 operations, and the table
-- starts again whenever it is empty.
--
-- A loop that iterates the main context takes its events from a list, and is `none` where the list
-- ends before the loop does.
--
-- Not modelled: GTK widgets, D-Bus proxies and GLib's main loop (what they answer is a parameter, a
-- list of responses or a list of events); the titles of lib/code-ui.c and its loops that change a
-- code; lib/call.c and lib/emergency.c; the other programs in conndlgs/, the dialog of
-- cpa/data-counter.c, cpa/cellularsettings.c, which is not compiled, and wizard/. Selecting a network
-- in lib/net.c aborts at its first line, and call forwarding there returns at once.
-- home-item/smsutil.c and home-item/util.c are oFono's.
mod Prelude
pub mod Errors
pub mod Glib
pub mod ServiceCall
pub mod Sim
pub mod CodeUi
pub mod Datacounter
pub mod StatusItem
pub mod Types
pub mod Notifier
pub mod Net
pub mod Modem
pub mod Connmgr
pub mod Sups
pub mod ErrorNote
pub mod HomeItem
pub mod Settings
pub mod NetSelection
pub mod Context
pub mod Roaming
