-- ===== src/NetSelection/Session.antt =====
-- cpa/net-selection.c: showing the dialog, and what happens with it in any order.
use connui_cellular.Prelude.{
  ℕ, ◌+◌, ◌-◌, String, Bool, true, false, not, ◌||◌, Option, none, some, List, [], ◌∷◌, leb,
  if◌then◌else◌, ◌==◌, string_eq, nat_eq,
}
use connui_cellular.Net.{Network}
use connui_cellular.NetSelection.{
  Row, Dialog, searching, net_list, cancel_select, Selection, start, on_dialog, insert_all,
  net_list_cb, destroy, clear, clear_cache, reset_network, hide, set_visible, set_sensitive,
  select_done, select_cb, select, inetstate_status_cb, select_current,
}

-- `cellular_net_selection_show`, part by part
abbrev pub forget_select : Selection → Selection
forget_select s =
    if s.connecting
    then record s { connecting = false; calls = cancel_select true ∷ s.calls }
    else s

abbrev pub new_dialog : Dialog
new_dialog = record { rows = []; selected = none; sensitive = false; visible = false }

abbrev pub or_new : Option Dialog → Dialog
or_new none = new_dialog
or_new (some d) = d

abbrev pub build : Selection → Selection
build s = record s {
  selection_dialog = some (or_new s.selection_dialog);
  unknown_bool_2 = false;
  pixbuf_cache = true;
}

abbrev pub expire : ℕ → Selection → Selection
expire now s =
    if not s.unknown_bool_1
    then s
    else if leb now (20 + s.net_list_ts)
    then on_dialog (set_sensitive true) s
    else on_dialog (λ d. set_sensitive false (clear d)) (record s { unknown_bool_1 = false })

abbrev pub search : Bool → Selection → Selection
search begun s = if s.net_list_in_progress || s.unknown_bool_1 then s else record s {
  net_list_in_progress = begun;
  calls = net_list ∷ s.calls;
  banner = if begun then some searching else s.banner;
}

-- `begun` is what connui_cell_net_list returns.
unfoldable pub show : ℕ → Bool → Selection → Selection
show now begun s =
    search begun (on_dialog (set_visible true) (expire now (build (forget_select s))))

-- What happens, in any order. The user can select a row of the list.
pub data Event : Type 0 where
  shown : ℕ → Bool → Event
  hidden : Event
  destroyed : Event
  cleared : Event
  reset_asked : Event
  found : ℕ → List Network → Event
  picked : ℕ → Event
  accepted : Event
  automatic : Event
  inet_changed : Bool → Option (Option String) → Network → Event
  answered : Option String → Bool → Event
  note_closed : Event

unfoldable pub pick : ℕ → List Row → Option Network → Option Network
pick i [] old = old
pick i (r ∷ rs) old = let rest = pick (i - 1) rs old in if i == 0 then some r.net else rest

abbrev pub pick_row : ℕ → Dialog → Dialog
unfolding pick
pick_row i d = record d { selected = pick i d.rows d.selected }

unfoldable pub step : Event → Selection → Selection
unfolding show hide destroy clear_cache reset_network net_list_cb select_current select
    inetstate_status_cb select_cb select_done pick insert_all
step (shown now begun) s = show now begun s
step hidden s = hide s
step destroyed s = destroy s
step cleared s = clear_cache s
step reset_asked s = reset_network s
step (found now ns) s = net_list_cb now ns s
step (picked i) s = on_dialog (pick_row i) s
step accepted s = select_current s
step automatic s = select none s
step (inet_changed is_up ty n) s = inetstate_status_cb is_up ty n s
step (answered name success) s = select_cb name success s
step note_closed s = select_done false s

-- The events, the latest first.
unfoldable pub run : List Event → Selection
unfolding step
run [] = start
run (e ∷ past) = step e (run past)
