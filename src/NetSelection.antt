-- ===== src/NetSelection.antt =====
-- cpa/net-selection.c: the dialog of the settings applet that lists networks and selects one.
-- lib/net.c searches and selects; an answer of it, of the inet state or of the user is an event, and a
-- call of it is recorded. GTK ignores a NULL widget but for a warning, which changes nothing here.

pub mod Session
pub mod Sound
pub mod Shown
mod Tests
use connui_cellular.Prelude.{
  ℕ, ◌+◌, ◌-◌, String, Bool, true, false, not, ◌&&◌, ◌||◌, Option, none, some, List, [], ◌∷◌, ◌++◌,
  leb, is_some, if◌then◌else◌, ◌==◌, string_eq, nat_eq,
}
use connui_cellular.Net.{Network}

-- The text of a row: a name, or the two codes.
pub data Label : Type 0 where
  named : String → Label
  codes : Option String → Option String → Label

pub record Row : Type 0 where
  pub mode_icon : String
  pub label : Label
  pub net : Network

-- The dialog with the tree view in it; `sensitive` is that of its OK button.
pub record Dialog : Type 0 where
  pub rows : List Row
  pub selected : Option Network
  pub sensitive : Bool
  pub visible : Bool

pub data Banner : Type 0 where
  searching : Banner
  connecting_to : Banner

-- What the file asks of other parts, or tells the user.
pub data Call : Type 0 where
  net_list : Call
  cancel_list : Call
  net_select : Option Network → Call
  cancel_select : Bool → Call  -- with its callback, or with NULL for all
  reset : Call
  inetstate_status : Network → Call
  inetstate_close : Call
  disconnect : Call
  information : String → Call
  no_access : Call

-- The static variables, and the calls, the latest first. `unknown_bool_1` says that the networks are
-- listed, `unknown_bool_2` that the network has to be reset.
pub record Selection : Type 0 where
  pub net_list_in_progress : Bool
  pub unknown_bool_1 : Bool
  pub unknown_bool_2 : Bool
  pub connecting : Bool
  pub selection_dialog : Option Dialog
  pub pixbuf_cache : Bool
  pub current_network : Option Network
  pub banner : Option Banner
  pub net_list_ts : ℕ
  pub calls : List Call

abbrev pub start : Selection
start = record {
  net_list_in_progress = false;
  unknown_bool_1 = false;
  unknown_bool_2 = false;
  connecting = false;
  selection_dialog = none;
  pixbuf_cache = false;
  current_network = none;
  banner = none;
  net_list_ts = 0;
  calls = [];
}

abbrev pub on_dialog : (Dialog → Dialog) → Selection → Selection
on_dialog f s = record s {
  selection_dialog = elim s.selection_dialog [ none ↦ none | some d ↦ some (f d) ];
}

abbrev pub call : Call → Selection → Selection
call c s = record s { calls = c ∷ s.calls }

abbrev pub label_of : Network → Label
label_of n = elim n.operator_name [
  | none ↦ codes n.country_code n.operator_code
  | some name ↦ named name
]

abbrev pub row_of : Network → Row
row_of n = record {
  mode_icon = if n.umts_avail == 0 then "statusarea_cell_mode_2g" else "statusarea_cell_mode_3g";
  label = label_of n;
  net = n;
}

-- The first row is selected if none is.
abbrev pub select_first : Option Network → Network → Option Network
select_first none n = some n
select_first (some m) n = some m

abbrev pub insert_row : Network → Dialog → Dialog
insert_row n d = record d {
  rows = d.rows ++ row_of n ∷ [];
  sensitive = true;
  selected = select_first d.selected n;
}

unfoldable pub insert_all : List Network → Dialog → Dialog
insert_all [] d = d
insert_all (n ∷ ns) d = insert_all ns (insert_row n d)

-- `connui_cell_net_list_cb` at a time
unfoldable pub net_list_cb : ℕ → List Network → Selection → Selection
unfolding insert_all
net_list_cb now networks s = on_dialog (insert_all networks) (record s {
  net_list_in_progress = false;
  banner = none;
  net_list_ts = now;
  unknown_bool_1 = true;
})

abbrev pub stop_list : Selection → Selection
stop_list s =
    if s.net_list_in_progress
    then record s { calls = cancel_list ∷ s.calls; net_list_in_progress = false }
    else s

-- `cellular_net_selection_destroy`
unfoldable pub destroy : Selection → Selection
destroy s = record (stop_list s) {
  unknown_bool_1 = false;
  selection_dialog = none;
  current_network = none;
  pixbuf_cache = false;
}

-- `gtk_list_store_clear`, with which the selection goes.
abbrev pub clear : Dialog → Dialog
clear d = record d { rows = []; selected = none }

-- `cellular_net_clear_cache`
unfoldable pub clear_cache : Selection → Selection
clear_cache s = on_dialog clear (record s { unknown_bool_1 = false })

-- `cellular_net_selection_reset_network`
unfoldable pub reset_network : Selection → Selection
reset_network s = if s.unknown_bool_2 then call reset s else s

-- `cellular_net_selection_hide`
abbrev pub stop_select : Selection → Selection
stop_select s =
    if s.connecting
    then record s {
      calls = cancel_select false ∷ s.calls;
      connecting = false;
      unknown_bool_2 = true;
    }
    else s

abbrev pub set_visible : Bool → Dialog → Dialog
set_visible b d = record d { visible = b }

abbrev pub set_sensitive : Bool → Dialog → Dialog
set_sensitive b d = record d { sensitive = b }

unfoldable pub hide : Selection → Selection
hide s = on_dialog (set_visible false) (record (stop_select (stop_list s)) { banner = none })

-- The end of `connui_cell_net_select_cb`
unfoldable pub select_done : Bool → Selection → Selection
unfolding hide
select_done success s =
    let s' = if success || not (is_some s.selection_dialog) then hide s else s in
    on_dialog (set_sensitive true) (record s' { connecting = false })

-- The banner with the name, which connui_cell_net_get_operator_name gives.
abbrev pub announce : Option String → Selection → Selection
announce none s = s
announce (some name) s = if is_some s.selection_dialog then call (information name) s else s

-- A refusal. `gtk_dialog_run` shows the note until an event `note_closed`, which does the rest.
abbrev pub refuse : Selection → Selection
unfolding select_done hide
refuse s =
    let t = record s { current_network = none } in
    if is_some s.selection_dialog
    then record t { unknown_bool_2 = true; calls = no_access ∷ t.calls }
    else select_done false t

-- `connui_cell_net_select_cb`
unfoldable pub select_cb : Option String → Bool → Selection → Selection
unfolding select_done hide
select_cb name success s =
    let t = record s { banner = none } in
    if not s.connecting then s else if success then select_done true (announce name t) else refuse t

-- `cellular_net_selection_select`, and with no network `cellular_net_selection_select_automatic`.
-- connui_cell_net_select stops at a g_assert; where that is compiled out it returns FALSE, since it
-- begins no call. This is the second case.
unfoldable pub select : Option Network → Selection → Selection
select net s = record s {
  connecting = false;
  calls = net_select net ∷ s.calls;
  current_network = net;
}

-- An entry of the inet state: its type, and whether it is connecting or connected.
abbrev pub blocks : Bool → Option String → Bool
blocks is_up none = false
blocks is_up (some network_type) = is_up && network_type == "GPRS"

-- `inetstate_status_cb`; the entry may be NULL, and its type too.
unfoldable pub inetstate_status_cb : Bool → Option (Option String) → Network → Selection → Selection
unfolding select
inetstate_status_cb is_up none cnet s = select (some cnet) (call inetstate_close s)
inetstate_status_cb is_up (some ty) cnet s =
    if blocks is_up ty then call disconnect s else select (some cnet) (call inetstate_close s)

-- `cellular_net_selection_select_current`
abbrev pub chosen : Option Dialog → Option Network
chosen none = none
chosen (some d) = d.selected

unfoldable pub select_current : Selection → Selection
select_current s = elim (chosen s.selection_dialog) [
  | none ↦ s
  | some n ↦
      on_dialog (set_sensitive false)
        (record s { banner = some connecting_to; calls = inetstate_status n ∷ s.calls })
]
