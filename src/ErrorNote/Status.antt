-- ===== src/ErrorNote/Status.antt =====
-- conndlgs/cell-dialog-error-note.c: the callbacks of the modems' and the network's status.
pub mod Tracked
use connui_cellular.Prelude.{
  ℕ, String, Bool, true, false, not, ◌&&◌, ◌||◌, Option, none, some, List, [], ◌∷◌, ◌==◌, string_eq,
  if◌then◌else◌, Table, lookup, remove, insert, is_some,
}
use connui_cellular.Types.{RegStatus, unknown, unregistered, home, searching, denied, roaming}
use connui_cellular.Modem.{ModemStatus, removed}
use connui_cellular.ErrorNote.{Dialog, information, Note, close}

-- `check_pending_acks`: whether the warnings were acknowledged is read once.
unfoldable pub check_pending_acks : Note → Note
check_pending_acks n = record n {
  home_pending_ack = not n.settings.home_acknowledged || n.home_pending_ack;
  roaming_pending_ack = not n.settings.roaming_acknowledged || n.roaming_pending_ack;
}

abbrev is_removed : ModemStatus → Bool
is_removed removed = true
is_removed _ = false

-- `_modem_status_cb`, without the note when no modem is left
unfoldable pub modem_status_cb : String → ModemStatus → Note → Note
unfolding lookup remove insert
modem_status_cb id status n =
    if is_removed status
    then record n { reg_status = remove id n.reg_status }
    else if is_some (lookup id n.reg_status)
    then n
    else record n { reg_status = insert id unknown n.reg_status }

abbrev pub searching_or_connected : RegStatus → Bool
searching_or_connected home = true
searching_or_connected searching = true
searching_or_connected roaming = true
searching_or_connected _ = false

abbrev pub is_roaming : RegStatus → Bool
is_roaming roaming = true
is_roaming _ = false

abbrev pub is_at_home : RegStatus → Bool
is_at_home home = true
is_at_home _ = false

-- The pending warnings at the beginning of `_net_status_cb`.
unfoldable pub ack : RegStatus → Note → Note
ack new n =
    if n.roaming_pending_ack && is_roaming new
    then record n {
      roaming_pending_ack = false;
      asked_notes = "roaming_notification" ∷ n.asked_notes;
    }
    else if n.home_pending_ack && is_at_home new
    then record n { home_pending_ack = false; asked_notes = "home_notification" ∷ n.asked_notes }
    else n

abbrev is_denied : RegStatus → Bool
is_denied denied = true
is_denied _ = false

-- iap_dialog_request_dialog's answer: a number, or none for -1; with a number it sets `done_func`.
unfoldable pub request_note : Option ℕ → Note → Note
request_note none n = record n { done_func_dialog_id = none }
request_note (some id) n = record n {
  done_func_dialog_id = some id;
  done_func = true;
  dialog = some information;
}

-- What the change of a registration shows or closes; `manual`: the network is selected by hand.
unfoldable pub net_note : Bool → Option ℕ → RegStatus → RegStatus → Note → Note
unfolding request_note close
net_note manual answer old new n =
    if is_denied new
    then request_note answer n
    else if searching_or_connected new
    then (if not (searching_or_connected old) && is_some n.dialog then close true n else n)
    else if searching_or_connected old && manual
    then request_note answer n
    else n

abbrev pub same_status : RegStatus → RegStatus → Bool
same_status unknown unknown = true
same_status unregistered unregistered = true
same_status home home = true
same_status searching searching = true
same_status denied denied = true
same_status roaming roaming = true
same_status _ _ = false

-- The rest of `_net_status_cb`, for a modem that is known.
abbrev pub known_status : Bool → Option ℕ → String → RegStatus → Option RegStatus → Note → Note
known_status manual answer id new none n = n
known_status manual answer id new (some old) n =
    let n' = net_note manual answer old new n in
    if same_status old new then n' else record n' { reg_status = insert id new n'.reg_status }

-- `_net_status_cb`
unfoldable pub net_status_cb : Bool → Option ℕ → String → RegStatus → Note → Note
unfolding ack net_note lookup insert
net_status_cb manual answer id new n =
    let n' = ack new n in known_status manual answer id new (lookup id n'.reg_status) n'
