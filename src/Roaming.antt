-- ===== src/Roaming.antt =====
-- conndlgs/cell-dialog-roaming.c: the dialog that asks whether data may be used while roaming, the file's
-- static variables as a record.
pub mod Answered
mod Tests
use connui_cellular.Prelude.{
  ℕ, String, Bool, true, false, not, ◌&&◌, Option, none, some, List, [], ◌∷◌, ◌==◌, string_eq,
  if◌then◌else◌,
}

-- A value of GConf.
pub data Value : Type 0 where
  unset : Value
  flag : Bool → Value
  texts : List String → Value

-- The dialog, by the handler of its response, with the IMSI that it is about.
pub data Dialog : Type 0 where
  auto : String → Dialog
  confirm : String → Dialog

pub record Roaming : Type 0 where
  pub dialog : Option Dialog
  pub done_fn : Bool  -- it is set
  pub iap_id : ℕ
  pub message : Option String  -- the sender of the request
  pub done : List (ℕ × Bool)  -- the calls of the done function, the latest first
  pub replies : List (Option String × String × Bool)  -- the signals sent: to whom, of which IMSI, enabled
  pub roam_asked : Value
  pub gprs_roam_disabled : Value

unfoldable pub mem : String → List String → Bool
mem s [] = false
mem s (t ∷ ts) = let rest = mem s ts in if s == t then true else rest

-- `_gconf_list_contains`; GConf gives no list for a value of another type.
unfoldable pub gconf_list_contains : Value → String → Bool
unfolding mem
gconf_list_contains unset s = false
gconf_list_contains (flag b) s = false
gconf_list_contains (texts l) s = mem s l

-- `roaming_send_reply`
unfoldable pub send_reply : String → Bool → Roaming → Roaming
send_reply imsi enable r = record r { replies = (r.message, imsi, enable) ∷ r.replies }

-- `roaming_dialog_close`
unfoldable pub close : Roaming → Roaming
close r =
    if r.done_fn
    then record r {
      dialog = none;
      done = (r.iap_id, false) ∷ r.done;
      iap_id = 0;
      done_fn = false;
      message = none;
    }
    else record r { dialog = none; message = none }

-- `roaming_note_response_cb`; `ok`: the response is GTK_RESPONSE_OK.
unfoldable pub note_response_cb : String → Bool → Roaming → Roaming
unfolding send_reply close
note_response_cb imsi ok r = close (send_reply imsi ok r)

-- `roaming_confirm_enable`
unfoldable pub confirm_enable : String → Roaming → Roaming
confirm_enable imsi r = record r { dialog = some (confirm imsi) }

-- `roaming_auto_dialog_response_cb`; `client`: GConf has a client.
unfoldable pub auto_response_cb : Bool → String → Bool → Roaming → Roaming
unfolding send_reply close confirm_enable
auto_response_cb client imsi ok r =
    let r' =
      (if client
        then record r { roam_asked = flag true; gprs_roam_disabled = flag (not ok) }
        else r) in
    if ok then close (send_reply imsi true r') else confirm_enable imsi r'

-- The signal of the dialog that is shown.
unfoldable pub signal : Bool → Bool → Option Dialog → Roaming → Roaming
unfolding note_response_cb auto_response_cb
signal client ok none r = r
signal client ok (some (auto imsi)) r = auto_response_cb client imsi ok r
signal client ok (some (confirm imsi)) r = note_response_cb imsi ok r

unfoldable pub respond : Bool → Bool → Roaming → Roaming
unfolding signal
respond client ok r = signal client ok r.dialog r

-- `iap_dialog_roaming_show` after the arguments were read.
unfoldable pub ask : Bool → String → Roaming → Roaming
unfolding gconf_list_contains send_reply close confirm_enable
ask client imsi r =
    if client && gconf_list_contains r.roam_asked imsi
    then (if not (gconf_list_contains r.gprs_roam_disabled imsi)
        then close (send_reply imsi true r)
        else confirm_enable imsi r)
    else record r { dialog = some (auto imsi) }

-- `iap_dialog_roaming_show`: what it returns. The IMSI is none if the message has no arguments.
unfoldable pub show : Bool → ℕ → String → Option String → Roaming → Bool × Roaming
unfolding ask
show client id sender none r = (false, r)
show client id sender (some imsi) r =
    if imsi == ""
    then (false, r)
    else (true, ask client imsi (record r { done_fn = true; iap_id = id; message = some sender }))
