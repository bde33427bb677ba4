-- ===== src/ErrorNote/Tests.antt =====
-- The theorems on notes at concrete inputs.
use connui_cellular.Prelude.{◌≡◌, refl, true, false, none, some, List, [], ◌∷◌}
use connui_cellular.Types.{roaming, searching, denied}
use connui_cellular.Modem.{removed, online_on}
use connui_cellular.ErrorNote.{
  Note, Settings, show, note_text, respond, ok, create_dialog, watch, run_signal,
}
use connui_cellular.ErrorNote.Status.{check_pending_acks, net_status_cb}
use connui_cellular.ErrorNote.Status.Tracked.{Event, modem, net, run, IsFollowed, run-IsFollowed}
use connui_cellular.ErrorNote.Shown.{IsClosed, IsShown, show-IsShown}

abbrev settings : Settings
settings = record {
  home_ntfy_enable = true;
  roam_ntfy_enable = true;
  home_ntfy_period = "0";
  roam_ntfy_period = "0";
  home_acknowledged = true;
  roaming_acknowledged = false;
  auto_connect_asked = false;
  auto_connect = [];
}

abbrev no_note : Note
no_note = record {
  dialog = none;
  done_func = false;
  done_func_dialog_id = some 0;
  done = [];
  gconf = false;
  gconf_notify = 0;
  notifies = [];
  next_notify = 1;
  is_home = false;
  home_pending_ack = false;
  roaming_pending_ack = true;
  reg_status = [];
  asked_notes = [];
  settings = settings;
  crashed = false;
}

pending_roaming : check_pending_acks (record no_note { roaming_pending_ack = false }) ≡ no_note
unfolding check_pending_acks
pending_roaming = refl

abbrev events : List Event
events =
    modem "/ril_0" online_on
    ∷ net false none "/ril_0" roaming
    ∷ net true (some 4) "/ril_0" denied
    ∷ net false none "/ril_0" roaming
    ∷ modem "/ril_1" online_on
    ∷ modem "/ril_1" removed
    ∷ []

run-IsFollowed_example : IsFollowed events no_note (run events no_note)
run-IsFollowed_example = run-IsFollowed events no_note

closed : IsClosed no_note
closed = record { dialog = refl; done_func = refl; gconf = refl; notifies = refl }

show-IsShown_example :
    ((show true 5 (some "home_notification") no_note).0 ≡ true)
    × IsShown 5 "home_notification" no_note (show true 5 (some "home_notification") no_note).1
show-IsShown_example =
    show-IsShown 5 "home_notification" no_note closed (unfold note_text in λ e. cc) (λ e. cc)

-- While the note 5 is shown, a refused request for a note of the network leaves it done as -1.
lost_number :
    (respond [] ok (
      net_status_cb false none "/ril_0" denied
        (record (show true 5 (some "sim_reg_fail") no_note).1 {
          reg_status = ("/ril_0", searching) ∷ [];
        }))).done
    ≡ (none, false) ∷ []
unfolding show create_dialog watch respond run_signal net_status_cb
lost_number = refl
