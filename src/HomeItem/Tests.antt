-- ===== src/HomeItem/Tests.antt =====
-- The theorem on the home screen at concrete inputs.
use connui_cellular.Prelude.{◌≡◌, refl, String, Option, some, none, List, [], ◌∷◌, true, arith}
use connui_cellular.Types.{home, roaming, gsm, umts}
use connui_cellular.HomeItem.{
  NetState, Event, flightmode, net_status, modem_status, listed_after, run, net_status_cb,
  flightmode_cb, modem_status_cb,
}
use connui_cellular.HomeItem.Writes.{line_at, line_for, text_of, name_after}
use connui_cellular.HomeItem.Shown.{run-label}

abbrev no_names : String → String → Option String
no_names cc oc = some "Elisa"

abbrev at_home : NetState
at_home = record {
  reg_status = home;
  codes = some (some "244", some "05");
  operator_name = some "";
  rat_name = umts;
}

abbrev abroad : NetState
abroad = record {
  reg_status = roaming;
  codes = some (none, none);
  operator_name = some "Telia";
  rat_name = gsm;
}

abbrev history : List Event
history =
    net_status "/one" at_home ∷ net_status "/two" abroad ∷ modem_status ("/one" ∷ "/two" ∷ []) ∷ []

run-label_example :
    line_at 1 (run no_names history).label
    ≡ line_for 1 (listed_after history) (λ id. text_of (name_after no_names id history))
run-label_example = run-label no_names history 1 (omega arith)

both_shown : (run no_names history).label ≡ "Elisa" ∷ "Telia" ∷ []
unfolding run net_status_cb modem_status_cb
both_shown = refl

offline_shown : (run no_names (flightmode true ∷ history)).label ≡ "" ∷ "" ∷ []
unfolding run flightmode_cb net_status_cb modem_status_cb
offline_shown = refl
