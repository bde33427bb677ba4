-- ===== src/NetSelection/Tests.antt =====
-- Concrete sessions with the dialog of networks.
use connui_cellular.Prelude.{◌≡◌, refl, true, false, none, some, List, [], ◌∷◌, string_eq, nat_eq}
use connui_cellular.Net.{Network}
use connui_cellular.NetSelection.{
  Selection, net_select, net_list, insert_all, net_list_cb, select, inetstate_status,
  inetstate_close, inetstate_status_cb, select_current,
}
use connui_cellular.NetSelection.Session.{
  show, Event, shown, found, accepted, inet_changed, step, run,
}
use connui_cellular.NetSelection.Shown.{IsListed, show-IsListed}

abbrev elisa : Network
elisa = record {
  service_status = 0;
  country_code = some "244";
  operator_code = some "05";
  operator_name = some "elisa";
  umts_avail = 1;
  network_type = 0;
}

-- The user accepts the network that was found, while no connection is open.
abbrev accepting : List Event
accepting = inet_changed false none elisa ∷ accepted ∷ found 7 (elisa ∷ []) ∷ shown 1 true ∷ []

abbrev chosen_session : Selection
chosen_session = run accepting

calls_so_far :
    chosen_session.calls
    ≡ net_select (some elisa) ∷ inetstate_close ∷ inetstate_status elisa ∷ net_list ∷ []
unfolding run step show net_list_cb insert_all select_current inetstate_status_cb select
calls_so_far = refl

show-IsListed_example : IsListed 30 true chosen_session (show 30 true chosen_session)
show-IsListed_example = show-IsListed accepting 30 true
