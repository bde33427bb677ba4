-- ===== src/StatusItem/Tests.antt =====
-- A status item with two modems, of which one registers while the display is off.
use connui_cellular.Prelude.{◌≡◌, refl, String, true, false, some, List, [], ◌∷◌}
use connui_cellular.Types.{home, umts, hspa}
use connui_cellular.StatusItem.Icons.{icons}
use connui_cellular.StatusItem.{
  on, off, Event, display, flightmode, net_status, connmgr_status, init, run,
}
use connui_cellular.StatusItem.History.{first_data, last_data, last_offline}
use connui_cellular.StatusItem.Shown.{wanted, run-on}

abbrev names : List String
names = "/ril_0" ∷ "/ril_1" ∷ []

abbrev events : List Event
events =
    flightmode true
    ∷ display off
    ∷ net_status "/ril_1" (record {
      reg_status = home;
      rat_name = umts;
      signals_bar = 50;
      hsdpa_allocated = false;
      edge_allocated = false;
    })
    ∷ display on
    ∷ connmgr_status "/ril_1" hspa
    ∷ []

is_on : (run names events (init names)).display_state ≡ on
unfolding run init
is_on = refl

icons_drawn :
    (run names events (init names)).drawn
    ≡ some ("statusarea_cell_level0", some "statusarea_offline_mode")
      ∷ some ("statusarea_cell_level3", some "statusarea_cell_mode_3_5g")
      ∷ []
unfolding run init icons
icons_drawn = refl

run-on_example :
    (run names events (init names)).drawn
    ≡ wanted 2 names (last_offline events false) (λ id. last_data id events (first_data id names))
run-on_example = run-on names events (unfold run init in (refl, (refl, tt))) is_on
