-- ===== src/Net.antt =====
-- lib/net.c: the registration of a modem with the network, and its notification. Net.Operator has the
-- names of operators, Net.Search the search for networks, Net.CallerId the caller's identity.
pub mod Served
pub mod Search
pub mod Operator
pub mod CallerId
mod Tests
use connui_cellular.Prelude.{
  ℕ, String, Bool, true, false, not, ◌||◌, Option, none, some, ◌==◌, string_eq, if◌then◌else◌,
}
use connui_cellular.Glib.{Variants}
use connui_cellular.Types.{
  RegStatus, unknown, unregistered, home, searching, denied, roaming, Rat, rat_unknown, gsm, umts,
  lte, nr,
}
use connui_cellular.Notifier.{Object}

-- connui_net_selection_mode
pub data SelectionMode : Type 0 where
  mode_unknown manual auto auto_only : SelectionMode

-- cell_network, whose modem_id the file leaves unset
pub record Network : Type 0 where
  pub service_status : ℕ
  pub country_code : Option String
  pub operator_code : Option String
  pub operator_name : Option String
  pub umts_avail : ℕ
  pub network_type : ℕ

abbrev pub new_network : Network
new_network = record {
  service_status = 0;
  country_code = none;
  operator_code = none;
  operator_name = none;
  umts_avail = 0;
  network_type = 0;
}

-- net_data, with its cell_network_state
pub record NetData : Type 0 where
  pub reg_status : RegStatus
  pub lac : ℕ
  pub cell_id : ℕ
  pub network : Network
  pub supported_services : ℕ
  pub network_signals_bar : ℕ
  pub rat_name : Rat
  pub network_hsdpa_allocated : Bool
  pub network_edge_allocated : Bool
  pub operator_name : Option String
  pub selection_mode : SelectionMode

-- `_net_data_create`, with `init_net_state`
abbrev pub create : NetData
create = record {
  reg_status = unknown;
  lac = 0;
  cell_id = 0;
  network = new_network;
  supported_services = 0;
  network_signals_bar = 0;
  rat_name = rat_unknown;
  network_hsdpa_allocated = false;
  network_edge_allocated = false;
  operator_name = none;
  selection_mode = mode_unknown;
}

-- `_reg_status`
unfoldable pub reg_status_of : String → RegStatus
reg_status_of s =
    if s == "unregistered"
    then unregistered
    else if s == "registered"
    then home
    else if s == "searching"
    then searching
    else if s == "denied"
    then denied
    else if s == "roaming"
    then roaming
    else unknown

-- `_rat_name`
unfoldable pub rat_of : String → Rat
rat_of s =
    if s == "gsm" || s == "edge"
    then gsm
    else if s == "umts" || s == "hspa"
    then umts
    else if s == "lte"
    then lte
    else if s == "nr"
    then nr
    else rat_unknown

-- The modes of the property Mode.
unfoldable pub mode_of : String → SelectionMode
mode_of s =
    if s == "manual"
    then manual
    else if s == "auto"
    then auto
    else if s == "auto-only"
    then auto_only
    else mode_unknown

abbrev pub is_known : Rat → Bool
is_known rat_unknown = false
is_known _ = true

-- What is certain to reach the clients of the state that they are given: the signal's strength only
-- with a known technology.
abbrev pub seen : NetData → NetData
seen s = if is_known s.rat_name then s else record s { network_signals_bar = 0 }

module _ (g : Variants) where
  open g use {Variant, get_string, get_byte, get_uint16, get_uint32}

  -- `_parse_property`; the Boolean is `notify`
  unfoldable pub parse_property : String → Variant → NetData → Bool × NetData
  unfolding reg_status_of rat_of mode_of
  parse_property name v s =
      if name == "Strength"
      then (is_known s.rat_name, record s { network_signals_bar = get_byte v })
      else if name == "Name"
      then (
        true,
        record s {
          operator_name = some (get_string v);
          network = record s.network { operator_name = some (get_string v) };
        },
      )
      else if name == "MobileCountryCode"
      then (true, record s { network = record s.network { country_code = some (get_string v) } })
      else if name == "MobileNetworkCode"
      then (true, record s { network = record s.network { operator_code = some (get_string v) } })
      else if name == "LocationAreaCode"
      then (true, record s { lac = get_uint16 v })
      else if name == "CellId"
      then (true, record s { cell_id = get_uint32 v })
      else if name == "Status"
      then (true, record s { reg_status = reg_status_of (get_string v) })
      else if name == "Technology"
      then (
        true,
        record s {
          rat_name = rat_of (get_string v);
          network_hsdpa_allocated = get_string v == "hspa";
          network_edge_allocated = get_string v == "edge";
        },
      )
      else if name == "Mode"
      then (true, record s { selection_mode = mode_of (get_string v) })
      else (false, s)

  abbrev pub netreg : Object (String × Variant) NetData NetData
  unfolding parse_property
  netreg = record { apply = λ e s. parse_property e.0 e.1 s; view = seen }
