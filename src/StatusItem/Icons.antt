-- ===== src/StatusItem/Icons.antt =====
-- A modem of status-menu-item/status-item.c, and `_get_icons`, the choice of its icons.
use connui_cellular.Prelude.{
  ℕ, String, Bool, true, false, not, ◌||◌, Option, none, some, ◌==◌, string_eq, ltb, if◌then◌else◌,
}
use connui_cellular.Types.{
  RegStatus, unknown, unregistered, home, searching, denied, roaming, Rat, rat_unknown, gsm, umts,
  lte, Bearer, no_bearer, edge, hspda, hsupa, hspa,
}

-- The fields of cell_network_state that choose an icon.
pub record NetState : Type 0 where
  pub reg_status : RegStatus
  pub rat_name : Rat
  pub signals_bar : ℕ
  pub hsdpa_allocated : Bool
  pub edge_allocated : Bool

pub record Modem : Type 0 where
  pub id : String
  pub state : NetState
  pub bearer : Bearer
  pub mode : Option String
  pub bars : Option String

-- `g_new0`: REG_STATUS_UNREGISTERED, RAT_UNKNOWN and BEARER_NONE are 0.
abbrev pub new_modem : String → Modem
new_modem id = record {
  id = id;
  state = record {
    reg_status = unregistered;
    rat_name = rat_unknown;
    signals_bar = 0;
    hsdpa_allocated = false;
    edge_allocated = false;
  };
  bearer = no_bearer;
  mode = none;
  bars = none;
}

abbrev pub is_hspa : Bearer → Bool
is_hspa hspa = true
is_hspa hspda = true
is_hspa hsupa = true
is_hspa _ = false

abbrev pub is_edge : Bearer → Bool
is_edge edge = true
is_edge _ = false

abbrev pub rat_mode : NetState → Bearer → Rat → Option String
rat_mode s b lte = some "statusarea_cell_mode_4g"
rat_mode s b umts =
    if is_hspa b || s.hsdpa_allocated
    then some "statusarea_cell_mode_3_5g"
    else some "statusarea_cell_mode_3g"
rat_mode s b gsm =
    if is_edge b || s.edge_allocated
    then some "statusarea_cell_mode_2_5g"
    else some "statusarea_cell_mode_2g"
rat_mode s b _ = none

abbrev pub level : ℕ → String
level n =
    if ltb 80 n
    then "statusarea_cell_level5"
    else if ltb 60 n
    then "statusarea_cell_level4"
    else if ltb 40 n
    then "statusarea_cell_level3"
    else if ltb 20 n
    then "statusarea_cell_level2"
    else if ltb 0 n
    then "statusarea_cell_level1"
    else "statusarea_cell_level0"

-- The switch of `_get_icons`: the mode, and the bars. Unregistered modems fall through to DENIED.
unfoldable pub icons_of : NetState → Bearer → Bool → RegStatus → Option String × String
icons_of s b offline home = (rat_mode s b s.rat_name, level s.signals_bar)
icons_of s b offline roaming = (rat_mode s b s.rat_name, level s.signals_bar)
icons_of s b offline unknown =
    if offline
    then (some "statusarea_offline_mode", "statusarea_cell_level0")
    else (none, "statusarea_cell_off")
icons_of s b offline unregistered =
    if offline
    then (some "statusarea_offline_mode", "statusarea_cell_level0")
    else (none, "statusarea_cell_off")
icons_of s b offline denied = (none, "statusarea_cell_off")
icons_of s b offline searching = (none, "statusarea_cell_level0")

unfoldable pub icons : Bool → Modem → Option String × String
unfolding icons_of
icons offline m = icons_of m.state m.bearer offline m.state.reg_status

abbrev pub same_icon : Option String → Option String → Bool
same_icon none none = true
same_icon (some a) (some b) = a == b
same_icon _ _ = false

-- `_get_icons`: the modem with its icons, and whether they changed.
unfoldable pub refresh : Bool → Modem → Modem
unfolding icons
refresh offline m = let (mode, bars) = icons offline m in record m { mode = mode; bars = some bars }

unfoldable pub is_changed : Bool → Modem → Bool
unfolding icons
is_changed offline m =
    let (mode, bars) = icons offline m in
    not (same_icon m.bars (some bars)) || not (same_icon m.mode mode)
