-- ===== src/HomeItem.antt =====
-- home-item/operator-name-cbs-home-item.c: the operators' names on the home screen. The label's text is
-- the list of its lines; `listed` is what `connui_cell_modem_get_modems` returns, and `named` is
-- `connui_cell_net_get_operator_name` of a country and an operator code.
pub mod Writes
pub mod Names
pub mod Shown
mod Tests
use connui_cellular.Prelude.{
  ℕ, zero, suc, String, Bool, true, false, not, ◌&&◌, ◌||◌, Option, none, some, List, [], ◌∷◌, ◌==◌,
  nat_eq, string_eq, if◌then◌else◌, Table, lookup, remove, insert,
}
use connui_cellular.Types.{
  RegStatus, unknown, unregistered, home, searching, denied, roaming, Rat, rat_unknown, gsm, umts,
  lte, nr,
}

-- home_item_modem
pub record Modem : Type 0 where
  pub operator_name : Option String
  pub reg_status : RegStatus
  pub rat_name : Rat

-- The fields of cell_network_state, and of its network, that are read.
pub record NetState : Type 0 where
  pub reg_status : RegStatus
  pub codes : Option (Option String × Option String)  -- of the network, by country and operator
  pub operator_name : Option String
  pub rat_name : Rat

-- _OperatorNameCBSHomeItemPrivate
pub record Item : Type 0 where
  pub modems : Table String Modem
  pub label : List String
  pub flightmode : Bool

abbrev pub code_of : RegStatus → ℕ
code_of unknown = 0
code_of unregistered = 1
code_of home = 2
code_of searching = 3
code_of denied = 4
code_of roaming = 5

abbrev pub same_status : RegStatus → RegStatus → Bool
same_status a b = code_of a == code_of b

abbrev pub rat_code : Rat → ℕ
rat_code rat_unknown = 0
rat_code gsm = 1
rat_code umts = 2
rat_code lte = 3
rat_code nr = 4

-- `MODEM_REGISTERED`
abbrev pub registered : RegStatus → Bool
registered home = true
registered roaming = true
registered _ = false

-- `IS_EMPTY`
abbrev pub is_empty : Option String → Bool
is_empty none = true
is_empty (some s) = s == ""

-- One line of `update_widget`.
abbrev pub name_or_empty : Option String → String
name_or_empty none = ""
name_or_empty (some s) = s

abbrev pub line_of : Option Modem → String
line_of none = ""
line_of (some m) = if is_empty m.operator_name then "" else name_or_empty m.operator_name

pub lines : ℕ → List String → Table String Modem → List String
lines zero ids t = []
lines (suc n) [] t = []
lines (suc n) (id ∷ ids) t = line_of (lookup id t) ∷ lines n ids t

-- `modem_create`
abbrev pub new_modem : Modem
new_modem = record { operator_name = none; reg_status = unknown; rat_name = rat_unknown }

abbrev pub modem_or_new : Option Modem → Modem
modem_or_new none = new_modem
modem_or_new (some m) = m

abbrev pub set_name : String → Modem → Modem
set_name n m = record m { operator_name = some n }

abbrev pub set_rat : Rat → Modem → Modem
set_rat r m = record m { rat_name = r }

abbrev pub set_status : RegStatus → Modem → Modem
set_status r m = record m { reg_status = r; rat_name = rat_unknown }

abbrev pub differs : Option String → String → Bool
differs none n = true
differs (some m) n = not (m == n)

-- The name of a network with both codes.
pub named_by : (String → String → Option String) → Option String → Option String → Option String
named_by named none oc = none
named_by named (some cc) none = none
named_by named (some cc) (some oc) = named cc oc

module _ (named : String → String → Option String) (listed : List String) where
  -- `update_widget`, which shows two modems at most
  pub update_widget : Item → Item
  unfolding lines
  update_widget t = record t { label = lines 2 listed t.modems }

  -- The modem behind the pointer, a write through it, and one that is shown.
  pub modem_of : String → Item → Modem
  unfolding lookup
  modem_of id t = modem_or_new (lookup id t.modems)

  pub write : String → (Modem → Modem) → Item → Item
  unfolding modem_of insert
  write id f t = record t { modems = insert id (f (modem_of id t)) t.modems }

  pub write_if : Bool → String → (Modem → Modem) → Item → Item
  unfolding write update_widget
  write_if test id f t = if test then update_widget (write id f t) else t

  -- `modem_get`, else `modem_create`
  pub ensure : String → Item → Item
  unfolding lookup insert
  ensure id t = elim (lookup id t.modems) [
    | none ↦ record t { modems = insert id new_modem t.modems }
    | some m ↦ t
  ]

  -- `get_operator_name`, called with the state's `operator_name`
  pub fill_name : Option String → String → Item → Item
  unfolding write_if modem_of
  fill_name none id t = t
  fill_name (some n) id t = write_if (is_empty (modem_of id t).operator_name) id (set_name n) t

  pub get_operator_name : String → String → Option String × Option String → Item → Item
  unfolding write_if modem_of named_by fill_name
  get_operator_name id n codes t =
      fill_name (named_by named codes.0 codes.1) id
        (write_if (differs (modem_of id t).operator_name n) id (set_name n) t)

  -- `widget_net_status_cb`, part by part
  pub new_status : String → RegStatus → Item → Item
  unfolding write_if modem_of
  new_status id r t = write_if (not (same_status r (modem_of id t).reg_status)) id (set_status r) t

  pub new_name : String → Option String → Option String × Option String → Item → Item
  unfolding get_operator_name write_if modem_of
  new_name id none codes t = t
  new_name id (some n) codes t =
      if registered (modem_of id t).reg_status
      then write_if true id (set_rat rat_unknown) (get_operator_name id n codes t)
      else t

  pub new_network : String → NetState → Option (Option String × Option String) → Item → Item
  unfolding new_name write_if modem_of
  new_network id s none t = t
  new_network id s (some codes) t =
      new_name id s.operator_name codes
        (write_if (same_status (modem_of id t).reg_status unknown) id (set_rat rat_unknown) t)

  pub new_rat : String → Rat → Item → Item
  unfolding write_if modem_of
  new_rat id r t =
      write_if
        (not (rat_code r == rat_code (modem_of id t).rat_name)
          && registered (modem_of id t).reg_status)
        id (set_rat r) t

  pub known_status : String → NetState → Item → Item
  unfolding ensure new_status new_network new_rat
  known_status id s t =
      new_rat id s.rat_name (new_network id s s.codes (new_status id s.reg_status (ensure id t)))

  pub lost_status : String → Item → Item
  unfolding update_widget remove
  lost_status id t = update_widget (record t { modems = remove id t.modems })

  pub net_status_cb : String → NetState → Item → Item
  unfolding known_status lost_status
  net_status_cb id s t =
      if t.flightmode
      then t
      else if same_status s.reg_status unknown
      then lost_status id t
      else known_status id s t

  -- `widget_flightmode_cb`
  pub flightmode_cb : Bool → Item → Item
  unfolding update_widget
  flightmode_cb offline t =
      if offline
      then record (update_widget (record t { modems = [] })) { flightmode = true }
      else record t { flightmode = false }

  -- `widget_modem_status_cb`
  pub modem_status_cb : Item → Item
  unfolding update_widget
  modem_status_cb t = if t.flightmode then t else update_widget t

-- `operator_name_cbs_home_item_init`
abbrev pub init : Item
init = record { modems = []; label = []; flightmode = false }

-- The list of modems changes with an event of theirs.
pub data Event : Type 0 where
  flightmode : Bool → Event
  net_status : String → NetState → Event
  modem_status : List String → Event

pub listed_after : List Event → List String
listed_after [] = []
listed_after (flightmode b ∷ past) = listed_after past
listed_after (net_status id s ∷ past) = listed_after past
listed_after (modem_status ids ∷ past) = ids

-- The item after the events, the latest first.
pub run : (String → String → Option String) → List Event → Item
unfolding flightmode_cb net_status_cb modem_status_cb listed_after
run named [] = init
run named (flightmode b ∷ past) = flightmode_cb named (listed_after past) b (run named past)
run named (net_status id s ∷ past) = net_status_cb named (listed_after past) id s (run named past)
run named (modem_status ids ∷ past) = modem_status_cb named ids (run named past)
