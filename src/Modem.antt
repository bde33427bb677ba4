-- ===== src/Modem.antt =====
-- lib/modem.c: the modems of oFono, what the library keeps of each, and the managers that stand on the
-- interfaces that a modem announces. The managers' own data is in the modules of lib/sim.c,
-- lib/net.c, lib/sups.c and lib/connmgr.c; here a manager is there or not.
pub mod Interfaces
pub mod Served
pub mod Getters
mod Tests
use connui_cellular.Prelude.{
  String, Bool, true, false, not, ◌&&◌, ◌||◌, Option, none, some, List, [], ◌∷◌, ◌==◌, string_eq,
  if◌then◌else◌,
}
use connui_cellular.Glib.{Variants}
use connui_cellular.Notifier.{Object}

-- connui_modem_status
pub data ModemStatus : Type 0 where
  status_unknown removed ok powered_on online_on : ModemStatus

-- What a modem's interface makes the library add: the data of a file, or the voice call manager.
pub data Manager : Type 0 where
  simmgr netreg supplsvcs connmgr voice_call_manager : Manager

abbrev pub same : Manager → Manager → Bool
same simmgr simmgr = true
same netreg netreg = true
same supplsvcs supplsvcs = true
same connmgr connmgr = true
same voice_call_manager voice_call_manager = true
same _ _ = false

-- modem_data. `aborted`: a g_assert failed.
pub record Modem : Type 0 where
  pub interfaces : List String
  pub online : Bool
  pub powered : Bool
  pub manufacturer : Option String
  pub model : Option String
  pub revision : Option String
  pub serial : Option String
  pub managers : Manager → Bool
  pub aborted : Bool

-- `_modem_data_create`
abbrev pub create : Modem
create = record {
  interfaces = [];
  online = false;
  powered = false;
  manufacturer = none;
  model = none;
  revision = none;
  serial = none;
  managers = λ k. false;
  aborted = false;
}

-- `_modem_get_status`
unfoldable pub get_status : Modem → ModemStatus
get_status m = if m.online then online_on else if m.powered then powered_on else ok

-- The tests of `_parse_interfaces` on the name of an interface.
unfoldable pub manager_of : String → Option Manager
manager_of s =
    if s == "org.ofono.SimManager"
    then some simmgr
    else if s == "org.ofono.NetworkRegistration"
    then some netreg
    else if s == "org.ofono.SupplementaryServices"
    then some supplsvcs
    else if s == "org.ofono.ConnectionManager"
    then some connmgr
    else if s == "org.ofono.VoiceCallManager"
    then some voice_call_manager
    else none

unfoldable pub mem : String → List String → Bool
mem s [] = false
mem s (t ∷ ts) = s == t || mem s ts

-- g_hash_table_add
unfoldable pub add_name : String → List String → List String
unfolding mem
add_name s ts = if mem s ts then ts else s ∷ ts

unfoldable pub name_set : List String → List String
unfolding add_name
name_set [] = []
name_set (s ∷ ss) = add_name s (name_set ss)

abbrev set_manager : Manager → Bool → Modem → Modem
set_manager k b m = record m { managers = λ j. if same k j then b else m.managers j }

-- The data of a manager must not be there yet, which its file asserts: lib/sups.c before it makes the
-- proxy, the others with it. The voice call manager has no assertion.
abbrev asserts : Manager → Bool → Bool
asserts voice_call_manager made = false
asserts supplsvcs made = true
asserts _ made = made

-- `connui_cell_modem_add_simmgr` and so on; `made`: the proxy can be created. A voice call manager
-- that cannot be created is NULL.
unfoldable pub add_manager : Bool → Manager → Modem → Modem
add_manager made k m =
    if asserts k made && m.managers k
    then record m { aborted = true }
    else if made || same k voice_call_manager
    then set_manager k made m
    else m

unfoldable pub add_interface : (String → Bool) → String → Modem → Modem
unfolding manager_of add_manager
add_interface makes s m = elim (manager_of s) [ none ↦ m | some k ↦ add_manager (makes s) k m ]

-- The first loop of `_parse_interfaces`, over the interfaces of now.
unfoldable pub add_if_new : (String → Bool) → String → Modem → Modem
unfolding add_interface mem
add_if_new makes s m = if mem s m.interfaces then m else add_interface makes s m

unfoldable pub add_new : (String → Bool) → List String → Modem → Modem
unfolding add_if_new
add_new makes [] m = m
add_new makes (s ∷ ss) m = add_new makes ss (add_if_new makes s m)

-- `connui_cell_modem_remove_simmgr` and so on.
unfoldable pub remove_interface : String → Modem → Modem
unfolding manager_of
remove_interface s m = elim (manager_of s) [ none ↦ m | some k ↦ set_manager k false m ]

-- The second loop, over the interfaces of before.
unfoldable pub remove_if_old : List String → String → Modem → Modem
unfolding remove_interface mem
remove_if_old new s m = if mem s new then m else remove_interface s m

unfoldable pub remove_old : List String → List String → Modem → Modem
unfolding remove_if_old
remove_old new [] m = m
remove_old new (s ∷ ss) m = remove_old new ss (remove_if_old new s m)

-- `_parse_interfaces`
unfoldable pub parse_interfaces : (String → Bool) → List String → Modem → Modem
unfolding name_set add_new remove_old
parse_interfaces makes names m =
    let interfaces = name_set names in
    record (remove_old interfaces m.interfaces (add_new makes interfaces m)) {
      interfaces = interfaces;
    }

module _ (g : Variants) where
  open g use {Variant, get_boolean, get_string, get_strv}

  -- A property of oFono's modem, with the proxies that can be created at the time.
  pub record Property : Type 0 where
    pub name : String
    pub value : Variant
    pub makes : String → Bool

  -- `_parse_property`
  unfoldable pub parse_property : Property → Modem → Modem
  unfolding parse_interfaces
  parse_property p m =
      if p.name == "Powered"
      then record m { powered = get_boolean p.value }
      else if p.name == "Online"
      then record m { online = get_boolean p.value }
      else if p.name == "Manufacturer"
      then record m { manufacturer = some (get_string p.value) }
      else if p.name == "Model"
      then record m { model = some (get_string p.value) }
      else if p.name == "Revision"
      then record m { revision = some (get_string p.value) }
      else if p.name == "Serial"
      then record m { serial = some (get_string p.value) }
      else if p.name == "Interfaces"
      then parse_interfaces p.makes (get_strv p.value) m
      else m

  -- `_property_changed_cb` notifies for every property.
  abbrev pub modem : Object Property Modem ModemStatus
  unfolding parse_property get_status
  modem = record { apply = λ p m. (true, parse_property p m); view = get_status }
