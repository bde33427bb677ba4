-- ===== src/Sim.antt =====
-- lib/sim.c: the state of a modem's SIM manager, the reading of its properties, and its status.
-- The operations on security codes are in `Sim.Security`, the notifications in `Sim.Signals`.
pub mod LockedPins
pub mod Getters
pub mod Signals
pub mod Security
mod Tests
use connui_cellular.Prelude.{
  ℕ, zero, suc, String, Bool, true, false, Option, none, some, List, [], ◌∷◌, ◌==◌, string_eq,
  if◌then◌else◌,
}
use connui_cellular.Glib.{Variants}

-- connui_sim_status
pub data SimStatus : Type 0 where
  unknown no_sim ok ok_pin_required ok_puk_required ok_puk2_required rejected locked : SimStatus

-- connui_sim_security_code_type; `unasked` is ..._UNKNOWN and `nothing` is ..._NONE
pub data CodeType : Type 0 where
  unasked nothing pin puk pin2 puk2 unsupported : CodeType

-- A client's pointer to a string may be NULL.
pub record SimData : Type 0 where
  pub present : Bool
  pub mcc : ℕ
  pub mnc : ℕ
  pub imsi : Option String
  pub spn : Option String
  pub pin_required : CodeType
  pub pin_required_s : Option String
  pub locked_pin : List Bool
  pub idle_status_id : ℕ
  pub idle_security_code_id : ℕ

-- `_sim_data_create`: what `g_new0` leaves zero, and the code type.
unfoldable pub create : SimData
create = record {
  present = false;
  mcc = 0;
  mnc = 0;
  imsi = none;
  spn = none;
  pin_required = unasked;
  pin_required_s = none;
  locked_pin = false ∷ false ∷ false ∷ false ∷ [];
  idle_status_id = 0;
  idle_security_code_id = 0;
}

-- `_get_code_type`
unfoldable pub get_code_type : String → CodeType
get_code_type t =
    if t == "none"
    then nothing
    else if t == "pin"
    then pin
    else if t == "puk"
    then puk
    else if t == "pin2"
    then pin2
    else if t == "puk2"
    then puk2
    else unsupported

-- `code_type - 1` as an index of `locked_pin`, where it is at least 0.
abbrev pub code_index : CodeType → Option ℕ
code_index unasked = none
code_index nothing = none
code_index pin = some 0
code_index puk = some 1
code_index pin2 = some 2
code_index puk2 = some 3
code_index unsupported = some 4

-- `pins[i] = TRUE`, if the index is within the array.
abbrev pub mark : List Bool → ℕ → List Bool
mark [] i = []
mark (b ∷ bs) zero = true ∷ bs
mark (b ∷ bs) (suc i) = b ∷ mark bs i

abbrev pub mark_code : CodeType → List Bool → List Bool
mark_code c bs = elim (code_index c) [ none ↦ bs | some i ↦ mark bs i ]

unfoldable pub mark_pins : List String → List Bool → List Bool
unfolding get_code_type
mark_pins [] bs = bs
mark_pins (p ∷ ps) bs = mark_pins ps (mark_code (get_code_type p) bs)

-- `_get_locked_pins`
unfoldable pub get_locked_pins : List String → SimData → SimData
unfolding mark_pins
get_locked_pins pins sd = record sd {
  locked_pin = mark_pins pins (false ∷ false ∷ false ∷ false ∷ []);
}

-- `_get_status`
abbrev status_of : CodeType → SimStatus
status_of unasked = unknown
status_of nothing = ok
status_of pin2 = ok
status_of pin = ok_pin_required
status_of puk = ok_puk_required
status_of puk2 = ok_puk2_required
status_of unsupported = locked

unfoldable pub get_status : SimData → SimStatus
get_status sd = if sd.present then status_of sd.pin_required else no_sim

module _ (g : Variants) where
  open g use {Variant, get_boolean, get_string, get_strv, atoi}

  -- `_get_pin_required`
  unfoldable pub get_pin_required : Option Variant → SimData → SimData
  unfolding get_code_type
  get_pin_required none sd = sd
  get_pin_required (some v) sd = record sd {
    pin_required = get_code_type (get_string v);
    pin_required_s = some (get_string v);
  }

  -- `_parse_property`; the Boolean is `notify`
  unfoldable pub parse_property : String → Variant → SimData → Bool × SimData
  unfolding get_pin_required get_locked_pins
  parse_property name v sd =
      if name == "Present"
      then (true, record sd { present = get_boolean v })
      else if name == "MobileCountryCode"
      then (false, record sd { mcc = atoi (get_string v) })
      else if name == "MobileNetworkCode"
      then (false, record sd { mnc = atoi (get_string v) })
      else if name == "SubscriberIdentity"
      then (false, record sd { imsi = some (get_string v) })
      else if name == "ServiceProviderName"
      then (false, record sd { spn = some (get_string v) })
      else if name == "PinRequired"
      then (true, get_pin_required (some v) sd)
      else if name == "LockedPins"
      then (false, get_locked_pins (get_strv v) sd)
      else (false, sd)
