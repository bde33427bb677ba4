-- ===== src/Sim/Tests.antt =====
-- The reading of concrete properties of a SIM manager.
use connui_cellular.Prelude.{
  ◌≡◌, refl, String, true, none, some, List, [], ◌∷◌, inr, lookup, string_eq,
}
use connui_cellular.Sim.{create, get_locked_pins}
use connui_cellular.Sim.LockedPins.{any_of, four, locked_pin-get_locked_pins}
use connui_cellular.Sim.Getters.{Modems, sim_data_get, any_lock, is_locked}
use connui_cellular.Sim.Getters.Answered.{IsAnswered, lookup-IsAnswered}

abbrev names : List String
names = "puk" ∷ "service" ∷ "pin" ∷ []

locked_pin-get_locked_pins_example :
    (get_locked_pins names create).locked_pin
    ≡ four (any_of "pin" names) (any_of "puk" names) (any_of "pin2" names) (any_of "puk2" names)
locked_pin-get_locked_pins_example = locked_pin-get_locked_pins names create

-- A SIM that is locked to a network, and a modem with no SIM manager.
abbrev two_modems : Modems
two_modems = ("/ril_0", some create) ∷ ("/ril_1", none) ∷ []

lookup-IsAnswered_example : IsAnswered "/ril_0" two_modems (lookup "/ril_0" two_modems)
lookup-IsAnswered_example = lookup-IsAnswered "/ril_0" two_modems

is_locked_test :
    is_locked (λ p. inr (some ("pin" ∷ "network" ∷ []))) "/ril_0" two_modems ≡ (true, none)
unfolding is_locked sim_data_get lookup any_lock
is_locked_test = refl
