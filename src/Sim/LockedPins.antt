-- ===== src/Sim/LockedPins.antt =====
-- `_get_locked_pins` of lib/sim.c against the set of names that oFono sends.
use connui_cellular.Prelude.{
  ◌≡◌, String, Bool, false, ◌||◌, List, [], ◌∷◌, arith, ◌==◌, nat_eq, string_eq, eq_iff,
}
use connui_cellular.Sim.{SimData, get_code_type, mark_code, mark_pins, get_locked_pins}

-- Whether a list of texts holds one.
abbrev pub any_of : String → List String → Bool
any_of s [] = false
any_of s (t ∷ ts) = t == s || any_of s ts

-- `sd->locked_pin[i]`, FALSE out of bounds.
abbrev pub four : Bool → Bool → Bool → Bool → List Bool
four a b c d = a ∷ b ∷ c ∷ d ∷ []

-- One name marks the flag of its own kind, and the other three stay.
mark_four :
    (p : String) (a b c d : Bool)
    → mark_code (get_code_type p) (four a b c d)
      ≡ four (p == "pin" || a) (p == "puk" || b) (p == "pin2" || c) (p == "puk2" || d)
unfolding get_code_type
mark_four p a b c d = ground (
  arith,
  eq_iff p "none",
  eq_iff p "pin",
  eq_iff p "puk",
  eq_iff p "pin2",
  eq_iff p "puk2",
  eq_iff "none" "pin",
  eq_iff "none" "puk",
  eq_iff "none" "pin2",
  eq_iff "none" "puk2",
  eq_iff "pin" "puk",
  eq_iff "pin" "pin2",
  eq_iff "pin" "puk2",
  eq_iff "puk" "pin2",
  eq_iff "puk" "puk2",
  eq_iff "pin2" "puk2",
)

or_swap : (a b c : Bool) → ((a || b) || c) ≡ (b || (a || c))
or_swap a b c = ground arith

mark_pins-four :
    (pins : List String) (a b c d : Bool)
    → mark_pins pins (four a b c d)
      ≡ four
          (a || any_of "pin" pins)
          (b || any_of "puk" pins)
          (c || any_of "pin2" pins)
          (d || any_of "puk2" pins)
unfolding mark_pins
mark_pins-four [] a b c d = ground arith
mark_pins-four (p ∷ ps) a b c d =
    rw (mark_four p a b c d, mark_pins-four ps, or_swap, or_swap, or_swap, or_swap)

-- After the LockedPins property is read, the four flags say whether "pin", "puk", "pin2" and
-- "puk2" are among the names, whatever the flags were and whatever other names there are.
pub locked_pin-get_locked_pins :
    (pins : List String) (sd : SimData)
    → (get_locked_pins pins sd).locked_pin
      ≡ four (any_of "pin" pins) (any_of "puk" pins) (any_of "pin2" pins) (any_of "puk2" pins)
unfolding get_locked_pins
locked_pin-get_locked_pins pins sd = mark_pins-four pins false false false false
