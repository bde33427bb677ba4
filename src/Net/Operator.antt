-- ===== src/Net/Operator.antt =====
-- lib/net.c: the name of a network's operator, `connui_cell_net_get_operator_name`.
pub mod First
use connui_cellular.Prelude.{
  ℕ, ◌%◌, ◌^◌, String, Bool, true, false, ◌&&◌, Option, none, some, List, [], ◌∷◌, ◌++◌, ◌==◌,
  nat_eq, string_eq, if◌then◌else◌, is_some,
}

-- A dictionary of oFono's GetOperators, as far as it is read.
pub record Operator : Type 0 where
  pub mobile_country_code : Option String
  pub mobile_network_code : Option String
  pub name : Option String

-- A modem may have no network registration, and its operators may not be read.
abbrev pub Operators : Type 0
Operators = List (Option (List Operator))

-- A name that is empty counts as none.
unfoldable pub unless_empty : Option String → Option String → Option String
unless_empty none d = d
unless_empty (some n) d = if n == "" then d else some n

-- The codes are texts of digits.
module _ (strtoll : String → ℕ) (mbpi_get_name : ℕ → ℕ → Option String) where
  unfoldable pub has_code : ℕ → Option String → Bool
  has_code n none = false
  has_code n (some s) = n == strtoll s

  -- The inner loop.
  unfoldable pub name_in : ℕ → ℕ → List Operator → Option String
  unfolding has_code
  name_in mcc mnc [] = none
  name_in mcc mnc (o ∷ os) =
      let rest = name_in mcc mnc os in
      if has_code mcc o.mobile_country_code && has_code mnc o.mobile_network_code && is_some o.name
      then o.name
      else rest

  -- The outer loop, over the modems.
  unfoldable pub name_of : ℕ → ℕ → Operators → Option String
  unfolding name_in
  name_of mcc mnc [] = none
  name_of mcc mnc (none ∷ ms) = name_of mcc mnc ms
  name_of mcc mnc (some os ∷ ms) = elim (name_in mcc mnc os) [
    | none ↦ name_of mcc mnc ms
    | some n ↦ some n
  ]

  -- `connui_cell_net_get_operator_name`; the codes are kept as guints.
  unfoldable pub get_operator_name : String → String → Operators → Option String
  unfolding name_of unless_empty
  get_operator_name country_code operator_code ms =
      let mcc = strtoll country_code % 2 ^ 32 in
      let mnc = strtoll operator_code % 2 ^ 32 in
      unless_empty (name_of mcc mnc ms) (unless_empty (mbpi_get_name mcc mnc) none)
