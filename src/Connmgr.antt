-- ===== src/Connmgr.antt =====
-- lib/connmgr.c: the state of a modem's connection manager, its notification and its settings.
pub mod Served
mod Tests
use connui_cellular.Prelude.{
  String, Bool, true, false, Option, none, some, inl, inr, ◌⊎◌, ◌==◌, string_eq, if◌then◌else◌,
  Table, lookup,
}
use connui_cellular.Errors.{GError, connui, not_found}
use connui_cellular.Glib.{Variants}
use connui_cellular.Types.{
  Bearer, bearer_unknown, no_bearer, gprs, edge, umts_bearer, hspda, hsupa, hspa, lte_bearer,
}
use connui_cellular.Notifier.{Object}

-- cell_connection_status
pub record Status : Type 0 where
  pub attached : Bool
  pub bearer : Bearer
  pub suspended : Bool
  pub roaming_allowed : Bool
  pub powered : Bool

-- `_cm_data_create`
abbrev pub create : Status
create = record {
  attached = false;
  bearer = bearer_unknown;
  suspended = false;
  roaming_allowed = false;
  powered = false;
}

-- `_bearer`
unfoldable pub bearer_of : String → Bearer
bearer_of s =
    if s == "none"
    then no_bearer
    else if s == "gprs"
    then gprs
    else if s == "edge"
    then edge
    else if s == "umts"
    then umts_bearer
    else if s == "hsdpa"
    then hspda
    else if s == "hsupa"
    then hsupa
    else if s == "hspa"
    then hspa
    else if s == "lte"
    then lte_bearer
    else bearer_unknown

module _ (g : Variants) where
  open g use {Variant, get_boolean, get_string}

  -- `_parse_property`
  unfoldable pub parse_property : String → Variant → Status → Status
  unfolding bearer_of
  parse_property name v s =
      if name == "Attached"
      then record s { attached = get_boolean v }
      else if name == "Powered"
      then record s { powered = get_boolean v }
      else if name == "Suspended"
      then record s { suspended = get_boolean v }
      else if name == "RoamingAllowed"
      then record s { roaming_allowed = get_boolean v }
      else if name == "Bearer"
      then record s { bearer = bearer_of (get_string v) }
      else s

  -- `_property_changed_cb` notifies for every property.
  abbrev pub connmgr : Object (String × Variant) Status Status
  unfolding parse_property
  connmgr = record { apply = λ e s. (true, parse_property e.0 e.1 s); view = λ s. s }

-- The modems of the context, each with the connection manager that it may have.
abbrev pub Modems : Type 0
Modems = Table String (Option Status)

-- `_cm_data_get`
unfoldable pub get_data : String → Modems → GError ⊎ Status
unfolding lookup
get_data path ms = elim (lookup path ms) [
  | none ↦ inl (connui not_found)
  | some none ↦ inl (connui not_found)
  | some (some s) ↦ inr s
]

-- `_set_property`: what oFono is asked to do, or the error. `answer` is oFono's.
unfoldable pub set_property :
    {R : Type 0}
    → (String → String → Bool → R → Option GError × R)
    → String
    → String
    → Bool
    → Modems
    → R
    → Option GError × R
unfolding get_data
set_property answer path name value ms r = elim (get_data path ms) [
  | inl e ↦ (some e, r)
  | inr s ↦ answer path name value r
]

-- `connui_cell_connection_set_roaming_allowed`, `connui_cell_connection_set_powered`
unfoldable pub set_roaming_allowed :
    {R : Type 0}
    → (String → String → Bool → R → Option GError × R)
    → String
    → Bool
    → Modems
    → R
    → Option GError × R
unfolding set_property
set_roaming_allowed answer path value ms r = set_property answer path "RoamingAllowed" value ms r

unfoldable pub set_powered :
    {R : Type 0}
    → (String → String → Bool → R → Option GError × R)
    → String
    → Bool
    → Modems
    → R
    → Option GError × R
unfolding set_property
set_powered answer path value ms r = set_property answer path "Powered" value ms r
