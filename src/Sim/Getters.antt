-- ===== src/Sim/Getters.antt =====
-- lib/sim.c: what clients ask of a SIM by the path of its modem. `properties` is what oFono answers to
-- GetProperties, as far as the property that is looked up in it.
pub mod Answered
use connui_cellular.Prelude.{
  ℕ, ◌≡◌, refl, sym, ap, ◌∙◌, String, Bool, true, false, ◌||◌, Option, none, some, List, [], ◌∷◌,
  ◌==◌, string_eq, if◌then◌else◌, inl, inr, ◌⊎◌, Table, lookup, arith,
}
use connui_cellular.Errors.{GError, connui, not_found, invalid_args}
use connui_cellular.Sim.{
  SimData, SimStatus, unknown, CodeType, unasked, nothing, pin, puk, pin2, puk2, unsupported,
  get_status, get_locked_pins,
}
use connui_cellular.Sim.LockedPins.{any_of, four, locked_pin-get_locked_pins}

-- The modems of the context; one may have no SIM manager.
abbrev pub Modems : Type 0
Modems = Table String (Option SimData)

-- `_sim_data_get`: the error, and the data or NULL.
unfoldable pub sim_data_get : String → Modems → Option GError × Option SimData
unfolding lookup
sim_data_get path ms = elim (lookup path ms) [
  | none ↦ (some (connui not_found), none)
  | some o ↦ (none, o)
]

-- The macro GET, and the functions that write it out.
abbrev field_or {ℓ} : {A : Type ℓ} → (SimData → A) → A → Option SimData → A
field_or field default none = default
field_or field default (some sd) = field sd

unfoldable pub get {ℓ} : {A : Type ℓ} → (SimData → A) → A → String → Modems → A × Option GError
unfolding sim_data_get
get field default path ms = let (e, sd) = sim_data_get path ms in (field_or field default sd, e)

-- `connui_cell_sim_get_service_provider` and the others that are made of it
unfoldable pub get_service_provider : String → Modems → Option String × Option GError
unfolding get
get_service_provider = get (λ sd. sd.spn) none

unfoldable pub get_imsi : String → Modems → Option String × Option GError
unfolding get
get_imsi = get (λ sd. sd.imsi) none

unfoldable pub get_present : String → Modems → Bool × Option GError
unfolding get
get_present = get (λ sd. sd.present) false

-- `connui_cell_sim_get_status`
unfoldable pub get_sim_status : String → Modems → SimStatus × Option GError
unfolding get get_status
get_sim_status = get get_status unknown

-- `connui_cell_security_code_get_active`
unfoldable pub get_active : String → Modems → CodeType × Option GError
unfolding get
get_active = get (λ sd. sd.pin_required) unasked

abbrev is_needed : CodeType → Bool
is_needed unasked = false
is_needed nothing = false
is_needed ty = true

-- `connui_cell_sim_needs_pin`
unfoldable pub needs_pin : String → Modems → Bool × Option GError
unfolding get
needs_pin = get (λ sd. is_needed sd.pin_required) false

-- `sd->locked_pin[code_type - 1]`
abbrev flag_of : CodeType → List Bool → Bool
flag_of pin (a ∷ bs) = a
flag_of puk (a ∷ b ∷ bs) = b
flag_of pin2 (a ∷ b ∷ c ∷ bs) = c
flag_of puk2 (a ∷ b ∷ c ∷ d ∷ bs) = d
flag_of ty bs = false

abbrev in_range : CodeType → Bool
in_range unasked = false
in_range nothing = false
in_range unsupported = false
in_range ty = true

-- `connui_cell_security_code_get_enabled`, which refuses other codes with no error
unfoldable pub get_enabled : CodeType → String → Modems → Bool × Option GError
unfolding get
get_enabled ty path ms =
    if in_range ty then get (λ sd. flag_of ty sd.locked_pin) false path ms else (false, none)

-- The names of the hash table of `connui_cell_sim_is_locked`.
abbrev pub device_locks : List String
device_locks =
    "phone" ∷ "firstphone" ∷ "network" ∷ "netsub" ∷ "service" ∷ "corp" ∷ "firstphonepuk"
    ∷ "networkpuk" ∷ "netsubpuk" ∷ "servicepuk" ∷ "corppuk" ∷ []

-- The loop over the property.
unfoldable pub any_lock : List String → Bool
any_lock [] = false
any_lock (p ∷ ps) = let rest = any_lock ps in if any_of p device_locks then true else rest

-- A property of type P that oFono is asked for, or why it is not there.
abbrev property_error {ℓ} : {P : Type ℓ} → GError ⊎ Option P → Option GError
property_error (inl e) = some e
property_error (inr none) = some (connui not_found)
property_error (inr (some v)) = none

abbrev locked_by : GError ⊎ Option (List String) → Bool × Option GError
unfolding any_lock
locked_by (inr (some pins)) = (any_lock pins, none)
locked_by o = (false, property_error o)

-- `connui_cell_sim_is_locked`; the first error that is set stays.
unfoldable pub is_locked :
    (String → GError ⊎ Option (List String)) → String → Modems → Bool × Option GError
unfolding sim_data_get any_lock
is_locked properties path ms =
    let (e, o) = sim_data_get path ms in
    elim o [ none ↦ (false, e) | some sd ↦ locked_by (properties path) ]

abbrev retry_name : CodeType → Option String
retry_name pin = some "pin"
retry_name puk = some "puk"
retry_name pin2 = some "pin2"
retry_name puk2 = some "puk2"
retry_name ty = none

abbrev count_or_zero : Option ℕ → ℕ
count_or_zero none = 0
count_or_zero (some n) = n

abbrev attempts_in : Option String → Table String ℕ → ℕ × Option GError
unfolding lookup
attempts_in none retries = (0, some (connui invalid_args))
attempts_in (some name) retries = (count_or_zero (lookup name retries), none)

abbrev attempts_by : CodeType → GError ⊎ Option (Table String ℕ) → ℕ × Option GError
unfolding lookup
attempts_by ty (inr (some retries)) = attempts_in (retry_name ty) retries
attempts_by ty o = (0, property_error o)

-- `connui_cell_sim_verify_attempts_left`; a code without an entry has none left, with no error.
unfoldable pub verify_attempts_left :
    (String → GError ⊎ Option (Table String ℕ)) → CodeType → String → Modems → ℕ × Option GError
unfolding sim_data_get lookup
verify_attempts_left properties ty path ms =
    let (e, o) = sim_data_get path ms in
    elim o [ none ↦ (0, e) | some sd ↦ attempts_by ty (properties path) ]

-- `connui_cell_sim_deactivate_lock`; `unlock_pin` is oFono's UnlockPin of a kind of lock with a code.
unfoldable pub deactivate_lock :
    (String → Option String → String → Bool × Option GError)
    → String
    → String
    → Modems
    → Bool × Option GError
unfolding sim_data_get
deactivate_lock unlock_pin path code ms =
    let (e, o) = sim_data_get path ms in
    elim o [ none ↦ (false, e) | some sd ↦ unlock_pin path sd.pin_required_s code ]
