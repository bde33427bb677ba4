-- ===== src/Sim/Security.antt =====
-- The operations of lib/sim.c on security codes. They ask the registered clients for codes, send
-- requests to oFono's SIM manager, and report to the client that answered.
-- oFono and the clients are the parameter `Service`: either may also change the `sim_data`, since a
-- client's dialog runs the main loop. A failed `g_assert` ends the program, here `none`.
pub mod Safety
pub mod Change
pub mod Enabled
mod Tests
use connui_cellular.Prelude.{
  ℕ, ◌+◌, String, Bool, true, false, not, ◌&&◌, ◌||◌, Option, none, some, List, [], ◌∷◌, ◌==◌,
  string_eq, is_some, if◌then◌else◌,
}
use connui_cellular.Errors.{GError, connui, not_active, invalid_args, canceled}
use connui_cellular.Glib.{Variants}
use connui_cellular.Sim.{
  CodeType, unasked, nothing, pin, puk, pin2, puk2, unsupported, SimData, ok_pin_required,
  ok_puk_required, get_status, get_pin_required,
}
use connui_cellular.Sim.Signals.{wants_code}

-- The methods of org.ofono.SimManager that are called, with their arguments.
pub data Request : Type 0 where
  enter_pin : String → String → Request
  change_pin : String → String → String → Request
  lock_pin : String → String → Request
  unlock_pin : String → String → Request

-- The variables behind the pointers that a query hands to the clients.
pub record Slots : Type 0 where
  pub old : Option String
  pub new : Option String
  pub query_cb : Option ℕ
  pub query_user_data : ℕ

abbrev pub no_slots : Slots
no_slots = record { old = none; new = none; query_cb = none; query_user_data = 0 }

-- oFono and the clients, over the states `R` of both. A request answers with its error, if any.
pub record Service (g : Variants) (R : Type 0) : Type 0 where
  pub send : Request → R → Option GError × R
  pub get_property : String → R → Option (Variants.Variant g) × R
  pub query : CodeType → Bool → Slots → SimData × R → Slots × SimData × R
  pub report : ℕ → CodeType → Bool → Option GError → SimData × R → SimData × R

-- What the file does to the outside, as it happens.
pub data Entry : Type 0 where
  sent : Request → Option GError → Entry
  queried : CodeType → Bool → Entry
  reported : CodeType → Bool → Option GError → Entry

pub record World (R : Type 0) : Type 0 where
  pub sd : SimData
  pub remote : R
  pub log : List Entry  -- the latest first

abbrev pub M : Type 0 → Type 0 → Type 0
M R A = World R → Option (A × World R)

infixl 5 ◌>>=◌
abbrev pub ◌>>=◌ : {R A B : Type 0} → M R A → (A → M R B) → M R B
◌>>=◌ m f w = elim (m w) [ none ↦ none | some (a, w') ↦ f a w' ]

abbrev pub pure : {R A : Type 0} → A → M R A
pure a w = some (a, w)

abbrev pub abort : {R A : Type 0} → M R A
abort w = none

-- The error pointer of a failed call keeps the first error.
abbrev pub first_error : Option GError → Option GError → Option GError
first_error (some e) f = some e
first_error none f = f

-- The switch of `verify_code`, where any other type is not reached.
abbrev pub code_name : CodeType → Option String
code_name pin = some "pin"
code_name puk = some "puk"
code_name pin2 = some "pin2"
code_name puk2 = some "puk2"
code_name _ = none

abbrev pub pin_request : String → String → Option String → Request
pin_request name old none = enter_pin name old
pin_request name old (some new) = change_pin name old new

-- The types that may be changed or activated.
abbrev pub is_pin : CodeType → Bool
is_pin pin = true
is_pin pin2 = true
is_pin _ = false

module _ {g : Variants} {R : Type 0} (s : Service g R) where
  unfoldable pub request : Request → M R (Option GError)
  request q w =
      let (e, r) = s.send q w.remote in some (e, record w { remote = r; log = sent q e ∷ w.log })

  -- `sec_code_query`, where a NULL `new_code` cannot be written through.
  unfoldable pub sec_code_query : CodeType → Bool → Slots → M R Slots
  sec_code_query ty wants_new slots w =
      let (slots', sd', r) = s.query ty wants_new slots (w.sd, w.remote) in
      some (
        (if wants_new then slots' else record slots' { new = slots.new }),
        record { sd = sd'; remote = r; log = queried ty wants_new ∷ w.log },
      )

  -- `sec_code_cb`
  sec_code_cb_of : Option ℕ → CodeType → Bool → Option GError → M R Bool
  sec_code_cb_of none ty ok e w = some (false, w)
  sec_code_cb_of (some cb) ty ok e w =
      let (sd', r) = s.report cb ty ok e (w.sd, w.remote) in
      some (true, record { sd = sd'; remote = r; log = reported ty ok e ∷ w.log })

  unfoldable pub sec_code_cb : Slots → CodeType → Bool → Option GError → M R Bool
  unfolding sec_code_cb_of
  sec_code_cb slots = sec_code_cb_of slots.query_cb

  -- `_get_property` for PinRequired, and `_get_pin_required` on what it returns.
  unfoldable pub refresh_pin_required : M R Bool
  refresh_pin_required w =
      let (v, r) = s.get_property "PinRequired" w.remote in
      some (is_some v, record w { sd = get_pin_required g v w.sd; remote = r })

  verify_named : Option String → CodeType → String → Option String → Slots → M R (Option GError)
  unfolding request refresh_pin_required sec_code_cb
  verify_named none ty old new slots = abort
  verify_named (some name) ty old new slots = do
    e ← request (pin_request name old new)
    got ← refresh_pin_required
    told ← sec_code_cb slots ty (not (is_some e)) e
    pure e

  -- `verify_code`: its error, which is none just if it returns TRUE.
  unfoldable pub verify_code : CodeType → String → Option String → Slots → M R (Option GError)
  unfolding verify_named
  verify_code ty = verify_named (code_name ty) ty

  verify_answer : CodeType → Option String → Slots → M R Bool
  unfolding verify_code
  verify_answer ty none slots = pure false
  verify_answer ty (some old) slots = do e ← verify_code ty old slots.new slots; pure true

  -- The query with no `new_code`.
  query_old : CodeType → Slots → M R Bool
  unfolding verify_answer sec_code_query
  query_old ty slots = do slots' ← sec_code_query ty false slots; verify_answer ty slots'.old slots'

  query_both : CodeType → M R Bool
  unfolding verify_answer sec_code_query query_old
  query_both ty = do
    slots ← sec_code_query ty true no_slots
    if is_some slots.old then verify_answer ty slots.old slots else query_old ty slots

  verify_required : CodeType → M R Bool
  unfolding query_old query_both
  verify_required unasked = abort
  verify_required nothing = abort
  verify_required unsupported = abort
  verify_required puk = query_both puk
  verify_required puk2 = query_both puk2
  verify_required pin = query_old pin no_slots
  verify_required pin2 = query_old pin2 no_slots

  -- `verify_required_pin`; the result says whether a code was verified.
  unfoldable pub verify_required_pin : M R Bool
  unfolding verify_required
  verify_required_pin w = verify_required w.sd.pin_required w

  -- `_idle_notify_security_code`
  unfoldable pub idle_notify_security_code : M R Bool
  unfolding verify_required_pin get_status
  idle_notify_security_code w =
      let w' = record w { sd = record w.sd { idle_security_code_id = 0 } } in
      if wants_code (get_status w.sd) then verify_required_pin w' else some (false, w')

  -- The end of the three operations below: the report, and the result with its error.
  pub finish : Slots → CodeType → Bool → Option GError → M R (Bool × Option GError)
  unfolding sec_code_cb
  finish slots ty rv e = do told ← sec_code_cb slots ty rv e; pure (rv, e)

  set_lock : Bool → String → Option String → Slots → CodeType → M R (Bool × Option GError)
  unfolding finish request
  set_lock active name none slots ty = finish slots ty false (some (connui canceled))
  set_lock active name (some code) slots ty = do
    e ← request (if active then lock_pin name code else unlock_pin name code)
    finish slots ty (not (is_some e)) e

  -- `connui_cell_security_code_set_enabled`, on a modem with a SIM manager.
  unfoldable pub set_enabled : Bool → M R (Bool × Option GError)
  unfolding set_lock sec_code_query
  set_enabled active = do
    slots ← sec_code_query pin false no_slots
    set_lock active "pin" slots.old slots pin

  -- `connui_cell_security_code_set_active`; `registered` is `ctx->sec_code_cbs != NULL`.
  unfoldable pub set_active : Bool → CodeType → M R (Bool × Option GError)
  unfolding set_lock sec_code_query
  set_active registered ty =
      if not registered
      then pure (false, some (connui not_active))
      else if not (is_pin ty)
      then pure (false, some (connui invalid_args))
      else do
        slots ← sec_code_query ty false no_slots
        set_lock true (elim ty [ pin ↦ "pin" | _ ↦ "pin2" ]) slots.old slots ty
