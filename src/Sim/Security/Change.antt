-- ===== src/Sim/Security/Change.antt =====
-- `connui_cell_security_code_change` of lib/sim.c: the change of a PIN that may have to be switched
-- on for the time of the change.
pub mod Locking
pub mod Outcome
use connui_cellular.Prelude.{
  String, Bool, true, false, not, ◌&&◌, ◌||◌, Option, none, some, ◌==◌, string_eq, is_some,
  if◌then◌else◌,
}
use connui_cellular.Errors.{GError, connui, not_active, invalid_args, canceled}
use connui_cellular.Glib.{Variants}
use connui_cellular.Sim.{CodeType, pin}
use connui_cellular.Sim.Security.{
  Service, Slots, no_slots, World, M, ◌>>=◌, pure, first_error, lock_pin, unlock_pin, request,
  sec_code_query, verify_code, finish, is_pin,
}

abbrev pub is_pin1 : CodeType → Bool
is_pin1 pin = true
is_pin1 _ = false

-- `new && *new`
abbrev pub filled : Option String → Option String
filled none = none
filled (some c) = if c == "" then none else some c

module _ {g : Variants} {R : Type 0} (s : Service g R) where
  -- The PIN is switched on, changed, and switched off with the code that is then in force. The
  -- result of switching off is the result of the whole.
  unlock_after : String → String → Option GError → M R (Bool × Option GError)
  unfolding request
  unlock_after old new e = do
    f ← request s (unlock_pin "pin" (if is_some e then old else new))
    pure (not (is_some f), first_error e f)

  locked_change : String → String → Slots → Option GError → M R (Bool × Option GError)
  unfolding verify_code unlock_after
  locked_change old new slots (some e) = pure (false, some e)
  locked_change old new slots none = do
    e ← verify_code s pin old (some new) slots
    unlock_after old new e

  relock_change : String → String → Slots → M R (Bool × Option GError)
  unfolding request locked_change
  relock_change old new slots = do e ← request s (lock_pin "pin" old); locked_change old new slots e

  plain_change : CodeType → String → String → Slots → M R (Bool × Option GError)
  unfolding verify_code
  plain_change ty old new slots = do
    e ← verify_code s ty old (some new) slots
    pure (not (is_some e), e)

  -- The code type that is active is read after the query.
  change_codes : CodeType → Option String → Option String → Slots → M R (Bool × Option GError)
  unfolding relock_change plain_change
  change_codes ty none new slots w = some ((false, some (connui canceled)), w)
  change_codes ty (some old) none slots w = some ((false, some (connui canceled)), w)
  change_codes ty (some old) (some new) slots w =
      if is_pin1 w.sd.pin_required || not (is_pin1 ty)
      then plain_change ty old new slots w
      else relock_change old new slots w

  -- A NULL `*old_code` ends the conjunction before `new` is looked at.
  asked_change : CodeType → M R (Bool × Option GError)
  unfolding change_codes sec_code_query finish
  asked_change ty = do
    slots ← sec_code_query s ty true no_slots
    (rv, e) ← change_codes ty slots.old (filled slots.new) slots
    finish s slots ty rv e

  -- `connui_cell_security_code_change` on a modem with a SIM manager; `registered` is
  -- `ctx->sec_code_cbs != NULL`.
  unfoldable pub change : Bool → CodeType → M R (Bool × Option GError)
  unfolding asked_change
  change registered ty =
      if not registered
      then pure (false, some (connui not_active))
      else if not (is_pin ty)
      then pure (false, some (connui invalid_args))
      else asked_change ty
