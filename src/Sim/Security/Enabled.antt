-- ===== src/Sim/Security/Enabled.antt =====
-- Switching the PIN query on and off: `connui_cell_security_code_set_enabled` and
-- `connui_cell_security_code_set_active` of lib/sim.c.
use connui_cellular.Prelude.{
  String, ◌≡◌, refl, ap, ◌∙◌, Bool, true, false, not, Option, none, some, ◌∷◌, ◌++◌, is_some,
  if◌then◌else◌,
}
use connui_cellular.Errors.{GError, connui, not_active, invalid_args, canceled}
use connui_cellular.Glib.{Variants}
use connui_cellular.Sim.{CodeType, unasked, nothing, pin, puk, pin2, puk2, unsupported}
use connui_cellular.Sim.Security.{
  Service, Slots, no_slots, World, Request, sent, queried, ◌>>=◌, lock_pin, unlock_pin, request,
  sec_code_query, sec_code_cb, finish, set_lock, set_enabled, set_active, is_pin,
}
use connui_cellular.Sim.Security.Change.{is_pin1}
use connui_cellular.Sim.Security.Safety.{
  Returns, Returns-bind, asked_slots, asked_world, report_of, request-Returns, sec_code_cb-Returns,
}

-- The request to switch the query of a PIN on or off.
abbrev pub lock_request : Bool → String → String → Request
lock_request active name code = if active then lock_pin name code else unlock_pin name code

-- The clients are asked for the old code alone. Without it in the slots that they fill nothing is sent
-- and the result is CANCELED; with it one request is sent, whose outcome is the result. The client
-- that answered is told the result.
pub data LockRun {g : Variants} {R : Type 0} (s : Service g R) (active : Bool) (name : String)
    (ty : CodeType) (w : World R) (result : Bool × Option GError) (w' : World R) : Type 0 where
  without_code :
      (asked_slots s ty false no_slots w).old ≡ none
      → result ≡ (false, some (connui canceled))
      → w'.log
        ≡ report_of (asked_slots s ty false no_slots w).query_cb ty false (some (connui canceled))
          ++ queried ty false ∷ w.log
      → LockRun s active name ty w result w'
  with_code :
      (code : String) (e : Option GError)
      → (asked_slots s ty false no_slots w).old ≡ some code
      → result ≡ (not (is_some e), e)
      → w'.log
        ≡ report_of (asked_slots s ty false no_slots w).query_cb ty (not (is_some e)) e
          ++ sent (lock_request active name code) e ∷ queried ty false ∷ w.log
      → LockRun s active name ty w result w'

-- What `set_active` does: a refusal that changes nothing, or the switch of a PIN or a PIN2.
abbrev pub ActiveRun :
    {g : Variants} {R : Type 0}
    → Service g R
    → Bool
    → CodeType
    → World R
    → Bool × Option GError
    → World R
    → Type 0
ActiveRun s registered ty w result w' =
    if not registered
    then (result ≡ (false, some (connui not_active))) × (w' ≡ w)
    else if not (is_pin ty)
    then (result ≡ (false, some (connui invalid_args))) × (w' ≡ w)
    else LockRun s true (if is_pin1 ty then "pin" else "pin2") ty w result w'

module _ {g : Variants} {R : Type 0} (s : Service g R) where
  finish-Returns :
      (slots : Slots) (ty : CodeType) (rv : Bool) (e : Option GError) (w : World R)
      → Returns
          (finish s slots ty rv e w)
          (λ r w'. (r ≡ (rv, e)) × (w'.log ≡ report_of slots.query_cb ty rv e ++ w.log))
  unfolding finish
  finish-Returns slots ty rv e w =
      Returns-bind (sec_code_cb s slots ty rv e) _ w (sec_code_cb-Returns s slots ty rv e w)
        λ told w' wrote. (_, w', refl, (refl, wrote))

  lock-Returns :
      (active : Bool) (name : String) (old : Option String) (ty : CodeType) (w : World R)
      → (asked_slots s ty false no_slots w).old ≡ old
      → Returns
          (set_lock s active name old
            (asked_slots s ty false no_slots w)
            ty
            (asked_world s ty false no_slots w))
          (LockRun s active name ty w)
  unfolding set_lock
  lock-Returns active name none ty w o =
      let slots = asked_slots s ty false no_slots w in
      let (r, w', e, h) =
        finish-Returns slots ty false (some (connui canceled))
          (asked_world s ty false no_slots w) in
      (r, w', e, without_code o h.0 h.1)
  lock-Returns active name (some code) ty w o =
      let slots = asked_slots s ty false no_slots w in
      let asked = asked_world s ty false no_slots w in
      Returns-bind (request s (lock_request active name code)) _ asked
        (request-Returns s (lock_request active name code) asked)
        λ f w₁ (logged, _).
          let (r, w', e, h) = finish-Returns slots ty (not (is_some f)) f w₁ in
          (
            r,
            w',
            e,
            with_code code f o h.0
                (h.1 ∙ ap (λ l. report_of slots.query_cb ty (not (is_some f)) f ++ l) logged),
          )

  asked-Returns :
      (active : Bool) (name : String) (ty : CodeType) (w : World R)
      → Returns
          ((sec_code_query s ty false no_slots >>= λ slots.
              set_lock s active name slots.old slots ty)
            w)
          (LockRun s active name ty w)
  unfolding sec_code_query
  asked-Returns active name ty w = lock-Returns active name _ ty w refl

  -- `connui_cell_security_code_set_enabled` on a modem with a SIM manager ends, whatever oFono and the
  -- clients answer: it asks for the old code of the PIN; without one it sends nothing, and returns
  -- FALSE with CANCELED; with one it sends LockPin or UnlockPin, as `active` says, and returns whether
  -- that succeeded, with its error; and it tells the client that answered what it returns.
  pub set_enabled-Returns :
      (active : Bool) (w : World R)
      → Returns (set_enabled s active w) (LockRun s active "pin" pin w)
  unfolding set_enabled
  set_enabled-Returns active = asked-Returns active "pin" pin

  -- `connui_cell_security_code_set_active` ends as well. With no callback registered, or for a type
  -- that is no PIN, it changes nothing and returns NOT_ACTIVE or INVALID_ARGS; else it asks for the
  -- old code, and does with LockPin for the name of the type what `set_enabled` does for the PIN.
  pub set_active-Returns :
      (registered : Bool) (ty : CodeType) (w : World R)
      → Returns (set_active s registered ty w) (ActiveRun s registered ty w)
  unfolding set_active
  set_active-Returns false ty w = (_, w, refl, (refl, refl))
  set_active-Returns true pin w = asked-Returns true "pin" pin w
  set_active-Returns true pin2 w = asked-Returns true "pin2" pin2 w
  set_active-Returns true unasked w = (_, w, refl, (refl, refl))
  set_active-Returns true nothing w = (_, w, refl, (refl, refl))
  set_active-Returns true puk w = (_, w, refl, (refl, refl))
  set_active-Returns true puk2 w = (_, w, refl, (refl, refl))
  set_active-Returns true unsupported w = (_, w, refl, (refl, refl))
