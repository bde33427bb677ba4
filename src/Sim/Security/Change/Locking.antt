-- ===== src/Sim/Security/Change/Locking.antt =====
-- The requests of a PIN change, in order, and the result that goes with them.
use connui_cellular.Prelude.{
  String, ◌≡◌, refl, Bool, true, false, not, ◌||◌, Option, none, some, List, ◌∷◌, ◌++◌, is_some,
  if◌then◌else◌, ◌⊎◌, inl, inr, Bool-cases,
}
use connui_cellular.Errors.{GError, connui, not_active, invalid_args, canceled}
use connui_cellular.Glib.{Variants}
use connui_cellular.Sim.{CodeType, pin, pin2}
use connui_cellular.Sim.Security.{
  Service, Slots, no_slots, World, Entry, sent, queried, first_error, code_name, change_pin,
  lock_pin, unlock_pin, request, sec_code_query, sec_code_cb, verify_code, finish, is_pin,
}
use connui_cellular.Sim.Security.Safety.{
  Returns, Returns-bind, asked_slots, asked_world, report_of, request-Returns, verify_code-Returns,
  sec_code_cb-Returns,
}
use connui_cellular.Sim.Security.Change.{
  is_pin1, filled, unlock_after, locked_change, relock_change, plain_change, change_codes,
  asked_change, change,
}

-- What `change_codes` may do: with the code type `ty`, the type `active` that the SIM asks for, and
-- the slots that the client filled, the result, and the log after and before.
pub data Body (ty active : CodeType) (slots : Slots) (before : List Entry)
    (result : Bool × Option GError) (after : List Entry) : Type 0 where
  -- no old code, or no new one: nothing is sent
  without_codes :
      (slots.old ≡ none) ⊎ (filled slots.new ≡ none)
      → result ≡ (false, some (connui canceled))
      → after ≡ before
      → Body ty active slots before result after
  -- the code that is asked for, or a PIN2: one request, and its outcome
  plain :
      (name old new : String) (e : Option GError)
      → (is_pin1 active || not (is_pin1 ty)) ≡ true
      → code_name ty ≡ some name
      → slots.old ≡ some old
      → filled slots.new ≡ some new
      → result ≡ (not (is_some e), e)
      → after
        ≡ report_of slots.query_cb ty (not (is_some e)) e
          ++ sent (change_pin name old new) e ∷ before
      → Body ty active slots before result after
  -- the PIN could not be switched on
  not_locked :
      (old : String) (e : GError)
      → (is_pin1 active || not (is_pin1 ty)) ≡ false
      → slots.old ≡ some old
      → result ≡ (false, some e)
      → after ≡ sent (lock_pin "pin" old) (some e) ∷ before
      → Body ty active slots before result after
  -- the PIN was switched on: the change is tried, and the PIN is switched off with the new code if
  -- the change was made, and with the old code if not
  relocked :
      (old new : String) (e f : Option GError)
      → (is_pin1 active || not (is_pin1 ty)) ≡ false
      → slots.old ≡ some old
      → filled slots.new ≡ some new
      → result ≡ (not (is_some f), first_error e f)
      → after
        ≡ sent (unlock_pin "pin" (if is_some e then old else new)) f
          ∷ (report_of slots.query_cb pin (not (is_some e)) e
              ++ sent (change_pin "pin" old new) e ∷ sent (lock_pin "pin" old) none ∷ before)
      → Body ty active slots before result after

module _ {g : Variants} {R : Type 0} (s : Service g R) (ty : CodeType) (slots : Slots) where
  abbrev Did : CodeType → List Entry → Bool × Option GError → World R → Type 0
  Did active before result w' = Body ty active slots before result w'.log

  plain-Returns :
      (name old new : String) (w : World R)
      → (is_pin1 w.sd.pin_required || not (is_pin1 ty)) ≡ true
      → code_name ty ≡ some name
      → slots.old ≡ some old
      → filled slots.new ≡ some new
      → Returns (plain_change s ty old new slots w) (Did w.sd.pin_required w.log)
  unfolding plain_change
  plain-Returns name old new w a c o n =
      Returns-bind (verify_code s ty old (some new) slots) _ w
        (verify_code-Returns s name ty old (some new) slots w c)
        λ e w' v. (_, w', refl, plain name old new e a c o n refl v)

  unlock-Returns :
      (active : CodeType) (old new : String) (e : Option GError) (before : List Entry) (w : World R)
      → (is_pin1 active || not (is_pin1 ty)) ≡ false
      → slots.old ≡ some old
      → filled slots.new ≡ some new
      → w.log
        ≡ report_of slots.query_cb pin (not (is_some e)) e
          ++ sent (change_pin "pin" old new) e ∷ sent (lock_pin "pin" old) none ∷ before
      → Returns (unlock_after s old new e w) (Did active before)
  unfolding unlock_after
  unlock-Returns active old new e before w a o n l =
      Returns-bind (request s (unlock_pin "pin" (if is_some e then old else new))) _ w
        (request-Returns s _ w)
        λ f w' (logged, _). (_, w', refl, relocked old new e f a o n refl (rw (logged, l) refl))

  locked-Returns :
      (active : CodeType) (old new : String) (e : Option GError) (before : List Entry) (w : World R)
      → (is_pin1 active || not (is_pin1 ty)) ≡ false
      → slots.old ≡ some old
      → filled slots.new ≡ some new
      → w.log ≡ sent (lock_pin "pin" old) e ∷ before
      → Returns (locked_change s old new slots e w) (Did active before)
  unfolding locked_change
  locked-Returns active old new (some e) before w a o n l =
      (_, w, refl, not_locked old e a o refl l)
  locked-Returns active old new none before w a o n l =
      Returns-bind (verify_code s pin old (some new) slots) _ w
        (verify_code-Returns s "pin" pin old (some new) slots w refl)
        λ e w' v. unlock-Returns active old new e before w' a o n (rw (v, l) refl)

  relock-Returns :
      (old new : String) (w : World R)
      → (is_pin1 w.sd.pin_required || not (is_pin1 ty)) ≡ false
      → slots.old ≡ some old
      → filled slots.new ≡ some new
      → Returns (relock_change s old new slots w) (Did w.sd.pin_required w.log)
  unfolding relock_change
  relock-Returns old new w a o n =
      Returns-bind (request s (lock_pin "pin" old)) _ w (request-Returns s (lock_pin "pin" old) w)
        λ e w' (logged, _). locked-Returns w.sd.pin_required old new e w.log w' a o n logged

  named : is_pin ty ≡ true → (name : String) × (code_name ty ≡ some name)
  named h = named_of ty h
    where
      named_of : (t : CodeType) → is_pin t ≡ true → (name : String) × (code_name t ≡ some name)
      named_of pin e = ("pin", refl)
      named_of pin2 e = ("pin2", refl)
      named_of _ e = cc

  codes-Returns :
      (old new : Option String) (w : World R)
      → is_pin ty ≡ true
      → slots.old ≡ old
      → filled slots.new ≡ new
      → Returns (change_codes s ty old new slots w) (Did w.sd.pin_required w.log)
  unfolding change_codes
  codes-Returns none new w h o n = (_, w, refl, without_codes (inl o) refl refl)
  codes-Returns (some old) none w h o n = (_, w, refl, without_codes (inr n) refl refl)
  codes-Returns (some old) (some new) w h o n =
      elim (Bool-cases (is_pin1 w.sd.pin_required || not (is_pin1 ty))) [
        | inl a ↦ rw a (plain-Returns (named h).0 old new w a (named h).1 o n)
        | inr a ↦ rw a (relock-Returns old new w a o n)
      ]

-- What a call of `change` does in a world.
pub data Run {g : Variants} {R : Type 0} (s : Service g R) (registered : Bool) (ty : CodeType)
    (w : World R) (result : Bool × Option GError) (w' : World R) : Type 0 where
  -- with no callback registered, or a type that is no PIN, nothing happens
  inactive :
      registered ≡ false
      → result ≡ (false, some (connui not_active))
      → w' ≡ w
      → Run s registered ty w result w'
  invalid :
      registered ≡ true
      → is_pin ty ≡ false
      → result ≡ (false, some (connui invalid_args))
      → w' ≡ w
      → Run s registered ty w result w'
  -- the clients are asked, the change runs with the slots that they fill and the code that the SIM then
  -- asks for, and the client that answered is told the result
  asked :
      (after : List Entry)
      → registered ≡ true
      → is_pin ty ≡ true
      → Body ty
          (asked_world s ty true no_slots w).sd.pin_required
          (asked_slots s ty true no_slots w)
          (queried ty true ∷ w.log)
          result
          after
      → w'.log ≡ report_of (asked_slots s ty true no_slots w).query_cb ty result.0 result.1 ++ after
      → Run s registered ty w result w'

module _ {g : Variants} {R : Type 0} (s : Service g R) where
  asked-Returns :
      (ty : CodeType) (w : World R)
      → is_pin ty ≡ true
      → Returns (asked_change s ty w) (Run s true ty w)
  unfolding asked_change finish sec_code_query
  asked-Returns ty w h =
      let slots = asked_slots s ty true no_slots w in
      let w₁ = asked_world s ty true no_slots w in
      Returns-bind (change_codes s ty slots.old (filled slots.new) slots) _ w₁
        (codes-Returns s ty slots slots.old (filled slots.new) w₁ h refl refl)
        λ result w₂ body.
          Returns-bind (sec_code_cb s slots ty result.0 result.1) _ w₂
            (sec_code_cb-Returns s slots ty result.0 result.1 w₂)
            λ told w₃ wrote. (result, w₃, refl, asked w₂.log refl h body wrote)

  -- Whatever oFono and the clients answer, `connui_cell_security_code_change` ends (no assertion
  -- fails), and does one of the things that `Run` lists: it refuses without a callback or for a
  -- type that is no PIN; else it asks for the codes, and if the clients' answer lacks one sends nothing
  -- and returns CANCELED; else, for the code that the SIM asks for or a PIN2, it sends one change and returns
  -- its outcome; else it switches the PIN on, and if that succeeds tries the change and switches
  -- the PIN off with the code then in force, new or old, returning the outcome of the last; and
  -- it tells the client that answered what it returns.
  pub change-Returns :
      (registered : Bool) (ty : CodeType) (w : World R)
      → Returns (change s registered ty w) (Run s registered ty w)
  unfolding change
  change-Returns false ty w = (_, w, refl, inactive refl refl refl)
  change-Returns true ty w = elim (Bool-cases (is_pin ty)) [
    | inl h ↦ rw h (asked-Returns ty w h)
    | inr h ↦ rw h (_, w, refl, invalid refl h refl refl)
  ]
