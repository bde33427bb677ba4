-- ===== src/Sim/Security/Change/Outcome.antt =====
-- What the result of a PIN change says of the PIN.
use mathlib.Core.Path.{subst}
use mathlib.Core.Option.{some_inj}
use connui_cellular.Prelude.{
  sym, ◌∙◌, ℕ, ◌≡◌, ◌↔◌, refl, Bool, true, false, not, ◌&&◌, ◌||◌, Option, none, some, List, [],
  ◌∷◌, ◌++◌, arith, is_some,
}
use connui_cellular.Errors.{GError}
use connui_cellular.Glib.{Variants}
use connui_cellular.Sim.{CodeType, pin}
use connui_cellular.Sim.Security.{
  Service, Slots, no_slots, World, Entry, sent, reported, queried, Request, change_pin, lock_pin,
}
use connui_cellular.Sim.Security.Safety.{Returns, asked_slots, report_of}
use connui_cellular.Sim.Security.Change.{change}
use connui_cellular.Sim.Security.Change.Locking.{
  Body, without_codes, plain, not_locked, relocked, Run, inactive, invalid, asked, change-Returns,
}

abbrev is_change : Request → Bool
is_change (change_pin name old new) = true
is_change _ = false

-- Whether oFono made a change of a PIN.
abbrev pub changed : List Entry → Bool
changed [] = false
changed (sent q e ∷ log) = (is_change q && not (is_some e)) || changed log
changed (queried ty both ∷ log) = changed log
changed (reported ty ok e ∷ log) = changed log

changed-report_of :
    (cb : Option ℕ) (ty : CodeType) (ok : Bool) (e : Option GError) (log : List Entry)
    → changed (report_of cb ty ok e ++ log) ≡ changed log
changed-report_of none ty ok e log = refl
changed-report_of (some cb) ty ok e log = refl

-- Neither a failure nor a success is read wrongly off the result and its error together.
abbrev Agrees : Bool × Option GError → List Entry → Type 0
Agrees result log = (result.0 && not (is_some result.1)) ≡ (result.0 && changed log)

Body-Agrees :
    {ty active : CodeType} {slots : Slots} {before after : List Entry}
    {result : Bool × Option GError}
    → Body ty active slots before result after
    → changed before ≡ false
    → Agrees result after
Body-Agrees (without_codes o r a) h = rw r refl
Body-Agrees {ty} {slots = slots} {before = before} (plain name old new e a c o n r l) h =
    rw (r, l)
      (ground (
        arith,
        h,
        changed-report_of slots.query_cb ty (not (is_some e)) e
            (sent (change_pin name old new) e ∷ before),
      ))
Body-Agrees (not_locked old e a o r l) h = rw r refl
Body-Agrees {slots = slots} {before = before} (relocked old new e f a o n r l) h =
    rw (r, l)
      (ground (
        arith,
        h,
        changed-report_of slots.query_cb pin (not (is_some e)) e
            (sent (change_pin "pin" old new) e ∷ sent (lock_pin "pin" old) none ∷ before),
      ))

Run-Agrees :
    {g : Variants} {R : Type 0} {s : Service g R} {registered : Bool} {ty : CodeType}
    {w w' : World R} {result : Bool × Option GError}
    → Run s registered ty w result w'
    → changed w.log ≡ false
    → Agrees result w'.log
Run-Agrees (inactive h r e) n = rw r refl
Run-Agrees (invalid h p r e) n = rw r refl
Run-Agrees {s = s} {ty = ty} {w = w} {result = result} (asked after h p body l) n =
    let slots = asked_slots s ty true no_slots w in
    rw (l, changed-report_of slots.query_cb ty result.0 result.1 after) (Body-Agrees body n)

-- The values of a computation that is known to return.
returned :
    {R A : Type 0} {P : A → World R → Type 0} {r : Option (A × World R)} {a : A} {w : World R}
    → Returns r P
    → r ≡ some (a, w)
    → P a w
returned {P = P} (b, v, e, h) q = subst (λ x. P x.0 x.1) (some_inj.0 (sym e ∙ q)) h

-- From a log without a change: if `connui_cell_security_code_change` returns TRUE, oFono changed a
-- PIN during the call exactly if no error is reported. (So TRUE with an error, which the branch that
-- switches the PIN on can return, means that the PIN was not changed.)
pub change-true :
    {g : Variants} {R : Type 0} (s : Service g R) (registered : Bool) (ty : CodeType)
    (w w' : World R) (e : Option GError)
    → changed w.log ≡ false
    → change s registered ty w ≡ some ((true, e), w')
    → (changed w'.log ≡ true) ↔ (e ≡ none)
change-true s registered ty w w' e n q =
    let agrees = Run-Agrees (returned (change-Returns s registered ty w) q) n in ground arith
