-- ===== src/Sim/Security/Safety.antt =====
-- No assertion of lib/sim.c fails: what each step returns and writes to the log.
use connui_cellular.Prelude.{
  ℕ, String, ◌≡◌, ◌≢◌, ◌↔◌, refl, Bool, true, false, not, Option, none, some, List, [], ◌∷◌, ◌++◌,
  arith, is_some, if◌then◌else◌, inl, inr, Bool-cases,
}
use connui_cellular.Errors.{GError}
use connui_cellular.Glib.{Variants}
use connui_cellular.Sim.{
  CodeType, unasked, nothing, pin, puk, pin2, puk2, unsupported, SimData, get_status,
}
use connui_cellular.Sim.Signals.{wants_code}
use connui_cellular.Sim.Security.{
  Service, Slots, no_slots, World, Request, Entry, sent, reported, queried, M, ◌>>=◌, code_name,
  pin_request, request, sec_code_query, sec_code_cb, sec_code_cb_of, verify_named,
  refresh_pin_required, verify_code, verify_answer, query_old, query_both, verify_required,
  verify_required_pin, idle_notify_security_code,
}

-- The report to the client that answered a query, if one did.
abbrev pub report_of : Option ℕ → CodeType → Bool → Option GError → List Entry
report_of none ty ok e = []
report_of (some cb) ty ok e = reported ty ok e ∷ []

-- A computation that does not abort, with what it returns and what it adds to the log.
abbrev pub Returns : {R A : Type 0} → Option (A × World R) → (A → World R → Type 0) → Type 0
Returns {R} {A} r P = (a : A) × (w : World R) × (r ≡ some (a, w)) × P a w

pub Returns-bind :
    {R A B : Type 0} {P : A → World R → Type 0} {Q : B → World R → Type 0} (m : M R A)
    (f : A → M R B) (w : World R)
    → Returns (m w) P
    → ((a : A) (w' : World R) → P a w' → Returns (f a w') Q)
    → Returns ((m >>= f) w) Q
Returns-bind m f w (a, w', e, h) k =
    let (b, w'', e', h') = k a w' h in (b, w'', rw (e, ◌>>=◌) e', h')

pub if-Returns :
    {R A : Type 0} {P : A → World R → Type 0} (b : Bool) (m n : M R A) (w : World R)
    → (b ≡ true → Returns (m w) P)
    → (b ≡ false → Returns (n w) P)
    → Returns ((if b then m else n) w) P
if-Returns true m n w h k = h refl
if-Returns false m n w h k = k refl

pub Returns-ne-none :
    {R A : Type 0} {P : A → World R → Type 0} (r : Option (A × World R)) → Returns r P → r ≢ none
Returns-ne-none r (a, w, e, h) = λ n. cc

module _ {g : Variants} {R : Type 0} (s : Service g R) where
  report-Returns :
      (cb : Option ℕ) (ty : CodeType) (ok : Bool) (e : Option GError) (w : World R)
      → Returns (sec_code_cb_of s cb ty ok e w) (λ _ w'. w'.log ≡ report_of cb ty ok e ++ w.log)
  unfolding sec_code_cb_of
  report-Returns none ty ok e w = (false, w, refl, refl)
  report-Returns (some cb) ty ok e w = (true, _, refl, refl)

  pub sec_code_cb-Returns :
      (slots : Slots) (ty : CodeType) (ok : Bool) (e : Option GError) (w : World R)
      → Returns
          (sec_code_cb s slots ty ok e w)
          (λ _ w'. w'.log ≡ report_of slots.query_cb ty ok e ++ w.log)
  unfolding sec_code_cb
  sec_code_cb-Returns slots = report-Returns slots.query_cb

  pub request-Returns :
      (q : Request) (w : World R)
      → Returns (request s q w) (λ e w'. (w'.log ≡ sent q e ∷ w.log) × (w'.sd ≡ w.sd))
  unfolding request
  request-Returns q w = (_, _, refl, (refl, refl))

  refresh-Returns : (w : World R) → Returns (refresh_pin_required s w) (λ _ w'. w'.log ≡ w.log)
  unfolding refresh_pin_required
  refresh-Returns w = (_, _, refl, refl)

  -- `verify_code` sends one request, and reports its outcome.
  abbrev pub Verified :
      String
      → CodeType
      → String
      → Option String
      → Slots
      → World R
      → Option GError
      → World R
      → Type 0
  Verified name ty old new slots w e w' =
      w'.log
      ≡ report_of slots.query_cb ty (not (is_some e)) e ++ sent (pin_request name old new) e ∷ w.log

  verify_named-Returns :
      (name : String) (ty : CodeType) (old : String) (new : Option String) (slots : Slots)
      (w : World R)
      → Returns (verify_named s (some name) ty old new slots w) (Verified name ty old new slots w)
  unfolding verify_named
  verify_named-Returns name ty old new slots w =
      Returns-bind (request s (pin_request name old new)) _ w (request-Returns _ w)
        λ e w₁ (logged, _).
          Returns-bind (refresh_pin_required s) _ w₁ (refresh-Returns w₁) λ got w₂ kept.
            Returns-bind (sec_code_cb s slots ty (not (is_some e)) e) _ w₂
              (sec_code_cb-Returns slots ty (not (is_some e)) e w₂)
              λ told w₃ wrote. (e, w₃, refl, rw (wrote, kept, logged) refl)

  pub verify_code-Returns :
      (name : String) (ty : CodeType) (old : String) (new : Option String) (slots : Slots)
      (w : World R)
      → code_name ty ≡ some name
      → Returns (verify_code s ty old new slots w) (Verified name ty old new slots w)
  unfolding verify_code
  verify_code-Returns name ty old new slots w e =
      rw (e) (verify_named-Returns name ty old new slots w)

-- A query as the clients answer it: the slots that they fill, and the world after.
abbrev pub asked_slots :
    {g : Variants} {R : Type 0} → Service g R → CodeType → Bool → Slots → World R → Slots
asked_slots s ty both slots w =
    let (slots', sd', r) = s.query ty both slots (w.sd, w.remote) in
    if both then slots' else record slots' { new = slots.new }

abbrev pub asked_world :
    {g : Variants} {R : Type 0} → Service g R → CodeType → Bool → Slots → World R → World R
asked_world s ty both slots w =
    let (slots', sd', r) = s.query ty both slots (w.sd, w.remote) in
    record { sd = sd'; remote = r; log = queried ty both ∷ w.log }

-- What becomes of the slots: without an old code nothing is sent; with one, one request is sent with
-- the codes in the slots, and its outcome is reported to the client that filled them.
pub data Tried (name : String) (ty : CodeType) (slots : Slots) (before : List Entry) (done : Bool)
    (after : List Entry) : Type 0 where
  no_code : slots.old ≡ none → done ≡ false → after ≡ before → Tried name ty slots before done after
  tried :
      (old : String) (e : Option GError)
      → slots.old ≡ some old
      → done ≡ true
      → after
        ≡ report_of slots.query_cb ty (not (is_some e)) e
          ++ sent (pin_request name old slots.new) e ∷ before
      → Tried name ty slots before done after

module _ {g : Variants} {R : Type 0} (s : Service g R) where
  -- The old code alone is asked for.
  abbrev pub Once : String → CodeType → Slots → World R → Bool → World R → Type 0
  Once name ty slots w done w' =
      Tried name ty (asked_slots s ty false slots w) (queried ty false ∷ w.log) done w'.log

  -- Both codes are asked for, and the old code alone if that gave none.
  abbrev pub Twice : String → CodeType → World R → Bool → World R → Type 0
  Twice name ty w done w' =
      let slots = asked_slots s ty true no_slots w in
      if is_some slots.old
      then Tried name ty slots (queried ty true ∷ w.log) done w'.log
      else Once name ty slots (asked_world s ty true no_slots w) done w'

  abbrev pub Required : CodeType → World R → Bool → World R → Type 0
  Required pin w done w' = Once "pin" pin no_slots w done w'
  Required pin2 w done w' = Once "pin2" pin2 no_slots w done w'
  Required puk w done w' = Twice "puk" puk w done w'
  Required puk2 w done w' = Twice "puk2" puk2 w done w'
  Required ty w done w' = true ≡ false

  -- What the idle handler does: nothing if the status asks for no code, else the query for the code
  -- that the SIM requires.
  abbrev pub Handled : World R → Bool → World R → Type 0
  Handled w done w' =
      let w₀ = record w { sd = record w.sd { idle_security_code_id = 0 } } in
      if wants_code (get_status w.sd)
      then Required w.sd.pin_required w₀ done w'
      else (done ≡ false) × (w' ≡ w₀)

  pub query-Returns :
      (ty : CodeType) (both : Bool) (slots : Slots) (w : World R)
      → Returns
          (sec_code_query s ty both slots w)
          (λ a w'. (a ≡ asked_slots s ty both slots w) × (w' ≡ asked_world s ty both slots w))
  unfolding sec_code_query
  query-Returns ty both slots w = (_, _, refl, (refl, refl))

  answer-Returns :
      (name : String) (ty : CodeType) (old : Option String) (slots : Slots) (w : World R)
      → code_name ty ≡ some name
      → slots.old ≡ old
      → Returns (verify_answer s ty old slots w) (λ done w'. Tried name ty slots w.log done w'.log)
  unfolding verify_answer
  answer-Returns name ty none slots w e o = (false, w, refl, no_code o refl refl)
  answer-Returns name ty (some old) slots w e o =
      Returns-bind (verify_code s ty old slots.new slots) _ w
        (verify_code-Returns s name ty old slots.new slots w e)
        λ err w' v. (true, w', refl, tried old err o refl v)

  query_old-Returns :
      (name : String) (ty : CodeType) (slots : Slots) (w : World R)
      → code_name ty ≡ some name
      → Returns (query_old s ty slots w) (Once name ty slots w)
  unfolding query_old sec_code_query
  query_old-Returns name ty slots w e =
      let slots' = asked_slots s ty false slots w in
      answer-Returns name ty slots'.old slots' (asked_world s ty false slots w) e refl

  both-Returns :
      (name : String) (ty : CodeType) (slots : Slots) (w : World R) (b : Bool)
      → code_name ty ≡ some name
      → Returns
          ((if b then verify_answer s ty slots.old slots else query_old s ty slots) w)
          (λ done w'.
            if b then Tried name ty slots w.log done w'.log else Once name ty slots w done w')
  both-Returns name ty slots w true e = answer-Returns name ty slots.old slots w e refl
  both-Returns name ty slots w false e = query_old-Returns name ty slots w e

  query_both-Returns :
      (name : String) (ty : CodeType) (w : World R)
      → code_name ty ≡ some name
      → Returns (query_both s ty w) (Twice name ty w)
  unfolding query_both sec_code_query
  query_both-Returns name ty w e =
      let slots = asked_slots s ty true no_slots w in
      both-Returns name ty slots (asked_world s ty true no_slots w) (is_some slots.old) e

  verify_required-Returns :
      (ty : CodeType) (w : World R)
      → is_some (code_name ty) ≡ true
      → Returns (verify_required s ty w) (Required ty w)
  unfolding verify_required
  verify_required-Returns unasked w h = cc
  verify_required-Returns nothing w h = cc
  verify_required-Returns unsupported w h = cc
  verify_required-Returns pin w h = query_old-Returns "pin" pin no_slots w refl
  verify_required-Returns puk w h = query_both-Returns "puk" puk w refl
  verify_required-Returns pin2 w h = query_old-Returns "pin2" pin2 no_slots w refl
  verify_required-Returns puk2 w h = query_both-Returns "puk2" puk2 w refl

  required-abort_iff :
      (ty : CodeType) (w : World R) → (verify_required s ty w ≡ none) ↔ (code_name ty ≡ none)
  unfolding verify_required
  required-abort_iff unasked w = (λ e. refl, λ e. refl)
  required-abort_iff nothing w = (λ e. refl, λ e. refl)
  required-abort_iff unsupported w = (λ e. refl, λ e. refl)
  required-abort_iff ty w =
      (λ n. absurd (Returns-ne-none _ (verify_required-Returns ty w refl) n), λ e. cc)

  -- `verify_required_pin` stops at its assertion exactly if no code of a SIM is required.
  pub verify_required_pin-abort_iff :
      (w : World R) → (verify_required_pin s w ≡ none) ↔ (code_name w.sd.pin_required ≡ none)
  unfolding verify_required_pin
  verify_required_pin-abort_iff w = required-abort_iff w.sd.pin_required w

  guarded :
      (sd : SimData)
      → wants_code (get_status sd) ≡ true
      → is_some (code_name sd.pin_required) ≡ true
  unfolding get_status
  guarded sd h = ground arith

  -- The idle handler ends, whatever oFono and the clients do: no assertion fails. If the status of the
  -- SIM asks for no code it only clears its source. Else it asks the clients for the code that is
  -- required: for a PIN or PIN2 the old code, for a PUK or PUK2 both codes, and then the old code
  -- alone if the clients gave none. If the last answer has an old code, it sends one request with the
  -- codes of the answer, and tells its outcome to the client that answered; if not it sends nothing.
  pub idle_notify_security_code-Returns :
      (w : World R) → Returns (idle_notify_security_code s w) (Handled w)
  unfolding idle_notify_security_code verify_required_pin
  idle_notify_security_code-Returns w = elim (Bool-cases (wants_code (get_status w.sd))) [
    | inl y ↦ rw y (verify_required-Returns w.sd.pin_required _ (guarded w.sd y))
    | inr n ↦ rw n (false, _, refl, (refl, refl))
  ]
