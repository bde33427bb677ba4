-- ===== src/CodeUi/Codes.antt =====
-- The questions of lib/code-ui.c to the user: `get_code`, `code_get_new_code` and `code_cb`.
-- The user is a list of responses to `gtk_dialog_run`; where it ends, the program waits: `none`.
pub mod Confirmed
pub mod Kept
pub mod Remembered
use connui_cellular.Prelude.{
  ℕ, zero, suc, ◌+◌, String, Bool, true, false, not, ◌&&◌, ◌||◌, Option, none, some, List, [], ◌∷◌,
  ◌==◌, string_eq, ◌⊎◌, inl, inr, is_some, if◌then◌else◌,
}
use connui_cellular.Sim.{CodeType, pin, puk}
use connui_cellular.CodeUi.{
  State, idle, pin_error, startup, pin_enable, new_pin, confirm_pin, Ui, incorrect_pin_change,
  close_dialog, create_dialog,
}

-- GTK_RESPONSE_OK with the code in the dialog, CANCEL or DELETE_EVENT, and any other response.
pub data Response : Type 0 where
  entered : String → Response
  cancelled : Response
  other : Response

-- The `while (1)` of `get_code`: the code, or NULL, and the responses that are left.
pub run_dialog : List Response → Option (Option String × List Response)
run_dialog [] = none
run_dialog (entered c ∷ rs) = some (some c, rs)
run_dialog (cancelled ∷ rs) = some (none, rs)
run_dialog (other ∷ rs) = run_dialog rs

-- A dialog that gave a code stays; one that was cancelled is closed.
pub left_dialog : Option String → Ui → Ui
unfolding close_dialog
left_dialog none u = close_dialog u
left_dialog (some c) u = u

-- `connui_cell_code_ui_get_code`, less the title
unfoldable pub get_code : Ui → List Response → Option (Option String × Ui × List Response)
unfolding run_dialog left_dialog close_dialog create_dialog
get_code u rs = elim (run_dialog rs) [
  | none ↦ none
  | some (c, rest) ↦ some (c, left_dialog c (create_dialog (close_dialog u)), rest)
]

pub data NewCode : Type 0 where
  waits : NewCode
  refused : Ui → List Response → NewCode
  given : String → Ui → List Response → NewCode

-- What the loop of `code_get_new_code` does with the two answers; none asks again.
pub compared : String → Option String → Ui → List Response → NewCode ⊎ Ui
compared c none u rs = inl (refused (record u { state = pin_error }) rs)
compared c (some d) u rs =
    if c == d
    then inl (given c u rs)
    else inr (record u { pin_message = some incorrect_pin_change })

pub settle : NewCode ⊎ Ui → (Ui → NewCode) → NewCode
settle (inl r) k = r
settle (inr u) k = k u

pub second_code : String → Ui → List Response → (Ui → List Response → NewCode) → NewCode
unfolding get_code compared settle
second_code c u rs again = elim (get_code (record u { state = confirm_pin }) rs) [
  | none ↦ waits
  | some (d, v, rest) ↦ settle (compared c d v rest) (λ x. again x rest)
]

pub first_code : Option String → Ui → List Response → (Ui → List Response → NewCode) → NewCode
unfolding second_code
first_code none u rs again = refused (record u { state = pin_error }) rs
first_code (some c) u rs again = second_code c u rs again

-- `connui_cell_code_ui_code_get_new_code`; each round takes a response, so as much fuel as there are
-- responses is enough.
unfoldable pub get_new_code : ℕ → Ui → List Response → NewCode
unfolding get_code first_code
get_new_code zero u rs = waits
get_new_code (suc n) u rs = elim (get_code (record u { state = new_pin }) rs) [
  | none ↦ waits
  | some (c, v, rest) ↦ first_code c v rest (get_new_code n)
]

abbrev pub length : {A : Type 0} → List A → ℕ
length [] = 0
length (r ∷ rs) = suc (length rs)

-- What a query hands back: the two codes, and whether `verify_code_cb` is its callback.
pub record Reply : Type 0 where
  pub old : Option String
  pub new : Option String
  pub has_cb : Bool

abbrev pub no_reply : Reply
no_reply = record { old = none; new = none; has_cb = false }

pub data Query : Type 0 where
  waits : Query
  replies : Reply → Ui → List Response → Query

-- The code that is kept for the next query.
abbrev pub kept_code : CodeType → String → Option String → Option String → Option String
kept_code puk old new code = new
kept_code pin old none code = some old
kept_code pin old (some c) code = some c
kept_code ty old new code = code

pub keep : CodeType → String → Option String → Ui → List Response → Query
keep ty old new u rs =
    replies (record { old = some old; new = new; has_cb = true })
      (record u { code = kept_code ty old new u.code }) rs

-- A new code that is refused takes the old one back.
pub with_new : CodeType → String → NewCode → Query
unfolding keep
with_new ty old NewCode.waits = Query.waits
with_new ty old (refused u rs) = replies no_reply u rs
with_new ty old (given c u rs) = keep ty old (some c) u rs

pub with_old : CodeType → Bool → String → Ui → List Response → Query
unfolding with_new get_new_code keep
with_old ty wants_new old u rs =
    if wants_new then with_new ty old (get_new_code (length rs) u rs) else keep ty old none u rs

pub with_answer : CodeType → Bool → Option String → Ui → List Response → Query
unfolding with_old
with_answer ty wants_new none u rs = replies no_reply (record u { state = pin_error }) rs
with_answer ty wants_new (some old) u rs = with_old ty wants_new old u rs

-- The code that is not asked for again.
abbrev pub known_code : CodeType → Ui → Option String
known_code pin u = u.code
known_code ty u = none

pub ask_old : CodeType → Bool → Option String → Ui → List Response → Query
unfolding with_old with_answer get_code
ask_old ty wants_new (some old) u rs = with_old ty wants_new old u rs
ask_old ty wants_new none u rs = elim (get_code u rs) [
  | none ↦ Query.waits
  | some (c, v, rest) ↦ with_answer ty wants_new c v rest
]

abbrev pub enter_query : State → State
enter_query startup = startup
enter_query _ = pin_enable

abbrev pub is_idle : State → Bool
is_idle idle = true
is_idle _ = false

-- `connui_cell_code_ui_code_cb`; lib/sim.c asks for the old code with each query.
unfoldable pub code_cb : String → CodeType → Bool → Ui → List Response → Query
unfolding ask_old
code_cb modem_id ty wants_new u rs =
    if not (modem_id == u.modem_id) || is_idle u.state
    then replies no_reply u rs
    else ask_old ty wants_new (known_code ty u) (record u { state = enter_query u.state }) rs
