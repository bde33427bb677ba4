-- ===== src/CodeUi/Tests.antt =====
-- A user who mistypes a new code once, and a run of the callbacks.
use connui_cellular.Prelude.{suc, ◌≡◌, refl, true, false, none, some, List, [], ◌∷◌, arith}
use connui_cellular.Sim.{ok_pin_required, unknown, pin}
use connui_cellular.CodeUi.{startup, Ui}
use connui_cellular.CodeUi.Codes.{
  Response, entered, other, get_new_code, length, Query, waits, replies, Reply, code_cb,
}
use connui_cellular.CodeUi.Codes.Remembered.{code_cb-again}
use connui_cellular.CodeUi.Codes.Confirmed.{answers, choose, chosen, result, get_new_code-choose}
use connui_cellular.CodeUi.Status.Steps.{Event, status, query, verified, run, IsSafe, run-IsSafe}

abbrev ui : Ui
ui = record {
  modem_id = "/ril_0";
  state = startup;
  error_note = none;
  dialog = false;
  note = false;
  pin_message = none;
  code = none;
  pin_verified = false;
  sim_status_timeout = 0;
  get_current_pin = false;
  show_status_notes = true;
  sim_status = unknown;
  verified_ok = false;
  filters_count = 0;
  filters = 0;
  timers = 0;
  status_open = true;
  code_open = false;
  launched = [];
}

abbrev typed : List Response
typed = entered "1" ∷ entered "2" ∷ other ∷ entered "1" ∷ entered "1" ∷ []

confirmed : choose (answers typed) ≡ chosen "1"
unfolding choose
confirmed = refl

get_new_code-choose_example : result (get_new_code (length typed) ui typed) ≡ choose (answers typed)
get_new_code-choose_example = get_new_code-choose ui typed

abbrev events : List Event
events =
    status "/ril_0" unknown true
    ∷ status "/ril_0" ok_pin_required true
    ∷ query "/ril_0" pin false (entered "1" ∷ [])
    ∷ verified pin false (some 2) true
    ∷ []

ui-IsSafe : IsSafe ui
ui-IsSafe = record {
  sound = record { counted = refl; single = omega arith; closed = λ e. refl };
  tracked = refl;
  live = refl;
}

run-IsSafe_example : IsSafe (run suc 0 events ui)
run-IsSafe_example = run-IsSafe suc (λ n. omega arith) events 0 ui ui-IsSafe

-- A new PIN is asked for with the old one; the next query hands the new one out.
abbrev change_typed : List Response
change_typed = entered "0" ∷ entered "1" ∷ entered "1" ∷ []

abbrev after : Query → Ui
after waits = ui
after (replies r u rs) = u

abbrev asked_ui : Ui
asked_ui = after (code_cb "/ril_0" pin true ui change_typed)

abbrev reply : Reply
reply = record { old = some "0"; new = some "1"; has_cb = true }

code_cb-again_example :
    code_cb "/ril_0" pin false (record asked_ui { state = startup }) []
    ≡ replies
        (record { old = some "1"; new = none; has_cb = true })
        (record asked_ui { state = startup; code = some "1" })
        []
unfolding code_cb
code_cb-again_example =
    code_cb-again "/ril_0" true ui asked_ui change_typed [] [] reply "1" startup refl refl refl refl
      refl
