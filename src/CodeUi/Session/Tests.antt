-- ===== src/CodeUi/Session/Tests.antt =====
-- The theorems on the session and the keypad at concrete inputs.
use connui_cellular.Prelude.{suc, refl, true, false, none, some, List, [], ◌∷◌, ◌++◌, arith}
use connui_cellular.Sim.{ok, unknown, no_sim}
use connui_cellular.Modem.{online_on, status_unknown}
use connui_cellular.CodeUi.{idle}
use connui_cellular.CodeUi.Status.Steps.{Event, status}
use connui_cellular.CodeUi.Session.{Session, World, taken, init}
use connui_cellular.CodeUi.Session.Outcome.{Ended, init-Ended}
use connui_cellular.CodeUi.Emergency.{Text, Keypad, Key, digits, back_space, shorten, length, run}
use connui_cellular.CodeUi.Emergency.Typed.{IsFollowed, run-follows}

abbrev no_session : Session
no_session = record {
  ui = record {
    modem_id = "";
    state = idle;
    error_note = none;
    dialog = false;
    note = false;
    pin_message = none;
    code = none;
    pin_verified = false;
    sim_status_timeout = 0;
    get_current_pin = false;
    show_status_notes = false;
    sim_status = no_sim;
    verified_ok = false;
    filters_count = 0;
    filters = 0;
    timers = 0;
    status_open = false;
    code_open = false;
    launched = [];
  };
  alive = false;
  held = false;
}

abbrev world : World
world = record {
  flock = some taken;
  modem_registered = true;
  statuses = status_unknown ∷ online_on ∷ [];
  is_powered = true;
  sim_registered = true;
}

abbrev events : List Event
events = status "/ril_0" unknown true ∷ status "/ril_0" ok true ∷ []

init-Ended_example :
    Ended suc world "/ril_0" true events no_session (init suc world "/ril_0" true events no_session)
init-Ended_example =
    init-Ended suc world "/ril_0" true events no_session (λ n. omega arith)
      (record {
        free = refl;
        sound = λ e. absurd (ground arith);
        clear = λ e. (refl, refl, refl);
        tracked = λ e. refl;
      })

abbrev keypad : Keypad
keypad = record {
  dialog = true;
  sensitive = true;
  show_status_notes = true;
  code_min_len = 4;
  emergency_numbers = some ((1 ∷ 1 ∷ 2 ∷ []) ∷ []);
  em_number = none;
  em_mode = false;
  has_done = true;
  done_sensitive = false;
  emcall_timeout = 0;
  crashed = false;
}

abbrev keys : List Key
keys = digits (3 ∷ []) ∷ digits (1 ∷ []) ∷ digits (1 ∷ []) ∷ []

-- A dialog with room for all keys.
unfoldable held : List Key → Text
unfolding shorten
held [] = []
held (digits s ∷ past) = held past ++ s
held (back_space ∷ past) = shorten (held past)

run-follows_example :
    IsFollowed held
      ((1 ∷ 1 ∷ 2 ∷ []) ∷ [])
      keypad
      (digits (2 ∷ []) ∷ back_space ∷ keys)
      (run held keypad (digits (2 ∷ []) ∷ back_space ∷ keys))
unfolding held shorten length
run-follows_example =
    (run-follows held ((1 ∷ 1 ∷ 2 ∷ []) ∷ []) keypad (digits (2 ∷ [])) (back_space ∷ keys)
        (λ s past r. refl) (λ past. refl) refl refl refl).0
      refl refl
