-- ===== src/Settings/Tests.antt =====
-- The theorems on the settings at concrete inputs.
use connui_cellular.Prelude.{◌≡◌, refl, true, false, not, some, none, List, [], ◌∷◌, nat_eq, arith}
use connui_cellular.Settings.{
  Answer, clir, waiting, forward_failed, clir_set, waiting_set, Settings, modem_show, get_clir,
  get_waiting,
}
use connui_cellular.Errors.{foreign}
use connui_cellular.Settings.Counter.{count, drain, Waits, wait-Waits}
use connui_cellular.Settings.Apply.{apply}
use connui_cellular.Settings.Applied.{saved, apply-saves}
use connui_cellular.Settings.Progress.{is_nil, modem_show-progress}
use connui_cellular.Settings.Choices.{
  Choices, pin, roaming, choose_all, cancel, sim_show, net_show, choose_all-shown,
}
use connui_cellular.Settings.Modems.{Picker, removed, present, run, length, mem}
use connui_cellular.Settings.Modems.Listed.{IsCurrent, run-IsCurrent}

-- The caller's identity is to be hidden, and calls wait.
abbrev read : Settings
read = record {
  pending = 0;
  applying = false;
  svc_call_id = 0;
  anonimity = 0;
  cid = some 1;
  cid_sensitive = true;
  waiting_active = true;
  waiting_sensitive = true;
  waiting_enabled = false;
  divert = false;
  option_sensitive = true;
  to_shown = false;
  to_text = "";
  phone_number = none;
  forward_enabled = false;
  progress = false;
  ok_sensitive = true;
  vbox_sensitive = true;
  outstanding = [];
  asked = [];
}

abbrev answers : List Answer
answers = clir 2 none ∷ clir_set ∷ waiting_set ∷ []

apply-saves_example :
    (left : List Answer) × (apply false true true answers read
      ≡ some (true, saved false true true read, left))
apply-saves_example = (apply-saves false true true answers read refl refl refl).1 refl

abbrev shown_answers : List Answer
shown_answers = clir 2 none ∷ waiting true none 7 ∷ forward_failed (foreign 3) ∷ []

modem_show-progress_example :
    let t = drain shown_answers (modem_show true 5 read) in
    (t.progress ≡ not (is_nil t.outstanding))
    × (t.ok_sensitive ≡ is_nil t.outstanding)
    × (t.pending ≡ count t.outstanding)
modem_show-progress_example = (modem_show-progress true 5 shown_answers read refl refl refl).0 refl

-- Two requests are outstanding, and the second makes a third.
abbrev asked : Settings
asked = record read { pending = 2; outstanding = get_waiting ∷ get_clir ∷ [] }

wait-Waits_example : Waits shown_answers asked
wait-Waits_example = wait-Waits shown_answers asked (record { exact = refl; bounded = omega arith })

abbrev unasked : Choices
unasked = record {
  pin_request = true;
  pin_request_sensitive = false;
  pin_sensitive = true;
  code_active = false;
  roam = 0;
  roam_sensitive = false;
  activations = [];
  allowed = true;
}

choose_all-shown_example :
    (cancel (
      choose_all
        (pin true ∷ roaming true false ∷ [])
        (net_show (some true) (sim_show false unasked)))).allowed
    ≡ true
choose_all-shown_example = (choose_all-shown (pin true ∷ roaming true false ∷ []) false unasked).6

abbrev picker : Picker
picker = record {
  rows = "/one" ∷ "/two" ∷ [];
  modem_id = some "/one";
  active_row = 0;
  sensitive = true;
  cancels = 0;
  closed = false;
}

run-IsCurrent_example :
    IsCurrent picker
      (present true "/three" ∷ removed 0 "/one" ∷ [])
      (run picker (present true "/three" ∷ removed 0 "/one" ∷ []))
run-IsCurrent_example =
    run-IsCurrent picker (present true "/three" ∷ removed 0 "/one" ∷ [])
      (unfold mem in (refl, (refl, tt))) refl (unfold length in refl)
