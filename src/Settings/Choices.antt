-- ===== src/Settings/Choices.antt =====
-- cpa/cellular-settings-sim.c and cpa/cellular-settings-net.c: the choices that are carried out at once.
-- `allowed` is whether data may be used while roaming. `ok` is what a call that changes one of the two
-- returns. What the call on the SIM, connui_cell_code_ui_set_current_code_active, does to the SIM is
-- not kept: it may return a variable that it has not set.
use connui_cellular.Prelude.{
  ℕ, ◌≡◌, refl, ap, ◌∙◌, Bool, true, false, not, Option, none, some, List, [], ◌∷◌, ◌==◌, nat_eq,
  if◌then◌else◌, arith,
}
use connui_cellular.Settings.Apply.{bool_eq}

pub record Choices : Type 0 where
  pub pin_request : Bool
  pub pin_request_sensitive : Bool
  pub pin_sensitive : Bool
  pub code_active : Bool  -- as it was when the modem was shown
  pub roam : ℕ  -- the row: 0 asks, 1 allows
  pub roam_sensitive : Bool
  pub activations : List Bool  -- what that call was asked for, the latest first
  pub allowed : Bool

-- `_sim_pin_request_set`, guarded against its own signal
pub pin_request_set : Bool → Choices → Choices
pin_request_set active c = record c { pin_request = active }

-- `_sim_show`; `read` is what the library answers, FALSE with an error
pub sim_show : Bool → Choices → Choices
unfolding pin_request_set
sim_show read c = record (pin_request_set read (record c { code_active = read })) {
  pin_request_sensitive = true;
  pin_sensitive = read;
}

-- A call of `connui_cell_code_ui_set_current_code_active`.
pub ask_active : Bool → Choices → Choices
ask_active active c = record c { activations = active ∷ c.activations }

-- The user's choice, and `_sim_pin_request_toggled_cb`.
pub pin_request_toggled : Bool → Bool → Choices → Choices
unfolding pin_request_set ask_active
pin_request_toggled active ok c =
    let d = ask_active active (record c { pin_request = active }) in
    if ok
    then record d { pin_sensitive = active }
    else record (pin_request_set (not active) d) { pin_sensitive = not active }

-- `_roaming_set`
pub roaming_set : Bool → Choices → Choices
roaming_set ask c = record c { roam = if ask then 0 else 1 }

-- `_net_show`
pub net_show : Option Bool → Choices → Choices
unfolding roaming_set
net_show none c = record c { roam_sensitive = false }
net_show (some roaming_allowed) c = record (roaming_set (not roaming_allowed) c) {
  roam_sensitive = true;
}

-- The user's choice of a row, and `_roaming_value_changed_cb`.
pub roaming_value_changed : ℕ → Bool → Choices → Choices
unfolding roaming_set
roaming_value_changed row ok c =
    let d : Choices = record c { roam = row } in
    let ask : Bool = row == 0 in if ok then record d { allowed = not ask } else roaming_set ask d

-- `_cellular_settings_response_cb`, when the dialog is cancelled
pub cancel : Choices → Choices
unfolding ask_active
cancel c = if bool_eq c.pin_request c.code_active then c else ask_active c.code_active c

-- What the user does: a toggle, or a row.
pub data Choice : Type 0 where
  pin : Bool → Choice
  roaming : Bool → Bool → Choice  -- whether to ask

abbrev row_of : Bool → ℕ
row_of ask = if ask then 0 else 1

pub choose : Choice → Choices → Choices
unfolding pin_request_toggled roaming_value_changed
choose (pin ok) c = pin_request_toggled (not c.pin_request) ok c
choose (roaming ask ok) c = roaming_value_changed (row_of ask) ok c

pub choose_all : List Choice → Choices → Choices
unfolding choose
choose_all [] c = c
choose_all (x ∷ xs) c = choose_all xs (choose x c)

-- The row chosen last, carried out or not, and what was carried out last.
abbrev last_row : List Choice → ℕ → ℕ
last_row [] n = n
last_row (pin ok ∷ xs) n = last_row xs n
last_row (roaming ask ok ∷ xs) n = last_row xs (row_of ask)

abbrev last_allowed : List Choice → Bool → Bool
last_allowed [] b = b
last_allowed (pin ok ∷ xs) b = last_allowed xs b
last_allowed (roaming ask ok ∷ xs) b = last_allowed xs (if ok then not ask else b)

abbrev last_pin : List Choice → Bool → Bool
last_pin [] b = b
last_pin (pin ok ∷ xs) b = last_pin xs (if ok then not b else b)
last_pin (roaming ask ok ∷ xs) b = last_pin xs b

-- What the call on the SIM is asked for, from a state of the request for the PIN.
abbrev asked_for : List Choice → Bool → List Bool → List Bool
asked_for [] b before = before
asked_for (pin ok ∷ xs) b before = asked_for xs (if ok then not b else b) (not b ∷ before)
asked_for (roaming ask ok ∷ xs) b before = asked_for xs b before

pub record IsChosen (xs : List Choice) (c d : Choices) : Type 0 where
  pub entry : d.pin_sensitive ≡ d.pin_request
  pub pin : d.pin_request ≡ last_pin xs c.pin_request
  pub activations : d.activations ≡ asked_for xs c.pin_request c.activations
  pub roam : d.roam ≡ last_row xs c.roam
  pub allowed : d.allowed ≡ last_allowed xs c.allowed
  pub code_active : d.code_active ≡ c.code_active

choose-IsChosen :
    (x : Choice) (c : Choices) → c.pin_sensitive ≡ c.pin_request → IsChosen (x ∷ []) c (choose x c)
unfolding choose pin_request_toggled pin_request_set ask_active roaming_value_changed roaming_set
choose-IsChosen (pin true) c v = ground (arith, v)
choose-IsChosen (pin false) c v = ground (arith, v)
choose-IsChosen (roaming true ok) c v = ground (arith, v)
choose-IsChosen (roaming false ok) c v = ground (arith, v)

last-step :
    (x : Choice) (xs : List Choice) (b : Bool)
    → (last_pin xs (last_pin (x ∷ []) b) ≡ last_pin (x ∷ xs) b)
      × (last_allowed xs (last_allowed (x ∷ []) b) ≡ last_allowed (x ∷ xs) b)
last-step (pin ok) xs b = (refl, refl)
last-step (roaming ask ok) xs b = (refl, refl)

row-step :
    (x : Choice) (xs : List Choice) (n : ℕ)
    → last_row xs (last_row (x ∷ []) n) ≡ last_row (x ∷ xs) n
row-step (pin ok) xs n = refl
row-step (roaming ask ok) xs n = refl

asked-step :
    (x : Choice) (xs : List Choice) (b : Bool) (l : List Bool)
    → asked_for xs (last_pin (x ∷ []) b) (asked_for (x ∷ []) b l) ≡ asked_for (x ∷ xs) b l
asked-step (pin ok) xs b l = refl
asked-step (roaming ask ok) xs b l = refl

choose_all-IsChosen :
    (xs : List Choice) (c : Choices)
    → c.pin_sensitive ≡ c.pin_request
    → IsChosen xs c (choose_all xs c)
unfolding choose_all
choose_all-IsChosen [] c v = record {
  entry = v;
  pin = refl;
  activations = refl;
  roam = refl;
  allowed = refl;
  code_active = refl;
}
choose_all-IsChosen (x ∷ xs) c v =
    let one = choose-IsChosen x c v in
    let rest = choose_all-IsChosen xs (choose x c) one.entry in
    record {
      entry = rest.entry;
      pin = rest.pin ∙ (ap (last_pin xs) one.pin ∙ (last-step x xs c.pin_request).0);
      activations =
          rest.activations
          ∙ rw (one.pin, one.activations) (asked-step x xs c.pin_request c.activations);
      roam = rest.roam ∙ (ap (last_row xs) one.roam ∙ row-step x xs c.roam);
      allowed = rest.allowed ∙ (ap (last_allowed xs) one.allowed ∙ (last-step x xs c.allowed).1);
      code_active = rest.code_active ∙ one.code_active;
    }

-- A modem is shown, with what the library reads of its SIM and its connection, and the user makes choices.
-- Then the entry for the PIN takes input just if a PIN is requested, and that is what was read, turned
-- by each choice whose call returned TRUE; the calls on the SIM asked for the opposite of what was
-- shown, each time; roaming is allowed as the last choice that was carried out says, but the row shown
-- is the last that was chosen, carried out or not. Cancelling then asks the SIM once more for what was
-- read if the widget shows something else, and leaves roaming as it is.
pub choose_all-shown :
    (xs : List Choice) (read : Bool) (c : Choices)
    → let shown = net_show (some c.allowed) (sim_show read c) in
      let d = choose_all xs shown in
      (d.pin_request ≡ last_pin xs read)
      × (d.pin_sensitive ≡ last_pin xs read)
      × (d.activations ≡ asked_for xs read c.activations)
      × (d.allowed ≡ last_allowed xs c.allowed)
      × (d.roam ≡ last_row xs (row_of (not c.allowed)))
      × ((cancel d).activations
          ≡ (if bool_eq (last_pin xs read) read then d.activations else read ∷ d.activations))
      × ((cancel d).allowed ≡ last_allowed xs c.allowed)
unfolding net_show sim_show roaming_set pin_request_set cancel ask_active
choose_all-shown xs read c =
    let shown = net_show (some c.allowed) (sim_show read c) in
    let v = choose_all-IsChosen xs shown refl in
    (
      v.pin,
      v.entry ∙ v.pin,
      v.activations,
      v.allowed,
      v.roam,
      ground (arith, v.pin, v.code_active),
      ground (arith, v.allowed),
    )
