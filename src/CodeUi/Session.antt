-- ===== src/CodeUi/Session.antt =====
-- The life of lib/code-ui.c's structure: `connui_cell_code_ui_init` with its lock and its main loops,
-- `connui_cell_code_ui_update_sim_status`, and `connui_cell_code_ui_destroy`. The main loops take their
-- events from lists; where these end, the program waits: none.
pub mod Outcome
mod Tests
use connui_cellular.Prelude.{
  ℕ, ◌+◌, String, Bool, true, false, not, ◌&&◌, ◌||◌, Option, none, some, List, [], ◌∷◌,
  if◌then◌else◌,
}
use connui_cellular.Sim.{no_sim}
use connui_cellular.Modem.{ModemStatus, status_unknown, powered_on, online_on}
use connui_cellular.CodeUi.{State, idle, startup, sim_error, state_is_error, Ui, close_dialog}
use connui_cellular.CodeUi.Status.{launch}
use connui_cellular.CodeUi.Status.Steps.{Event, step, is_ok}

-- The static `_code_ui` and the lock that the process holds.
pub record Session : Type 0 where
  pub ui : Ui
  pub alive : Bool
  pub held : Bool

-- What flock returns: 0, EWOULDBLOCK and any other error.
pub data Flock : Type 0 where
  taken would_block broken : Flock

-- `connui_cell_code_ui_lock`: what it returns, and whether `fd` is open then. The file may not open.
unfoldable pub lock : Option Flock → Bool × Bool
lock none = (false, false)
lock (some taken) = (true, true)
lock (some would_block) = (true, false)
lock (some broken) = (false, false)

-- `g_new0`; what stands outside of the structure stays.
abbrev pub zeroed : Ui → Ui
zeroed u = record u {
  modem_id = "";
  state = idle;
  error_note = none;
  dialog = false;
  note = false;
  pin_message = none;
  code = none;
  pin_verified = false;
  sim_status_timeout = 0;
  get_current_pin = false;
  show_status_notes = false;
  sim_status = no_sim;
  verified_ok = false;
}

-- `connui_cell_code_ui_destroy`
unfoldable pub destroy : Session → Session
unfolding close_dialog
destroy s =
    if s.alive
    then record s {
      ui = record (close_dialog s.ui) { status_open = false; code_open = false; note = false };
      alive = false;
    }
    else s

-- The structure at the start of `init`.
unfoldable pub prepare : String → Bool → Session → Session
prepare modem_id show s =
    let u = (if s.alive then s.ui else zeroed s.ui) in
    record s {
      ui = record u {
        modem_id = modem_id;
        show_status_notes = show;
        state = if show then startup else idle;
      };
      alive = true;
    }

-- `connui_cell_code_ui_unlock`
unfoldable pub unlock : Session → Session
unlock s = record s { held = false }

-- STATE_IS_ERROR or OK
abbrev pub is_over : Ui → Bool
is_over u = state_is_error u.state || is_ok u.state

-- The first status of the modem that is known.
unfoldable pub known_status : List ModemStatus → Option ModemStatus
known_status [] = none
known_status (status_unknown ∷ rest) = known_status rest
known_status (s ∷ rest) = some s

abbrev pub is_online : ModemStatus → Bool
is_online online_on = true
is_online s = false

-- The note for a modem that is not online.
abbrev pub offline_note : ModemStatus → String
offline_note powered_on = "modem_failure"
offline_note s = "modem_poweroff"

-- What the calls in `init` return, and the statuses of the modem that come.
pub record World : Type 0 where
  pub flock : Option Flock
  pub modem_registered : Bool
  pub statuses : List ModemStatus
  pub is_powered : Bool
  pub sim_registered : Bool

-- The end, `out`.
unfoldable pub finish : Session → Bool × Session
unfolding destroy unlock
finish s = if is_ok s.ui.state then (true, unlock s) else (false, unlock (destroy s))

module _ (source : ℕ → ℕ) where
  -- The loop of `init`, from the event `n`.
  unfoldable pub turns : ℕ → List Event → Ui → Option (Ui × List Event)
  turns n [] u = if is_over u then some (u, []) else none
  turns n (e ∷ es) u =
      let rest = turns (n + 1) es (step source n e u) in
      if is_over u then some (u, e ∷ es) else rest

  -- The loop of `connui_cell_code_ui_update_sim_status`, whose test comes after.
  unfoldable pub turns_after : ℕ → List Event → Ui → Option (Ui × List Event)
  unfolding turns
  turns_after n [] u = none
  turns_after n (e ∷ es) u = turns (n + 1) es (step source n e u)

  -- `connui_cell_code_ui_update_sim_status`; `registered` is what the registration returns.
  unfoldable pub update_sim_status : Bool → ℕ → List Event → Ui → Option (Bool × Ui × List Event)
  unfolding turns_after
  update_sim_status registered n es u =
      if registered
      then elim (turns_after n es (record u { status_open = true; state = startup })) [
        | none ↦ none
        | some (v, rest) ↦ some (true, v, rest)
      ]
      else some (false, u, es)

  abbrev finished : Session → Option (Ui × List Event) → Option (Bool × Session)
  finished s none = none
  finished s (some (u, rest)) = some (finish (record s { ui = u }))

  -- The part of `init` on the SIM.
  unfoldable pub watch_sim : Bool → List Event → Session → Option (Bool × Session)
  unfolding finish turns destroy unlock
  watch_sim registered es s =
      if registered
      then finished s (turns 0 es (record s.ui { status_open = true }))
      else some (
        false,
        unlock (
            destroy (
              if s.ui.show_status_notes
              then s
              else record s { ui = launch sim_error "no_sim" s.ui })),
      )

  -- The part on the modem, at startup and not.
  unfoldable pub after_status :
      World → List Event → Option ModemStatus → Session → Option (Bool × Session)
  unfolding watch_sim unlock
  after_status w es none s = none
  after_status w es (some m) s =
      if is_online m
      then watch_sim w.sim_registered es s
      else some (
        false,
        unlock (record s { ui = record s.ui { launched = offline_note m ∷ s.ui.launched } }),
      )

  unfoldable pub watch_modem : World → List Event → Session → Option (Bool × Session)
  unfolding after_status watch_sim known_status unlock destroy
  watch_modem w es s =
      if s.ui.show_status_notes
      then (if w.modem_registered
          then after_status w es (known_status w.statuses) s
          else some (false, unlock s))
      else if w.is_powered
      then watch_sim w.sim_registered es s
      else some (
        false,
        unlock
            (destroy (record s { ui = record s.ui { launched = "no_network" ∷ s.ui.launched } })),
      )

  -- `connui_cell_code_ui_init`
  unfoldable pub init : World → String → Bool → List Event → Session → Option (Bool × Session)
  unfolding lock prepare watch_modem
  init w modem_id show es s =
      if not (lock w.flock).0 || not (lock w.flock).1
      then some (false, s)
      else watch_modem w es (prepare modem_id show (record s { held = true }))
