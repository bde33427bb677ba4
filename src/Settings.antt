-- ===== src/Settings.antt =====
-- cpa/cellular-settings.c and cpa/cellular-settings-call.c: the applet for the settings of a modem. A
-- widget is what it shows and whether it takes input. `outstanding` are the requests that have not been
-- answered; what oFono and telepathy answer is a list, from which the loops on `pending` take.
pub mod Apply
pub mod Counter
pub mod Applied
pub mod Progress
mod Tests
pub mod Choices
pub mod Modems
use connui_cellular.Prelude.{
  ℕ, ◌+◌, ◌-◌, ◌%◌, ◌^◌, String, Bool, true, false, not, ◌&&◌, ◌||◌, Option, none, some, List, [],
  ◌∷◌, ◌==◌, nat_eq, string_eq, if◌then◌else◌, is_some,
}
use connui_cellular.Errors.{GError, io_cancelled}
use connui_cellular.Sups.{Forward, Forwards}

-- What is asked of telepathy (the caller's identity) and of oFono (the other two).
pub data Request : Type 0 where
  get_clir get_waiting get_forward set_clir set_waiting : Request

-- An answer; with the one on call waiting, the identifier of the call that its callback makes next.
pub data Answer : Type 0 where
  clir : ℕ → Option GError → Answer
  waiting : Bool → Option GError → ℕ → Answer
  forward : Forwards → Answer
  forward_failed : GError → Answer
  clir_set : Answer
  waiting_set : Answer

abbrev pub request_of : Answer → Request
request_of (clir n e) = get_clir
request_of (waiting b e id) = get_waiting
request_of (forward f) = get_forward
request_of (forward_failed e) = get_forward
request_of clir_set = set_clir
request_of waiting_set = set_waiting

-- cellular_settings
pub record Settings : Type 0 where
  pub pending : ℕ
  pub applying : Bool
  pub svc_call_id : ℕ
  pub anonimity : ℕ
  pub cid : Option ℕ  -- the choice of send_cid
  pub cid_sensitive : Bool
  pub waiting_active : Bool
  pub waiting_sensitive : Bool
  pub waiting_enabled : Bool
  pub divert : Bool  -- the choice of forward.option
  pub option_sensitive : Bool
  pub to_shown : Bool
  pub to_text : String
  pub phone_number : Option String
  pub forward_enabled : Bool
  pub progress : Bool
  pub ok_sensitive : Bool
  pub vbox_sensitive : Bool
  pub outstanding : List Request
  pub asked : List Request  -- all requests so far, the latest first

-- `pending` is a gint, kept by its bits.
abbrev pub incremented : ℕ → ℕ
incremented n = (n + 1) % 2 ^ 32

abbrev pub decremented : ℕ → ℕ
decremented n = (n + (2 ^ 32 - 1)) % 2 ^ 32

-- `if (…) cs->pending++`, for a request that is made.
pub made_if : Bool → Request → Settings → Settings
made_if ok r s =
    if ok
    then record s {
      pending = incremented s.pending;
      outstanding = r ∷ s.outstanding;
      asked = r ∷ s.asked;
    }
    else s

pub answered : Settings → Settings
answered s = record s { pending = decremented s.pending }

-- `cellular_settings_stop_progress_indicator`
pub stop_progress_indicator : Settings → Settings
unfolding answered
stop_progress_indicator s =
    if s.pending == 0
    then s
    else let t = answered s in
      if t.pending == 0
      then record t { applying = false; progress = false; ok_sensitive = true }
      else t

-- `_call_divert_option_show_widgets`, and the callback of the picker
pub show_widgets : Bool → Settings → Settings
show_widgets b s = record s { to_shown = b }

pub choose_divert : Bool → Settings → Settings
unfolding show_widgets
choose_divert b s = show_widgets b (record s { divert = b })

-- `_disable_widgets`
pub disable_widgets : Settings → Settings
unfolding show_widgets
disable_widgets s =
    record (show_widgets false (record s { cid_sensitive = false; waiting_sensitive = false })) {
      option_sensitive = false;
    }

-- The rows of the picker of the caller's identity.
abbrev pub has_row : ℕ → Bool
has_row n = n == 2 || (n == 1 || n == 0)

-- `_get_clir_cb`
pub get_clir_cb : ℕ → Settings → Settings
unfolding stop_progress_indicator
get_clir_cb n s =
    stop_progress_indicator
      (record s { anonimity = n; cid = if has_row n then some n else s.cid; cid_sensitive = true })

-- The forwarding that is shown: the first that is enabled.
pub first_enabled : Forwards → Bool × Option String
first_enabled f =
    if f.busy.enabled
    then (true, f.busy.number)
    else if f.no_reply.enabled
    then (true, f.no_reply.number)
    else if f.unreachable.enabled
    then (true, f.unreachable.number)
    else (false, none)

-- `hildon_entry_set_text`, if there is a number
abbrev pub text_or : Option String → String → String
text_or none d = d
text_or (some n) d = n

-- The end of `_get_call_forward_cb`.
pub forward_read : Bool → Option String → Bool → Settings → Settings
unfolding stop_progress_indicator choose_divert show_widgets
forward_read enabled number ok s =
    record (show_widgets (enabled && ok)
      (choose_divert enabled (record (stop_progress_indicator s) { forward_enabled = enabled }))) {
        phone_number = number;
        to_text = text_or number s.to_text;
        option_sensitive = ok;
      }

abbrev pub is_cancelled : Option GError → Bool
is_cancelled (some io_cancelled) = true
is_cancelled e = false

-- `_get_call_forward_cb`
pub get_forward_cb : Forwards → Settings → Settings
unfolding forward_read first_enabled
get_forward_cb f s =
    let (enabled, number) = first_enabled f in
    forward_read enabled number true (record s { svc_call_id = 0 })

pub get_forward_failed : GError → Settings → Settings
unfolding forward_read answered
get_forward_failed e s =
    let t = record s { svc_call_id = 0 } in
    if is_cancelled (some e) then answered t else forward_read false none false t

-- The end of `_get_call_waiting_cb`, which asks for the forwarding: the request keeps the place in
-- `pending`.
pub ask_forward : ℕ → Settings → Settings
unfolding stop_progress_indicator
ask_forward id s =
    if id == 0 then stop_progress_indicator (record s { svc_call_id = 0 }) else record s {
      svc_call_id = id;
      outstanding = get_forward ∷ s.outstanding;
      asked = get_forward ∷ s.asked;
    }

-- `_get_call_waiting_cb`
pub get_waiting_cb : Bool → Option GError → ℕ → Settings → Settings
unfolding ask_forward answered
get_waiting_cb enabled e id s =
    if is_cancelled e
    then answered (record s { svc_call_id = 0 })
    else ask_forward id (record s {
      waiting_enabled = enabled;
      waiting_active = enabled;
      waiting_sensitive = s.waiting_sensitive || not (is_some e);
    })

-- The callback that an answer runs.
pub handle : Answer → Settings → Settings
unfolding get_clir_cb get_waiting_cb get_forward_cb get_forward_failed answered
handle (clir n e) s = get_clir_cb n s
handle (waiting b e id) s = get_waiting_cb b e id s
handle (forward f) s = get_forward_cb f s
handle (forward_failed e) s = get_forward_failed e s
handle clir_set s = answered s
handle waiting_set s = answered s

abbrev pub number_of : Request → ℕ
number_of get_clir = 0
number_of get_waiting = 1
number_of get_forward = 2
number_of set_clir = 3
number_of set_waiting = 4

abbrev pub prepend : Request → Option (List Request) → Option (List Request)
prepend q none = none
prepend q (some l) = some (q ∷ l)

-- The requests without one that is answered.
pub take : Request → List Request → Option (List Request)
take r [] = none
take r (q ∷ qs) =
    let rest = prepend q (take r qs) in if number_of q == number_of r then some qs else rest

-- An answer to a request that was not made does not come.
pub receive : Answer → Settings → Settings
unfolding handle take
receive a s = elim (take (request_of a) s.outstanding) [
  | none ↦ s
  | some rest ↦ handle a (record s { outstanding = rest })
]

-- `while (cs->pending) g_main_context_iteration(…)`, with the answers that are left; none if it waits.
pub wait : List Answer → Settings → Option (Settings × List Answer)
unfolding receive
wait [] s = if s.pending == 0 then some (s, []) else none
wait (a ∷ as') s =
    let rest = wait as' (receive a s) in if s.pending == 0 then some (s, a ∷ as') else rest

-- `_call_show`; whether the caller's identity is asked for, and the identifier of the other call.
pub call_show : Bool → ℕ → Settings → Settings
unfolding disable_widgets choose_divert made_if
call_show clir_ok id s =
    made_if (not (id == 0)) get_waiting
      (record (made_if clir_ok get_clir (
        choose_divert false
          (record (disable_widgets s) { forward_enabled = false; waiting_enabled = false }))) {
            svc_call_id = id;
          })

-- `_modem_show` once the SIM's codes are there: the part on calls.
pub modem_show : Bool → ℕ → Settings → Settings
unfolding call_show
modem_show clir_ok id s = call_show clir_ok id (record s { ok_sensitive = false; progress = true })
