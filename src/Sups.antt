-- ===== src/Sups.antt =====
-- lib/sups.c: the supplementary services of a modem. A call of a client stands in the table of service
-- calls; until the modem's interface is there it also stands in `pending`, and then oFono is asked.
-- The model is of one modem, which is in the context's table of modems.
pub mod Pending
pub mod Tracked
pub mod Steps
pub mod Started
pub mod Outcomes
pub mod Endings
pub mod Answers
pub mod Runs
mod Tests
use connui_cellular.Prelude.{
  ℕ, ◌+◌, String, Bool, true, false, not, ◌&&◌, Option, none, some, List, [], ◌∷◌, ◌==◌, nat_eq,
  string_eq, if◌then◌else◌, Table, lookup, insert, is_some,
}
use connui_cellular.Errors.{GError, connui, io_cancelled, not_recognized}
use connui_cellular.ServiceCall.{
  AsyncCb, call_waiting_get, call_waiting_set, forwarding_get, ServiceCall, Calls, write, new_call,
  fresh_call, remove_call, cancel_service_call, Cancelled, delegated, requested, dropped, ignored,
  unknown,
}
use connui_cellular.ServiceCall.View.{view}

-- sups_data. `number` tells one from those that were freed.
pub record SupsData : Type 0 where
  pub number : ℕ
  pub proxy : Bool
  pub pending : Option (List ℕ)

-- connui_sups_call_forward
pub record Forward : Type 0 where
  pub enabled : Bool
  pub number : Option String

pub record Forwards : Type 0 where
  pub busy : Forward
  pub no_reply : Forward
  pub unreachable : Forward

-- What the client's function is called with.
pub data Answer : Type 0 where
  waiting : Bool → Option GError → Answer
  changed : Option GError → Answer
  forwarding : Option Forwards → Option GError → Answer

-- What oFono answers to Initiate: the name of the result and the dictionary in it.
pub data Reply : Type 0 where
  failed : GError → Reply
  result : String → Table String String → Reply

pub record Sups : Type 0 where
  pub calls : Calls
  pub sups_data : Option SupsData
  pub made : ℕ  -- how many sups_data there were
  pub initiated : List (ℕ × String)  -- what oFono was asked, and for which call
  pub told : List (ℕ × Option ℕ × ℕ × Answer)  -- the answered calls, their functions and data
  pub aborted : Bool  -- a g_assert failed
  pub stray : Bool  -- a sups_data was read that had been freed

abbrev pub new_data : ℕ → SupsData
new_data n = record { number = n; proxy = false; pending = some [] }

abbrev pub data_or_new : Option SupsData → Sups → SupsData × Sups
data_or_new (some sd) w = (sd, w)
data_or_new none w =
    (new_data w.made, record w { sups_data = some (new_data w.made); made = w.made + 1 })

-- `_sups_data_get`
unfoldable pub get_data : Sups → SupsData × Sups
get_data w = data_or_new w.sups_data w

-- The command of a call.
unfoldable pub command : AsyncCb → ℕ → String
command call_waiting_get arg = "*#43#"
command call_waiting_set arg = if arg == 0 then "#43#" else "*43#"
command forwarding_get arg = "*#004**11#"

abbrev pub commands : Option AsyncCb → ℕ → String
commands none arg = ""
commands (some a) arg = command a arg

abbrev add_pending : ℕ → Option (List ℕ) → Option (List ℕ)
add_pending id none = none
add_pending id (some ids) = some (id ∷ ids)

-- `_do_call`; every call of the file has an `async_cb`.
unfoldable pub do_call : SupsData → ServiceCall → Sups → Sups
unfolding command write
do_call sd scd w =
    if sd.proxy
    then record w {
      calls = write (record scd { cancellable = some false }) w.calls;
      initiated = (scd.id, commands scd.async_cb scd.argument) ∷ w.initiated;
    }
    else record w { sups_data = some (record sd { pending = add_pending scd.id sd.pending }) }

-- `_sups_service_call`, with the identifier that it returns.
unfoldable pub service_call : AsyncCb → Option ℕ → ℕ → ℕ → Sups → ℕ × Sups
unfolding get_data do_call write new_call
service_call async_cb cb arg user_data w =
    let (sd, w') = get_data w in
    let (id, c) = new_call cb user_data w'.calls in
    let scd : ServiceCall = record (fresh_call id cb user_data) {
      argument = arg;
      async_cb = some async_cb;
      async_data = some sd.number;
      cancel = true;
    } in
    (id, do_call sd scd (record w' { calls = write scd c }))

-- A value of the dictionary, if it is not empty.
unfoldable pub number_at : String → Table String String → Option String
unfolding lookup
number_at key dict = elim (lookup key dict) [
  | none ↦ none
  | some s ↦ if s == "" then none else some s
]

unfoldable pub forward_at : String → Table String String → Forward
unfolding number_at
forward_at key dict =
    let number = number_at key dict in record { enabled = is_some number; number = number }

unfoldable pub is_enabled : Table String String → Bool
unfolding lookup
is_enabled dict = elim (lookup "VoiceCallWaiting" dict) [ none ↦ false | some s ↦ s == "enabled" ]

-- What the `async_cb`s make of oFono's reply.
unfoldable pub answer_of : AsyncCb → Reply → Answer
unfolding is_enabled forward_at
answer_of call_waiting_get (failed e) = waiting false (some e)
answer_of call_waiting_get (result name dict) =
    if name == "CallWaiting"
    then waiting (is_enabled dict) none
    else waiting false (some (connui not_recognized))
answer_of call_waiting_set (failed e) = changed (some e)
answer_of call_waiting_set (result name dict) =
    changed (if name == "CallWaiting" then none else some (connui not_recognized))
answer_of forwarding_get (failed e) = forwarding none (some e)
answer_of forwarding_get (result name dict) =
    if name == "CallForwarding"
    then forwarding
        (some (record {
          busy = forward_at "VoiceBusy" dict;
          no_reply = forward_at "VoiceNoReply" dict;
          unreachable = forward_at "VoiceNotReachable" dict;
        }))
        none
    else forwarding none (some (connui not_recognized))

abbrev answers_of : Option AsyncCb → Reply → Answer
answers_of none r = changed none
answers_of (some a) r = answer_of a r

-- The sups_data that a call points to is there.
abbrev pub is_live : Option ℕ → Option SupsData → Bool
is_live (some n) (some sd) = n == sd.number
is_live _ _ = false

-- The end of the `async_cb`s: the client's function, with the path of the sups_data, and
-- `_remove_call`.
unfoldable pub finish : ServiceCall → Answer → Sups → Sups
unfolding remove_call
finish scd a w = record w {
  told = (scd.id, scd.callback, scd.user_data, a) ∷ w.told;
  calls = remove_call scd.id w.calls;
  stray = if is_live scd.async_data w.sups_data then w.stray else true;
}

-- `_call_waiting_get_cb`, `_call_waiting_set_cb`, `_forwarding_get_cb`, with oFono's reply
unfoldable pub replied : ServiceCall → Reply → Sups → Sups
unfolding finish answer_of
replied scd r w = finish scd (answers_of scd.async_cb r) w

unfoldable pub remove_id : ℕ → List ℕ → List ℕ
remove_id id [] = []
remove_id id (j ∷ js) = let rest = remove_id id js in if j == id then rest else j ∷ rest

abbrev remove_pending : ℕ → Option SupsData → Option SupsData
remove_pending id none = none
remove_pending id (some sd) = elim sd.pending [
  | none ↦ some sd
  | some ids ↦ some (record sd { pending = some (remove_id id ids) })
]

-- The `async_cb`s with no result, called by `_sups_service_call_cancel`: `_sups_check_cancelled` takes
-- the call out of the pending ones of its sups_data.
unfoldable pub cancelled : ServiceCall → Sups → Sups
unfolding finish answer_of remove_id
cancelled scd w = finish scd (answers_of scd.async_cb (failed io_cancelled)) (
    if is_live scd.async_data w.sups_data
    then record w { sups_data = remove_pending scd.id w.sups_data }
    else w)

-- What becomes of the state in the cases of `connui_cell_cancel_service_call`.
abbrev pub cancel_by : Cancelled → Calls → Sups → Sups
cancel_by (delegated scd) calls w = cancelled scd w
cancel_by requested calls w = record w { calls = calls }
cancel_by dropped calls w = record w { calls = calls }
cancel_by ignored calls w = w
cancel_by unknown calls w = w

-- `connui_cell_cancel_service_call` on a call of this file. oFono replies later to a request that was
-- cancelled.
unfoldable pub cancel : ℕ → Sups → Sups
unfolding cancel_service_call cancelled
cancel id w = let (c, calls) = cancel_service_call id w.calls in cancel_by c calls w

abbrev pub waiting_ids : Option (List ℕ) → List ℕ
waiting_ids none = []
waiting_ids (some ids) = ids

-- The loop over the pending calls.
unfoldable pub do_pending : SupsData → List ℕ → Sups → Sups
unfolding do_call view
do_pending sd [] w = w
do_pending sd (id ∷ ids) w =
    do_pending sd ids (elim (view w.calls id) [ none ↦ w | some scd ↦ do_call sd scd w ])

-- `connui_cell_modem_add_supplementary_services`; `made`: the proxy can be created.
unfoldable pub add : Bool → Sups → Sups
unfolding get_data do_pending
add made w =
    let (sd, w') = get_data w in
    let asked = do_pending (record sd { proxy = true }) (waiting_ids sd.pending) w' in
    if sd.proxy
    then record w' { aborted = true }
    else if made
    then record asked { sups_data = some (record sd { proxy = true; pending = none }) }
    else w'

-- `connui_cell_modem_remove_supplementary_services`, with `_sups_data_destroy`
unfoldable pub remove : Sups → Sups
remove w = record w { sups_data = none }
