-- ===== src/ServiceCall.antt =====
-- The table of outstanding service calls: lib/service-call.c.
-- `Calls` is the part of `connui_cell_context` that the file works on. The heap objects
-- `service_call_data` live in the table, so an identifier stands for a pointer to one.
pub mod View
pub mod Consistency
pub mod Runs
pub mod Cancelling
mod Tests
use connui_cellular.Prelude.{
  ℕ, ◌+◌, ◌%◌, ◌^◌, String, Bool, true, false, Option, none, some, [], ◌∷◌, Table, lookup, insert,
  remove, nat_eq, is_some, if◌then◌else◌, ◌==◌,
}
use connui_cellular.Errors.{GError}

-- The `GAsyncReadyCallback`s that lib/sups.c hands to a call.
pub data AsyncCb : Type 0 where
  call_waiting_get call_waiting_set forwarding_get : AsyncCb

pub record ServiceCall : Type 0 where
  pub id : ℕ
  pub callback : Option ℕ  -- the client's function
  pub argument : ℕ  -- `data`
  pub user_data : ℕ
  pub async_cb : Option AsyncCb
  pub async_data : Option ℕ  -- the sups_data of lib/sups.c, by its number
  pub cancellable : Option Bool  -- there is a GCancellable, and whether it is cancelled
  pub cancel : Bool  -- there is a cancel function
  pub error : Option GError

pub record Calls : Type 0 where
  pub service_calls : Option (Table ℕ ServiceCall)
  pub service_call_id : ℕ

-- The zeroed fields of the static context.
abbrev pub no_calls : Calls
no_calls = record { service_calls = none; service_call_id = 0 }

abbrev pub id_mod : ℕ
id_mod = 2 ^ 32

-- `++ctx->service_call_id`, read as a guint.
unfoldable pub next_id : Calls → ℕ × Calls
next_id c = let id = (c.service_call_id + 1) % id_mod in (id, record c { service_call_id = id })

-- `g_new0` and the three assignments.
abbrev pub fresh_call : ℕ → Option ℕ → ℕ → ServiceCall
fresh_call id cb user_data = record {
  id = id;
  callback = cb;
  argument = 0;
  user_data = user_data;
  async_cb = none;
  async_data = none;
  cancellable = none;
  cancel = false;
  error = none;
}

abbrev pub entries : Option (Table ℕ ServiceCall) → Table ℕ ServiceCall
entries none = []
entries (some t) = t

unfoldable pub add : ℕ → Option ℕ → ℕ → Calls → ServiceCall × Calls
unfolding insert
add id cb user_data c =
    let scd = fresh_call id cb user_data in
    (scd, record c { service_calls = some (insert id scd (entries c.service_calls)) })

-- `service_call_find` on a table that exists.
unfoldable pub find : ℕ → Table ℕ ServiceCall → Option ServiceCall
unfolding lookup
find id t = lookup id t

-- The table is destroyed with its last entry, and the identifiers start again.
shrink : Table ℕ ServiceCall → Calls → Calls
shrink [] c = record { service_calls = none; service_call_id = 0 }
shrink (e ∷ t) c = record c { service_calls = some (e ∷ t) }

take_found : ℕ → Option ServiceCall → Table ℕ ServiceCall → Calls → Option ServiceCall × Calls
unfolding shrink remove
take_found id none t c = (none, c)
take_found id (some scd) t c = (some scd, shrink (remove id t) c)

take_from : ℕ → Option (Table ℕ ServiceCall) → Calls → Option ServiceCall × Calls
unfolding take_found find
take_from id none c = (none, c)
take_from id (some t) c = take_found id (find id t) t c

unfoldable pub take : ℕ → Calls → Option ServiceCall × Calls
unfolding take_from
take id c = take_from id c.service_calls c

-- `service_call_remove` frees what it takes.
unfoldable pub remove_call : ℕ → Calls → Calls
unfolding take
remove_call id c = (take id c).1

-- What every caller does: a new identifier, and a call under it.
unfoldable pub new_call : Option ℕ → ℕ → Calls → ℕ × Calls
unfolding next_id add
new_call cb user_data c =
    let (id, c') = next_id c in let (scd, c'') = add id cb user_data c' in (id, c'')

-- A write through the pointer to a call.
unfoldable pub write : ServiceCall → Calls → Calls
unfolding insert
write scd c = record c { service_calls = some (insert scd.id scd (entries c.service_calls)) }

-- A write through the pointer to the call that was found under an identifier.
write_found : ℕ → Option ServiceCall → Table ℕ ServiceCall → Calls → Calls
unfolding insert
write_found id none t c = c
write_found id (some scd) t c = record c { service_calls = some (insert id scd t) }

pub data Cancelled : Type 0 where
  ignored : Cancelled  -- no call is outstanding, or the identifier is 0
  unknown : Cancelled  -- no call has the identifier
  requested : Cancelled  -- its GCancellable was cancelled
  delegated : ServiceCall → Cancelled  -- its cancel function runs on it
  dropped : Cancelled  -- it was removed

cancel_found : ℕ → Option ServiceCall → Table ℕ ServiceCall → Calls → Cancelled × Calls
unfolding write_found remove_call
cancel_found id none t c = (unknown, c)
cancel_found id (some scd) t c =
    if is_some scd.cancellable
    then (requested, write_found id (some (record scd { cancellable = some true })) t c)
    else if scd.cancel
    then (delegated scd, c)
    else (dropped, remove_call id c)

cancel_from : ℕ → Option (Table ℕ ServiceCall) → Calls → Cancelled × Calls
unfolding cancel_found
cancel_from id none c = (ignored, c)
cancel_from id (some t) c = if id == 0 then (ignored, c) else cancel_found id (find id t) t c

-- `connui_cell_cancel_service_call`, between getting and destroying the context.
unfoldable pub cancel_service_call : ℕ → Calls → Cancelled × Calls
unfolding cancel_from
cancel_service_call id c = cancel_from id c.service_calls c
