-- ===== src/Net/CallerId.antt =====
-- lib/net.c: whether the caller's identity is hidden, which is a parameter of the account of the
-- connection manager "ring" in telepathy. The account manager is telepathy's; what it answers to
-- tp_proxy_prepare_async and tp_account_update_parameters_async is given.
pub mod Answers
use connui_cellular.Prelude.{
  ℕ, ◌+◌, String, Bool, true, false, Option, none, some, List, [], ◌∷◌, ◌==◌, string_eq,
  if◌then◌else◌,
}
use connui_cellular.Errors.{GError}
use connui_cellular.ServiceCall.{ServiceCall, Calls, new_call, remove_call}

pub record Account : Type 0 where
  pub cm_name : String
  pub anonymity_modes : ℕ  -- tp_asv_get_uint32, 0 when it is not set

-- The account manager is prepared, and has these valid accounts, or is not.
pub data Prepared : Type 0 where
  failed : GError → Prepared
  ready : List Account → Prepared

-- `find_ring_account`
unfoldable pub find_ring_account : List Account → Option Account
find_ring_account [] = none
find_ring_account (a ∷ accounts) =
    let rest = find_ring_account accounts in if a.cm_name == "ring" then some a else rest

-- The calls of `cell_get_anonymity_cb`s: the function, its data, the anonymity and the error.
abbrev pub Told : Type 0
Told = List (ℕ × ℕ × ℕ × Option GError)

unfoldable pub anonymity_of : Option Account → ℕ
anonymity_of none = 0
anonymity_of (some a) = a.anonymity_modes

-- `_cid_get_cb` for the call `id`, whose function is `cb`.
unfoldable pub cid_get_cb : ℕ → ℕ → ℕ → Prepared → Calls × Told → Calls × Told
unfolding find_ring_account anonymity_of
cid_get_cb id cb user_data (failed e) (c, told) =
    (remove_call id c, (cb, user_data, 0, some e) ∷ told)
cid_get_cb id cb user_data (ready accounts) (c, told) =
    (remove_call id c, (cb, user_data, anonymity_of (find_ring_account accounts), none) ∷ told)

-- `connui_cell_net_get_caller_id_anonymity`: whether it returns TRUE, the identifier of the call that
-- telepathy will answer, and the table. `manager`: there is an account manager.
unfoldable pub get_caller_id_anonymity : Bool → ℕ → ℕ → Calls → Bool × Option ℕ × Calls
unfolding new_call
get_caller_id_anonymity manager cb user_data c =
    if manager
    then (let (id, c') = new_call (some cb) user_data c in (true, some id, c'))
    else (false, none, c)

-- A call of `connui_cell_net_set_caller_id_anonymity`, which no table holds.
pub data Stage : Type 0 where
  preparing : Stage
  updating : Account → ℕ → Stage  -- telepathy updates the account to this anonymity
  destroyed : Stage
  dropped : Stage  -- nothing is under way, and the call is not destroyed

pub record SetCall : Type 0 where
  pub callback : Option (ℕ × ℕ)
  pub anonymity : ℕ
  pub stage : Stage
  pub answers : List (ℕ × ℕ × Option GError)  -- the calls of the client's function

-- `connui_cell_net_set_caller_id_anonymity`; with no manager it returns FALSE.
unfoldable pub set_caller_id_anonymity : Bool → ℕ → Option (ℕ × ℕ) → Option SetCall
set_caller_id_anonymity manager anonymity cb =
    if manager
    then some (record { callback = cb; anonymity = anonymity; stage = preparing; answers = [] })
    else none

-- The client's function is called, if there is one, and the call destroyed.
unfoldable pub answer : Option GError → SetCall → SetCall
answer e s = elim s.callback [
  | none ↦ record s { stage = destroyed }
  | some (cb, user_data) ↦ record s { stage = destroyed; answers = (cb, user_data, e) ∷ s.answers }
]

-- `_cid_set_cb`
unfoldable pub cid_set_cb : Prepared → SetCall → SetCall
unfolding answer find_ring_account
cid_set_cb (failed e) s = answer (some e) s
cid_set_cb (ready accounts) s = elim (find_ring_account accounts) [
  | none ↦ record s { stage = dropped }
  | some a ↦ record s { stage = updating a s.anonymity }
]

-- `_cid_update_parameter_cb`
unfoldable pub cid_update_parameter_cb : Option GError → SetCall → SetCall
unfolding answer
cid_update_parameter_cb e s = answer e s

-- The whole of it, with telepathy's two answers.
unfoldable pub set_run : Prepared → Option GError → SetCall → SetCall
unfolding cid_set_cb cid_update_parameter_cb
set_run p e s =
    let s' = cid_set_cb p s in
    elim s'.stage [ updating a n ↦ cid_update_parameter_cb e s' | _ ↦ s' ]
