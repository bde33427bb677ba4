-- ===== src/Context.antt =====
-- lib/context.c: the life of the context that all calls of the library share. Every function that takes
-- it calls `get`; most call `destroy` at their end, which drops it unless clients still need it.
pub mod Lifetime
mod Tests
use connui_cellular.Prelude.{
  ℕ, ◌+◌, String, Bool, true, false, not, ◌&&◌, ◌||◌, Option, none, some, List, [], ◌∷◌, ◌==◌,
  string_eq, if◌then◌else◌, is_some,
}
use connui_cellular.ServiceCall.{ServiceCall, Calls, no_calls, new_call, take}

-- The lists of clients' functions.
pub data Clients : Type 0 where
  modem sim_status sec_code net_status conn_status net_list net_select call_status : Clients

abbrev pub same : Clients → Clients → Bool
same modem modem = true
same sim_status sim_status = true
same sec_code sec_code = true
same net_status net_status = true
same conn_status conn_status = true
same net_list net_list = true
same net_select net_select = true
same call_status call_status = true
same _ _ = false

-- The part of `connui_cell_context` that decides on its life. The proxies of the modems are the paths
-- that they stand under.
pub record Context : Type 0 where
  pub initialized : Bool
  pub cbs : Clients → List (ℕ × ℕ)
  pub calls : Calls
  pub modems : List String

-- The static context.
abbrev pub no_context : Context
no_context = record { initialized = false; cbs = λ k. []; calls = no_calls; modems = [] }

unfoldable pub insert_path : String → List String → List String
insert_path p [] = p ∷ []
insert_path p (q ∷ qs) = let rest = insert_path p qs in if q == p then q ∷ qs else q ∷ rest

unfoldable pub remove_path : String → List String → List String
remove_path p [] = []
remove_path p (q ∷ qs) = let rest = remove_path p qs in if q == p then rest else q ∷ rest

-- `_add_modem`; `made`: its proxy can be created.
unfoldable pub add_modem : Bool → String → Context → Context
unfolding insert_path
add_modem made path c = if made then record c { modems = insert_path path c.modems } else c

-- `_modem_removed_cb`
unfoldable pub remove_modem : String → Context → Context
unfolding remove_path
remove_modem path c = record c { modems = remove_path path c.modems }

-- The loop of `create_proxies` over oFono's modems, with whether their proxies can be created.
unfoldable pub add_all : List (String × Bool) → Context → Context
unfolding add_modem
add_all [] c = c
add_all ((path, made) ∷ ms) c = add_all ms (add_modem made path c)

-- `connui_cell_context_get` by whether the context is initialized.
unfoldable pub get_by : Bool → Option (List (String × Bool)) → Context → Bool × Context
unfolding add_all
get_by true ofono c = (true, c)
get_by false none c = (false, c)
get_by false (some ms) c =
    (true, record (add_all ms (record c { modems = [] })) { initialized = true; cbs = λ k. [] })

-- `connui_cell_context_get`, with what oFono answers on its modems: whether there is a context, and it.
unfoldable pub get : Option (List (String × Bool)) → Context → Bool × Context
unfolding get_by
get ofono c = get_by c.initialized ofono c

abbrev pub is_empty : List (ℕ × ℕ) → Bool
is_empty [] = true
is_empty (x ∷ xs) = false

-- The tests of `connui_cell_context_destroy`, which leave out call_status_cbs.
unfoldable pub is_used : Context → Bool
is_used c =
    not (is_empty (c.cbs modem))
    || not (is_empty (c.cbs sim_status))
    || not (is_empty (c.cbs sec_code))
    || not (is_empty (c.cbs conn_status))
    || not (is_empty (c.cbs net_status))
    || not (is_empty (c.cbs net_list))
    || not (is_empty (c.cbs net_select))
    || is_some c.calls.service_calls

-- `connui_cell_context_destroy`
unfoldable pub destroy : Context → Context
unfolding is_used
destroy c =
    if not c.initialized || is_used c then c else record c { initialized = false; modems = [] }

abbrev pub set_cbs : Clients → List (ℕ × ℕ) → Context → Context
set_cbs k l c = record c { cbs = λ j. if same k j then l else c.cbs j }

-- Which functions that register a client call `destroy` at their end.
abbrev pub destroys : Clients → Bool
destroys sim_status = true
destroys sec_code = true
destroys net_list = true
destroys net_select = true
destroys call_status = true
destroys _ = false

module _ (notify_add : List (ℕ × ℕ) → ℕ → ℕ → List (ℕ × ℕ))
    (notify_remove : List (ℕ × ℕ) → ℕ → List (ℕ × ℕ)) where
  -- A client's function in its list.
  unfoldable pub enter : Clients → ℕ → ℕ → Context → Context
  unfolding destroy
  enter k cb user_data c =
      let c' = set_cbs k (notify_add (c.cbs k) cb user_data) c in
      if destroys k then destroy c' else c'

  unfoldable pub register_with : Clients → ℕ → ℕ → Bool × Context → Bool × Context
  unfolding enter
  register_with k cb user_data (false, c) = (false, c)
  register_with k cb user_data (true, c) = (true, enter k cb user_data c)

  -- `connui_cell_modem_status_register` and the others, with what they return
  unfoldable pub register :
      Clients → Option (List (String × Bool)) → ℕ → ℕ → Context → Bool × Context
  unfolding get register_with
  register k ofono cb user_data c = register_with k cb user_data (get ofono c)

  -- `connui_cell_modem_status_close` and the others
  unfoldable pub close : Clients → Option (List (String × Bool)) → ℕ → Context → Context
  unfolding get destroy
  close k ofono cb c =
      let (ok, c') = get ofono c in
      if ok then destroy (set_cbs k (notify_remove (c'.cbs k) cb) c') else c'

-- A call that only asks, as `connui_cell_modem_is_online`.
unfoldable pub ask : Option (List (String × Bool)) → Context → Context
unfolding get destroy
ask ofono c = let (ok, c') = get ofono c in if ok then destroy c' else c'

-- A call that does not give it back, as `connui_cell_sim_get_status` (through `_sim_data_get`) and
-- `connui_cell_net_set_call_forwarding_enabled`.
unfoldable pub leave : Option (List (String × Bool)) → Context → Context
unfolding get
leave ofono c = (get ofono c).1

-- A call that starts a service call, as `_sups_service_call`, and the end of one, as `_remove_call`.
unfoldable pub start_call : Option (List (String × Bool)) → Option ℕ → ℕ → Context → Context
unfolding get destroy
start_call ofono cb user_data c =
    let (ok, c') = get ofono c in
    if ok then destroy (record c' { calls = (new_call cb user_data c'.calls).1 }) else c'

unfoldable pub end_call : Option (List (String × Bool)) → ℕ → Context → Context
unfolding get destroy
end_call ofono id c =
    let (ok, c') = get ofono c in
    if ok then destroy (record c' { calls = (take id c'.calls).1 }) else c'
