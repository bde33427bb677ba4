-- ===== src/Datacounter/Clients.antt =====
-- The clients of lib/datacounter.c: `register`, `close`, `reset` and `save` on the one counter, with
-- the GConf objects that it holds.
pub mod Lifetime
use connui_cellular.Prelude.{
  ℕ, ◌+◌, String, Bool, true, false, Option, none, some, List, [], ◌∷◌, ◌++◌, if◌then◌else◌,
}
use connui_cellular.Datacounter.{GConf, Datacounter, zeroed, notify, get, reset, save}

-- The store, the counter, what the callbacks were given, and how often the file took and released the
-- GConf client and a watch of it.
pub record World (S : Type 0) : Type 0 where
  pub store : S
  pub dc : Datacounter
  pub references : ℕ
  pub unreferences : ℕ
  pub watches : ℕ
  pub unwatches : ℕ
  pub notices : List Datacounter  -- the latest first

-- `client` says whether GConf is there, and with which identifier it would watch; the lists of
-- callbacks are libconnui's.
module _ {S : Type 0} (gc : GConf S) (client : Option ℕ)
    (notify_add : List (ℕ × ℕ) → ℕ → ℕ → List (ℕ × ℕ))
    (notify_remove : List (ℕ × ℕ) → ℕ → List (ℕ × ℕ)) where
  -- `connui_cell_datacounter_get`, which takes a reference and a watch if it starts the counter.
  pub fetch : Bool → World S → Bool × World S
  unfolding get
  fetch home w =
      let (ok, dc') = get gc client home w.store w.dc in
      if w.dc.initialized
      then (ok, record w { dc = dc' })
      else if ok
      then (ok, record w { dc = dc'; references = w.references + 1; watches = w.watches + 1 })
      else (ok, record w { dc = dc' })

  unfoldable pub register : ℕ → Bool → ℕ → World S → Bool × World S
  unfolding fetch
  register cb home user_data w =
      let (ok, w') = fetch home w in
      let dc' = record w'.dc { notifiers = notify_add w'.dc.notifiers cb user_data } in
      if ok then (true, record w' { dc = dc'; notices = notify dc' ++ w'.notices }) else (false, w')

  -- What `close` does to a counter without callbacks.
  pub release : World S → World S
  release w = record w {
    dc = record w.dc { gconf = false; warning_limit = none; initialized = false };
    unreferences = w.unreferences + 1;
    unwatches = w.unwatches + 1;
  }

  pub close_if_unused : List (ℕ × ℕ) → World S → World S
  unfolding release
  close_if_unused [] w = release (record w { dc = record w.dc { notifiers = [] } })
  close_if_unused (n ∷ ns) w = record w { dc = record w.dc { notifiers = n ∷ ns } }

  abbrev pub removed : Option ℕ → List (ℕ × ℕ) → List (ℕ × ℕ)
  removed none ns = ns
  removed (some cb) ns = notify_remove ns cb

  unfoldable pub close : Option ℕ → World S → World S
  unfolding fetch close_if_unused
  close cb w =
      let (ok, w') = fetch true w in
      if ok then close_if_unused (removed cb w'.dc.notifiers) w' else w'

  -- Neither `reset` nor `save` looks whether there is a counter: none is the NULL that they read.
  unfoldable pub reset_counter : ℕ → World S → Option (World S)
  unfolding fetch reset close
  reset_counter now w =
      let (ok, w') = fetch true w in
      if ok
      then some (close none (record w' { store = reset gc now w'.dc.home w'.store }))
      else none

  unfoldable pub save_counter : Bool → Option String → World S → Option (World S)
  unfolding fetch save
  save_counter enabled limit w =
      let (ok, w') = fetch true w in
      if ok then some (record w' { store = save gc enabled limit w'.dc.home w'.store }) else none
