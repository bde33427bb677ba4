-- ===== src/Datacounter/Clients/Lifetime.antt =====
-- The counter holds one reference and one watch of GConf while it is initialized, and none else.
use connui_cellular.Prelude.{
  ℕ, ◌+◌, ◌≡◌, refl, String, Bool, Option, none, some, List, [], ◌∷◌, ◌++◌, arith, if◌then◌else◌,
  Option-cases, inl, inr,
}
use connui_cellular.Datacounter.{GConf, Key, Value, Datacounter, zeroed, gconf_changed}
use connui_cellular.Datacounter.Clients.{World, register, close, reset_counter, save_counter}

-- The calls of the clients, and a change of the store by anyone, whose signal comes later.
pub data Call (S : Type 0) : Type 0 where
  registering : ℕ → Bool → ℕ → Call S
  closing : ℕ → Call S
  resetting : ℕ → Call S
  saving : Bool → Option String → Call S
  storing : S → Call S
  signal : Key → Option Value → Call S

pub record IsHeld {S : Type 0} (w : World S) : Type 0 where
  pub references_one : w.references ≡ w.unreferences + (if w.dc.initialized then 1 else 0)
  pub watches_one : w.watches ≡ w.unwatches + (if w.dc.initialized then 1 else 0)
  pub client_held : w.dc.gconf ≡ w.dc.initialized

module _ {S : Type 0} (gc : GConf S) (client : Option ℕ)
    (notify_add : List (ℕ × ℕ) → ℕ → ℕ → List (ℕ × ℕ))
    (notify_remove : List (ℕ × ℕ) → ℕ → List (ℕ × ℕ)) where
  after_signal : World S → Datacounter × List Datacounter → World S
  after_signal w (dc', sent) = record w { dc = dc'; notices = sent ++ w.notices }

  -- A call that reads NULL ends the program, here the run.
  unfoldable pub step : Call S → World S → Option (World S)
  unfolding register close reset_counter save_counter gconf_changed after_signal
  step (registering cb home user_data) w =
      some (register gc client notify_add notify_remove cb home user_data w).1
  step (closing cb) w = some (close gc client notify_add notify_remove (some cb) w)
  step (resetting now) w = reset_counter gc client notify_add notify_remove now w
  step (saving enabled limit) w = save_counter gc client notify_add notify_remove enabled limit w
  step (storing st) w = some (record w { store = st })
  step (signal k v) w = some (after_signal w (gconf_changed gc k v w.dc))

  unfoldable pub run : List (Call S) → World S → Option (World S)
  unfolding step
  run [] w = some w
  run (c ∷ cs) w = elim (step c w) [ none ↦ none | some w' ↦ run cs w' ]

  step-IsHeld : (c : Call S) (w w' : World S) → IsHeld w → step c w ≡ some w' → IsHeld w'
  unfolding step
  step-IsHeld c w w' h e = ground arith

  run-IsHeld_from :
      (cs : List (Call S)) (w w' : World S) → IsHeld w → run cs w ≡ some w' → IsHeld w'
  unfolding run
  run-IsHeld_from [] w w' h e = ground arith
  run-IsHeld_from (c ∷ cs) w w' h e = elim (Option-cases (step c w)) [
    | inl n ↦ cc
    | inr (v, s) ↦ run-IsHeld_from cs v w' (step-IsHeld c w v h s) (ground arith)
  ]

  abbrev pub start : S → World S
  start st = record {
    store = st;
    dc = zeroed;
    references = 0;
    unreferences = 0;
    watches = 0;
    unwatches = 0;
    notices = [];
  }

  -- After any calls, changes of the store and signals, in any order, that do not end the program: the
  -- GConf client was taken once more than it was released if the counter is initialized, and as often
  -- if not; the same holds of the watch; and the counter has its client just if it is initialized.
  pub run-IsHeld :
      (cs : List (Call S)) (st : S) (w : World S) → run cs (start st) ≡ some w → IsHeld w
  run-IsHeld cs st w =
      run-IsHeld_from cs (start st) w
        (record { references_one = refl; watches_one = refl; client_held = refl })
