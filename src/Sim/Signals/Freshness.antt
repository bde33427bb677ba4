-- ===== src/Sim/Signals/Freshness.antt =====
-- What the clients were told last is what the SIM manager's data says.
use connui_cellular.Prelude.{
  ℕ, ◌&&◌, ◌<◌, ◌≡◌, String, Bool, true, false, List, [], ◌∷◌, Option, none, some, arith, nat_eq,
}
use connui_cellular.Glib.{Variants}
use connui_cellular.Sim.{SimStatus, SimData, parse_property, get_status}
use connui_cellular.Sim.Signals.{
  Loop, step, run, Event, changed, status_registered, code_registered, status_idle, code_idle,
  verified, add_simmgr,
}
use connui_cellular.Sim.Signals.Sources.{
  IsTracked, ids-parse_property, step-IsTracked, add_simmgr-IsTracked, add_simmgr-pending,
}

abbrev pub latest : List SimStatus → Option SimStatus
latest [] = none
latest (s ∷ rest) = some s

-- With no status source pending, the clients' latest status is that of the data.
abbrev pub IsFresh : Loop → Type 0
IsFresh l = l.status_sources ≡ 0 → latest l.sent ≡ some (get_status l.sd)

-- An event of oFono, of a client or of the main loop, and not a read by `verify_code`.
abbrev pub is_signal : {g : Variants} {source : ℕ → ℕ} → Event g source → Bool
is_signal (verified v) = false
is_signal _ = true

abbrev pub all_signals : {g : Variants} {source : ℕ → ℕ} → List (Event g source) → Bool
all_signals [] = true
all_signals (e ∷ es) = is_signal e && all_signals es

module _ (g : Variants) where
  open g use {Variant}

  -- A property that does not notify does not change the status.
  quiet-get_status :
      (name : String) (v : Variant) (sd : SimData)
      → (parse_property g name v sd).0 ≡ false
      → get_status (parse_property g name v sd).1 ≡ get_status sd
  unfolding parse_property get_status
  quiet-get_status name v sd h = ground arith

  module _ (source : ℕ → ℕ) (positive : (n : ℕ) → 0 < source n) where
    step-IsFresh :
        (e : Event g source) (l : Loop)
        → is_signal e ≡ true
        → IsTracked l
        → IsFresh l
        → IsFresh (step g source e l)
    unfolding step get_status
    step-IsFresh (changed name v) l s t h =
        λ z. ground (arith, quiet-get_status name v l.sd, ids-parse_property g name v l.sd, h)
    step-IsFresh status_registered l s t h = λ z. ground (arith, h, positive l.added)
    step-IsFresh code_registered l s t h = λ z. ground (arith, h)
    step-IsFresh status_idle l s t h = λ z. ground (arith, h)
    step-IsFresh code_idle l s t h = λ z. ground (arith, h)
    step-IsFresh (verified v) l s t h = cc

    run-IsFresh :
        (es : List (Event g source)) (l : Loop)
        → all_signals es ≡ true
        → IsTracked l
        → IsFresh l
        → IsFresh (run g source es l)
    unfolding run
    run-IsFresh [] l s t h = h
    run-IsFresh (e ∷ es) l s t h =
        run-IsFresh es (step g source e l) (ground arith) (step-IsTracked g source positive e l t)
          (step-IsFresh e l (ground arith) t h)

    -- From the creation of a SIM manager with any properties, after any property changes,
    -- registrations and idle runs, in any order: if no status source is pending, the status that
    -- the clients got last is the present status. (Reads by `verify_code`, which notify nobody, are
    -- not among these events. GLib gives identifiers above 0.)
    pub run_is_fresh :
        (ps : List (String × Variant)) (es : List (Event g source))
        → all_signals es ≡ true
        → (run g source es (add_simmgr g source ps)).status_sources ≡ 0
        → latest (run g source es (add_simmgr g source ps)).sent
          ≡ some (get_status (run g source es (add_simmgr g source ps)).sd)
    run_is_fresh ps es s z =
        run-IsFresh es (add_simmgr g source ps) s (add_simmgr-IsTracked g source positive ps)
          (λ z. absurd (omega (arith, add_simmgr-pending g source positive ps))) z
