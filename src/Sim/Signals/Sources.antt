-- ===== src/Sim/Signals/Sources.antt =====
-- The main loop holds at most one source of each kind for a `sim_data`, and none for a dead one.
use connui_cellular.Prelude.{
  ℕ, ◌+◌, ◌<◌, ◌≤◌, ◌≡◌, refl, String, List, [], ◌∷◌, none, some, arith, ◌==◌, nat_eq,
  if◌then◌else◌,
}
use connui_cellular.Glib.{Variants}
use connui_cellular.Sim.{SimData, parse_property, create, get_pin_required}
use connui_cellular.Sim.Signals.{
  Loop, step, run, Event, changed, status_registered, code_registered, status_idle, code_idle,
  verified, destroy, add_simmgr, parse_all,
}

-- The fields say what the main loop holds: no source where the field is 0, and one where it is not.
pub record IsTracked (l : Loop) : Type 0 where
  pub status_one : l.status_sources ≡ (if l.sd.idle_status_id == 0 then 0 else 1)
  pub code_one : l.code_sources ≡ (if l.sd.idle_security_code_id == 0 then 0 else 1)

module _ (g : Variants) where
  open g use {Variant}

  -- Reading a property leaves the two identifiers alone.
  pub ids-parse_property :
      (name : String) (v : Variant) (sd : SimData)
      → ((parse_property g name v sd).1.idle_status_id ≡ sd.idle_status_id)
        × ((parse_property g name v sd).1.idle_security_code_id ≡ sd.idle_security_code_id)
  unfolding parse_property
  ids-parse_property name v sd = ground arith

  module _ (source : ℕ → ℕ) (positive : (n : ℕ) → 0 < source n) where
    pub step-IsTracked :
        (e : Event g source) (l : Loop) → IsTracked l → IsTracked (step g source e l)
    unfolding step
    step-IsTracked (changed name v) l h =
        ground (arith, ids-parse_property name v l.sd, positive l.added, positive (l.added + 1))
    step-IsTracked status_registered l h = ground (arith, positive l.added)
    step-IsTracked code_registered l h = ground (arith, positive l.added)
    step-IsTracked status_idle l h = ground arith
    step-IsTracked code_idle l h = ground arith
    step-IsTracked (verified none) l h =
        unfold get_pin_required in record { status_one = h.status_one; code_one = h.code_one }
    step-IsTracked (verified (some v)) l h =
        unfold get_pin_required in record { status_one = h.status_one; code_one = h.code_one }

    pub run-IsTracked :
        (es : List (Event g source)) (l : Loop) → IsTracked l → IsTracked (run g source es l)
    unfolding run
    run-IsTracked [] l h = h
    run-IsTracked (e ∷ es) l h = run-IsTracked es (step g source e l) (step-IsTracked e l h)

    ids-parse_all :
        (ps : List (String × Variant)) (sd : SimData)
        → ((parse_all g source ps sd).idle_status_id ≡ sd.idle_status_id)
          × ((parse_all g source ps sd).idle_security_code_id ≡ sd.idle_security_code_id)
    unfolding parse_all
    ids-parse_all [] sd = (refl, refl)
    ids-parse_all ((name, v) ∷ ps) sd =
        ground
          (arith, ids-parse_property name v sd, ids-parse_all ps (parse_property g name v sd).1)

    pub add_simmgr-IsTracked : (ps : List (String × Variant)) → IsTracked (add_simmgr g source ps)
    unfolding add_simmgr
    add_simmgr-IsTracked ps = ground (arith, ids-parse_all ps create, positive 0, positive 1)

    pub add_simmgr-pending :
        (ps : List (String × Variant)) → (add_simmgr g source ps).status_sources ≡ 1
    unfolding add_simmgr
    add_simmgr-pending ps = ground (arith, ids-parse_all ps create, positive 0)

    -- From the creation of a SIM manager with any properties, after any events: the main loop holds
    -- at most one source of each kind for it, and when it is destroyed it holds none, so no
    -- callback runs on freed data. GLib gives identifiers above 0.
    pub sources-destroy :
        (ps : List (String × Variant)) (es : List (Event g source))
        → let l = run g source es (add_simmgr g source ps) in
          (l.status_sources ≤ 1)
          × (l.code_sources ≤ 1)
          × ((destroy l).status_sources ≡ 0)
          × ((destroy l).code_sources ≡ 0)
    unfolding destroy
    sources-destroy ps es =
        ground (arith, run-IsTracked es (add_simmgr g source ps) (add_simmgr-IsTracked ps))
