-- ===== src/Sim/Signals/Tests.antt =====
-- A SIM manager with concrete properties, and a run of signals and idle sources.
use connui_cellular.Prelude.{suc, ◌≤◌, ◌≡◌, refl, String, some, List, [], ◌∷◌, arith}
use connui_cellular.Glib.{texts}
use connui_cellular.Sim.{SimStatus, get_status, parse_property}
use connui_cellular.Sim.Signals.{
  Event, changed, code_registered, status_idle, code_idle, run, add_simmgr, destroy,
}
use connui_cellular.Sim.Signals.Sources.{sources-destroy}
use connui_cellular.Sim.Signals.Freshness.{latest, run_is_fresh}

abbrev props : List (String × String)
props = ("Present", "true") ∷ ("PinRequired", "pin") ∷ []

abbrev events : List (Event texts suc)
events =
    status_idle
    ∷ code_idle
    ∷ changed "PinRequired" "none"
    ∷ code_registered
    ∷ status_idle
    ∷ code_idle
    ∷ []

sent_twice :
    (run texts suc events (add_simmgr texts suc props)).sent
    ≡ SimStatus.ok ∷ SimStatus.ok_pin_required ∷ []
unfolding run add_simmgr parse_property get_status
sent_twice = refl

none_pending : (run texts suc events (add_simmgr texts suc props)).status_sources ≡ 0
unfolding run add_simmgr parse_property
none_pending = refl

sources-destroy_example :
    let l = run texts suc events (add_simmgr texts suc props) in
    (l.status_sources ≤ 1)
    × (l.code_sources ≤ 1)
    × ((destroy l).status_sources ≡ 0)
    × ((destroy l).code_sources ≡ 0)
sources-destroy_example = sources-destroy texts suc (λ n. omega arith) props events

run_is_fresh_example :
    latest (run texts suc events (add_simmgr texts suc props)).sent
    ≡ some (get_status (run texts suc events (add_simmgr texts suc props)).sd)
run_is_fresh_example = run_is_fresh texts suc (λ n. omega arith) props events refl none_pending
