-- ===== src/Sim/Security/Tests.antt =====
-- The security code operations with a client that knows its codes and an oFono that refuses some.
use connui_cellular.Prelude.{
  ◌≡◌, refl, String, Bool, true, false, Option, none, some, [], ◌==◌, string_eq,
}
use connui_cellular.Errors.{GError, connui, failed}
use connui_cellular.Glib.{texts}
use connui_cellular.Sim.{nothing, pin, SimData, create}
use connui_cellular.Sim.Security.{
  Request, enter_pin, change_pin, lock_pin, unlock_pin, Service, World, idle_notify_security_code,
  set_enabled,
}
use connui_cellular.Sim.Security.Safety.{Returns, Handled, idle_notify_security_code-Returns}
use connui_cellular.Sim.Security.Change.{change}
use connui_cellular.Sim.Security.Change.Locking.{Run, change-Returns}
use connui_cellular.Sim.Security.Enabled.{LockRun, set_enabled-Returns}

-- The state is the SIM's PIN.
abbrev refuse : Bool → String → Option GError × String
refuse true p = (none, p)
refuse false p = (some (connui failed), p)

abbrev answer : Request → String → Option GError × String
answer (enter_pin name c) p = refuse (c == p) p
answer (change_pin name c d) p = (some (connui failed), p)
answer (lock_pin name c) p = refuse (c == p) p
answer (unlock_pin name c) p = refuse (c == p) p

abbrev service : Service texts String
service = record {
  send = answer;
  get_property = λ name p. (some "none", p);
  query = λ ty wants slots r. (
    record { old = some "1234"; new = some "5678"; query_cb = some 1; query_user_data = 2 },
    r.0,
    r.1,
  );
  report = λ cb ty ok e r. r;
}

abbrev open_sim : SimData
open_sim = record create { present = true; pin_required = nothing }

abbrev asking_sim : SimData
asking_sim = record create { present = true; pin_required = pin }

abbrev world : SimData → World String
world sd = record { sd = sd; remote = "1234"; log = [] }

change-Returns_example :
    Returns (change service true pin (world open_sim)) (Run service true pin (world open_sim))
change-Returns_example = change-Returns service true pin (world open_sim)

set_enabled-Returns_example :
    Returns
      (set_enabled service false (world open_sim))
      (LockRun service false "pin" pin (world open_sim))
set_enabled-Returns_example = set_enabled-Returns service false (world open_sim)

idle_notify_security_code-Returns_example :
    Returns
      (idle_notify_security_code service (world asking_sim))
      (Handled service (world asking_sim))
idle_notify_security_code-Returns_example =
    idle_notify_security_code-Returns service (world asking_sim)

-- oFono refuses the change, and the result is TRUE with the error of the change.
abbrev final : Option ((Bool × Option GError) × World String) → World String
final none = world open_sim
final (some (r, w)) = w

abbrev outcome : Option ((Bool × Option GError) × World String) → Option (Bool × Option GError)
outcome none = none
outcome (some (r, w)) = some r

refused_change :
    outcome (change service true pin (world open_sim)) ≡ some (true, some (connui failed))
unfolding change
refused_change = refl
