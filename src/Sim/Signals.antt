-- ===== src/Sim/Signals.antt =====
-- The notifications of lib/sim.c: property changes of oFono are gathered in idle sources of the main
-- loop, which tell the registered clients. `Loop` is one `sim_data` with the sources that the main
-- loop holds for it and what the clients were told.
pub mod Sources
pub mod Freshness
mod Tests
use connui_cellular.Prelude.{
  ℕ, ◌+◌, ◌-◌, String, Bool, true, false, Option, none, some, List, [], ◌∷◌, ◌==◌, nat_eq,
  if◌then◌else◌,
}
use connui_cellular.Glib.{Variants}
use connui_cellular.Sim.{
  SimStatus, unknown, ok_pin_required, ok_puk_required, CodeType, SimData, create, get_status,
  get_pin_required, parse_property,
}

pub record Loop : Type 0 where
  pub sd : SimData
  pub added : ℕ  -- how many idle sources were ever added
  pub status_sources : ℕ  -- pending sources that run `_idle_notify_status`
  pub code_sources : ℕ  -- pending sources that run `_idle_notify_security_code`
  pub sent : List SimStatus  -- what the status callbacks got, the latest first
  pub asked : List CodeType  -- the codes that `verify_required_pin` was called for, the latest first

-- `source n` is what `g_idle_add` returns for the n-th source.
module _ (source : ℕ → ℕ) where
  -- `_notify_status`
  pub notify_status : Loop → Loop
  notify_status l =
      if l.sd.idle_status_id == 0
      then record l {
        sd = record l.sd { idle_status_id = source l.added };
        added = l.added + 1;
        status_sources = l.status_sources + 1;
      }
      else l

  -- `_notify_security_code`
  pub notify_security_code : Loop → Loop
  notify_security_code l =
      if l.sd.idle_security_code_id == 0
      then record l {
        sd = record l.sd { idle_security_code_id = source l.added };
        added = l.added + 1;
        code_sources = l.code_sources + 1;
      }
      else l

-- `_idle_notify_status`, run by the main loop, which drops the source.
pub idle_notify_status : Loop → Loop
idle_notify_status l = record l {
  sd = record l.sd { idle_status_id = 0 };
  status_sources = l.status_sources - 1;
  sent = get_status l.sd ∷ l.sent;
}

abbrev pub wants_code : SimStatus → Bool
wants_code ok_pin_required = true
wants_code ok_puk_required = true
wants_code _ = false

-- `_idle_notify_security_code` up to the call of `verify_required_pin`.
pub idle_notify_security_code : Loop → Loop
idle_notify_security_code l = record l {
  sd = record l.sd { idle_security_code_id = 0 };
  code_sources = l.code_sources - 1;
  asked = if wants_code (get_status l.sd) then l.sd.pin_required ∷ l.asked else l.asked;
}

-- `_sim_data_destroy`: both sources are removed, and the clients are told UNKNOWN.
unfoldable pub destroy : Loop → Loop
destroy l = record l {
  status_sources = if l.sd.idle_status_id == 0 then l.status_sources else l.status_sources - 1;
  code_sources = if l.sd.idle_security_code_id == 0 then l.code_sources else l.code_sources - 1;
  sent = unknown ∷ l.sent;
}

module _ (g : Variants) (source : ℕ → ℕ) where
  open g use {Variant}

  -- `_property_changed_cb`
  pub property_changed : String → Variant → Loop → Loop
  property_changed name v l =
      let (notify, sd') = parse_property g name v l.sd in
      let l' = record l { sd = sd' } in
      if notify then notify_security_code source (notify_status source l') else l'

  pub parse_all : List (String × Variant) → SimData → SimData
  parse_all [] sd = sd
  parse_all ((name, v) ∷ ps) sd = parse_all ps (parse_property g name v sd).1

  -- `connui_cell_modem_add_simmgr`, where oFono answers with these properties (none, on an error).
  unfoldable pub add_simmgr : List (String × Variant) → Loop
  unfolding notify_status notify_security_code parse_all create
  add_simmgr props = notify_security_code source (
      notify_status source (record {
        sd = parse_all props create;
        added = 0;
        status_sources = 0;
        code_sources = 0;
        sent = [];
        asked = [];
      }))

  pub data Event : Type 0 where
    changed : String → Variant → Event  -- a signal of oFono
    status_registered : Event  -- `connui_cell_sim_status_register`
    code_registered : Event  -- `connui_cell_security_code_register`
    status_idle : Event  -- the main loop runs the status source, if there is one
    code_idle : Event  -- the main loop runs the other source, if there is one
    verified : Option Variant → Event  -- `verify_code` reads PinRequired again

  unfoldable pub step : Event → Loop → Loop
  unfolding property_changed notify_status notify_security_code idle_notify_status
      idle_notify_security_code
  step (changed name v) l = property_changed name v l
  step status_registered l = notify_status source l
  step code_registered l = notify_security_code source l
  step status_idle l = if l.status_sources == 0 then l else idle_notify_status l
  step code_idle l = if l.code_sources == 0 then l else idle_notify_security_code l
  step (verified v) l = record l { sd = get_pin_required g v l.sd }

  unfoldable pub run : List Event → Loop → Loop
  unfolding step
  run [] l = l
  run (e ∷ es) l = run es (step e l)
