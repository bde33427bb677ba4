-- ===== src/Errors.antt =====
-- The error domain of the library, include/connui-cellular.h. `Errors.Names` has the table in
-- lib/context.c that ties each code to the name of an oFono error.
pub mod Names
use connui_cellular.Prelude.{ℕ}

pub data ConnuiError : Type 0 where
  invalid_args invalid_format not_implemented failed busy not_found : ConnuiError
  not_active not_supported not_available timed_out sim_not_ready in_use : ConnuiError
  not_attached attach_in_progress not_registered canceled access_denied : ConnuiError
  emergency_active incorrect_password not_allowed not_recognized : ConnuiError
  network_terminated : ConnuiError

-- A GError: one of the library's domain, the cancellation of GIO, or one of another domain.
pub data GError : Type 0 where
  connui : ConnuiError → GError
  io_cancelled : GError
  foreign : ℕ → GError
