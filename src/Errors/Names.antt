-- ===== src/Errors/Names.antt =====
-- The table `connui_errors` of lib/context.c, by which GDBus maps oFono's errors to the library's
-- codes and back.
use connui_cellular.Prelude.{
  ℕ, ◌≡◌, refl, String, Option, none, some, List, [], ◌∷◌, ◌==◌, nat_eq, string_eq, if◌then◌else◌,
}
use connui_cellular.Errors.{
  ConnuiError, invalid_args, invalid_format, not_implemented, failed, busy, not_found, not_active,
  not_supported, not_available, timed_out, sim_not_ready, in_use, not_attached, attach_in_progress,
  not_registered, canceled, access_denied, emergency_active, incorrect_password, not_allowed,
  not_recognized, network_terminated,
}

-- The value of the enumeration.
abbrev pub code : ConnuiError → ℕ
code invalid_args = 0
code invalid_format = 1
code not_implemented = 2
code failed = 3
code busy = 4
code not_found = 5
code not_active = 6
code not_supported = 7
code not_available = 8
code timed_out = 9
code sim_not_ready = 10
code in_use = 11
code not_attached = 12
code attach_in_progress = 13
code not_registered = 14
code canceled = 15
code access_denied = 16
code emergency_active = 17
code incorrect_password = 18
code not_allowed = 19
code not_recognized = 20
code network_terminated = 21

abbrev pub connui_errors : List (ConnuiError × String)
connui_errors =
    (invalid_args, "org.ofono.Error.InvalidArguments")
    ∷ (invalid_format, "org.ofono.Error.InvalidFormat")
    ∷ (not_implemented, "org.ofono.Error.NotImplemented")
    ∷ (failed, "org.ofono.Error.Failed")
    ∷ (busy, "org.ofono.Error.InProgress")
    ∷ (not_found, "org.ofono.Error.NotFound")
    ∷ (not_active, "org.ofono.Error.NotActive")
    ∷ (not_supported, "org.ofono.Error.NotSupported")
    ∷ (not_available, "org.ofono.Error.NotAvailable")
    ∷ (timed_out, "org.ofono.Error.Timedout")
    ∷ (sim_not_ready, "org.ofono.Error.SimNotReady")
    ∷ (in_use, "org.ofono.Error.InUse")
    ∷ (not_attached, "org.ofono.Error.NotAttached")
    ∷ (attach_in_progress, "org.ofono.Error.AttachInProgress")
    ∷ (not_registered, "org.ofono.Error.NotRegistered")
    ∷ (canceled, "org.ofono.Error.Canceled")
    ∷ (access_denied, "org.ofono.Error.AccessDenied")
    ∷ (emergency_active, "org.ofono.Error.EmergencyActive")
    ∷ (incorrect_password, "org.ofono.Error.IncorrectPassword")
    ∷ (not_allowed, "org.ofono.Error.NotAllowed")
    ∷ (not_recognized, "org.ofono.Error.NotRecognized")
    ∷ (network_terminated, "org.ofono.Error.Terminated")
    ∷ []

-- The entry that GDBus finds for a code, and for a name.
unfoldable pub name_in : ℕ → List (ConnuiError × String) → Option String
name_in n [] = none
name_in n ((e, name) ∷ es) = let rest = name_in n es in if code e == n then some name else rest

unfoldable pub error_in : String → List (ConnuiError × String) → Option ConnuiError
error_in s [] = none
error_in s ((e, name) ∷ es) = let rest = error_in s es in if name == s then some e else rest

abbrev pub decode : Option String → Option ConnuiError
unfolding error_in
decode none = none
decode (some name) = error_in name connui_errors

-- Each code of the domain stands in the table with a name, and the name is that of no other code
-- before it: an error that is sent under its name is received as the same code.
pub decode-name_in : (e : ConnuiError) → decode (name_in (code e) connui_errors) ≡ some e
unfolding name_in decode
decode-name_in invalid_args = refl
decode-name_in invalid_format = refl
decode-name_in not_implemented = refl
decode-name_in failed = refl
decode-name_in busy = refl
decode-name_in not_found = refl
decode-name_in not_active = refl
decode-name_in not_supported = refl
decode-name_in not_available = refl
decode-name_in timed_out = refl
decode-name_in sim_not_ready = refl
decode-name_in in_use = refl
decode-name_in not_attached = refl
decode-name_in attach_in_progress = refl
decode-name_in not_registered = refl
decode-name_in canceled = refl
decode-name_in access_denied = refl
decode-name_in emergency_active = refl
decode-name_in incorrect_password = refl
decode-name_in not_allowed = refl
decode-name_in not_recognized = refl
decode-name_in network_terminated = refl
