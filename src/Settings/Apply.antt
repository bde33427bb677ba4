-- ===== src/Settings/Apply.antt =====
-- cpa/cellular-settings.c: the settings are saved, or the dialog is left. The loops may wait for ever:
-- the result is none if the answers do not let them end.
use connui_cellular.Prelude.{
  ℕ, Bool, true, false, not, ◌&&◌, Option, none, some, List, ◌==◌, nat_eq, string_eq, if◌then◌else◌,
}
use connui_cellular.Settings.{Answer, set_clir, set_waiting, Settings, made_if, wait}

abbrev pub bool_eq : Bool → Bool → Bool
bool_eq true b = b
bool_eq false b = not b

-- What is read of the picker: 0 if nothing is chosen.
abbrev pub chosen : Option ℕ → ℕ
chosen none = 0
chosen (some n) = n

-- A loop, and the rest.
infixl 5 ◌>>=◌
abbrev pub ◌>>=◌ {ℓ κ} : {A : Type ℓ} {B : Type κ} → Option A → (A → Option B) → Option B
none >>= f = none
some a >>= f = f a

-- `_call_apply_anonymity`; `ok`: the call is started
unfoldable pub apply_anonymity : Bool → List Answer → Settings → Option (Settings × List Answer)
unfolding made_if wait
apply_anonymity ok answers s =
    if chosen s.cid == s.anonimity then some (s, answers) else wait answers (made_if ok set_clir s)

-- `_call_apply_waiting`
unfoldable pub apply_waiting : Bool → Settings → Settings
unfolding made_if
apply_waiting ok s =
    if bool_eq s.waiting_active s.waiting_enabled then s else made_if ok set_waiting s

-- `_cellular_settings_applying`
unfoldable pub show_applying : Bool → Settings → Settings
show_applying b s = record s { progress = b; vbox_sensitive = not b; ok_sensitive = not b }

-- `if (enable_after) …`
unfoldable pub enable_if : Bool → Settings → Settings
unfolding show_applying
enable_if enable s =
    let t = record s { applying = false } in if enable then show_applying false t else t

unfoldable pub apply_calls :
    Bool → Bool → Bool → List Answer → Settings → Option (Settings × List Answer)
unfolding apply_anonymity apply_waiting enable_if wait
apply_calls enable clir_ok waiting_ok answers s = do
  r ← apply_anonymity clir_ok answers s
  wait r.1 (enable_if enable (apply_waiting waiting_ok r.0))

-- The number to which calls are diverted is missing.
abbrev pub lacks_number : Settings → Bool
lacks_number s = s.divert && s.to_text == ""

-- `cellular_settings_apply`: what it returns, the settings and the answers that are left.
unfoldable pub apply :
    Bool → Bool → Bool → List Answer → Settings → Option (Bool × Settings × List Answer)
unfolding apply_calls show_applying
apply enable clir_ok waiting_ok answers s = if lacks_number s then some (false, s, answers) else do
  r ←
      apply_calls enable clir_ok waiting_ok answers
        (show_applying true (record s { applying = true }))
  some (true, r.0, r.1)

-- `cellular_settings_cancel_service_calls`: the calls that are cancelled are answered too.
unfoldable pub cancel_service_calls : List Answer → Settings → Option (Settings × List Answer)
unfolding wait
cancel_service_calls answers s = wait answers s
