-- ===== src/CodeUi/Emergency.antt =====
-- The keypad of lib/code-ui.c's dialog, which is also for emergency calls: `dialog_input` follows what is
-- typed. A text is the list of its bytes.
pub mod Typed
use connui_cellular.Prelude.{
  ℕ, zero, suc, Bool, true, false, not, ◌&&◌, Option, none, some, List, [], ◌∷◌, ◌++◌, ◌==◌, nat_eq,
  leb, is_some, if◌then◌else◌,
}

abbrev pub Text : Type 0
Text = List ℕ

-- The digits of a key, or the back space, "BSP".
pub data Key : Type 0 where
  digits : Text → Key
  back_space : Key

pub record Keypad : Type 0 where
  pub dialog : Bool  -- it is open
  pub sensitive : Bool  -- the dialog takes input
  pub show_status_notes : Bool
  pub code_min_len : ℕ
  pub emergency_numbers : Option (List Text)
  pub em_number : Option Text  -- `clui_em_number`
  pub em_mode : Bool
  pub has_done : Bool  -- `find_done_button` finds it
  pub done_sensitive : Bool
  pub emcall_timeout : ℕ
  pub crashed : Bool  -- a NULL was read

unfoldable pub length : Text → ℕ
length [] = 0
length (c ∷ cs) = suc (length cs)

unfoldable pub same_text : Text → Text → Bool
same_text [] [] = true
same_text [] (d ∷ ds) = false
same_text (c ∷ cs) [] = false
same_text (c ∷ cs) (d ∷ ds) = c == d && same_text cs ds

-- All bytes but the last.
unfoldable pub shorten : Text → Text
shorten [] = []
shorten (c ∷ []) = []
shorten (c ∷ d ∷ cs) = c ∷ shorten (d ∷ cs)

-- The loop of `get_em_mode`.
unfoldable pub any_number : Text → List Text → Bool
unfolding same_text
any_number s [] = false
any_number s (n ∷ ns) = let rest = any_number s ns in if same_text s n then true else rest

-- `get_em_mode`
unfoldable pub get_em_mode : Option Text → List Text → Bool
unfolding any_number
get_em_mode none ns = false
get_em_mode (some s) ns = any_number s ns

abbrev pub is_long : ℕ → Option Text → Bool
is_long min none = false
is_long min (some s) = leb min (length s)

-- The end of `dialog_input`.
unfoldable pub refresh : List Text → Keypad → Keypad
unfolding get_em_mode
refresh ns k = record k {
  em_mode = get_em_mode k.em_number ns;
  done_sensitive = if k.has_done then is_long k.code_min_len k.em_number else k.done_sensitive;
}

-- The number that a key leaves; `code` is what the dialog holds before.
unfoldable pub number_after : Text → Key → Option Text → Option Text
unfolding shorten
number_after code (digits s) o = some (code ++ s)
number_after code back_space none = none
number_after code back_space (some n) = some (shorten n)

abbrev reads_null : Key → Option Text → Bool
reads_null (digits s) o = false
reads_null back_space o = not (is_some o)

unfoldable pub typed : List Text → Text → Key → Keypad → Keypad
unfolding refresh number_after
typed ns code key k =
    if reads_null key k.em_number
    then record k { crashed = true }
    else refresh ns (record k { em_number = number_after code key k.em_number })

-- The guards of `dialog_input`.
abbrev guarded : Option (List Text) → Text → Key → Keypad → Keypad
guarded none code key k = k
guarded (some ns) code key k = if k.dialog then typed ns code key k else k

-- `connui_cell_code_ui_dialog_input`
unfoldable pub dialog_input : Text → Key → Keypad → Keypad
unfolding typed
dialog_input code key k = if k.crashed then k else guarded k.emergency_numbers code key k

-- `connui_cell_code_ui_dialog_response` for the response 100: whether the dialog is cancelled then.
-- `called` is what `connui_cell_emergency_call` returns, `id` what `g_timeout_add` does.
unfoldable pub dialog_response : Bool → ℕ → Keypad → Bool × Keypad
dialog_response called id k =
    if called
    then (if k.show_status_notes
        then (false, record k { emcall_timeout = id; sensitive = false })
        else (true, k))
    else (false, k)

-- `connui_cell_code_ui_emcall_timeout`
unfoldable pub emcall_timeout_cb : Keypad → Keypad
emcall_timeout_cb k = record k {
  emcall_timeout = 0;
  sensitive = if k.dialog then true else k.sensitive;
}

-- The keys of a session, the latest first; `contents` is what CluiCodeDialog holds after keys.
unfoldable pub run : (List Key → Text) → Keypad → List Key → Keypad
unfolding dialog_input
run contents k [] = k
run contents k (key ∷ past) = dialog_input (contents past) key (run contents k past)

-- `connui_cell_code_ui_create_dialog` gives the dialog this maximal length of the code.
abbrev pub max_code_length : ℕ
max_code_length = 8
