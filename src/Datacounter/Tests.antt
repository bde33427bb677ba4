-- ===== src/Datacounter/Tests.antt =====
-- The counter over a store that is a function, with texts that stand for their lengths.
use connui_cellular.Prelude.{
  ℕ, ◌≡◌, refl, String, Bool, true, false, Option, none, some, List, [], ◌∷◌, ◌==◌, nat_eq,
  string_eq, if◌then◌else◌,
}
use connui_cellular.Datacounter.{
  Key, gprs_home, gprs_roam, rx_bytes, tx_bytes, Value, text, flag, GConf, load, save,
}
use connui_cellular.Datacounter.Current.{same, Write, put, erase}
use connui_cellular.Datacounter.Saved.{load-save}
use connui_cellular.Datacounter.Clients.{World}
use connui_cellular.Datacounter.Clients.Lifetime.{
  Call, registering, closing, resetting, saving, signal, IsHeld, run, start, run-IsHeld,
}

abbrev Store : Type 0
Store = Key → Option Value

abbrev number_of : String → ℕ
number_of t = if t == "12" then 12 else if t == "7" then 7 else 0

abbrev text_of : ℕ → String
text_of n = if n == 12 then "12" else if n == 7 then "7" else "0"

abbrev truth : Option Value → Bool
truth (some (flag b)) = b
truth _ = false

abbrev gc : GConf Store
gc = record {
  get = λ k st. st k;
  set = λ k v st j. if same k j then some v else st j;
  unset = λ k st j. if same k j then none else st j;
  strtoull = number_of;
  print = text_of;
  concat = λ s t. s;
  to_time = λ n. n;
  get_bool = truth;
}

abbrev empty_store : Store
empty_store k = none

abbrev some_writes : List Write
some_writes =
    put (gprs_home rx_bytes) (text "12")
    ∷ put (gprs_roam rx_bytes) (text "7")
    ∷ erase (gprs_home tx_bytes)
    ∷ []

load-save_example :
    load gc false 1 (save gc true (some "12") false empty_store)
    ≡ record (load gc false 1 empty_store) {
      notification_enabled = true;
      warning_limit = some "12";
    }
load-save_example =
    load-save gc (λ k j v st. refl) (λ k j st. refl) true false (some "12") 1 empty_store

abbrev add_first : List (ℕ × ℕ) → ℕ → ℕ → List (ℕ × ℕ)
add_first ns cb u = (cb, u) ∷ ns

abbrev remove_first : List (ℕ × ℕ) → ℕ → List (ℕ × ℕ)
remove_first [] cb = []
remove_first ((b, u) ∷ ns) cb = if b == cb then ns else (b, u) ∷ remove_first ns cb

abbrev calls : List (Call Store)
calls =
    registering 3 true 4
    ∷ signal (gprs_home rx_bytes) none
    ∷ resetting 12
    ∷ closing 3
    ∷ saving true none
    ∷ closing 3
    ∷ []

abbrev final : Option (World Store) → World Store
final none = start gc (some 9) add_first remove_first empty_store
final (some w) = w

abbrev end : Option (World Store)
end =
    run gc (some 9) add_first remove_first calls
      (start gc (some 9) add_first remove_first empty_store)

run-IsHeld_example : IsHeld (final end)
unfolding run
run-IsHeld_example =
    run-IsHeld gc (some 9) add_first remove_first calls empty_store (final end) refl
