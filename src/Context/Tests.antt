-- ===== src/Context/Tests.antt =====
-- The theorems on the context's life at concrete inputs.
use connui_cellular.Prelude.{
  ℕ, ◌≡◌, refl, Bool, true, false, String, none, some, List, [], ◌∷◌, ◌==◌, nat_eq, if◌then◌else◌,
}
use connui_cellular.ServiceCall.{new_call}
use connui_cellular.Context.{no_context, modem, is_used, close}
use connui_cellular.Context.Lifetime.{
  Event, registers, closes, asks, leaves, starts, added, left_by, IsAlive, run, run-IsAlive,
}

abbrev prepend : List (ℕ × ℕ) → ℕ → ℕ → List (ℕ × ℕ)
prepend cbs cb user_data = (cb, user_data) ∷ cbs

abbrev drop_cb : List (ℕ × ℕ) → ℕ → List (ℕ × ℕ)
drop_cb [] cb = []
drop_cb ((c, u) ∷ cbs) cb = let rest = drop_cb cbs cb in if c == cb then rest else (c, u) ∷ rest

abbrev ofono : List (String × Bool)
ofono = ("/ril_0", true) ∷ ("/ril_1", false) ∷ []

abbrev events : List Event
events =
    asks (some ofono)
    ∷ leaves (some ofono)
    ∷ registers modem (some ofono) 7 1
    ∷ added true "/ril_2"
    ∷ starts none (some 8) 2
    ∷ closes modem none 7
    ∷ []

no_context-IsAlive : IsAlive false no_context
no_context-IsAlive = record { alive = unfold is_used in refl; modems = λ e. refl }

run-IsAlive_example : IsAlive (left_by false events) (run prepend drop_cb events no_context)
run-IsAlive_example =
    run-IsAlive prepend drop_cb (λ cbs cb u. refl) false events no_context no_context-IsAlive

-- The outstanding call keeps the context and its modems.
kept_modems : (run prepend drop_cb events no_context).modems ≡ "/ril_0" ∷ "/ril_2" ∷ []
unfolding run close new_call
kept_modems = refl
