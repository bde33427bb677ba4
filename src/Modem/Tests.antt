-- ===== src/Modem/Tests.antt =====
-- The theorems on modems at concrete inputs.
use connui_cellular.Prelude.{suc, ◌≡◌, refl, true, String, some, List, [], ◌∷◌, arith}
use connui_cellular.Glib.{texts}
use connui_cellular.Notifier.{Event, changed, idle, run, start, read_all}
use connui_cellular.Modem.{Property, create, modem, netreg}
use connui_cellular.Modem.Served.{IsManaged, modem-IsManaged}
use connui_cellular.Modem.Getters.{Modems}

abbrev property : String → String → Property texts
property name value = record { name = name; value = value; makes = λ s. true }

abbrev events : List (Event (Property texts))
events =
    changed (property "Interfaces" "org.ofono.NetworkRegistration")
    ∷ idle
    ∷ changed (property "Online" "yes")
    ∷ []

modem-IsManaged_example :
    IsManaged texts suc
      (property "Model" "N900" ∷ [])
      events
      (run (modem texts) suc events (
        start
          (modem texts)
          suc
          (read_all (modem texts) (property "Model" "N900" ∷ []) create))).data_now
modem-IsManaged_example =
    modem-IsManaged texts suc (λ n. omega arith) (property "Model" "N900" ∷ []) events

has_netreg :
    (read_all
        (modem texts)
        (property "Interfaces" "org.ofono.NetworkRegistration" ∷ [])
        create).managers
      netreg
    ≡ true
unfolding read_all modem
has_netreg = refl

abbrev modems : Modems
modems = ("/ril_0", record create { powered = true; model = some "N900" }) ∷ ("/ril_1", create) ∷ []
