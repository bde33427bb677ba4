-- ===== src/Net/Served.antt =====
-- What the clients of a network registration are told.
use connui_cellular.Prelude.{
  ℕ, ◌<◌, ◌≡◌, refl, String, Bool, true, false, List, ◌==◌, string_eq, if◌then◌else◌,
}
use connui_cellular.Glib.{Variants}
use connui_cellular.Notifier.{Event, IsQuiet, read_all}
use connui_cellular.Notifier.Laws.{IsServed, served}
use connui_cellular.Net.{NetData, is_known, seen, create, parse_property, netreg}

module _ (g : Variants) where
  open g use {Variant}

  -- What does not notify changes nothing that the clients are certain to see.
  record IsFine (s : NetData) (r : Bool × NetData) : Type 0 where
    quiet : r.0 ≡ false → seen r.1 ≡ seen s

  unless :
      (b : Bool) (d : NetData) {y : Bool × NetData} {s : NetData}
      → IsFine s y
      → IsFine s (if b then (true, d) else y)
  unless true d h = record { quiet = λ e. cc }
  unless false d h = h

  strength :
      (b : Bool) (n : ℕ) {y : Bool × NetData} {s : NetData}
      → IsFine s y
      → IsFine s (if b then (is_known s.rat_name, record s { network_signals_bar = n }) else y)
  strength true n h = record { quiet = λ e. rw e refl }
  strength false n h = h

  parse_property-IsFine :
      (name : String) (v : Variant) (s : NetData) → IsFine s (parse_property g name v s)
  unfolding parse_property
  parse_property-IsFine name v s = strength (name == "Strength") _ (
      unless (name == "Name") _ (
        unless (name == "MobileCountryCode") _ (
          unless (name == "MobileNetworkCode") _ (
            unless (name == "LocationAreaCode") _ (
              unless (name == "CellId") _ (
                unless (name == "Status") _ (
                  unless (name == "Technology") _
                    (unless (name == "Mode") _ (record { quiet = λ e. refl })))))))))

  netreg-IsQuiet : IsQuiet (netreg g)
  unfolding netreg parse_property
  netreg-IsQuiet (name, v) s = (parse_property-IsFine name v s).quiet

  -- From the creation of a network registration with any properties, and after any property changes,
  -- registrations and turns of the main loop, `IsServed` holds of it: the state is the fold of all
  -- properties; with no source pending the clients have it, but for a strength of the signal with an
  -- unknown technology, and one turn of the main loop suffices for that; they were called no more
  -- often than there were changes and registrations, and once for the creation; and no source
  -- outlives the data. GLib gives identifiers above 0.
  pub netreg-IsServed :
      (source : ℕ → ℕ)
      → ((n : ℕ) → 0 < source n)
      → (props : List (String × Variant)) (es : List (Event (String × Variant)))
      → IsServed (netreg g) source (read_all (netreg g) props create) es
  netreg-IsServed source positive props es =
      served (netreg g) source positive netreg-IsQuiet (read_all (netreg g) props create) es
