-- ===== src/Connmgr/Served.antt =====
-- What the clients of a connection manager are told.
use connui_cellular.Prelude.{ℕ, ◌<◌, String, List}
use connui_cellular.Glib.{Variants}
use connui_cellular.Notifier.{Event, read_all}
use connui_cellular.Notifier.Laws.{IsServed, served}
use connui_cellular.Connmgr.{create, connmgr}

module _ (g : Variants) (source : ℕ → ℕ) (positive : (n : ℕ) → 0 < source n) where
  open g use {Variant}

  -- From the creation of a connection manager with any properties, and after any property changes,
  -- registrations and turns of the main loop, `IsServed` holds of it: the status is the fold of all
  -- properties; with no source pending the clients have it, and one turn of the main loop suffices
  -- for that; they were called no more often than there were changes and registrations, and once
  -- for the creation; and no source outlives the data. GLib gives identifiers above 0.
  pub connmgr-IsServed :
      (props : List (String × Variant)) (es : List (Event (String × Variant)))
      → IsServed (connmgr g) source (read_all (connmgr g) props create) es
  unfolding connmgr
  connmgr-IsServed props es =
      served (connmgr g) source positive (λ e s h. cc) (read_all (connmgr g) props create) es
