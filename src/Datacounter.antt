-- ===== src/Datacounter.antt =====
-- lib/datacounter.c: the counter of transferred data, which the program keeps in GConf and shows.
-- `GConf` stands for the GConf client library, libc's conversions and libconnui's lists of callbacks.
pub mod Current
pub mod Clients
pub mod Saved
mod Tests
use connui_cellular.Prelude.{
  ℕ, ◌+◌, ◌-◌, String, Bool, true, false, not, Option, none, some, List, [], ◌∷◌, if◌then◌else◌,
}

-- The settings of one network kind below ICD_GCONF_NETWORK_MAPPING_GPRS.
pub data Setting : Type 0 where
  rx_bytes tx_bytes rst_time warning_limit ntfy_enable last_ntfy ntfy_period : Setting

-- GPRS_HOME_* and GPRS_ROAM_* of osso-ic-gconf.h, and any other key of the directory.
pub data Key : Type 0 where
  gprs_home : Setting → Key
  gprs_roam : Setting → Key
  elsewhere : ℕ → Key

pub data Value : Type 0 where
  text : String → Value
  flag : Bool → Value
  number : ℕ → Value

-- GConf's store `S`, and the conversions.
pub record GConf (S : Type 0) : Type 0 where
  pub get : Key → S → Option Value
  pub set : Key → Value → S → S
  pub unset : Key → S → S
  pub strtoull : String → ℕ
  pub print : ℕ → String  -- g_strdup_printf ("%llu")
  pub concat : String → String → String  -- g_strconcat
  pub to_time : ℕ → ℕ  -- the conversion to time_t
  pub get_bool : Option Value → Bool  -- gconf_value_get_bool

pub record Datacounter : Type 0 where
  pub initialized : Bool
  pub notifiers : List (ℕ × ℕ)
  pub gconf : Bool  -- a reference to the client is held
  pub gconf_cnid : ℕ
  pub rx_bytes : ℕ
  pub tx_bytes : ℕ
  pub reset_time : ℕ
  pub home : Bool
  pub warning_limit : Option String
  pub notification_enabled : Bool

-- The static `datacounter`.
abbrev pub zeroed : Datacounter
zeroed = record {
  initialized = false;
  notifiers = [];
  gconf = false;
  gconf_cnid = 0;
  rx_bytes = 0;
  tx_bytes = 0;
  reset_time = 0;
  home = false;
  warning_limit = none;
  notification_enabled = false;
}

-- The key of a setting in the network that the counter is for.
abbrev pub key : Bool → Setting → Key
key home s = if home then gprs_home s else gprs_roam s

-- `gconf_client_get_string`, which returns NULL for a value of another type.
abbrev pub as_text : Option Value → Option String
as_text (some (text t)) = some t
as_text _ = none

-- `connui_cell_datacounter_notify`: what is read for the callbacks, if they are called.
abbrev pub notify : Datacounter → List Datacounter
notify dc = if dc.initialized then dc ∷ [] else []

module _ {S : Type 0} (gc : GConf S) where
  abbrev pub parse : Option String → ℕ
  parse none = 0
  parse (some t) = gc.strtoull t

  -- `connui_cell_datacounter_read_gconf_setting`
  unfoldable pub read_gconf_setting : Key → S → ℕ
  read_gconf_setting k st = parse (as_text (gc.get k st))

  -- `connui_cell_datacounter_gconf_changed` for a home counter, by the key of the entry.
  changed_home : Setting → Option Value → Datacounter → Datacounter
  changed_home rx_bytes v dc = record dc { rx_bytes = parse (as_text v) }
  changed_home tx_bytes v dc = record dc { tx_bytes = parse (as_text v) }
  changed_home rst_time v dc = record dc { reset_time = gc.to_time (parse (as_text v)) }
  changed_home warning_limit v dc = record dc {
    warning_limit = some (gc.print (parse (as_text v)));
  }
  changed_home ntfy_enable v dc = record dc { notification_enabled = gc.get_bool v }
  changed_home last_ntfy v dc = dc
  changed_home ntfy_period v dc = dc

  -- For a roaming counter: the second test has no negation, so it takes every key but the one that
  -- it names, and that one is left for tests that it fails.
  changed_roaming : Key → Option Value → Datacounter → Datacounter
  changed_roaming (gprs_roam rx_bytes) v dc = record dc { rx_bytes = parse (as_text v) }
  changed_roaming (gprs_roam tx_bytes) v dc = dc
  changed_roaming _ v dc = record dc { tx_bytes = parse (as_text v) }

  changed : Bool → Key → Option Value → Datacounter → Datacounter
  unfolding changed_home changed_roaming
  changed true (gprs_home s) v dc = changed_home s v dc
  changed true _ v dc = dc
  changed false k v dc = changed_roaming k v dc

  unfoldable pub gconf_changed : Key → Option Value → Datacounter → Datacounter × List Datacounter
  unfolding changed
  gconf_changed k v dc =
      if dc.initialized then (changed dc.home k v dc, notify (changed dc.home k v dc)) else (dc, [])

  -- `connui_cell_datacounter_get` up to the GConf client, and from there.
  abbrev pub cleared : Bool → Datacounter
  cleared home = record zeroed { home = home }

  unfoldable pub load : Bool → ℕ → S → Datacounter
  unfolding read_gconf_setting
  load home cnid st = record {
    initialized = true;
    notifiers = [];
    gconf = true;
    gconf_cnid = cnid;
    rx_bytes = read_gconf_setting (key home rx_bytes) st;
    tx_bytes = read_gconf_setting (key home tx_bytes) st;
    reset_time = gc.to_time (read_gconf_setting (key home rst_time) st);
    home = home;
    warning_limit = as_text (gc.get (key home warning_limit) st);
    notification_enabled = gc.get_bool (gc.get (key home ntfy_enable) st);
  }

  -- `client` is what `gconf_client_get_default` returns: the identifier of the new watch, or NULL.
  fetch : Option ℕ → Bool → S → Datacounter → Bool × Datacounter
  unfolding load
  fetch none home st dc = (false, cleared home)
  fetch (some cnid) home st dc = (true, load home cnid st)

  -- `connui_cell_datacounter_get`; the Boolean says whether it returns a counter.
  unfoldable pub get : Option ℕ → Bool → S → Datacounter → Bool × Datacounter
  unfolding fetch
  get client home st dc = if dc.initialized then (true, dc) else fetch client home st dc

  -- `connui_cell_datacounter_reset` between getting and closing the counter.
  unfoldable pub reset : ℕ → Bool → S → S
  reset now home st = gc.unset (key home last_ntfy) (
      gc.unset (key home tx_bytes)
        (gc.unset (key home rx_bytes) (gc.set (key home rst_time) (text (gc.print now)) st)))

  -- `connui_cell_datacounter_save` on the counter that it gets.
  save_limit : Bool → Bool → Option String → S → S
  save_limit home enabled none st = st
  save_limit home enabled (some limit) st =
      gc.set (key home ntfy_period) (text (if enabled then gc.concat limit "000000" else "0"))
        (gc.set (key home warning_limit) (text limit) st)

  unfoldable pub save : Bool → Option String → Bool → S → S
  unfolding save_limit
  save enabled limit home st =
      save_limit home enabled limit (gc.set (key home ntfy_enable) (flag enabled) st)
