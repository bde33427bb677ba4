-- ===== src/Datacounter/Current.antt =====
-- The counter in memory against GConf's store, as signals come in.
use connui_cellular.Prelude.{
  ℕ, ◌≡◌, Bool, true, false, Option, none, some, List, [], ◌∷◌, arith, ◌==◌, nat_eq, if◌then◌else◌,
}
use connui_cellular.Datacounter.{
  Setting, rx_bytes, tx_bytes, rst_time, warning_limit, ntfy_enable, last_ntfy, ntfy_period, Key,
  gprs_home, gprs_roam, elsewhere, Value, GConf, Datacounter, as_text, parse, gconf_changed,
}

abbrev setting_no : Setting → ℕ
setting_no rx_bytes = 0
setting_no tx_bytes = 1
setting_no rst_time = 2
setting_no warning_limit = 3
setting_no ntfy_enable = 4
setting_no last_ntfy = 5
setting_no ntfy_period = 6

abbrev pub same : Key → Key → Bool
same (gprs_home s) (gprs_home t) = setting_no s == setting_no t
same (gprs_roam s) (gprs_roam t) = setting_no s == setting_no t
same (elsewhere m) (elsewhere n) = m == n
same _ _ = false

-- A write to the store by any program.
pub data Write : Type 0 where
  put : Key → Value → Write
  erase : Key → Write

module _ {S : Type 0} (gc : GConf S) where
  abbrev pub stored : Write → S → S
  stored (put k v) st = gc.set k v st
  stored (erase k) st = gc.unset k st

  -- The signal for a write.
  abbrev pub told : Write → Datacounter → Datacounter
  unfolding gconf_changed
  told (put k v) dc = (gconf_changed gc k (some v) dc).0
  told (erase k) dc = (gconf_changed gc k none dc).0

  abbrev pub writes : List Write → S × Datacounter → S × Datacounter
  writes [] x = x
  writes (w ∷ ws) (st, dc) = writes ws (stored w st, told w dc)

  -- The counter shows the settings of the home network. Its limit is a text for the stored number.
  pub record IsCurrent (st : S) (dc : Datacounter) : Type 0 where
    pub live : dc.initialized ≡ true
    pub at_home : dc.home ≡ true
    pub rx_now : dc.rx_bytes ≡ parse gc (as_text (gc.get (gprs_home rx_bytes) st))
    pub tx_now : dc.tx_bytes ≡ parse gc (as_text (gc.get (gprs_home tx_bytes) st))
    pub time_now : dc.reset_time ≡ gc.to_time (parse gc (as_text (gc.get (gprs_home rst_time) st)))
    pub limit_now :
        parse gc dc.warning_limit ≡ parse gc (as_text (gc.get (gprs_home warning_limit) st))
    pub enabled_now : dc.notification_enabled ≡ gc.get_bool (gc.get (gprs_home ntfy_enable) st)

  -- A counter for the roaming network that is initialized. A signal for its rx_bytes sets that count,
  -- and a signal for its tx_bytes sets nothing. A signal for any other key, its reset time, limit
  -- and switch among them, writes the value to the count of sent bytes, and nothing else.
  pub gconf_changed-roaming :
      (k : Key) (v : Option Value) (dc : Datacounter)
      → dc.initialized ≡ true
      → dc.home ≡ false
      → (gconf_changed gc k v dc).0 ≡ (
          if same (gprs_roam rx_bytes) k
          then record dc { rx_bytes = parse gc (as_text v) }
          else if same (gprs_roam tx_bytes) k
          then dc
          else record dc { tx_bytes = parse gc (as_text v) })
  unfolding gconf_changed
  gconf_changed-roaming k v dc live away = ground arith
