-- ===== src/Datacounter/Saved.antt =====
-- What `reset` and `save` leave in GConf's store.
use connui_cellular.Prelude.{
  ℕ, ◌≡◌, refl, String, Bool, not, Option, none, some, arith, nat_eq, if◌then◌else◌,
}
use connui_cellular.Datacounter.{
  Setting, rx_bytes, tx_bytes, rst_time, last_ntfy, Key, Value, text, flag, GConf, key, load, reset,
  save, save_limit,
}
use connui_cellular.Datacounter.Current.{same}

module _ {S : Type 0} (gc : GConf S)
    (get_set : (k j : Key) (v : Value) (st : S)
      → gc.get j (gc.set k v st) ≡ (if same k j then some v else gc.get j st))
    (get_unset : (k j : Key) (st : S)
      → gc.get j (gc.unset k st) ≡ (if same k j then none else gc.get j st)) where
  -- What a setting is after a reset of the same network.
  abbrev pub after_reset : ℕ → Setting → Option Value → Option Value
  after_reset now rx_bytes v = none
  after_reset now tx_bytes v = none
  after_reset now last_ntfy v = none
  after_reset now rst_time v = some (text (gc.print now))
  after_reset now _ v = v

  get-reset-key :
      (now : ℕ) (home : Bool) (st : S) (j : Key)
      → gc.get j (reset gc now home st) ≡ (
          if same (key home last_ntfy) j
          then none
          else if same (key home tx_bytes) j
          then none
          else if same (key home rx_bytes) j
          then none
          else if same (key home rst_time) j
          then some (text (gc.print now))
          else gc.get j st)
  unfolding reset
  get-reset-key now home st j = rw (get_unset, get_unset, get_unset, get_set) refl

  -- A reset clears the two counts and the last notification of its network, sets the reset time,
  -- and leaves every other setting of that network; and it changes nothing of the other network.
  pub get-reset :
      (now : ℕ) (home : Bool) (st : S) (s : Setting)
      → (gc.get (key home s) (reset gc now home st) ≡ after_reset now s (gc.get (key home s) st))
        × (gc.get (key (not home) s) (reset gc now home st) ≡ gc.get (key (not home) s) st)
  get-reset now home st s =
      ground (
        arith,
        get-reset-key now home st (key home s),
        get-reset-key now home st (key (not home) s),
      )

  -- The limit that `save` was given, and the switch, are what a counter loads afterwards; with no
  -- limit the limit stays, and the three counts stay.
  pub load-save :
      (enabled home : Bool) (limit : Option String) (cnid : ℕ) (st : S)
      → let before = load gc home cnid st in
        load gc home cnid (save gc enabled limit home st) ≡ record before {
          notification_enabled = gc.get_bool (some (flag enabled));
          warning_limit = elim limit [ none ↦ before.warning_limit | some t ↦ some t ];
        }
  unfolding load save save_limit
  load-save enabled home limit cnid st = grind (arith, get_set, get_unset)
