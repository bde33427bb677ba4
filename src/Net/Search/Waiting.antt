-- ===== src/Net/Search/Waiting.antt =====
-- Who waits for the search for networks.
use connui_cellular.Prelude.{
  ℕ, ◌+◌, ◌≤◌, ◌≡◌, ◌≢◌, Bool, true, List, [], ◌∷◌, nat_eq, if◌then◌else◌,
}
use connui_cellular.Net.Search.{Search, Reply, net_list_cb, net_list, cancel_list}

-- What clients and the phone do.
pub data Event : Type 0 where
  search : Bool → ℕ → ℕ → Event
  cancel : ℕ → Event
  reply : Reply → Event

module _ (notify_add : List (ℕ × ℕ) → ℕ → ℕ → List (ℕ × ℕ))
    (notify_remove : List (ℕ × ℕ) → ℕ → List (ℕ × ℕ)) where
  -- The phone replies to a call that is outstanding.
  unfoldable pub step : Event → Search → Search
  unfolding net_list cancel_list
  step (search begins cb user_data) s = (net_list notify_add notify_remove begins cb user_data s).1
  step (cancel cb) s = cancel_list notify_add notify_remove cb s
  step (reply r) s = if s.get_available_network_call then net_list_cb r s else s

  unfoldable pub run : List Event → Search → Search
  unfolding step
  run [] s = s
  run (e ∷ es) s = run es (step e s)

  -- While a call of the phone is outstanding a client waits for it.
  pub record IsAwaited (s : Search) : Type 0 where
    pub awaited : s.get_available_network_call ≡ true → s.net_list_cbs ≢ []
    pub single : s.stopped + (if s.get_available_network_call then 1 else 0) ≤ s.begun
