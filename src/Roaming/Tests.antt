-- ===== src/Roaming/Tests.antt =====
-- The theorem on roaming at a concrete input.
use connui_cellular.Prelude.{◌≡◌, refl, true, false, some, none, [], ◌∷◌}
use connui_cellular.Roaming.{
  Roaming, unset, show, ask, respond, signal, auto_response_cb, note_response_cb, confirm_enable,
  send_reply, close, gconf_list_contains,
}
use connui_cellular.Roaming.Answered.{IsAsked, show-IsAsked}

abbrev idle : Roaming
idle = record {
  dialog = none;
  done_fn = false;
  iap_id = 0;
  message = none;
  done = [];
  replies = [];
  roam_asked = unset;
  gprs_roam_disabled = unset;
}

show-IsAsked_example :
    ((show true 4 ":1.7" (some "244051") idle).0 ≡ true)
    × IsAsked true 4 ":1.7" "244051" false true idle (show true 4 ":1.7" (some "244051") idle).1
show-IsAsked_example = show-IsAsked true 4 ":1.7" "244051" false true idle (λ e. cc)

-- Declined for all times, and allowed for this time.
this_time :
    (respond true true (respond true false (show true 4 ":1.7" (some "244051") idle).1)).replies
    ≡ (some ":1.7", "244051", true) ∷ []
unfolding show ask respond signal auto_response_cb note_response_cb confirm_enable send_reply close
    gconf_list_contains
this_time = refl
