-- ===== src/ErrorNote/Status/Tracked.antt =====
-- What the status callbacks make of any sequence of status signals.
use connui_cellular.Prelude.{
  ℕ, suc, ◌+◌, ◌≡◌, refl, ap, ◌∙◌, String, Bool, true, false, not, ◌&&◌, ◌||◌, Option, none, some,
  List, [], ◌∷◌, ◌==◌, string_eq, eq_iff, if◌then◌else◌, arith, lookup, insert, lookup-insert,
  lookup-remove,
}
use connui_cellular.Types.{RegStatus, unknown}
use connui_cellular.Modem.{ModemStatus, removed}
use connui_cellular.ErrorNote.{Note, close}
use connui_cellular.ErrorNote.Status.{
  modem_status_cb, is_roaming, is_at_home, ack, request_note, net_note, same_status, known_status,
  net_status_cb,
}

pub data Event : Type 0 where
  modem : String → ModemStatus → Event
  net : Bool → Option ℕ → String → RegStatus → Event

unfoldable pub step : Event → Note → Note
unfolding modem_status_cb net_status_cb
step (modem id status) n = modem_status_cb id status n
step (net manual answer id new) n = net_status_cb manual answer id new n

unfoldable pub run : List Event → Note → Note
unfolding step
run [] n = n
run (e ∷ es) n = run es (step e n)

abbrev pub count : String → List String → ℕ
count s [] = 0
count s (t ∷ ts) = if t == s then suc (count s ts) else count s ts

-- The network was roaming, or the home network, at some time.
abbrev pub any_roaming : List Event → Bool
any_roaming [] = false
any_roaming (modem id s ∷ es) = any_roaming es
any_roaming (net m a id s ∷ es) = is_roaming s || any_roaming es

abbrev pub any_home : List Event → Bool
any_home [] = false
any_home (modem id s ∷ es) = any_home es
any_home (net m a id s ∷ es) = is_at_home s || any_home es

-- One modem's registration: unknown from its appearance on, then the last one told, until it is removed.
abbrev told_modem : ModemStatus → Option RegStatus → Option RegStatus
told_modem removed o = none
told_modem s none = some unknown
told_modem s (some r) = some r

abbrev told_net : RegStatus → Option RegStatus → Option RegStatus
told_net r none = none
told_net r (some old) = some r

abbrev pub registration : String → List Event → Option RegStatus → Option RegStatus
registration id [] o = o
registration id (modem i s ∷ es) o = registration id es (if i == id then told_modem s o else o)
registration id (net m a i r ∷ es) o = registration id es (if i == id then told_net r o else o)

-- What one network status changes.
record IsNetStep (id : String) (new : RegStatus) (n v : Note) : Type 0 where
  roaming_count :
      count "roaming_notification" v.asked_notes
      ≡ count "roaming_notification" n.asked_notes
        + (if n.roaming_pending_ack && is_roaming new then 1 else 0)
  roaming_pending : v.roaming_pending_ack ≡ (n.roaming_pending_ack && not (is_roaming new))
  home_count :
      count "home_notification" v.asked_notes
      ≡ count "home_notification" n.asked_notes
        + (if n.home_pending_ack && is_at_home new then 1 else 0)
  home_pending : v.home_pending_ack ≡ (n.home_pending_ack && not (is_at_home new))
  registered :
      (j : String)
      → lookup j v.reg_status
        ≡ (if id == j then told_net new (lookup j n.reg_status) else lookup j n.reg_status)

-- The rest of the state is what dialogs change.
record IsSameStatus (n v : Note) : Type 0 where
  asked_notes : v.asked_notes ≡ n.asked_notes
  roaming_pending : v.roaming_pending_ack ≡ n.roaming_pending_ack
  home_pending : v.home_pending_ack ≡ n.home_pending_ack
  reg_status : v.reg_status ≡ n.reg_status

same-IsSameStatus : (n : Note) → IsSameStatus n n
same-IsSameStatus n = record {
  asked_notes = refl;
  roaming_pending = refl;
  home_pending = refl;
  reg_status = refl;
}

close-IsSameStatus : (b : Bool) (n : Note) → IsSameStatus n (close b n)
unfolding close
close-IsSameStatus b n = ground arith

net_note-IsSameStatus :
    (manual : Bool) (answer : Option ℕ) (old new : RegStatus) (n : Note)
    → IsSameStatus n (net_note manual answer old new n)
unfolding net_note request_note
net_note-IsSameStatus manual answer old new n = ground (arith, close-IsSameStatus true n)

-- The counts and flags of `IsNetStep`, after `ack`.
record IsAcked (new : RegStatus) (n v : Note) : Type 0 where
  roaming_count :
      count "roaming_notification" v.asked_notes
      ≡ count "roaming_notification" n.asked_notes
        + (if n.roaming_pending_ack && is_roaming new then 1 else 0)
  roaming_pending : v.roaming_pending_ack ≡ (n.roaming_pending_ack && not (is_roaming new))
  home_count :
      count "home_notification" v.asked_notes
      ≡ count "home_notification" n.asked_notes
        + (if n.home_pending_ack && is_at_home new then 1 else 0)
  home_pending : v.home_pending_ack ≡ (n.home_pending_ack && not (is_at_home new))
  reg_status : v.reg_status ≡ n.reg_status

ack-IsAcked : (new : RegStatus) (n : Note) → IsAcked new n (ack new n)
unfolding ack
ack-IsAcked new n = ground arith

same_status-≡ : (a b : RegStatus) → same_status a b ≡ true → a ≡ b
same_status-≡ a b e = ground arith

known_status-IsNetStep :
    (manual : Bool) (answer : Option ℕ) (id : String) (new : RegStatus) (o : Option RegStatus)
    (n u : Note)
    → IsAcked new n u
    → lookup id u.reg_status ≡ o
    → IsNetStep id new n (known_status manual answer id new o u)
known_status-IsNetStep manual answer id new none n u k e = record {
  roaming_count = k.roaming_count;
  roaming_pending = k.roaming_pending;
  home_count = k.home_count;
  home_pending = k.home_pending;
  registered = λ j. ground (arith, k.reg_status, e, eq_iff id j);
}
known_status-IsNetStep manual answer id new (some old) n u k e =
    by_change (net_note manual answer old new u) (net_note-IsSameStatus manual answer old new u)
      (same_status old new) refl
  where
    by_change :
        (v : Note)
        → IsSameStatus u v
        → (b : Bool) → same_status old new ≡ b
        → IsNetStep id new n (if b then v else record v { reg_status = insert id new v.reg_status })
    by_change v s true c = record {
      roaming_count = rw s.asked_notes k.roaming_count;
      roaming_pending = s.roaming_pending ∙ k.roaming_pending;
      home_count = rw s.asked_notes k.home_count;
      home_pending = s.home_pending ∙ k.home_pending;
      registered =
          λ j. ground (arith, s.reg_status, k.reg_status, e, eq_iff id j, same_status-≡ old new c);
    }
    by_change v s false c = record {
      roaming_count = rw s.asked_notes k.roaming_count;
      roaming_pending = s.roaming_pending ∙ k.roaming_pending;
      home_count = rw s.asked_notes k.home_count;
      home_pending = s.home_pending ∙ k.home_pending;
      registered = λ j.
          ground (
            arith,
            s.reg_status,
            k.reg_status,
            e,
            eq_iff id j,
            lookup-insert id j new v.reg_status,
          );
    }

net_status_cb-IsNetStep :
    (manual : Bool) (answer : Option ℕ) (id : String) (new : RegStatus) (n : Note)
    → IsNetStep id new n (net_status_cb manual answer id new n)
unfolding net_status_cb
net_status_cb-IsNetStep manual answer id new n =
    known_status-IsNetStep manual answer id new (lookup id (ack new n).reg_status) n (ack new n)
      (ack-IsAcked new n) refl

modem_status_cb-registered :
    (id : String) (status : ModemStatus) (n : Note) (j : String)
    → lookup j (modem_status_cb id status n).reg_status
      ≡ (if id == j then told_modem status (lookup j n.reg_status) else lookup j n.reg_status)
unfolding modem_status_cb
modem_status_cb-registered id status n j =
    ground
      (arith, lookup-remove id j n.reg_status, lookup-insert id j unknown n.reg_status, eq_iff id j)

modem_status_cb-same :
    (id : String) (status : ModemStatus) (n : Note)
    → ((modem_status_cb id status n).asked_notes ≡ n.asked_notes)
      × ((modem_status_cb id status n).roaming_pending_ack ≡ n.roaming_pending_ack)
      × ((modem_status_cb id status n).home_pending_ack ≡ n.home_pending_ack)
unfolding modem_status_cb
modem_status_cb-same id status n = ground arith

-- What a run of status signals leaves.
pub record IsFollowed (es : List Event) (n v : Note) : Type 0 where
  pub roaming_asked :
      count "roaming_notification" v.asked_notes
      ≡ count "roaming_notification" n.asked_notes
        + (if n.roaming_pending_ack && any_roaming es then 1 else 0)
  pub home_asked :
      count "home_notification" v.asked_notes
      ≡ count "home_notification" n.asked_notes
        + (if n.home_pending_ack && any_home es then 1 else 0)
  pub registered :
      (id : String) → lookup id v.reg_status ≡ registration id es (lookup id n.reg_status)

-- After any status signals of modems and networks, whatever notes they showed: the note of roaming was
-- asked for once more if it was pending and the network was roaming at some time, and otherwise not
-- again; so was the note of the home network; and of each modem the table has what was last told since
-- it appeared, and nothing of one that was removed.
pub run-IsFollowed : (es : List Event) (n : Note) → IsFollowed es n (run es n)
unfolding run step
run-IsFollowed [] n = record {
  roaming_asked = ground arith;
  home_asked = ground arith;
  registered = λ id. refl;
}
run-IsFollowed (modem id s ∷ es) n =
    let h = run-IsFollowed es (modem_status_cb id s n) in
    let (a, r, o) = modem_status_cb-same id s n in
    record {
      roaming_asked = ground (arith, h.roaming_asked, a, r);
      home_asked = ground (arith, h.home_asked, a, o);
      registered =
          λ j. h.registered j ∙ ap (registration j es) (modem_status_cb-registered id s n j);
    }
run-IsFollowed (net m a id r ∷ es) n =
    let h = run-IsFollowed es (net_status_cb m a id r n) in
    let k = net_status_cb-IsNetStep m a id r n in
    record {
      roaming_asked = ground (arith, h.roaming_asked, k.roaming_count, k.roaming_pending);
      home_asked = ground (arith, h.home_asked, k.home_count, k.home_pending);
      registered = λ j. h.registered j ∙ ap (registration j es) (k.registered j);
    }
