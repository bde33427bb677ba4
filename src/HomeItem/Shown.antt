-- ===== src/HomeItem/Shown.antt =====
-- What the home screen shows: for each modem, the name that its last status brought.
use connui_cellular.Prelude.{
  ℕ, ◌<◌, ◌≡◌, refl, sym, ap, ◌∙◌, String, Bool, true, false, Option, none, some, List, [], ◌∷◌,
  nat_eq, string_eq, if◌then◌else◌, arith, remove,
}
use connui_cellular.Types.{rat_unknown, unknown}
use connui_cellular.HomeItem.{
  Modem, NetState, Item, flightmode, net_status, modem_status, same_status, registered, Event,
  update_widget, modem_of, write_if, ensure, set_name, set_rat, set_status, fill_name,
  get_operator_name, new_status, new_name, new_network, new_rat, known_status, lost_status,
  net_status_cb, flightmode_cb, modem_status_cb, listed_after, run,
}
use connui_cellular.HomeItem.Writes.{
  line_at, line_for, text_of, in_flight, name_after, name_in, line_for-cong, line_for-empty,
  IsShown, update-IsShown, write_if-IsShown, flightmode-write_if, name_in-ensure, label-ensure,
  flightmode-ensure,
}
use connui_cellular.HomeItem.Names.{name_in-net_status_cb}

module _ (named : String → String → Option String) (listed : List String) where
  -- A step that leaves the phone's mode and shows what it changes.
  record Shows (t u : Item) : Type 0 where
    mode : u.flightmode ≡ t.flightmode
    shown : IsShown listed t → IsShown listed u

  Shows-refl : (t : Item) → Shows t t
  Shows-refl t = record { mode = refl; shown = λ h. h }

  Shows-trans : (t u v : Item) → Shows t u → Shows u v → Shows t v
  Shows-trans t u v a b = record { mode = b.mode ∙ a.mode; shown = λ h. b.shown (a.shown h) }

  write_if-Shows :
      (b : Bool) (id : String) (f : Modem → Modem) (t : Item)
      → Shows t (write_if named listed b id f t)
  write_if-Shows b id f t = record {
    mode = flightmode-write_if named listed b id f t;
    shown = write_if-IsShown named listed b id f t;
  }

  if-Shows : (b : Bool) (t u v : Item) → Shows t u → Shows t v → Shows t (if b then u else v)
  if-Shows true t u v p q = p
  if-Shows false t u v p q = q

  ensure-Shows : (id : String) (t : Item) → Shows t (ensure named listed id t)
  ensure-Shows id t = record {
    mode = flightmode-ensure named listed id t;
    shown = λ h k n.
        rw (label-ensure named listed id t) (h k n)
        ∙ sym (line_for-cong k listed _ _ (λ j. ap text_of (name_in-ensure named listed id j t)));
  }

  fill_name-Shows :
      (o : Option String) (id : String) (t : Item) → Shows t (fill_name named listed o id t)
  unfolding fill_name
  fill_name-Shows none id t = Shows-refl t
  fill_name-Shows (some n) id t = write_if-Shows _ id (set_name n) t

  get_operator_name-Shows :
      (id n : String) (codes : Option String × Option String) (t : Item)
      → Shows t (get_operator_name named listed id n codes t)
  unfolding get_operator_name
  get_operator_name-Shows id n codes t =
      Shows-trans t _ _ (write_if-Shows _ id (set_name n) t) (fill_name-Shows _ id _)

  new_name-Shows :
      (id : String) (o : Option String) (codes : Option String × Option String) (t : Item)
      → Shows t (new_name named listed id o codes t)
  unfolding new_name
  new_name-Shows id none codes t = Shows-refl t
  new_name-Shows id (some n) codes t =
      if-Shows (registered (modem_of named listed id t).reg_status) t _ _
        (Shows-trans t _ _ (get_operator_name-Shows id n codes t)
          (write_if-Shows true id (set_rat rat_unknown) _))
        (Shows-refl t)

  new_network-Shows :
      (id : String) (s : NetState) (o : Option (Option String × Option String)) (t : Item)
      → Shows t (new_network named listed id s o t)
  unfolding new_network
  new_network-Shows id s none t = Shows-refl t
  new_network-Shows id s (some codes) t =
      Shows-trans t _ _ (write_if-Shows _ id (set_rat rat_unknown) t)
        (new_name-Shows id s.operator_name codes _)

  known_status-Shows :
      (id : String) (s : NetState) (t : Item) → Shows t (known_status named listed id s t)
  unfolding known_status
  known_status-Shows id s t = Shows-trans t _ _ (ensure-Shows id t) (
      Shows-trans _ _ _
        (unfold new_status in
          write_if-Shows _ id (set_status s.reg_status) (ensure named listed id t))
        (Shows-trans _ _ _ (new_network-Shows id s s.codes _)
          (unfold new_rat in write_if-Shows _ id (set_rat s.rat_name) _)))

  lost_status-Shows : (id : String) (t : Item) → Shows t (lost_status named listed id t)
  unfolding lost_status
  lost_status-Shows id t = record {
    mode = unfold update_widget in refl;
    shown = λ h. update-IsShown named listed (record t { modems = remove id t.modems });
  }

  net_status_cb-Shows :
      (id : String) (s : NetState) (t : Item) → Shows t (net_status_cb named listed id s t)
  unfolding net_status_cb
  net_status_cb-Shows id s t = if-Shows t.flightmode t _ _ (Shows-refl t) (
      if-Shows (same_status s.reg_status unknown) t _ _ (lost_status-Shows id t)
        (known_status-Shows id s t))

module _ (named : String → String → Option String) (ids : List String) where
  flightmode-modem_status_cb : (t : Item) → (modem_status_cb named ids t).flightmode ≡ t.flightmode
  unfolding modem_status_cb update_widget
  flightmode-modem_status_cb t = ground arith

  name_in-modem_status_cb :
      (id : String) (t : Item) → name_in id (modem_status_cb named ids t) ≡ name_in id t
  unfolding modem_status_cb update_widget
  name_in-modem_status_cb id t = ground arith

  -- Offline no modem has a name, so another list of modems shows the same.
  modem_status_cb-IsShown :
      (old : List String) (t : Item)
      → (t.flightmode ≡ true → (id : String) → text_of (name_in id t) ≡ "")
      → IsShown old t
      → IsShown ids (modem_status_cb named ids t)
  unfolding modem_status_cb
  modem_status_cb-IsShown old t blank h = go t.flightmode refl
    where
      go : (b : Bool) → t.flightmode ≡ b → IsShown ids (if b then t else update_widget named ids t)
      go true e =
          λ k n. h k n ∙ (line_for-empty k old _ (blank e) ∙ sym (line_for-empty k ids _ (blank e)))
      go false e = update-IsShown named ids t

-- What holds after the events.
record IsFaithful (named : String → String → Option String) (past : List Event) (t : Item)
    : Type 0 where
  mode : t.flightmode ≡ in_flight past
  names : (id : String) → name_in id t ≡ name_after named id past
  grounded : in_flight past ≡ true → (id : String) → name_after named id past ≡ none
  shown : IsShown (listed_after past) t

run-IsFaithful :
    (named : String → String → Option String) (past : List Event)
    → IsFaithful named past (run named past)
unfolding run
run-IsFaithful named [] = record {
  mode = refl;
  names = λ id. refl;
  grounded = λ h id. refl;
  shown = λ k h. sym (line_for-empty k [] _ (λ id. refl));
}
run-IsFaithful named (flightmode true ∷ past) = record {
  mode = unfold flightmode_cb in refl;
  names = λ id. unfold flightmode_cb update_widget in refl;
  grounded = λ h id. refl;
  shown =
      unfold flightmode_cb in
      update-IsShown named (listed_after past) (record (run named past) { modems = [] });
}
run-IsFaithful named (flightmode false ∷ past) =
    let ih = run-IsFaithful named past in
    record {
      mode = unfold flightmode_cb in refl;
      names = λ id. unfold flightmode_cb in ih.names id;
      grounded = λ h id. cc;
      shown = unfold flightmode_cb in ih.shown;
    }
run-IsFaithful named (net_status j s ∷ past) =
    let ih = run-IsFaithful named past in
    let shows = net_status_cb-Shows named (listed_after past) j s (run named past) in
    record {
      mode = shows.mode ∙ ih.mode;
      names = λ id.
          name_in-net_status_cb named (listed_after past) j id s (run named past)
          ∙ rw (ih.mode, ih.names id);
      grounded = λ h id. rw h (ih.grounded h id);
      shown = shows.shown ih.shown;
    }
run-IsFaithful named (modem_status ids ∷ past) =
    let ih = run-IsFaithful named past in
    let t = run named past in
    let blank : t.flightmode ≡ true → (id : String) → text_of (name_in id t) ≡ "" =
      λ e id. ap text_of (ih.names id ∙ ih.grounded (sym ih.mode ∙ e) id) in
    record {
      mode = flightmode-modem_status_cb named ids t ∙ ih.mode;
      names = λ id. name_in-modem_status_cb named ids id t ∙ ih.names id;
      grounded = ih.grounded;
      shown = modem_status_cb-IsShown named ids (listed_after past) t blank ih.shown;
    }

-- After any events of the phone's mode, of the network and of the modems, the home screen shows in each
-- of its two lines the name of the modem that is listed there: none while the phone is offline, and
-- else the last name that a status of its network brought while it was registered, completed from the
-- network's codes if it is empty; a status that is unknown, and the offline mode, take it away.
pub run-label :
    (named : String → String → Option String) (past : List Event) (k : ℕ)
    → k < 2
    → line_at k (run named past).label
      ≡ line_for k (listed_after past) (λ id. text_of (name_after named id past))
run-label named past k h =
    let v = run-IsFaithful named past in
    v.shown k h ∙ line_for-cong k (listed_after past) _ _ (λ id. ap text_of (v.names id))
