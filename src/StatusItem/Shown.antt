-- ===== src/StatusItem/Shown.antt =====
-- With the display on, the status area shows the icons of what the events said last.
use connui_cellular.Prelude.{
  ℕ, zero, suc, ◌≡◌, refl, sym, ap, ◌∙◌, String, Bool, true, false, Option, none, some, List, [],
  ◌∷◌, ◌++◌, ◌==◌, string_eq, is_some, if◌then◌else◌, Bool-cases, inl, inr,
}
use connui_cellular.StatusItem.Icons.{Modem, new_modem, icons, is_changed}
use connui_cellular.StatusItem.{
  Icons, slot_of, find, remove, draw, refresh_all, any_changed, Display, on, dimmed, off, Item,
  update_all, Event, display, flightmode, removed, present, net_status, connmgr_status, shown_again,
  step, add_all, blank, init, run,
}
use connui_cellular.StatusItem.Lists.{
  IsCurrent, AllCurrent, refresh_all-AllCurrent, slot-append, draw-cong,
}
use connui_cellular.StatusItem.History.{
  Data, data_of, held, IsDistinct, first_data, last_data, last_offline, run-held,
}
use connui_cellular.StatusItem.Updates.{
  IsShown, all-Redrawn, all-IsShown, written-IsShown, redraw-rest, redraw-drawn,
}

module _ (listed : List String) where
  chosen :
      (b : Bool) (u v : Item)
      → (b ≡ true → IsShown listed u)
      → (b ≡ false → IsShown listed v)
      → IsShown listed (if b then u else v)
  chosen true u v h k = h refl
  chosen false u v h k = k refl

  display-IsShown :
      (d : Display) (t : Item)
      → IsShown listed t
      → IsShown listed (shown_again listed d (record t { display_state = d }))
  unfolding shown_again
  display-IsShown on t h =
      chosen t.display_was_off
        (record (update_all listed (record t { display_state = on })) { display_was_off = false })
        (record t { display_state = on })
        (λ _.
          let (c, r, w, s) =
            all-Redrawn listed (record t { display_state = on }) h.drawn_then refl in
          record { current = λ _. c; drawn_now = λ _. r; drawn_then = λ _. r; updated = λ _. refl })
        (λ e. record {
          current = h.current;
          drawn_now = h.drawn_now;
          drawn_then = h.drawn_then;
          updated = λ _. e;
        })
  display-IsShown dimmed t h = record {
    current = h.current;
    drawn_now = h.drawn_now;
    drawn_then = h.drawn_then;
    updated = λ o. cc;
  }
  display-IsShown off t h = record {
    current = h.current;
    drawn_now = h.drawn_now;
    drawn_then = h.drawn_then;
    updated = λ o. cc;
  }

  step-IsShown : (e : Event) (t : Item) → IsShown listed t → IsShown listed (step listed e t)
  unfolding step
  step-IsShown (display d) t h = display-IsShown d t h
  step-IsShown (flightmode o) t h =
      all-IsShown listed (record t { offline = o }) h.drawn_then h.updated
  step-IsShown (removed id) t h = elim (Bool-cases (is_some (find id t.modems))) [
    | inl e ↦ rw e (
        all-IsShown listed (record t { modems_changed = true; modems = remove id t.modems })
          (λ x. cc) h.updated)
    | inr e ↦ rw e h
  ]
  step-IsShown (present id) t h = elim (Bool-cases (is_some (find id t.modems))) [
    | inl e ↦ rw e h
    | inr e ↦ rw e (
        all-IsShown listed (record t { modems = t.modems ++ new_modem id ∷ [] })
          (λ x.
            h.drawn_then x
            ∙ draw-cong 2 listed t.modems (t.modems ++ new_modem id ∷ [])
                (λ j. sym (slot-append j id t.modems)))
          h.updated)
  ]
  step-IsShown (net_status id s) t h =
      written-IsShown listed id (λ m. record m { state = s }) t
        (record { id_kept = λ m. refl; slot_kept = λ m. refl }) h
  step-IsShown (connmgr_status id b) t h =
      written-IsShown listed id (λ m. record m { bearer = b }) t
        (record { id_kept = λ m. refl; slot_kept = λ m. refl }) h

  run-IsShown : (es : List Event) (t : Item) → IsShown listed t → IsShown listed (run listed es t)
  unfolding run
  run-IsShown [] t h = h
  run-IsShown (e ∷ es) t h = run-IsShown es (step listed e t) (step-IsShown e t h)

-- A new modem has no icons, so the first update draws unless there are no modems.
first_drawn :
    (ids : List String)
    → any_changed false (add_all ids) ≡ false
    → [] ≡ draw 2 ids (refresh_all false (add_all ids))
unfolding any_changed add_all is_changed icons draw refresh_all
first_drawn [] h = refl
first_drawn (id ∷ ids) h = cc

init-IsShown : (listed : List String) → IsShown listed (init listed)
unfolding init update_all blank
init-IsShown listed =
    let t = blank listed in
    let changed = any_changed false (add_all listed) in
    let ms = refresh_all false (add_all listed) in
    let (m, o, d, w, c) = redraw-rest listed changed ms t in
    let r = redraw-drawn listed changed ms t (first_drawn listed) ∙ ap (draw 2 listed) (sym m) in
    record {
      current = λ _. rw (m, o) (refresh_all-AllCurrent false (add_all listed));
      drawn_now = λ _. r;
      drawn_then = λ _. r;
      updated = λ _. w;
    }

-- The icons of a modem with these data, none if it is not known.
abbrev pub icons_for : Bool → Option Data → Icons
icons_for offline none = none
icons_for offline (some d) =
    let (mode, bars) =
      icons offline (record (new_modem "") { state = d.state; bearer = d.bearer }) in
    some (bars, mode)

-- The icons of the first `n` modems.
abbrev pub wanted : ℕ → List String → Bool → (String → Option Data) → List Icons
wanted zero ids offline g = []
wanted (suc n) [] offline g = []
wanted (suc n) (id ∷ ids) offline g = icons_for offline (g id) ∷ wanted n ids offline g

current-slot :
    (offline : Bool) (m : Modem)
    → IsCurrent offline m
    → slot_of (some m) ≡ icons_for offline (data_of (some m))
unfolding slot_of icons
current-slot offline m h = rw (h.bars_now, h.mode_now) refl

held-slot :
    (id : String) (offline : Bool) (ms : List Modem)
    → AllCurrent offline ms
    → slot_of (find id ms) ≡ icons_for offline (held id ms)
unfolding find
held-slot id offline [] h = unfold slot_of in refl
held-slot id offline (m ∷ ms) h = elim (Bool-cases (m.id == id)) [
  | inl e ↦ rw e (current-slot offline m h.0)
  | inr e ↦ rw e (held-slot id offline ms h.1)
]

draw-wanted :
    (n : ℕ) (ids : List String) (offline : Bool) (ms : List Modem) (g : String → Option Data)
    → AllCurrent offline ms
    → ((id : String) → held id ms ≡ g id)
    → draw n ids ms ≡ wanted n ids offline g
unfolding draw
draw-wanted zero ids offline ms g c h = refl
draw-wanted (suc n) [] offline ms g c h = refl
draw-wanted (suc n) (id ∷ ids) offline ms g c h =
    rw
      (
        held-slot id offline ms c ∙ ap (icons_for offline) (h id),
        draw-wanted n ids offline ms g c h,
      )
      refl

-- From the start of the status item, with no modem listed twice, after any events in any order: while the
-- display is on, the status area shows for the first two listed modems the icons of the data that the
-- events gave last, with the last flight mode. A modem that was not there at the start, or was removed,
-- has no icon until it is present or one of its statuses comes, and then starts with no data.
-- (The list of modems that is drawn is the same throughout.)
pub run-on :
    (listed : List String) (es : List Event)
    → IsDistinct listed
    → (run listed es (init listed)).display_state ≡ on
    → (run listed es (init listed)).drawn
      ≡ wanted 2 listed (last_offline es false) (λ id. last_data id es (first_data id listed))
run-on listed es d o =
    let t = run listed es (init listed) in
    let h = run-IsShown listed es (init listed) (init-IsShown listed) in
    let (known, mode) = run-held listed es d in
    h.drawn_now (h.updated o)
    ∙ (draw-wanted 2 listed t.offline t.modems _ (h.current (h.updated o)) known
        ∙ ap (λ b. wanted 2 listed b (λ id. last_data id es (first_data id listed))) mode)
