-- ===== src/StatusItem/Updates.antt =====
-- What an update of the icons, of all modems or of one, leaves.
use connui_cellular.Prelude.{
  ◌≡◌, refl, sym, ap, ◌∙◌, String, Bool, true, false, ◌||◌, List, arith, Bool-cases, inl, inr,
}
use connui_cellular.StatusItem.Icons.{Modem, refresh}
use connui_cellular.StatusItem.{
  find, ensure, modify, draw, refresh_all, any_changed, found_changed, on, Item, redraw, is_off,
  update_all, update_one,
}
use connui_cellular.StatusItem.Lists.{
  AllCurrent, refresh_all-AllCurrent, refresh_all-unchanged, modify-unchanged, KeepsIcons,
  slot-modify, slot-ensure, draw-cong, CurrentBut, ensure-CurrentBut, modify-CurrentBut,
  refresh-CurrentBut, ensure-modify,
}

module _ (listed : List String) where
  -- Between events: unless the display was off since the last update of all icons, they are current
  -- and drawn; after that too they are drawn as they were, unless a modem was removed. A display
  -- that is on has been updated.
  pub record IsShown (t : Item) : Type 0 where
    pub current : t.display_was_off ≡ false → AllCurrent t.offline t.modems
    pub drawn_now : t.display_was_off ≡ false → t.drawn ≡ draw 2 listed t.modems
    pub drawn_then : t.modems_changed ≡ false → t.drawn ≡ draw 2 listed t.modems
    pub updated : t.display_state ≡ on → t.display_was_off ≡ false

  -- What an update of all icons needs.
  abbrev Drawn : Item → Type 0
  Drawn t = t.modems_changed ≡ false → t.drawn ≡ draw 2 listed t.modems

  abbrev Redrawn : Item → Type 0
  Redrawn t = AllCurrent t.offline t.modems × (t.drawn ≡ draw 2 listed t.modems)

  pub redraw-drawn :
      (changed : Bool) (ms : List Modem) (t : Item)
      → (changed ≡ false → t.drawn ≡ draw 2 listed ms)
      → (redraw listed changed ms t).drawn ≡ draw 2 listed ms
  unfolding redraw
  redraw-drawn true ms t h = refl
  redraw-drawn false ms t h = h refl

  pub redraw-rest :
      (changed : Bool) (ms : List Modem) (t : Item)
      → let v = redraw listed changed ms t in
        (v.modems ≡ ms)
        × (v.offline ≡ t.offline)
        × (v.display_state ≡ t.display_state)
        × (v.display_was_off ≡ t.display_was_off)
        × (v.modems_changed ≡ t.modems_changed)
  unfolding redraw
  redraw-rest true ms t = (refl, refl, refl, refl, refl)
  redraw-rest false ms t = (refl, refl, refl, refl, refl)

  all-drawn :
      (t : Item)
      → Drawn t
      → (t.modems_changed || any_changed t.offline t.modems) ≡ false
      → t.drawn ≡ draw 2 listed (refresh_all t.offline t.modems)
  all-drawn t h e =
      h (ground (arith, e))
      ∙ ap (draw 2 listed) (sym (refresh_all-unchanged t.offline t.modems (ground (arith, e))))

  -- An update of all icons, with the display on or dimmed, makes everything current.
  pub all-Redrawn :
      (t : Item)
      → Drawn t
      → is_off t.display_state ≡ false
      → let v = update_all listed t in
        (AllCurrent v.offline v.modems)
        × (v.drawn ≡ draw 2 listed v.modems)
        × (v.display_was_off ≡ t.display_was_off)
        × (v.display_state ≡ t.display_state)
  unfolding update_all
  all-Redrawn t h e =
      let changed = t.modems_changed || any_changed t.offline t.modems in
      let ms = refresh_all t.offline t.modems in
      let (m, o, d, w, c) = redraw-rest changed ms t in
      rw (e, m, o, d, w)
        (
          refresh_all-AllCurrent t.offline t.modems,
          redraw-drawn changed ms t (all-drawn t h),
          refl,
          refl,
        )

  pub all-IsShown :
      (t : Item)
      → Drawn t
      → (t.display_state ≡ on → t.display_was_off ≡ false)
      → IsShown (update_all listed t)
  all-IsShown t h u = elim (Bool-cases (is_off t.display_state)) [
    | inl e ↦
        unfold update_all in
        rw e (record {
          current = λ f. cc;
          drawn_now = λ f. cc;
          drawn_then = h;
          updated = λ o. absurd (ground (arith, o, e));
        })
    | inr e ↦
        let (c, d, w, s) = all-Redrawn t h e in
        record {
          current = λ _. c;
          drawn_now = λ _. d;
          drawn_then = λ _. d;
          updated = λ o. w ∙ u (sym s ∙ o);
        }
  ]

  -- The same of the update of one modem, when the others are current.
  one-drawn :
      (id : String) (t : Item)
      → t.drawn ≡ draw 2 listed t.modems
      → found_changed t.offline (find id (ensure id t.modems)) ≡ false
      → t.drawn ≡ draw 2 listed (modify id (refresh t.offline) (ensure id t.modems))
  one-drawn id t h e =
      h
      ∙ draw-cong 2 listed t.modems (ensure id t.modems) (λ j. sym (slot-ensure j id t.modems))
      ∙ ap (draw 2 listed) (sym (modify-unchanged id t.offline (ensure id t.modems) e))

  one-rest :
      (id : String) (t : Item)
      → is_off t.display_state ≡ false
      → let v = update_one listed id t in
        (v.modems ≡ modify id (refresh t.offline) (ensure id t.modems))
        × (v.offline ≡ t.offline)
        × (v.display_state ≡ t.display_state)
        × (v.display_was_off ≡ t.display_was_off)
        × (v.modems_changed ≡ t.modems_changed)
        × (t.drawn ≡ draw 2 listed t.modems → v.drawn ≡ draw 2 listed v.modems)
  unfolding update_one
  one-rest id t e =
      let changed = found_changed t.offline (find id (ensure id t.modems)) in
      let ms = modify id (refresh t.offline) (ensure id t.modems) in
      let (m, o, d, w, c) = redraw-rest changed ms t in
      rw (e, m, o, d, w, c)
        (refl, refl, refl, refl, refl, λ h. redraw-drawn changed ms t (one-drawn id t h))

  one-IsShown :
      (id : String) (t : Item)
      → Drawn t
      → (t.display_was_off ≡ false → t.drawn ≡ draw 2 listed t.modems)
      → (t.display_was_off ≡ false → CurrentBut id t.offline (ensure id t.modems))
      → (t.display_state ≡ on → t.display_was_off ≡ false)
      → IsShown (update_one listed id t)
  one-IsShown id t h n b u = elim (Bool-cases (is_off t.display_state)) [
    | inl e ↦
        unfold update_one in
        rw e (record {
          current = λ f. cc;
          drawn_now = λ f. cc;
          drawn_then = h;
          updated = λ o. absurd (ground (arith, o, e));
        })
    | inr e ↦
        let (m, o, d, w, c, r) = one-rest id t e in
        record {
          current =
              λ f. rw (m, o) (refresh-CurrentBut id t.offline (ensure id t.modems) (b (sym w ∙ f)));
          drawn_now = λ f. r (n (sym w ∙ f));
          drawn_then = λ f. r (h (sym c ∙ f));
          updated = λ x. w ∙ u (sym d ∙ x);
        }
  ]

  abbrev written : String → (Modem → Modem) → Item → Item
  written id f t = record t { modems = modify id f (ensure id t.modems) }

  written-drawn :
      (id : String) (f : Modem → Modem) (t : Item)
      → KeepsIcons f
      → t.drawn ≡ draw 2 listed t.modems
      → t.drawn ≡ draw 2 listed (modify id f (ensure id t.modems))
  written-drawn id f t k h =
      h
      ∙ draw-cong 2 listed t.modems (modify id f (ensure id t.modems))
          (λ j. sym (slot-modify j id f (ensure id t.modems) k ∙ slot-ensure j id t.modems))

  pub written-IsShown :
      (id : String) (f : Modem → Modem) (t : Item)
      → KeepsIcons f
      → IsShown t
      → IsShown (update_one listed id (written id f t))
  written-IsShown id f t k h =
      one-IsShown id (written id f t) (λ e. written-drawn id f t k (h.drawn_then e))
        (λ e. written-drawn id f t k (h.drawn_now e))
        (λ e. rw (ensure-modify id f t.modems k.id_kept) (
          modify-CurrentBut id t.offline f (ensure id t.modems) k.id_kept
            (ensure-CurrentBut id t.offline t.modems (h.current e))))
        h.updated
