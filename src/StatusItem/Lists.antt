-- ===== src/StatusItem/Lists.antt =====
-- The list of modems under the operations of status-menu-item/status-item.c.
use connui_cellular.Prelude.{
  ℕ, zero, suc, ◌≡◌, refl, ◌∙◌, String, Bool, true, false, Option, none, some, List, [], ◌∷◌, ◌++◌,
  arith, ◌==◌, string_eq, eq_iff, is_some, if◌then◌else◌, Bool-cases, inl, inr,
}
use connui_cellular.StatusItem.Icons.{Modem, new_modem, icons, same_icon, refresh, is_changed}
use connui_cellular.StatusItem.{
  find, ensure, modify, slot_of, draw, refresh_all, any_changed, found_changed,
}

-- A modem's icons are those of its data.
pub record IsCurrent (offline : Bool) (m : Modem) : Type 0 where
  pub mode_now : m.mode ≡ (icons offline m).0
  pub bars_now : m.bars ≡ some (icons offline m).1

abbrev pub AllCurrent : Bool → List Modem → Type 0
AllCurrent offline [] = offline ≡ offline
AllCurrent offline (m ∷ ms) = IsCurrent offline m × AllCurrent offline ms

pub refresh-IsCurrent : (offline : Bool) (m : Modem) → IsCurrent offline (refresh offline m)
unfolding refresh icons
refresh-IsCurrent offline m = record { mode_now = refl; bars_now = refl }

pub refresh_all-AllCurrent :
    (offline : Bool) (ms : List Modem) → AllCurrent offline (refresh_all offline ms)
unfolding refresh_all
refresh_all-AllCurrent offline [] = refl
refresh_all-AllCurrent offline (m ∷ ms) =
    (refresh-IsCurrent offline m, refresh_all-AllCurrent offline ms)

same_icon-≡ : (a b : Option String) → same_icon a b ≡ true → a ≡ b
same_icon-≡ none none h = refl
same_icon-≡ (some a) (some b) h = ground (arith, eq_iff a b)
same_icon-≡ none (some b) h = cc
same_icon-≡ (some a) none h = cc

-- Icons that did not change are the ones that a modem has.
unchanged : (offline : Bool) (m : Modem) → is_changed offline m ≡ false → refresh offline m ≡ m
unfolding is_changed refresh icons
unchanged offline m h =
    ground
      (arith, same_icon-≡ m.bars (some (icons offline m).1), same_icon-≡ m.mode (icons offline m).0)

pub refresh_all-unchanged :
    (offline : Bool) (ms : List Modem)
    → any_changed offline ms ≡ false
    → refresh_all offline ms ≡ ms
unfolding refresh_all any_changed
refresh_all-unchanged offline [] h = refl
refresh_all-unchanged offline (m ∷ ms) h =
    ground (arith, unchanged offline m, refresh_all-unchanged offline ms)

pub modify-unchanged :
    (id : String) (offline : Bool) (ms : List Modem)
    → found_changed offline (find id ms) ≡ false
    → modify id (refresh offline) ms ≡ ms
unfolding modify found_changed find
modify-unchanged id offline [] h = refl
modify-unchanged id offline (m ∷ ms) h =
    ground (arith, unchanged offline m, modify-unchanged id offline ms)

-- The data of a modem may be written without a change of what is drawn.
pub record KeepsIcons (f : Modem → Modem) : Type 0 where
  pub id_kept : (m : Modem) → (f m).id ≡ m.id
  pub slot_kept : (m : Modem) → slot_of (some (f m)) ≡ slot_of (some m)

pub slot-modify :
    (j id : String) (f : Modem → Modem) (ms : List Modem)
    → KeepsIcons f
    → slot_of (find j (modify id f ms)) ≡ slot_of (find j ms)
unfolding modify find
slot-modify j id f [] k = refl
slot-modify j id f (m ∷ ms) k = ground (arith, k.id_kept m, k.slot_kept m, slot-modify j id f ms k)

pub slot-append :
    (j id : String) (ms : List Modem)
    → slot_of (find j (ms ++ new_modem id ∷ [])) ≡ slot_of (find j ms)
unfolding find slot_of
slot-append j id [] = ground arith
slot-append j id (m ∷ ms) = ground (arith, slot-append j id ms)

pub slot-ensure :
    (j id : String) (ms : List Modem) → slot_of (find j (ensure id ms)) ≡ slot_of (find j ms)
unfolding ensure
slot-ensure j id ms = ground (arith, slot-append j id ms)

pub draw-cong :
    (n : ℕ) (ids : List String) (ms ns : List Modem)
    → ((j : String) → slot_of (find j ms) ≡ slot_of (find j ns))
    → draw n ids ms ≡ draw n ids ns
unfolding draw
draw-cong zero ids ms ns h = refl
draw-cong (suc n) [] ms ns h = refl
draw-cong (suc n) (id ∷ ids) ms ns h = rw (h id, draw-cong n ids ms ns h) refl

-- All icons are current but that of the first modem with an identifier.
abbrev pub CurrentBut : String → Bool → List Modem → Type 0
CurrentBut id offline [] = offline ≡ offline
CurrentBut id offline (m ∷ ms) =
    if m.id == id then AllCurrent offline ms else IsCurrent offline m × CurrentBut id offline ms

AllCurrent-CurrentBut :
    (id : String) (offline : Bool) (ms : List Modem)
    → AllCurrent offline ms
    → CurrentBut id offline ms
AllCurrent-CurrentBut id offline [] h = refl
AllCurrent-CurrentBut id offline (m ∷ ms) h = elim (Bool-cases (m.id == id)) [
  | inl e ↦ rw e h.1
  | inr e ↦ rw e (h.0, AllCurrent-CurrentBut id offline ms h.1)
]

append-CurrentBut :
    (id : String) (offline : Bool) (ms : List Modem)
    → AllCurrent offline ms
    → is_some (find id ms) ≡ false
    → CurrentBut id offline (ms ++ new_modem id ∷ [])
unfolding find
append-CurrentBut id offline [] h n = rw ((eq_iff id id).1 refl) refl
append-CurrentBut id offline (m ∷ ms) h n = elim (Bool-cases (m.id == id)) [
  | inl e ↦ absurd (ground (arith, e, n))
  | inr e ↦ rw e (h.0, append-CurrentBut id offline ms h.1 (ground (arith, e, n)))
]

pub ensure-CurrentBut :
    (id : String) (offline : Bool) (ms : List Modem)
    → AllCurrent offline ms
    → CurrentBut id offline (ensure id ms)
unfolding ensure
ensure-CurrentBut id offline ms h = elim (Bool-cases (is_some (find id ms))) [
  | inl e ↦ rw e (AllCurrent-CurrentBut id offline ms h)
  | inr e ↦ rw e (append-CurrentBut id offline ms h e)
]

pub modify-CurrentBut :
    (id : String) (offline : Bool) (f : Modem → Modem) (ms : List Modem)
    → ((m : Modem) → (f m).id ≡ m.id)
    → CurrentBut id offline ms
    → CurrentBut id offline (modify id f ms)
unfolding modify
modify-CurrentBut id offline f [] k h = refl
modify-CurrentBut id offline f (m ∷ ms) k h = elim (Bool-cases (m.id == id)) [
  | inl e ↦ rw (e, k m, e) (rw e at h)
  | inr e ↦ rw (e, e) (let (c, r) = rw e at h in (c, modify-CurrentBut id offline f ms k r))
]

pub refresh-CurrentBut :
    (id : String) (offline : Bool) (ms : List Modem)
    → CurrentBut id offline ms
    → AllCurrent offline (modify id (refresh offline) ms)
unfolding modify
refresh-CurrentBut id offline [] h = refl
refresh-CurrentBut id offline (m ∷ ms) h = elim (Bool-cases (m.id == id)) [
  | inl e ↦ rw e (refresh-IsCurrent offline m, rw e at h)
  | inr e ↦ rw e (let (c, r) = rw e at h in (c, refresh-CurrentBut id offline ms r))
]

find-append : (id : String) (ms : List Modem) → is_some (find id (ms ++ new_modem id ∷ [])) ≡ true
unfolding find
find-append id [] = rw ((eq_iff id id).1 refl) refl
find-append id (m ∷ ms) = ground (arith, find-append id ms)

pub find-ensure : (id : String) (ms : List Modem) → is_some (find id (ensure id ms)) ≡ true
unfolding ensure
find-ensure id ms = elim (Bool-cases (is_some (find id ms))) [
  | inl e ↦ rw (e, e) refl
  | inr e ↦ rw (e) (find-append id ms)
]

pub find-modify :
    (id : String) (f : Modem → Modem) (ms : List Modem)
    → ((m : Modem) → (f m).id ≡ m.id)
    → is_some (find id (modify id f ms)) ≡ is_some (find id ms)
unfolding find modify
find-modify id f [] k = refl
find-modify id f (m ∷ ms) k = ground (arith, k m, find-modify id f ms k)

-- A modem that was just found or added is not added again.
pub ensure-modify :
    (id : String) (f : Modem → Modem) (ms : List Modem)
    → ((m : Modem) → (f m).id ≡ m.id)
    → ensure id (modify id f (ensure id ms)) ≡ modify id f (ensure id ms)
unfolding ensure
ensure-modify id f ms k =
    let found = find-modify id f (ensure id ms) k ∙ find-ensure id ms in ground (arith, found)
