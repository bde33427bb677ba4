-- ===== src/StatusItem/History.antt =====
-- What the events of the status item say of each modem, and that the item's list keeps it.
use connui_cellular.Prelude.{
  ◌≡◌, refl, sym, ap, ◌∙◌, String, Bool, true, false, ◌||◌, Option, none, some, List, [], ◌∷◌, ◌++◌,
  arith, ◌==◌, string_eq, eq_iff, is_some, if◌then◌else◌, Bool-cases, inl, inr,
}
use connui_cellular.Types.{Bearer}
use connui_cellular.StatusItem.Icons.{NetState, Modem, new_modem, refresh}
use connui_cellular.StatusItem.{
  find, ensure, modify, remove, refresh_all, on, dimmed, off, Item, redraw, update_all, update_one,
  Event, display, flightmode, removed, present, net_status, connmgr_status, shown_again, step, run,
  add_all, blank, init,
}
use connui_cellular.StatusItem.Lists.{ensure-modify}

-- The state of the network and the bearer of a modem.
pub record Data : Type 0 where
  pub state : NetState
  pub bearer : Bearer

abbrev pub new_data : Data
new_data = record { state = (new_modem "").state; bearer = (new_modem "").bearer }

abbrev pub or_new : Option Data → Data
or_new none = new_data
or_new (some d) = d

-- What an event makes of the data of the modem `id`, which may not be known.
abbrev pub told : String → Event → Option Data → Option Data
told id (display d) o = o
told id (flightmode offline) o = o
told id (removed j) o = if j == id then none else o
told id (present j) o = if j == id then some (or_new o) else o
told id (net_status j s) o = if j == id then some (record (or_new o) { state = s }) else o
told id (connmgr_status j b) o = if j == id then some (record (or_new o) { bearer = b }) else o

abbrev pub last_data : String → List Event → Option Data → Option Data
last_data id [] o = o
last_data id (e ∷ es) o = last_data id es (told id e o)

abbrev pub told_offline : Event → Bool → Bool
told_offline (flightmode offline) b = offline
told_offline e b = b

abbrev pub last_offline : List Event → Bool → Bool
last_offline [] b = b
last_offline (e ∷ es) b = last_offline es (told_offline e b)

-- Whether a modem is there at the start.
abbrev pub mem : String → List String → Bool
mem id [] = false
mem id (j ∷ js) = j == id || mem id js

abbrev pub first_data : String → List String → Option Data
first_data id listed = if mem id listed then some new_data else none

abbrev pub IsDistinct : List String → Type 0
IsDistinct [] = Unit {0}
IsDistinct (j ∷ js) = (mem j js ≡ false) × IsDistinct js

-- The data that the list holds of a modem.
abbrev pub data_of : Option Modem → Option Data
data_of none = none
data_of (some m) = some (record { state = m.state; bearer = m.bearer })

abbrev pub held : String → List Modem → Option Data
held id ms = data_of (find id ms)

-- No modem twice.
abbrev pub Distinct : List Modem → Type 0
Distinct [] = Unit {0}
Distinct (m ∷ ms) = (is_some (find m.id ms) ≡ false) × Distinct ms

abbrev write : (Data → Data) → Option Data → Option Data
write f none = none
write f (some d) = some (f d)

held-modify :
    (id j : String) (f : Modem → Modem) (g : Data → Data) (ms : List Modem)
    → ((m : Modem) → (f m).id ≡ m.id)
    → ((m : Modem) → data_of (some (f m)) ≡ write g (data_of (some m)))
    → held id (modify j f ms) ≡ (if j == id then write g (held id ms) else held id ms)
unfolding modify find
held-modify id j f g [] k h = ground arith
held-modify id j f g (m ∷ ms) k h =
    ground
      (arith, k m, h m, eq_iff m.id j, eq_iff m.id id, eq_iff j id, held-modify id j f g ms k h)

known-modify :
    (id j : String) (f : Modem → Modem) (ms : List Modem)
    → ((m : Modem) → (f m).id ≡ m.id)
    → is_some (find id (modify j f ms)) ≡ is_some (find id ms)
unfolding modify find
known-modify id j f [] k = refl
known-modify id j f (m ∷ ms) k = ground (arith, k m, known-modify id j f ms k)

Distinct-modify :
    (j : String) (f : Modem → Modem) (ms : List Modem)
    → ((m : Modem) → (f m).id ≡ m.id)
    → Distinct ms
    → Distinct (modify j f ms)
unfolding modify
Distinct-modify j f [] k d = d
Distinct-modify j f (m ∷ ms) k d = elim (Bool-cases (m.id == j)) [
  | inl e ↦ rw (e, k m) d
  | inr e ↦ rw e (known-modify m.id j f ms k ∙ d.0, Distinct-modify j f ms k d.1)
]

held-append :
    (id j : String) (ms : List Modem)
    → is_some (find j ms) ≡ false
    → held id (ms ++ new_modem j ∷ []) ≡ (if j == id then some new_data else held id ms)
unfolding find
held-append id j [] h = ground arith
held-append id j (m ∷ ms) h =
    ground (arith, h, eq_iff m.id id, eq_iff m.id j, eq_iff j id, held-append id j ms)

known-append :
    (id j : String) (ms : List Modem)
    → is_some (find id (ms ++ new_modem j ∷ [])) ≡ (is_some (find id ms) || j == id)
unfolding find
known-append id j [] = ground arith
known-append id j (m ∷ ms) = ground (arith, known-append id j ms)

Distinct-append :
    (j : String) (ms : List Modem)
    → is_some (find j ms) ≡ false
    → Distinct ms
    → Distinct (ms ++ new_modem j ∷ [])
unfolding find
Distinct-append j [] h d = (refl, tt)
Distinct-append j (m ∷ ms) h d = (
  known-append m.id j ms ∙ ground (arith, d.0, h, eq_iff j m.id, eq_iff m.id j),
  Distinct-append j ms (ground (arith, h)) d.1,
)

held-known : (id : String) (ms : List Modem) → is_some (held id ms) ≡ is_some (find id ms)
held-known id ms = ground arith

held-ensure :
    (id j : String) (ms : List Modem)
    → held id (ensure j ms) ≡ (if j == id then some (or_new (held id ms)) else held id ms)
unfolding ensure
held-ensure id j ms = ground (arith, held-append id j ms, eq_iff j id, held-known id ms)

Distinct-ensure : (j : String) (ms : List Modem) → Distinct ms → Distinct (ensure j ms)
unfolding ensure
Distinct-ensure j ms d = elim (Bool-cases (is_some (find j ms))) [
  | inl e ↦ rw e d
  | inr e ↦ rw e (Distinct-append j ms e d)
]

held-remove :
    (id j : String) (ms : List Modem)
    → Distinct ms
    → held id (remove j ms) ≡ (if j == id then none else held id ms)
unfolding remove find
held-remove id j [] d = ground arith
held-remove id j (m ∷ ms) d =
    ground (arith, d.0, eq_iff m.id j, eq_iff m.id id, eq_iff j id, held-remove id j ms d.1)

known-remove :
    (id j : String) (ms : List Modem)
    → is_some (find id ms) ≡ false
    → is_some (find id (remove j ms)) ≡ false
unfolding remove find
known-remove id j [] h = refl
known-remove id j (m ∷ ms) h = ground (arith, h, known-remove id j ms)

Distinct-remove : (j : String) (ms : List Modem) → Distinct ms → Distinct (remove j ms)
unfolding remove
Distinct-remove j [] d = d
Distinct-remove j (m ∷ ms) d = elim (Bool-cases (m.id == j)) [
  | inl e ↦ rw e d.1
  | inr e ↦ rw e (known-remove m.id j ms d.0, Distinct-remove j ms d.1)
]

held-refresh_all :
    (id : String) (b : Bool) (ms : List Modem) → held id (refresh_all b ms) ≡ held id ms
unfolding refresh_all find refresh
held-refresh_all id b [] = refl
held-refresh_all id b (m ∷ ms) = ground (arith, held-refresh_all id b ms)

Distinct-refresh_all : (b : Bool) (ms : List Modem) → Distinct ms → Distinct (refresh_all b ms)
unfolding refresh_all refresh
Distinct-refresh_all b [] d = d
Distinct-refresh_all b (m ∷ ms) d = (
  sym (held-known m.id (refresh_all b ms))
      ∙ (ap (λ o. is_some o) (held-refresh_all m.id b ms) ∙ (held-known m.id ms ∙ d.0)),
  Distinct-refresh_all b ms d.1,
)

-- The item `u` holds the data `g`.
record Holds (g : String → Option Data) (offline : Bool) (u : Item) : Type 0 where
  distinct : Distinct u.modems
  known : (id : String) → held id u.modems ≡ g id
  mode : u.offline ≡ offline

-- A drawing keeps the data.
record Keeps (u v : Item) : Type 0 where
  distinct : Distinct u.modems → Distinct v.modems
  known : (id : String) → held id v.modems ≡ held id u.modems
  mode : v.offline ≡ u.offline

Keeps-refl : (u : Item) → Keeps u u
Keeps-refl u = record { distinct = λ d. d; known = λ id. refl; mode = refl }

Holds-Keeps :
    (g : String → Option Data) (b : Bool) (u v : Item) → Holds g b u → Keeps u v → Holds g b v
Holds-Keeps g b u v h k = record {
  distinct = k.distinct h.distinct;
  known = λ id. k.known id ∙ h.known id;
  mode = k.mode ∙ h.mode;
}

refresh_id : (b : Bool) (m : Modem) → (refresh b m).id ≡ m.id
unfolding refresh
refresh_id b m = refl

module _ (listed : List String) where
  if-Keeps : (b : Bool) (u v w : Item) → Keeps u v → Keeps u w → Keeps u (if b then v else w)
  if-Keeps true u v w p q = p
  if-Keeps false u v w p q = q

  redraw-Keeps :
      (changed : Bool) (ms : List Modem) (t : Item)
      → (Distinct t.modems → Distinct ms)
      → ((id : String) → held id ms ≡ held id t.modems)
      → Keeps t (redraw listed changed ms t)
  unfolding redraw
  redraw-Keeps true ms t d h = record { distinct = d; known = h; mode = refl }
  redraw-Keeps false ms t d h = record { distinct = d; known = h; mode = refl }

  update_all-Keeps : (t : Item) → Keeps t (update_all listed t)
  unfolding update_all
  update_all-Keeps t =
      if-Keeps _ t _ _ (record { distinct = λ d. d; known = λ id. refl; mode = refl })
        (redraw-Keeps _ (refresh_all t.offline t.modems) t (Distinct-refresh_all t.offline t.modems)
          (λ id. held-refresh_all id t.offline t.modems))

  update_one-Keeps :
      (j : String) (t : Item) → ensure j t.modems ≡ t.modems → Keeps t (update_one listed j t)
  unfolding update_one
  update_one-Keeps j t e =
      if-Keeps _ t _ _ (record { distinct = λ d. d; known = λ id. refl; mode = refl })
        (redraw-Keeps _ (modify j (refresh t.offline) (ensure j t.modems)) t
          (λ d.
            Distinct-modify j (refresh t.offline) (ensure j t.modems) (refresh_id t.offline)
              (Distinct-ensure j t.modems d))
          (λ id.
            held-modify id j (refresh t.offline) (λ d. d) (ensure j t.modems) (refresh_id t.offline)
              (λ m. unfold refresh in refl)
            ∙ (same (j == id) (held id (ensure j t.modems)) ∙ ap (λ ms. held id ms) e)))
    where
      same : (b : Bool) (o : Option Data) → (if b then write (λ d. d) o else o) ≡ o
      same true none = refl
      same true (some d) = refl
      same false o = refl

  -- One event, from a list that holds `g`.
  written-Holds :
      (j : String) (f : Modem → Modem) (k : Data → Data) (g : String → Option Data) (b : Bool)
      (t : Item)
      → ((m : Modem) → (f m).id ≡ m.id)
      → ((m : Modem) → data_of (some (f m)) ≡ write k (data_of (some m)))
      → Holds g b t
      → Holds
          (λ id. if j == id then some (k (or_new (g id))) else g id)
          b
          (update_one listed j (record t { modems = modify j f (ensure j t.modems) }))
  written-Holds j f k g b t same wrote h =
      let u = record t { modems = modify j f (ensure j t.modems) } in
      Holds-Keeps _ b u (update_one listed j u)
        (record {
          distinct =
              Distinct-modify j f (ensure j t.modems) same (Distinct-ensure j t.modems h.distinct);
          known = λ id.
              held-modify id j f k (ensure j t.modems) same wrote
              ∙ ground (arith, held-ensure id j t.modems, h.known id);
          mode = h.mode;
        })
        (update_one-Keeps j u (ensure-modify j f t.modems same))

  step-Holds :
      (e : Event) (g : String → Option Data) (b : Bool) (t : Item)
      → Holds g b t
      → Holds (λ id. told id e (g id)) (told_offline e b) (step listed e t)
  unfolding step shown_again
  step-Holds (display on) g b t h =
      let u = record t { display_state = on } in
      Holds-Keeps g b u _ (record { distinct = h.distinct; known = h.known; mode = h.mode })
        (if-Keeps t.display_was_off u (record (update_all listed u) { display_was_off = false }) u
          (let k = update_all-Keeps u in
            record { distinct = k.distinct; known = k.known; mode = k.mode })
          (Keeps-refl u))
  step-Holds (display dimmed) g b t h = record {
    distinct = h.distinct;
    known = h.known;
    mode = h.mode;
  }
  step-Holds (display off) g b t h = record {
    distinct = h.distinct;
    known = h.known;
    mode = h.mode;
  }
  step-Holds (flightmode o) g b t h =
      let u = record t { offline = o } in
      Holds-Keeps g o u (update_all listed u)
        (record { distinct = h.distinct; known = h.known; mode = refl }) (update_all-Keeps u)
  step-Holds (removed j) g b t h = elim (Bool-cases (is_some (find j t.modems))) [
    | inl e ↦
        let u = record t { modems_changed = true; modems = remove j t.modems } in
        rw e (
          Holds-Keeps (λ id. told id (removed j) (g id)) b u (update_all listed u)
            (record {
              distinct = Distinct-remove j t.modems h.distinct;
              known = λ id. ground (arith, held-remove id j t.modems h.distinct, h.known id);
              mode = h.mode;
            })
            (update_all-Keeps u))
    | inr e ↦ rw e (record {
      distinct = h.distinct;
      known = λ id. ground (arith, e, held-known j t.modems, h.known j, h.known id, eq_iff j id);
      mode = h.mode;
    })
  ]
  step-Holds (present j) g b t h = elim (Bool-cases (is_some (find j t.modems))) [
    | inl e ↦ rw e (record {
      distinct = h.distinct;
      known = λ id. ground (arith, e, held-known j t.modems, h.known j, h.known id, eq_iff j id);
      mode = h.mode;
    })
    | inr e ↦
        let u = record t { modems = t.modems ++ new_modem j ∷ [] } in
        rw e (
          Holds-Keeps (λ id. told id (present j) (g id)) b u (update_all listed u)
            (record {
              distinct = Distinct-append j t.modems e h.distinct;
              known = λ id. ground (
                arith,
                e,
                held-known j t.modems,
                held-append id j t.modems e,
                h.known j,
                h.known id,
                eq_iff j id,
              );
              mode = h.mode;
            })
            (update_all-Keeps u))
  ]
  step-Holds (net_status j s) g b t h =
      written-Holds j (λ m. record m { state = s }) (λ d. record d { state = s }) g b t (λ m. refl)
        (λ m. refl) h
  step-Holds (connmgr_status j x) g b t h =
      written-Holds j (λ m. record m { bearer = x }) (λ d. record d { bearer = x }) g b t
        (λ m. refl) (λ m. refl) h

  run-Holds :
      (es : List Event) (g : String → Option Data) (b : Bool) (t : Item)
      → Holds g b t
      → Holds (λ id. last_data id es (g id)) (last_offline es b) (run listed es t)
  unfolding run
  run-Holds [] g b t h = h
  run-Holds (e ∷ es) g b t h =
      run-Holds es (λ id. told id e (g id)) (told_offline e b) (step listed e t)
        (step-Holds e g b t h)

held-add_all : (id : String) (ids : List String) → held id (add_all ids) ≡ first_data id ids
unfolding add_all find
held-add_all id [] = refl
held-add_all id (j ∷ js) = ground (arith, held-add_all id js)

known-add_all : (id : String) (ids : List String) → is_some (find id (add_all ids)) ≡ mem id ids
unfolding add_all find
known-add_all id [] = refl
known-add_all id (j ∷ js) = ground (arith, known-add_all id js)

Distinct-add_all : (ids : List String) → IsDistinct ids → Distinct (add_all ids)
unfolding add_all
Distinct-add_all [] d = tt
Distinct-add_all (j ∷ js) d = (known-add_all j js ∙ d.0, Distinct-add_all js d.1)

init-Holds :
    (listed : List String)
    → IsDistinct listed
    → Holds (λ id. first_data id listed) false (init listed)
unfolding init blank
init-Holds listed d =
    Holds-Keeps (λ id. first_data id listed) false (blank listed) (update_all listed (blank listed))
      (record {
        distinct = Distinct-add_all listed d;
        known = λ id. held-add_all id listed;
        mode = refl;
      })
      (update_all-Keeps listed (blank listed))

-- After any events the item holds of each modem what the events say, and the flight mode.
pub run-held :
    (listed : List String) (es : List Event)
    → IsDistinct listed
    → let t = run listed es (init listed) in
      ((id : String) → held id t.modems ≡ last_data id es (first_data id listed))
      × (t.offline ≡ last_offline es false)
run-held listed es d =
    let h =
      run-Holds listed es (λ id. first_data id listed) false (init listed) (init-Holds listed d) in
    (h.known, h.mode)
