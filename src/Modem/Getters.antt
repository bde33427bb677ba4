-- ===== src/Modem/Getters.antt =====
-- lib/modem.c: what clients ask of a modem by its path.
use connui_cellular.Prelude.{
  ◌≡◌, refl, String, Bool, true, false, Option, none, some, List, [], ◌∷◌, ◌==◌, string_eq, eq_iff,
  if◌then◌else◌, inl, inr, ◌⊎◌, Table, lookup, arith, Option-cases, Bool-cases,
}
use connui_cellular.Errors.{GError, connui, not_found}
use connui_cellular.Glib.{Variants}
use connui_cellular.Modem.{Modem, voice_call_manager}

-- The modems of the context.
abbrev pub Modems : Type 0
Modems = Table String Modem

-- `_modem_get_data`
unfoldable pub get_data : String → Modems → GError ⊎ Modem
unfolding lookup
get_data path ms = elim (lookup path ms) [ none ↦ inl (connui not_found) | some m ↦ inr m ]

-- The macro GET: the value, or the default with the error.
unfoldable pub get {ℓ} : {A : Type ℓ} → (Modem → A) → A → String → Modems → A × Option GError
unfolding get_data
get field default path ms = elim (get_data path ms) [
  | inl e ↦ (default, some e)
  | inr m ↦ (field m, none)
]

-- `connui_cell_modem_is_online` and the others that are made of it
unfoldable pub is_online : String → Modems → Bool × Option GError
unfolding get
is_online = get (λ m. m.online) false

unfoldable pub is_powered : String → Modems → Bool × Option GError
unfolding get
is_powered = get (λ m. m.powered) false

unfoldable pub get_model : String → Modems → Option String × Option GError
unfolding get
get_model = get (λ m. m.model) none

unfoldable pub get_serial : String → Modems → Option String × Option GError
unfolding get
get_serial = get (λ m. m.serial) none

unfoldable pub get_revision : String → Modems → Option String × Option GError
unfolding get
get_revision = get (λ m. m.revision) none

unfoldable pub get_manufacturer : String → Modems → Option String × Option GError
unfolding get
get_manufacturer = get (λ m. m.manufacturer) none

-- `connui_cell_modem_get_modems`
unfoldable pub get_modems : Modems → List String
get_modems [] = []
get_modems ((path, m) ∷ ms) = path ∷ get_modems ms

module _ (g : Variants) where
  open g use {Variant, get_strv}

  -- The loop of `connui_cell_emergency_get_numbers`.
  unfoldable pub numbers_in : List (String × Variant) → Option (List String)
  numbers_in [] = none
  numbers_in ((name, v) ∷ props) =
      let rest = numbers_in props in if name == "EmergencyNumbers" then some (get_strv v) else rest

  -- `connui_cell_emergency_get_numbers`; `properties` is what the voice call manager of a modem
  -- answers. Without that GLib refuses the call, and there is no error. Without one GLib refuses the call, and there is no error.
  unfoldable pub get_numbers :
      (String → GError ⊎ List (String × Variant))
      → String
      → Modems
      → Option (List String) × Option GError
  unfolding get_data numbers_in
  get_numbers properties path ms = elim (get_data path ms) [
    | inl e ↦ (none, some e)
    | inr m ↦ elim (m.managers voice_call_manager) [
      | false ↦ (none, none)
      | true ↦ elim (properties path) [
        | inl e ↦ (none, some e)
        | inr props ↦ (numbers_in props, none)
      ]
    ]
  ]

-- Paths that `connui_cell_modem_get_modems` lists.
pub data IsListed (path : String) : List String → Type 0 where
  here : (ps : List String) → IsListed path (path ∷ ps)
  there : (p : String) (ps : List String) → IsListed path ps → IsListed path (p ∷ ps)

tail_of :
    (path p : String) (ps : List String) → IsListed path (p ∷ ps) → ¬ (p ≡ path) → IsListed path ps
tail_of path _ ps (here _) ne = absurd (ne refl)
tail_of path p ps (there _ _ r) ne = r

lookup-IsListed :
    (path : String) (ms : Modems)
    → IsListed path (get_modems ms)
    → (m : Modem) × (lookup path ms ≡ some m)
unfolding lookup get_modems
lookup-IsListed path [] h = elim h [ ]
lookup-IsListed path ((p, m) ∷ ms) h = elim (Bool-cases (p == path)) [
  | inl e ↦ (m, rw e refl)
  | inr e ↦
      let (n, f) =
        lookup-IsListed path ms
          (tail_of path p (get_modems ms) h (λ q. ground (arith, eq_iff p path))) in
      (n, rw e f)
]

IsListed-lookup :
    (path : String) (ms : Modems) (m : Modem)
    → lookup path ms ≡ some m
    → IsListed path (get_modems ms)
unfolding lookup get_modems
IsListed-lookup path [] m e = absurd cc
IsListed-lookup path ((p, n) ∷ ms) m e = elim (Bool-cases (p == path)) [
  | inl f ↦ rw ((eq_iff p path).0 f) (here (get_modems ms))
  | inr f ↦ there p (get_modems ms) (IsListed-lookup path ms m (ground (arith, f)))
]

-- All getters answer with the fields of the modem `m`, and no error.
pub record IsOf (path : String) (ms : Modems) (m : Modem) : Type 0 where
  pub at_path : lookup path ms ≡ some m
  pub online : is_online path ms ≡ (m.online, none)
  pub powered : is_powered path ms ≡ (m.powered, none)
  pub model : get_model path ms ≡ (m.model, none)
  pub serial : get_serial path ms ≡ (m.serial, none)
  pub revision : get_revision path ms ≡ (m.revision, none)
  pub manufacturer : get_manufacturer path ms ≡ (m.manufacturer, none)

-- All getters answer with their default, and that there is no such modem.
pub record IsUnknown (path : String) (ms : Modems) : Type 0 where
  pub online : is_online path ms ≡ (false, some (connui not_found))
  pub powered : is_powered path ms ≡ (false, some (connui not_found))
  pub model : get_model path ms ≡ (none, some (connui not_found))
  pub serial : get_serial path ms ≡ (none, some (connui not_found))
  pub revision : get_revision path ms ≡ (none, some (connui not_found))
  pub manufacturer : get_manufacturer path ms ≡ (none, some (connui not_found))

pub record IsConsulted (path : String) (ms : Modems) : Type 0 where
  pub listed : IsListed path (get_modems ms) → (m : Modem) × IsOf path ms m
  pub unlisted : ¬ IsListed path (get_modems ms) → IsUnknown path ms

found_get :
    {A : Type 0} (field : Modem → A) (default : A) (path : String) (ms : Modems) (m : Modem)
    → lookup path ms ≡ some m
    → get field default path ms ≡ (field m, none)
unfolding get
found_get field default path ms m e = rw (get, get_data, e) refl

missed_get :
    {A : Type 0} (field : Modem → A) (default : A) (path : String) (ms : Modems)
    → lookup path ms ≡ none
    → get field default path ms ≡ (default, some (connui not_found))
unfolding get
missed_get field default path ms e = rw (get, get_data, e) refl

-- The getters know a path exactly when `connui_cell_modem_get_modems` lists it: then all of them
-- answer with the fields of one modem, which stands under the path, and no error; otherwise with
-- their defaults and the error that there is no such modem.
pub getters-IsConsulted : (path : String) (ms : Modems) → IsConsulted path ms
getters-IsConsulted path ms = record {
  listed = λ h. let (m, e) = lookup-IsListed path ms h in (m, of_modem m e);
  unlisted = λ h. elim (Option-cases (lookup path ms)) [
    | inl e ↦ unknown e
    | inr (m, e) ↦ absurd (h (IsListed-lookup path ms m e))
  ];
}
  where
    of_modem : (m : Modem) → lookup path ms ≡ some m → IsOf path ms m
    of_modem m e = record {
      at_path = e;
      online = unfold is_online in found_get (λ m. m.online) false path ms m e;
      powered = unfold is_powered in found_get (λ m. m.powered) false path ms m e;
      model = unfold get_model in found_get (λ m. m.model) none path ms m e;
      serial = unfold get_serial in found_get (λ m. m.serial) none path ms m e;
      revision = unfold get_revision in found_get (λ m. m.revision) none path ms m e;
      manufacturer = unfold get_manufacturer in found_get (λ m. m.manufacturer) none path ms m e;
    }

    unknown : lookup path ms ≡ none → IsUnknown path ms
    unknown e = record {
      online = unfold is_online in missed_get (λ m. m.online) false path ms e;
      powered = unfold is_powered in missed_get (λ m. m.powered) false path ms e;
      model = unfold get_model in missed_get (λ m. m.model) none path ms e;
      serial = unfold get_serial in missed_get (λ m. m.serial) none path ms e;
      revision = unfold get_revision in missed_get (λ m. m.revision) none path ms e;
      manufacturer = unfold get_manufacturer in missed_get (λ m. m.manufacturer) none path ms e;
    }
