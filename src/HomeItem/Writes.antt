-- ===== src/HomeItem/Writes.antt =====
-- What a write to the table of modems changes, and the names that the events leave.
use connui_cellular.Prelude.{
  ℕ, zero, suc, ◌<◌, ◌≡◌, refl, ◌∙◌, String, Bool, true, false, ◌&&◌, Option, none, some, List, [],
  ◌∷◌, ◌==◌, nat_eq, string_eq, eq_iff, if◌then◌else◌, inl, inr, arith, Bool-cases, Option-cases,
  lookup, lookup-insert, Table,
}
use connui_cellular.Types.{unknown}
use connui_cellular.HomeItem.{
  Modem, NetState, Item, flightmode, net_status, modem_status, same_status, registered, line_of,
  lines, new_modem, modem_or_new, Event, update_widget, modem_of, write, write_if, ensure, named_by,
}

-- A line of a text, empty past its end.
abbrev pub line_at : ℕ → List String → String
line_at k [] = ""
line_at zero (l ∷ ls) = l
line_at (suc k) (l ∷ ls) = line_at k ls

abbrev pub line_for : ℕ → List String → (String → String) → String
line_for k [] f = ""
line_for zero (id ∷ ids) f = f id
line_for (suc k) (id ∷ ids) f = line_for k ids f

abbrev pub text_of : Option String → String
text_of none = ""
text_of (some n) = n

abbrev pub or_else : Option String → Option String → Option String
or_else none d = d
or_else (some n) d = some n

-- Whether the phone is offline, and the name that the events leave a modem, the latest first.
abbrev pub in_flight : List Event → Bool
in_flight [] = false
in_flight (flightmode b ∷ past) = b
in_flight (net_status id s ∷ past) = in_flight past
in_flight (modem_status ids ∷ past) = in_flight past

module _ (named : String → String → Option String) where
  -- A status that brings an empty name is completed by the network's codes.
  abbrev pub complete : String → Option String × Option String → Option String
  complete n codes = if n == "" then or_else (named_by named codes.0 codes.1) (some n) else some n

  abbrev pub brought :
      Option String → Option (Option String × Option String) → Option String → Option String
  brought none codes old = old
  brought (some n) none old = old
  brought (some n) (some codes) old = complete n codes

  abbrev pub heard : NetState → Option String → Option String
  heard s old =
      if same_status s.reg_status unknown
      then none
      else if registered s.reg_status
      then brought s.operator_name s.codes old
      else old

  abbrev pub name_after : String → List Event → Option String
  name_after id [] = none
  name_after id (flightmode b ∷ past) = if b then none else name_after id past
  name_after id (net_status j s ∷ past) =
      if in_flight past
      then name_after id past
      else if j == id
      then heard s (name_after id past)
      else name_after id past
  name_after id (modem_status ids ∷ past) = name_after id past

abbrev op_of : Option Modem → Option String
op_of none = none
op_of (some m) = m.operator_name

-- The names in the table.
abbrev pub name_in : String → Item → Option String
name_in id t = op_of (lookup id t.modems)

line-name : (o : Option Modem) → line_of o ≡ text_of (op_of o)
line-name none = refl
line-name (some m) = elim (Option-cases m.operator_name) [
  | inl e ↦ rw e
  | inr (n, e) ↦ rw e (ground (arith, eq_iff n ""))
]

-- A line of the label is the line of the modem in its place.
line_at-lines :
    (n k : ℕ) (ids : List String) (t : Table String Modem)
    → k < n
    → line_at k (lines n ids t) ≡ line_for k ids (λ id. text_of (op_of (lookup id t)))
unfolding lines
line_at-lines zero k ids t h = elim h [ ]
line_at-lines (suc n) zero [] t h = refl
line_at-lines (suc n) (suc k) [] t h = refl
line_at-lines (suc n) zero (id ∷ ids) t h = line-name (lookup id t)
line_at-lines (suc n) (suc k) (id ∷ ids) t h = line_at-lines n k ids t (omega arith)

pub line_for-cong :
    (k : ℕ) (ids : List String) (f g : String → String)
    → ((id : String) → f id ≡ g id)
    → line_for k ids f ≡ line_for k ids g
line_for-cong k [] f g h = refl
line_for-cong zero (id ∷ ids) f g h = h id
line_for-cong (suc k) (id ∷ ids) f g h = line_for-cong k ids f g h

pub line_for-empty :
    (k : ℕ) (ids : List String) (f : String → String)
    → ((id : String) → f id ≡ "")
    → line_for k ids f ≡ ""
line_for-empty k [] f h = refl
line_for-empty zero (id ∷ ids) f h = h id
line_for-empty (suc k) (id ∷ ids) f h = line_for-empty k ids f h

-- The label shows the names in the table.
abbrev pub IsShown : List String → Item → Type 0
IsShown listed t =
    (k : ℕ) → k < 2 → line_at k t.label ≡ line_for k listed (λ id. text_of (name_in id t))

module _ (named : String → String → Option String) (listed : List String) where
  pub update-IsShown : (t : Item) → IsShown listed (update_widget named listed t)
  unfolding update_widget
  update-IsShown t k h = line_at-lines 2 k listed t.modems h

  pub write_if-IsShown :
      (b : Bool) (id : String) (f : Modem → Modem) (t : Item)
      → IsShown listed t
      → IsShown listed (write_if named listed b id f t)
  unfolding write_if
  write_if-IsShown true id f t h = update-IsShown (write named listed id f t)
  write_if-IsShown false id f t h = h

  -- What a write leaves of the table, of the modem's status, and of the phone's mode.
  pub name_in-write_if :
      (b : Bool) (id j : String) (f : Modem → Modem) (t : Item)
      → name_in j (write_if named listed b id f t)
        ≡ (if b && id == j then (f (modem_of named listed id t)).operator_name else name_in j t)
  unfolding write_if write update_widget
  name_in-write_if true id j f t =
      rw (lookup-insert id j (f (modem_of named listed id t)) t.modems)
        (elim (Bool-cases (id == j)) [ inl e ↦ rw e | inr e ↦ rw e ])
  name_in-write_if false id j f t = refl

  pub modem_of-write_if :
      (b : Bool) (id : String) (f : Modem → Modem) (t : Item)
      → modem_of named listed id (write_if named listed b id f t)
        ≡ (if b then f (modem_of named listed id t) else modem_of named listed id t)
  unfolding write_if write update_widget modem_of
  modem_of-write_if true id f t =
      rw (lookup-insert id id (f (modem_or_new (lookup id t.modems))) t.modems)
        (ground (arith, eq_iff id id))
  modem_of-write_if false id f t = refl

  pub flightmode-write_if :
      (b : Bool) (id : String) (f : Modem → Modem) (t : Item)
      → (write_if named listed b id f t).flightmode ≡ t.flightmode
  unfolding write_if write update_widget
  flightmode-write_if true id f t = refl
  flightmode-write_if false id f t = refl

  pub name-modem_of :
      (id : String) (t : Item) → (modem_of named listed id t).operator_name ≡ name_in id t
  unfolding modem_of
  name-modem_of id t = elim (Option-cases (lookup id t.modems)) [ inl e ↦ rw e | inr (m, e) ↦ rw e ]

  -- A write of the status or the technology leaves the names.
  pub name_in-kept :
      (b : Bool) (id j : String) (f : Modem → Modem) (t : Item)
      → ((m : Modem) → (f m).operator_name ≡ m.operator_name)
      → name_in j (write_if named listed b id f t) ≡ name_in j t
  name_in-kept b id j f t keep =
      name_in-write_if b id j f t
      ∙ ground (arith, keep (modem_of named listed id t), name-modem_of id t, eq_iff id j)

  pub name_in-ensure :
      (id j : String) (t : Item) → name_in j (ensure named listed id t) ≡ name_in j t
  unfolding ensure
  name_in-ensure id j t = elim (Option-cases (lookup id t.modems)) [
    | inl e ↦
        rw (e, ensure)
          (rw (lookup-insert id j new_modem t.modems) (elim (Bool-cases (id == j)) [
            | inl s ↦ rw s (rw (← (eq_iff id j).0 s) (rw e))
            | inr s ↦ rw s
          ]))
    | inr (m, e) ↦ rw (e, ensure)
  ]

  pub label-ensure : (id : String) (t : Item) → (ensure named listed id t).label ≡ t.label
  unfolding ensure
  label-ensure id t = elim (Option-cases (lookup id t.modems)) [
    | inl e ↦ rw (e, ensure)
    | inr (m, e) ↦ rw (e, ensure)
  ]

  pub flightmode-ensure :
      (id : String) (t : Item) → (ensure named listed id t).flightmode ≡ t.flightmode
  unfolding ensure
  flightmode-ensure id t = elim (Option-cases (lookup id t.modems)) [
    | inl e ↦ rw (e, ensure)
    | inr (m, e) ↦ rw (e, ensure)
  ]
