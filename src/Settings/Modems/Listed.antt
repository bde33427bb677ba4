-- ===== src/Settings/Modems/Listed.antt =====
-- Which modems the picker lists.
use connui_cellular.Prelude.{
  ℕ, suc, ◌≡◌, refl, sym, ap, subst, ◌∙◌, String, Bool, true, false, ◌||◌, List, [], ◌∷◌, ◌++◌,
  ◌==◌, nat_eq, string_eq, eq_iff, if◌then◌else◌, inl, inr, arith, Bool-cases,
}
use connui_cellular.Settings.Modems.{
  Picker, length, mem, drop_row, append_modem, remove_row, set_usable, refresh, add_row,
  modem_removed, modem_present, Event, removed, present, step, run,
}

-- What the signals, the latest first, say of a modem that was listed or not.
abbrev pub listed : String → Bool → List Event → Bool
listed id start [] = start
listed id start (removed active j ∷ past) = if j == id then false else listed id start past
listed id start (present named j ∷ past) =
    if j == id then listed id start past || named else listed id start past

-- No modem twice.
abbrev pub IsDistinct : List String → Type 0
IsDistinct [] = Unit {0}
IsDistinct (j ∷ js) = (mem j js ≡ false) × IsDistinct js

mem-append : (id j : String) (rows : List String) → mem id (rows ++ j ∷ []) ≡ mem id rows || j == id
unfolding mem
mem-append id j [] = ground arith
mem-append id j (k ∷ ks) = ground (arith, mem-append id j ks)

mem-drop_row :
    (id j : String) (rows : List String)
    → IsDistinct rows
    → mem id (drop_row j rows) ≡ (if j == id then false else mem id rows)
unfolding mem drop_row
mem-drop_row id j [] d = ground arith
mem-drop_row id j (k ∷ ks) d =
    ground (arith, mem-drop_row id j ks d.1, eq_iff k j, eq_iff j id, eq_iff k id, d.0)

IsDistinct-append :
    (j : String) (rows : List String)
    → mem j rows ≡ false
    → IsDistinct rows
    → IsDistinct (rows ++ j ∷ [])
unfolding mem
IsDistinct-append j [] m d = (refl, tt)
IsDistinct-append j (k ∷ ks) m d = (
  rw (mem-append k j ks) (ground (arith, m, d.0, eq_iff k j, eq_iff j k)),
  IsDistinct-append j ks (ground (arith, m)) d.1,
)

IsDistinct-drop_row :
    (j : String) (rows : List String) → IsDistinct rows → IsDistinct (drop_row j rows)
unfolding drop_row mem
IsDistinct-drop_row j [] d = d
IsDistinct-drop_row j (k ∷ ks) d = elim (Bool-cases (k == j)) [
  | inl e ↦ rw e d.1
  | inr e ↦ rw e (rw (mem-drop_row k j ks d.1) (ground (arith, d.0)), IsDistinct-drop_row j ks d.1)
]

drop_row-absent : (j : String) (rows : List String) → mem j rows ≡ false → drop_row j rows ≡ rows
unfolding drop_row mem
drop_row-absent j [] m = refl
drop_row-absent j (k ∷ ks) m = ground (arith, drop_row-absent j ks, m)

rows-modem_removed :
    (active : ℕ) (j : String) (p : Picker) → (modem_removed active j p).rows ≡ drop_row j p.rows
unfolding modem_removed remove_row refresh set_usable
rows-modem_removed active j p = ground (arith, drop_row-absent j p.rows)

closed-modem_removed :
    (active : ℕ) (j : String) (p : Picker)
    → p.closed ≡ false
    → (modem_removed active j p).closed ≡ (length (modem_removed active j p).rows == 0)
unfolding modem_removed refresh set_usable remove_row
closed-modem_removed active j p c = ground (arith, c)

with_row : Bool → String → List String → List String
with_row named j rows = if mem j rows then rows else append_modem named j rows

rows-modem_present :
    (named : Bool) (j : String) (p : Picker)
    → (length p.rows == 0) ≡ false
    → (modem_present named j p).rows ≡ with_row named j p.rows
unfolding modem_present add_row set_usable with_row
rows-modem_present named j p n = ground (arith, n)

length-append : (rows : List String) (j : String) → length (rows ++ j ∷ []) ≡ suc (length rows)
unfolding length
length-append [] j = refl
length-append (k ∷ ks) j = ap (λ (n : ℕ). suc n) (length-append ks j)

closed-modem_present :
    (named : Bool) (j : String) (p : Picker)
    → p.closed ≡ false
    → (length p.rows == 0) ≡ false
    → ((modem_present named j p).closed ≡ false)
      × ((length (modem_present named j p).rows == 0) ≡ false)
unfolding modem_present add_row set_usable append_modem
closed-modem_present named j p c n = ground (arith, c, n, length-append p.rows j)

mem-with_row :
    (named : Bool) (id j : String) (rows : List String)
    → mem id (with_row named j rows) ≡ (if j == id then mem id rows || named else mem id rows)
unfolding with_row append_modem
mem-with_row named id j rows = ground (arith, mem-append id j rows, eq_iff j id)

IsDistinct-with_row :
    (named : Bool) (j : String) (rows : List String)
    → IsDistinct rows
    → IsDistinct (with_row named j rows)
unfolding with_row append_modem
IsDistinct-with_row named j rows d = elim (Bool-cases (mem j rows)) [
  | inl e ↦ rw e d
  | inr e ↦ rw e (go named e)
]
  where
    go : (b : Bool) → mem j rows ≡ false → IsDistinct (if b then rows ++ j ∷ [] else rows)
    go true e = IsDistinct-append j rows e d
    go false e = d

-- The picker lists no modem twice, and while it is open it lists some modem, just those that the signals
-- say are listed, and takes input after a signal if there is a choice.
pub record IsCurrent (p : Picker) (past : List Event) (q : Picker) : Type 0 where
  pub distinct : IsDistinct q.rows
  pub closed : q.closed ≡ (length q.rows == 0)
  pub rows : q.closed ≡ false → (id : String) → mem id q.rows ≡ listed id (mem id p.rows) past

closed-IsCurrent :
    (p : Picker) (e : Event) (past : List Event) (q : Picker)
    → q.closed ≡ true
    → IsCurrent p past q
    → IsCurrent p (e ∷ past) q
closed-IsCurrent p e past q c v = record {
  distinct = v.distinct;
  closed = v.closed;
  rows = λ o. absurd (ground (arith, c, o));
}

removed-IsCurrent :
    (p : Picker) (active : ℕ) (j : String) (past : List Event) (q : Picker)
    → q.closed ≡ false
    → IsCurrent p past q
    → IsCurrent p (removed active j ∷ past) (modem_removed active j q)
removed-IsCurrent p active j past q c v =
    let rows : (modem_removed active j q).rows ≡ drop_row j q.rows =
      rows-modem_removed active j q in
    record {
      distinct = subst IsDistinct (sym rows) (IsDistinct-drop_row j q.rows v.distinct);
      closed = closed-modem_removed active j q c;
      rows = λ o id.
          ap (mem id) rows ∙ (mem-drop_row id j q.rows v.distinct ∙ ground (arith, v.rows c id));
    }

present-IsCurrent :
    (p : Picker) (named : Bool) (j : String) (past : List Event) (q : Picker)
    → q.closed ≡ false
    → IsCurrent p past q
    → IsCurrent p (present named j ∷ past) (modem_present named j q)
present-IsCurrent p named j past q c v =
    let some_row : (length q.rows == 0) ≡ false = sym v.closed ∙ c in
    let rows : (modem_present named j q).rows ≡ with_row named j q.rows =
      rows-modem_present named j q some_row in
    let ends = closed-modem_present named j q c some_row in
    record {
      distinct = subst IsDistinct (sym rows) (IsDistinct-with_row named j q.rows v.distinct);
      closed = ends.0 ∙ sym ends.1;
      rows =
          λ o id. ap (mem id) rows ∙ (mem-with_row named id j q.rows ∙ ground (arith, v.rows c id));
    }

step-IsCurrent :
    (p : Picker) (e : Event) (past : List Event) (q : Picker)
    → IsCurrent p past q
    → IsCurrent p (e ∷ past) (step e q)
unfolding step
step-IsCurrent p (removed active j) past q v = go q.closed refl
  where
    go :
        (b : Bool)
        → q.closed ≡ b
        → IsCurrent p (removed active j ∷ past) (if b then q else modem_removed active j q)
    go true c = closed-IsCurrent p (removed active j) past q c v
    go false c = removed-IsCurrent p active j past q c v
step-IsCurrent p (present named j) past q v = go q.closed refl
  where
    go :
        (b : Bool)
        → q.closed ≡ b
        → IsCurrent p (present named j ∷ past) (if b then q else modem_present named j q)
    go true c = closed-IsCurrent p (present named j) past q c v
    go false c = present-IsCurrent p named j past q c v

-- The picker is opened with modems of different names, some of which can be named. After any signals of
-- the modems it lists no modem twice; it is closed exactly if no row is left; and while it is open it
-- lists a modem just if that was listed at the start or was present and named in a signal, and has
-- not been removed since.
pub run-IsCurrent :
    (p : Picker) (past : List Event)
    → IsDistinct p.rows
    → p.closed ≡ false
    → (length p.rows == 0) ≡ false
    → IsCurrent p past (run p past)
unfolding run
run-IsCurrent p [] d c n = record { distinct = d; closed = c ∙ sym n; rows = λ o id. refl }
run-IsCurrent p (e ∷ past) d c n = step-IsCurrent p e past (run p past) (run-IsCurrent p past d c n)
