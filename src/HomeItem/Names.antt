-- ===== src/HomeItem/Names.antt =====
-- The names that the table of modems holds after a status of the network.
use connui_cellular.Prelude.{
  ◌≡◌, refl, ap, ◌∙◌, String, true, false, not, ◌&&◌, Option, none, some, List, ◌==◌, nat_eq,
  string_eq, eq_iff, if◌then◌else◌, inl, inr, arith, Bool-cases, Option-cases, lookup-remove,
}
use connui_cellular.Types.{
  RegStatus, rat_unknown, Rat, unknown, unregistered, home, searching, denied, roaming,
}
use connui_cellular.HomeItem.{
  NetState, Item, same_status, registered, is_empty, update_widget, modem_of, write_if, ensure,
  set_name, set_rat, set_status, differs, named_by, fill_name, get_operator_name, new_status,
  new_name, new_network, new_rat, known_status, lost_status, net_status_cb,
}
use connui_cellular.HomeItem.Writes.{
  or_else, complete, brought, heard, name_in, name_in-write_if, modem_of-write_if, name-modem_of,
  name_in-kept, name_in-ensure,
}

module _ (named : String → String → Option String) (listed : List String) where
  differs-false : (o : Option String) (n : String) → differs o n ≡ false → o ≡ some n
  differs-false none n h = cc
  differs-false (some m) n h = ground (arith, eq_iff m n)

  name_in-set :
      (id j n : String) (t : Item)
      → name_in j (
          write_if named listed
            (differs (modem_of named listed id t).operator_name n)
            id
            (set_name n)
            t)
        ≡ (if id == j then some n else name_in j t)
  name_in-set id j n t =
      name_in-write_if named listed _ id j (set_name n) t
      ∙ ground (
        arith,
        name-modem_of named listed id t,
        eq_iff id j,
        differs-false (modem_of named listed id t).operator_name n,
      )

  name_in-fill :
      (o : Option String) (id j : String) (t : Item)
      → name_in j (fill_name named listed o id t) ≡ (
          if id == j
          then (if is_empty (name_in id t) then or_else o (name_in id t) else name_in id t)
          else name_in j t)
  unfolding fill_name
  name_in-fill none id j t = ground (arith, eq_iff id j)
  name_in-fill (some n) id j t =
      name_in-write_if named listed _ id j (set_name n) t
      ∙ rw (name-modem_of named listed id t) (ground (arith, eq_iff id j))

  pub name_in-get_operator_name :
      (id j n : String) (codes : Option String × Option String) (t : Item)
      → name_in j (get_operator_name named listed id n codes t)
        ≡ (if id == j then complete named n codes else name_in j t)
  unfolding get_operator_name
  name_in-get_operator_name id j n codes t =
      name_in-fill (named_by named codes.0 codes.1) id j (
        write_if named listed (differs (modem_of named listed id t).operator_name n) id (set_name n)
          t)
      ∙ rw (name_in-set id j n t, name_in-set id id n t, (eq_iff id id).1 refl)
          (elim (Bool-cases (id == j)) [ inl e ↦ rw e | inr e ↦ rw e ])

  status-of : (a b : RegStatus) → same_status a b ≡ true → a ≡ b
  status-of unknown b h = ground arith
  status-of unregistered b h = ground arith
  status-of home b h = ground arith
  status-of searching b h = ground arith
  status-of denied b h = ground arith
  status-of roaming b h = ground arith

  status-new_status :
      (id : String) (r : RegStatus) (t : Item)
      → (modem_of named listed id (new_status named listed id r t)).reg_status ≡ r
  unfolding new_status
  status-new_status id r t =
      let same = status-of r (modem_of named listed id t).reg_status in
      rw
        (modem_of-write_if named listed
          (not (same_status r (modem_of named listed id t).reg_status)) id (set_status r) t)
        (ground (arith, same))

  -- The status writes no name, and the name is the one that the state brings.
  name_in-new_name :
      (id j : String) (o : Option String) (codes : Option String × Option String) (t : Item)
      → name_in j (new_name named listed id o codes t) ≡ (
          if (id == j) && registered (modem_of named listed id t).reg_status
          then brought named o (some codes) (name_in id t)
          else name_in j t)
  unfolding new_name
  name_in-new_name id j none codes t = ground (arith, eq_iff id j)
  name_in-new_name id j (some n) codes t =
      elim (Bool-cases (registered (modem_of named listed id t).reg_status)) [
        | inl e ↦ rw e (
            name_in-kept named listed true id j (set_rat rat_unknown)
              (get_operator_name named listed id n codes t) (λ m. refl)
            ∙ (name_in-get_operator_name id j n codes t ∙ ground (arith, eq_iff id j)))
        | inr e ↦ rw e (ground (arith, eq_iff id j))
      ]

  new_network-name :
      (id j : String) (s : NetState) (o : Option (Option String × Option String)) (t : Item)
      → registered (modem_of named listed id t).reg_status ≡ registered s.reg_status
      → name_in j (new_network named listed id s o t) ≡ (
          if (id == j) && registered s.reg_status
          then brought named s.operator_name o (name_in id t)
          else name_in j t)
  unfolding new_network
  new_network-name id j s none t e = elim (Option-cases s.operator_name) [
    | inl n ↦ rw n (ground (arith, eq_iff id j))
    | inr (m, n) ↦ rw n (ground (arith, eq_iff id j))
  ]
  new_network-name id j s (some codes) t e =
      let u =
        write_if named listed (same_status (modem_of named listed id t).reg_status unknown) id
          (set_rat rat_unknown) t in
      let kept_at : (k : String) → name_in k u ≡ name_in k t =
        λ k. name_in-kept named listed _ id k (set_rat rat_unknown) t (λ m. refl) in
      let status : registered (modem_of named listed id u).reg_status ≡ registered s.reg_status =
        rw
          (modem_of-write_if named listed
            (same_status (modem_of named listed id t).reg_status unknown) id (set_rat rat_unknown)
            t)
          (ground (arith, e)) in
      name_in-new_name id j s.operator_name codes u ∙ rw (status, kept_at id, kept_at j)

  name_in-new_status :
      (id j : String) (r : RegStatus) (t : Item)
      → name_in j (new_status named listed id r t) ≡ name_in j t
  unfolding new_status
  name_in-new_status id j r t = name_in-kept named listed _ id j (set_status r) t (λ m. refl)

  name_in-new_rat :
      (id j : String) (r : Rat) (t : Item) → name_in j (new_rat named listed id r t) ≡ name_in j t
  unfolding new_rat
  name_in-new_rat id j r t = name_in-kept named listed _ id j (set_rat r) t (λ m. refl)

  name_in-known_status :
      (id j : String) (s : NetState) (t : Item)
      → name_in j (known_status named listed id s t) ≡ (
          if (id == j) && registered s.reg_status
          then brought named s.operator_name s.codes (name_in j t)
          else name_in j t)
  unfolding known_status
  name_in-known_status id j s t =
      let u = new_status named listed id s.reg_status (ensure named listed id t) in
      let before : (k : String) → name_in k u ≡ name_in k t = λ k.
        name_in-new_status id k s.reg_status (ensure named listed id t)
        ∙ name_in-ensure named listed id k t in
      let status : registered (modem_of named listed id u).reg_status ≡ registered s.reg_status =
        ap registered (status-new_status id s.reg_status (ensure named listed id t)) in
      name_in-new_rat id j s.rat_name (new_network named listed id s s.codes u)
      ∙ (new_network-name id j s s.codes u status
          ∙ rw (before id, before j)
              (elim (Bool-cases (id == j)) [
                | inl e ↦ rw e (rw ((eq_iff id j).0 e))
                | inr e ↦ rw e
              ]))

  name_in-lost_status :
      (id j : String) (t : Item)
      → name_in j (lost_status named listed id t) ≡ (if id == j then none else name_in j t)
  unfolding lost_status update_widget
  name_in-lost_status id j t =
      rw (lookup-remove id j t.modems) (elim (Bool-cases (id == j)) [ inl n ↦ rw n | inr n ↦ rw n ])

  pub name_in-net_status_cb :
      (id j : String) (s : NetState) (t : Item)
      → name_in j (net_status_cb named listed id s t) ≡ (
          if t.flightmode
          then name_in j t
          else if id == j
          then heard named s (name_in j t)
          else name_in j t)
  unfolding net_status_cb
  name_in-net_status_cb id j s t =
      ground (arith, name_in-lost_status id j t, name_in-known_status id j s t)
