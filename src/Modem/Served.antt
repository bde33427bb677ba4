-- ===== src/Modem/Served.antt =====
-- A modem from its creation on: its managers, and what its clients are told.
use connui_cellular.Prelude.{
  ℕ, ◌<◌, ◌≡◌, refl, sym, ◌∙◌, ◌++◌, String, Bool, true, false, List, [], ◌∷◌, arith, ◌==◌,
  string_eq, if◌then◌else◌,
}
use connui_cellular.Glib.{Variants}
use connui_cellular.Notifier.{Event, IsQuiet, run, start, read_all}
use connui_cellular.Notifier.Laws.{IsServed, served, changes}
use connui_cellular.Modem.{
  Manager, Modem, create, mem, parse_interfaces, Property, parse_property, modem,
}
use connui_cellular.Modem.Interfaces.{interface_of, IsAttached, parse_interfaces-IsParsed}

module _ (g : Variants) where
  -- What parsing a property may do to the managers.
  data Parsed (p : Property g) (m : Modem) : Modem → Type 0 where
    kept :
        (n : Modem)
        → n.managers ≡ m.managers
        → n.interfaces ≡ m.interfaces
        → n.aborted ≡ m.aborted
        → Parsed p m n
    parsed : (names : List String) → Parsed p m (parse_interfaces p.makes names m)

  keep_if :
      (b : Bool) (p : Property g) (m n r : Modem)
      → n.managers ≡ m.managers
      → n.interfaces ≡ m.interfaces
      → n.aborted ≡ m.aborted
      → Parsed p m r
      → Parsed p m (if b then n else r)
  keep_if true p m n r e f a h = kept n e f a
  keep_if false p m n r e f a h = h

  parse_property-Parsed : (p : Property g) (m : Modem) → Parsed p m (parse_property g p m)
  unfolding parse_property
  parse_property-Parsed p m = keep_if (p.name == "Powered") p m _ _ refl refl refl (
      keep_if (p.name == "Online") p m _ _ refl refl refl (
        keep_if (p.name == "Manufacturer") p m _ _ refl refl refl (
          keep_if (p.name == "Model") p m _ _ refl refl refl (
            keep_if (p.name == "Revision") p m _ _ refl refl refl (
              keep_if (p.name == "Serial") p m _ _ refl refl refl
                (at_interfaces (p.name == "Interfaces")))))))
    where
      at_interfaces :
          (b : Bool) → Parsed p m (if b then parse_interfaces p.makes (g.get_strv p.value) m else m)
      at_interfaces true = parsed (g.get_strv p.value)
      at_interfaces false = kept m refl refl refl

  -- At each change of the properties every proxy that is asked for can be created.
  pub data EachMade : List (Property g) → Type 0 where
    no_change : EachMade []
    made :
        (p : Property g) (ps : List (Property g))
        → ((k : Manager) → p.makes (interface_of k) ≡ true)
        → EachMade ps
        → EachMade (p ∷ ps)

  -- A manager for each interface that the modem has, and no other.
  abbrev pub IsComplete : Modem → Type 0
  IsComplete m = (k : Manager) → m.managers k ≡ mem (interface_of k) m.interfaces

  Parsed-IsAttached : (p : Property g) (m n : Modem) → Parsed p m n → IsAttached m → IsAttached n
  Parsed-IsAttached p m n (kept _ e f a) h = record {
    sound = λ k. rw (e, f) (h.sound k);
    unaborted = a ∙ h.unaborted;
  }
  Parsed-IsAttached p m _ (parsed names) h = (parse_interfaces-IsParsed p.makes names m h).attached

  Parsed-IsComplete :
      (p : Property g) (m n : Modem)
      → Parsed p m n
      → ((k : Manager) → p.makes (interface_of k) ≡ true)
      → IsAttached m
      → IsComplete m
      → IsComplete n
  Parsed-IsComplete p m n (kept _ e f a) mk h c k = rw (e, f) (c k)
  Parsed-IsComplete p m _ (parsed names) mk h c k =
      let r = parse_interfaces-IsParsed p.makes names m h in
      ground (arith, r.managers k, r.listed (interface_of k), mk k, c k)

  read_all-IsAttached :
      (ps : List (Property g)) (m : Modem) → IsAttached m → IsAttached (read_all (modem g) ps m)
  unfolding read_all modem
  read_all-IsAttached [] m h = h
  read_all-IsAttached (p ∷ ps) m h =
      read_all-IsAttached ps (parse_property g p m)
        (Parsed-IsAttached p m (parse_property g p m) (parse_property-Parsed p m) h)

  read_all-IsComplete :
      (ps : List (Property g)) (m : Modem)
      → EachMade ps
      → IsAttached m
      → IsComplete m
      → IsComplete (read_all (modem g) ps m)
  unfolding read_all modem
  read_all-IsComplete [] m e h c = c
  read_all-IsComplete (p ∷ ps) m (made _ _ mk e) h c =
      let q = parse_property-Parsed p m in
      read_all-IsComplete ps (parse_property g p m) e
        (Parsed-IsAttached p m (parse_property g p m) q h)
        (Parsed-IsComplete p m (parse_property g p m) q mk h c)

  read_all-append :
      (ps qs : List (Property g)) (m : Modem)
      → read_all (modem g) (ps ++ qs) m ≡ read_all (modem g) qs (read_all (modem g) ps m)
  unfolding read_all
  read_all-append [] qs m = refl
  read_all-append (p ∷ ps) qs m = read_all-append ps qs ((modem g).apply p m).1

  create-IsAttached : IsAttached create
  create-IsAttached = record { sound = λ k e. absurd cc; unaborted = refl }

  create-IsComplete : IsComplete create
  unfolding mem
  create-IsComplete k = refl

  modem-IsQuiet : IsQuiet (modem g)
  unfolding modem
  modem-IsQuiet p m e = absurd cc

  -- What a modem has become: its managers stand on its interfaces, with one on each when all their
  -- proxies could be created; no assertion failed; and the clients are told as `IsServed` says.
  pub record IsManaged (source : ℕ → ℕ) (props : List (Property g)) (es : List (Event (Property g)))
      (m : Modem) : Type 0 where
    pub attached : IsAttached m
    pub complete : EachMade (props ++ changes es) → IsComplete m
    pub told : IsServed (modem g) source (read_all (modem g) props create) es

  -- From its creation with any properties, and after any property changes, registrations and turns of
  -- the main loop, a modem has managers only on interfaces that it announced last, and one on each of
  -- those when all proxies could be created; no assertion of a manager's file failed; and the clients
  -- are told of its status as `IsServed` says. GLib gives identifiers above 0.
  pub modem-IsManaged :
      (source : ℕ → ℕ)
      → ((n : ℕ) → 0 < source n)
      → (props : List (Property g)) (es : List (Event (Property g)))
      → IsManaged source props es
          (run
            (modem g)
            source
            es
            (start (modem g) source (read_all (modem g) props create))).data_now
  modem-IsManaged source positive props es =
      let told =
        served (modem g) source positive modem-IsQuiet (read_all (modem g) props create) es in
      let now = told.current ∙ sym (read_all-append props (changes es) create) in
      record {
        attached = rw now (read_all-IsAttached (props ++ changes es) create create-IsAttached);
        complete = λ e. rw now (
            read_all-IsComplete (props ++ changes es) create e create-IsAttached create-IsComplete);
        told = told;
      }
