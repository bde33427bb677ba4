-- ===== src/Modem/Interfaces.antt =====
-- Which managers a modem has after its interfaces changed.
use connui_cellular.Prelude.{
  ◌≡◌, refl, sym, ◌∙◌, String, Bool, true, false, not, ◌&&◌, ◌||◌, none, some, List, [], ◌∷◌, arith,
  ◌==◌, string_eq, eq_iff, if◌then◌else◌, ◌↔◌, Option-cases, inl, inr,
}
use connui_cellular.Modem.{
  Manager, simmgr, netreg, supplsvcs, connmgr, voice_call_manager, same, Modem, manager_of, mem,
  add_name, name_set, set_manager, asserts, add_manager, add_interface, add_if_new, add_new,
  remove_interface, remove_if_old, remove_old, parse_interfaces,
}

-- The interface that a manager stands on.
abbrev pub interface_of : Manager → String
interface_of simmgr = "org.ofono.SimManager"
interface_of netreg = "org.ofono.NetworkRegistration"
interface_of supplsvcs = "org.ofono.SupplementaryServices"
interface_of connmgr = "org.ofono.ConnectionManager"
interface_of voice_call_manager = "org.ofono.VoiceCallManager"

pub same_iff : (j k : Manager) → (same j k ≡ true) ↔ (j ≡ k)
same_iff j k = ground arith

manager_of-interface : (k : Manager) → manager_of (interface_of k) ≡ some k
unfolding manager_of
manager_of-interface simmgr = refl
manager_of-interface netreg = refl
manager_of-interface supplsvcs = refl
manager_of-interface connmgr = refl
manager_of-interface voice_call_manager = refl

interface-manager_of : (s : String) (k : Manager) → manager_of s ≡ some k → s ≡ interface_of k
unfolding manager_of
interface-manager_of s k e = ground (
  arith,
  eq_iff s "org.ofono.SimManager",
  eq_iff s "org.ofono.NetworkRegistration",
  eq_iff s "org.ofono.SupplementaryServices",
  eq_iff s "org.ofono.ConnectionManager",
  eq_iff s "org.ofono.VoiceCallManager",
)

-- What a change of a modem's managers by one interface does.
record IsStep (s : String) (b : Bool) (m n : Modem) : Type 0 where
  managers : (k : Manager) → n.managers k ≡ (if s == interface_of k then b else m.managers k)
  interfaces : n.interfaces ≡ m.interfaces
  unaborted : n.aborted ≡ m.aborted

set_manager-IsStep :
    (s : String) (b : Bool) (k : Manager) (m : Modem)
    → manager_of s ≡ some k
    → IsStep s b m (set_manager k b m)
set_manager-IsStep s b k m e = record {
  managers = λ j. ground (
    arith,
    same_iff k j,
    eq_iff s (interface_of j),
    interface-manager_of s k e,
    manager_of-interface j,
  );
  interfaces = refl;
  unaborted = refl;
}

other-IsStep : (s : String) (b : Bool) (m : Modem) → manager_of s ≡ none → IsStep s b m m
other-IsStep s b m e = record {
  managers = λ j. ground (arith, eq_iff s (interface_of j), manager_of-interface j);
  interfaces = refl;
  unaborted = refl;
}

unmade-IsStep :
    (s : String) (k : Manager) (m : Modem)
    → manager_of s ≡ some k
    → m.managers k ≡ false
    → IsStep s false m m
unmade-IsStep s k m e off = record {
  managers = λ j.
      ground (
        arith,
        same_iff k j,
        eq_iff s (interface_of j),
        off,
        manager_of-interface j,
        managers_at j,
      );
  interfaces = refl;
  unaborted = refl;
}
  where
    managers_at : (j : Manager) → j ≡ k → m.managers j ≡ false
    managers_at j f = rw f off

add_manager-IsStep :
    (s : String) (made : Bool) (k : Manager) (m : Modem)
    → manager_of s ≡ some k
    → m.managers k ≡ false
    → IsStep s made m (add_manager made k m)
unfolding add_manager
add_manager-IsStep s made k m e off =
    rw off (with_tests (asserts k made) made refl (same k voice_call_manager))
  where
    with_tests :
        (a b : Bool)
        → made ≡ b
        → (v : Bool)
        → IsStep s b m (
            if a && false
            then record m { aborted = true }
            else if b || v
            then set_manager k b m
            else m)
    with_tests true true q v = set_manager-IsStep s true k m e
    with_tests false true q v = set_manager-IsStep s true k m e
    with_tests true false q true = set_manager-IsStep s false k m e
    with_tests false false q true = set_manager-IsStep s false k m e
    with_tests true false q false = unmade-IsStep s k m e off
    with_tests false false q false = unmade-IsStep s k m e off

add_interface-IsStep :
    (makes : String → Bool) (s : String) (m : Modem)
    → ((k : Manager) → s ≡ interface_of k → m.managers k ≡ false)
    → IsStep s (makes s) m (add_interface makes s m)
unfolding add_interface
add_interface-IsStep makes s m off = elim (Option-cases (manager_of s)) [
  | inl e ↦ rw (add_interface, e) (other-IsStep s (makes s) m e)
  | inr (k, e) ↦
      rw (add_interface, e)
        (add_manager-IsStep s (makes s) k m e (off k (interface-manager_of s k e)))
]

remove_interface-IsStep : (s : String) (m : Modem) → IsStep s false m (remove_interface s m)
unfolding remove_interface
remove_interface-IsStep s m = elim (Option-cases (manager_of s)) [
  | inl e ↦ rw (remove_interface, e) (other-IsStep s false m e)
  | inr (k, e) ↦ rw (remove_interface, e) (set_manager-IsStep s false k m e)
]

abbrev distinct : List String → Bool
distinct [] = true
distinct (s ∷ ss) = not (mem s ss) && distinct ss

mem-add_name : (s t : String) (ts : List String) → mem s (add_name t ts) ≡ (s == t || mem s ts)
unfolding mem add_name
mem-add_name s t ts = ground (arith, eq_iff s t)

pub mem-name_set : (s : String) (ts : List String) → mem s (name_set ts) ≡ mem s ts
unfolding mem name_set
mem-name_set s [] = refl
mem-name_set s (t ∷ ts) = ground (arith, mem-add_name s t (name_set ts), mem-name_set s ts)

distinct-add_name :
    (t : String) (ts : List String) → distinct ts ≡ true → distinct (add_name t ts) ≡ true
unfolding add_name
distinct-add_name t ts h = ground arith

distinct-name_set : (ts : List String) → distinct (name_set ts) ≡ true
unfolding name_set
distinct-name_set [] = refl
distinct-name_set (t ∷ ts) = distinct-add_name t (name_set ts) (distinct-name_set ts)

add_if_new-IsStep :
    (makes : String → Bool) (s : String) (m : Modem) (b : Bool)
    → mem s m.interfaces ≡ b
    → ((k : Manager) → s ≡ interface_of k → b ≡ false → m.managers k ≡ false)
    → ((j : Manager)
        → (add_if_new makes s m).managers j
          ≡ (if s == interface_of j && not b then makes s else m.managers j))
      × ((add_if_new makes s m).interfaces ≡ m.interfaces)
      × ((add_if_new makes s m).aborted ≡ m.aborted)
unfolding add_if_new
add_if_new-IsStep makes s m true e off = rw e ((λ j. ground arith), refl, refl)
add_if_new-IsStep makes s m false e off =
    let h = add_interface-IsStep makes s m (λ k f. off k f refl) in
    rw e ((λ j. ground (arith, h.managers j)), h.interfaces, h.unaborted)

-- What the first loop leaves of a manager: made for a new interface, or as it was.
add_new-managers :
    (makes : String → Bool) (ss : List String) (m : Modem) (k : Manager)
    → distinct ss ≡ true
    → ((j : Manager)
        → mem (interface_of j) ss ≡ true
        → mem (interface_of j) m.interfaces ≡ false
        → m.managers j ≡ false)
    → ((add_new makes ss m).managers k ≡ (
        if mem (interface_of k) ss && not (mem (interface_of k) m.interfaces)
        then makes (interface_of k)
        else m.managers k))
      × ((add_new makes ss m).interfaces ≡ m.interfaces)
      × ((add_new makes ss m).aborted ≡ m.aborted)
unfolding add_new mem
add_new-managers makes [] m k d off = (refl, refl, refl)
add_new-managers makes (s ∷ ss) m k d off =
    let (q, i, a) = add_if_new-IsStep makes s m (mem s m.interfaces) refl (λ j e f. off_at j e f) in
    let (r, i', a') =
      add_new-managers makes ss (add_if_new makes s m) k (ground arith) (off_next q i) in
    (
      ground (arith, q k, i, r, eq_iff s (interface_of k), eq_iff (interface_of k) s),
      i' ∙ i,
      a' ∙ a,
    )
  where
    off_at : (j : Manager) → s ≡ interface_of j → mem s m.interfaces ≡ false → m.managers j ≡ false
    off_at j e f = off j (rw (sym e) (ground (arith, eq_iff s s))) (rw (sym e) f)

    off_next :
        ((j : Manager)
          → (add_if_new makes s m).managers j
            ≡ (if s == interface_of j && not (mem s m.interfaces) then makes s else m.managers j))
        → (add_if_new makes s m).interfaces ≡ m.interfaces
        → (j : Manager) → mem (interface_of j) ss ≡ true
        → mem (interface_of j) (add_if_new makes s m).interfaces ≡ false
        → (add_if_new makes s m).managers j ≡ false
    off_next q i j h n = ground (arith, q j, i, h, n, d, off j, eq_iff s (interface_of j))

remove_if_old-IsStep :
    (new : List String) (s : String) (m : Modem) (b : Bool)
    → mem s new ≡ b
    → ((j : Manager)
        → (remove_if_old new s m).managers j
          ≡ (if s == interface_of j && not b then false else m.managers j))
      × ((remove_if_old new s m).aborted ≡ m.aborted)
unfolding remove_if_old
remove_if_old-IsStep new s m true e = rw e ((λ j. ground arith), refl)
remove_if_old-IsStep new s m false e =
    let h = remove_interface-IsStep s m in rw e ((λ j. ground (arith, h.managers j)), h.unaborted)

-- What the second loop leaves of a manager: nothing for an interface that is gone, or as it was.
remove_old-managers :
    (new ss : List String) (m : Modem) (k : Manager)
    → ((remove_old new ss m).managers k ≡ (
        if mem (interface_of k) ss && not (mem (interface_of k) new) then false else m.managers k))
      × ((remove_old new ss m).aborted ≡ m.aborted)
unfolding remove_old mem
remove_old-managers new [] m k = (refl, refl)
remove_old-managers new (s ∷ ss) m k =
    let (q, a) = remove_if_old-IsStep new s m (mem s new) refl in
    let (r, a') = remove_old-managers new ss (remove_if_old new s m) k in
    (ground (arith, q k, r, eq_iff s (interface_of k), eq_iff (interface_of k) s), a' ∙ a)

-- Managers stand on interfaces that the modem announced, and no assertion failed.
pub record IsAttached (m : Modem) : Type 0 where
  pub sound : (k : Manager) → m.managers k ≡ true → mem (interface_of k) m.interfaces ≡ true
  pub unaborted : m.aborted ≡ false

-- What new interfaces change.
pub record IsParsed (makes : String → Bool) (names : List String) (m n : Modem) : Type 0 where
  pub listed : (s : String) → mem s n.interfaces ≡ mem s names
  -- a manager on a new interface is there when it could be created; one on an interface that stays is
  -- as it was; and there is none on an interface that the modem does not have
  pub managers :
      (k : Manager)
      → n.managers k ≡ (
          mem (interface_of k) names
          && (if mem (interface_of k) m.interfaces then m.managers k else makes (interface_of k)))
  pub attached : IsAttached n

pub parse_interfaces-IsParsed :
    (makes : String → Bool) (names : List String) (m : Modem)
    → IsAttached m
    → IsParsed makes names m (parse_interfaces makes names m)
unfolding parse_interfaces
parse_interfaces-IsParsed makes names m h = record {
  listed = λ s. mem-name_set s names;
  managers = after;
  attached = record {
    sound = λ k e. ground (arith, after k, mem-name_set (interface_of k) names);
    unaborted = (removed simmgr).1 ∙ (added simmgr).2 ∙ h.unaborted;
  };
}
  where
    off : (j : Manager) → mem (interface_of j) m.interfaces ≡ false → m.managers j ≡ false
    off j n = ground (arith, h.sound j)

    added :
        (k : Manager)
        → ((add_new makes (name_set names) m).managers k ≡ (
            if mem (interface_of k) (name_set names) && not (mem (interface_of k) m.interfaces)
            then makes (interface_of k)
            else m.managers k))
          × ((add_new makes (name_set names) m).interfaces ≡ m.interfaces)
          × ((add_new makes (name_set names) m).aborted ≡ m.aborted)
    added k =
        add_new-managers makes (name_set names) m k (distinct-name_set names) (λ j l n. off j n)

    removed :
        (k : Manager)
        → ((remove_old (name_set names) m.interfaces (add_new makes (name_set names) m)).managers k
            ≡ (if mem (interface_of k) m.interfaces && not (mem (interface_of k) (name_set names))
                then false
                else (add_new makes (name_set names) m).managers k))
          × ((remove_old (name_set names) m.interfaces (add_new makes (name_set names) m)).aborted
              ≡ (add_new makes (name_set names) m).aborted)
    removed k =
        remove_old-managers (name_set names) m.interfaces (add_new makes (name_set names) m) k

    after :
        (k : Manager)
        → (parse_interfaces makes names m).managers k ≡ (
            mem (interface_of k) names
            && (if mem (interface_of k) m.interfaces then m.managers k else makes (interface_of k)))
    after k = ground (arith, (added k).0, (removed k).0, off k, mem-name_set (interface_of k) names)
