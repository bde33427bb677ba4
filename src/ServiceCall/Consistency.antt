-- ===== src/ServiceCall/Consistency.antt =====
-- What holds of the table between two operations of lib/service-call.c.
use connui_cellular.Prelude.{
  ℕ, ◌+◌, ◌%◌, ◌≤◌, ◌<◌, ◌≡◌, ◌≢◌, refl, Option, none, some, [], arith, Option-cases, inl, inr, ◌⊎◌,
  nat_eq, Table, lookup,
}
use connui_cellular.ServiceCall.{
  ServiceCall, Calls, no_calls, id_mod, entries, find, take_from, take, new_call,
}
use connui_cellular.ServiceCall.View.{view, view-new_call, view-take}

pub record IsConsistent (c : Calls) : Type 0 where
  -- an emptied table is destroyed
  pub inhabited : c.service_calls ≢ some []
  -- without a table the identifiers start again
  pub idle : c.service_calls ≡ none → c.service_call_id ≡ 0
  -- identifiers in use lie between 1 and the last one given
  pub bounded :
      (id : ℕ) (s : ServiceCall) → view c id ≡ some s → (0 < id) × (id ≤ c.service_call_id)
  -- a call knows the identifier that it stands under
  pub named : (id : ℕ) (s : ServiceCall) → view c id ≡ some s → s.id ≡ id

pub IsConsistent-no_calls : IsConsistent no_calls
unfolding view find
IsConsistent-no_calls = record {
  inhabited = λ e. cc;
  idle = λ e. refl;
  bounded = λ id s e. cc;
  named = λ id s e. cc;
}

-- What `take` leaves: the table as it was, no table at all, or a smaller one that is not empty.
abbrev Shape : Calls → Calls → Type 0
Shape c d =
    (d.service_calls ≢ some [])
    × (d.service_calls ≡ none → d.service_call_id ≡ 0)
    × ((d.service_call_id ≡ c.service_call_id) ⊎ (d.service_calls ≡ none))

take_from-Shape :
    (id : ℕ) (o : Option (Table ℕ ServiceCall)) (c : Calls)
    → c.service_calls ≡ o
    → c.service_calls ≢ some []
    → (c.service_calls ≡ none → c.service_call_id ≡ 0)
    → Shape c (take_from id o c).1
unfolding take_from
take_from-Shape id o c e i z = ground arith

view-none : (c : Calls) (j : ℕ) → c.service_calls ≡ none → view c j ≡ none
unfolding view lookup
view-none c j e = rw (e, entries)

-- The identifier that `new_call` returns is the one that the context keeps.
pub id-new_call :
    (c : Calls) (cb : Option ℕ) (u : ℕ)
    → (new_call cb u c).1.service_call_id ≡ (c.service_call_id + 1) % id_mod
unfolding new_call
id-new_call c cb u = refl

module _ (c : Calls) (h : IsConsistent c) where
  -- The identifier of a new call is in use for no other call.
  pub new_call-fresh :
      (cb : Option ℕ) (u : ℕ) → c.service_call_id + 1 < id_mod → view c (new_call cb u c).0 ≡ none
  unfolding new_call
  new_call-fresh cb u room = elim (Option-cases (view c ((c.service_call_id + 1) % id_mod))) [
    | inl e ↦ e
    | inr (s, e) ↦ absurd (omega (arith, h.bounded ((c.service_call_id + 1) % id_mod) s e))
  ]

  pub new_call-IsConsistent :
      (cb : Option ℕ) (u : ℕ) → c.service_call_id + 1 < id_mod → IsConsistent (new_call cb u c).1
  new_call-IsConsistent cb u room = record {
    inhabited = unfold new_call in λ e. cc;
    idle = unfold new_call in λ e. cc;
    bounded = λ id s e. ground (arith, h.bounded id s, view-new_call c cb u id, id-new_call c cb u);
    named = λ id s e. ground (arith, h.named id s, view-new_call c cb u id);
  }

  shape : (id : ℕ) → Shape c (take id c).1
  unfolding take
  shape id = take_from-Shape id c.service_calls c refl h.inhabited h.idle

  pub take-IsConsistent : (id : ℕ) → IsConsistent (take id c).1
  take-IsConsistent id = record {
    inhabited = (shape id).0;
    idle = (shape id).1;
    bounded = λ j s e.
        ground (arith, shape id, h.bounded j s, view-take c id j, view-none (take id c).1 j);
    named = λ j s e. ground (arith, h.named j s, view-take c id j);
  }

  -- Only a new call moves the counter up.
  pub id-take-le : (id : ℕ) → (take id c).1.service_call_id ≤ c.service_call_id
  id-take-le id = ground (arith, shape id)
