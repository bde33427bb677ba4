-- ===== src/ServiceCall/View.antt =====
-- The table seen as a partial function from identifiers to calls.
use connui_cellular.Prelude.{
  ℕ, ◌∙◌, ◌+◌, ◌%◌, ◌≡◌, refl, Option, none, some, [], ◌∷◌, arith, ◌==◌, nat_eq, nat_beq_iff,
  if◌then◌else◌, Table, lookup, lookup-remove, lookup-insert,
}
use connui_cellular.ServiceCall.{
  ServiceCall, Calls, id_mod, fresh_call, entries, find, shrink, take_found, take_from, take,
  new_call,
}

-- The outstanding call with an identifier.
unfoldable pub view : Calls → ℕ → Option ServiceCall
unfolding find
view c id = find id (entries c.service_calls)

view-shrink : (t : Table ℕ ServiceCall) (c : Calls) (j : ℕ) → view (shrink t c) j ≡ lookup j t
unfolding view shrink lookup
view-shrink [] c j = refl
view-shrink (e ∷ t) c j = refl

view-take_found :
    (id j : ℕ) (o : Option ServiceCall) (t : Table ℕ ServiceCall) (c : Calls)
    → c.service_calls ≡ some t
    → lookup id t ≡ o
    → view (take_found id o t c).1 j ≡ (if id == j then none else lookup j t)
unfolding take_found
view-take_found id j none t c h e =
    unfold view find in rw (h, entries) (ground (arith, nat_beq_iff id j))
view-take_found id j (some s) t c h e = rw view-shrink (lookup-remove id j t)

view-take_from :
    (id j : ℕ) (o : Option (Table ℕ ServiceCall)) (c : Calls)
    → c.service_calls ≡ o
    → view (take_from id o c).1 j ≡ (if id == j then none else view c j)
unfolding take_from
view-take_from id j none c h =
    unfold view find lookup in rw (h, entries) (ground (arith, nat_beq_iff id j))
view-take_from id j (some t) c h =
    view-take_found id j (find id t) t c h refl ∙ (unfold view find in rw (h, entries) refl)

module _ (c : Calls) where
  -- A new call stands under the next identifier, and no other entry changes.
  pub view-new_call :
      (cb : Option ℕ) (u j : ℕ)
      → view (new_call cb u c).1 j ≡ (
          if (c.service_call_id + 1) % id_mod == j
          then some (fresh_call ((c.service_call_id + 1) % id_mod) cb u)
          else view c j)
  unfolding view new_call
  view-new_call cb u j =
      lookup-insert ((c.service_call_id + 1) % id_mod) j
        (fresh_call ((c.service_call_id + 1) % id_mod) cb u) (entries c.service_calls)

  pub take-result : (id : ℕ) → (take id c).0 ≡ view c id
  unfolding view take lookup
  take-result id = ground arith

  -- Taking a call removes that entry and no other.
  pub view-take : (id j : ℕ) → view (take id c).1 j ≡ (if id == j then none else view c j)
  unfolding take
  view-take id j = view-take_from id j c.service_calls c refl
