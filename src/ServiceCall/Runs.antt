-- ===== src/ServiceCall/Runs.antt =====
-- Sequences of operations on the table: calls that start, finish and are cancelled in any order.
use connui_cellular.Prelude.{
  ℕ, suc, ◌+◌, ◌%◌, ◌≤◌, ◌<◌, ◌≡◌, refl, ◌∙◌, Option, none, some, List, [], ◌∷◌, arith, ◌==◌,
  nat_eq, nat_beq_iff, Bool, Bool-cases, true, false, inl, inr, if◌then◌else◌, Table, lookup,
  insert, lookup-insert,
}
use connui_cellular.ServiceCall.{
  ServiceCall, Calls, no_calls, id_mod, fresh_call, entries, find, cancel_found, cancel_from,
  cancel_service_call, take, remove_call, new_call,
}
use connui_cellular.ServiceCall.View.{view, view-take, view-new_call, take-result}
use connui_cellular.ServiceCall.Consistency.{
  IsConsistent, IsConsistent-no_calls, new_call-IsConsistent, take-IsConsistent, id-take-le,
  id-new_call, new_call-fresh,
}

-- The call with an identifier, its cancellable cancelled.
abbrev marked : ServiceCall → ServiceCall
marked s = record s { cancellable = some true }

-- What a cancellation leaves.
data CancelShape (id : ℕ) (c : Calls) (d : Calls) : Type 0 where
  same : d ≡ c → CancelShape id c d
  taken : d ≡ (take id c).1 → CancelShape id c d
  mark :
      (t : Table ℕ ServiceCall) (s : ServiceCall)
      → c.service_calls ≡ some t
      → lookup id t ≡ some s
      → d ≡ record c { service_calls = some (insert id (marked s) t) }
      → CancelShape id c d

cancel_found-shape :
    (id : ℕ) (o : Option ServiceCall) (t : Table ℕ ServiceCall) (c : Calls)
    → c.service_calls ≡ some t
    → lookup id t ≡ o
    → CancelShape id c (cancel_found id o t c).1
unfolding cancel_found
cancel_found-shape id none t c e l = same refl
cancel_found-shape id (some s) t c e l = by_cancellable s.cancellable refl
  where
    by_cancel :
        (b : Bool)
        → s.cancel ≡ b
        → s.cancellable ≡ none
        → CancelShape id c (cancel_found id (some s) t c).1
    by_cancel true p q = same (rw (q, p))
    by_cancel false p q = taken (rw (q, p))

    by_cancellable :
        (k : Option Bool) → s.cancellable ≡ k → CancelShape id c (cancel_found id (some s) t c).1
    by_cancellable none q = by_cancel s.cancel refl q
    by_cancellable (some b) q = mark t s e l (rw q)

cancel_from-shape :
    (id : ℕ) (o : Option (Table ℕ ServiceCall)) (c : Calls)
    → c.service_calls ≡ o
    → CancelShape id c (cancel_from id o c).1
unfolding cancel_from
cancel_from-shape id none c e = same refl
cancel_from-shape id (some t) c e = elim (Bool-cases (id == 0)) [
  | inl z ↦ same (rw z)
  | inr z ↦ rw z (cancel_found-shape id (find id t) t c e (unfold find in refl))
]

cancel-shape : (id : ℕ) (c : Calls) → CancelShape id c (cancel_service_call id c).1
unfolding cancel_service_call
cancel-shape id c = cancel_from-shape id c.service_calls c refl

view_of :
    (c : Calls) (t : Table ℕ ServiceCall) (j : ℕ) → c.service_calls ≡ some t → view c j ≡ lookup j t
unfolding view find
view_of c t j e = rw (e, entries)

shape-view :
    {id : ℕ} {c d : Calls} (j : ℕ) → CancelShape id c d → (id == j) ≡ false → view d j ≡ view c j
shape-view j (same e) ne = rw e
shape-view {id} {c} j (taken e) ne = rw e (ground (arith, view-take c id j))
shape-view {id} {c} {d} j (mark t s e l f) ne = ground (
  arith,
  view_of c t j e,
  view_of d (insert id (marked s) t) j (rw f),
  lookup-insert id j (marked s) t,
)

-- Cancelling one call changes no other.
pub view-cancel_ne :
    (c : Calls) (id j : ℕ) → (id == j) ≡ false → view (cancel_service_call id c).1 j ≡ view c j
view-cancel_ne c id j ne = shape-view j (cancel-shape id c) ne

marked-IsConsistent :
    (c : Calls) (id : ℕ) (t : Table ℕ ServiceCall) (s : ServiceCall)
    → IsConsistent c
    → c.service_calls ≡ some t
    → lookup id t ≡ some s
    → IsConsistent (record c { service_calls = some (insert id (marked s) t) })
marked-IsConsistent c id t s h e l = record {
  inhabited = unfold insert in λ p. cc;
  idle = λ p. cc;
  bounded = λ j x p.
      ground (arith, h.bounded j x, h.bounded id s, after j, view_of c t j e, view_of c t id e);
  named = λ j x p. ground (
    arith,
    h.named j x,
    h.named id s,
    after j,
    view_of c t j e,
    view_of c t id e,
    nat_beq_iff id j,
  );
}
  where
    after :
        (j : ℕ)
        → view (record c { service_calls = some (insert id (marked s) t) }) j
          ≡ (if id == j then some (marked s) else lookup j t)
    after j =
        view_of (record c { service_calls = some (insert id (marked s) t) })
          (insert id (marked s) t) j refl
        ∙ lookup-insert id j (marked s) t

shape-IsConsistent : {id : ℕ} {c d : Calls} → CancelShape id c d → IsConsistent c → IsConsistent d
shape-IsConsistent (same e) h = rw e h
shape-IsConsistent {id} {c} (taken e) h = rw e (take-IsConsistent c h id)
shape-IsConsistent {id} {c} (mark t s e l f) h = rw f (marked-IsConsistent c id t s h e l)

pub cancel-IsConsistent :
    (c : Calls) (id : ℕ) → IsConsistent c → IsConsistent (cancel_service_call id c).1
cancel-IsConsistent c id h = shape-IsConsistent (cancel-shape id c) h

-- The operations of the library's clients on the table.
pub data Op : Type 0 where
  start : Option ℕ → ℕ → Op
  finish : ℕ → Op
  cancel : ℕ → Op

unfoldable pub step : Op → Calls → Calls
step (start cb u) c = (new_call cb u c).1
step (finish id) c = remove_call id c
step (cancel id) c = (cancel_service_call id c).1

unfoldable pub run : List Op → Calls → Calls
unfolding step
run [] c = c
run (op ∷ ops) c = run ops (step op c)

abbrev length : List Op → ℕ
length [] = 0
length (op ∷ ops) = suc (length ops)

shape-id-le :
    {id : ℕ} {c d : Calls}
    → CancelShape id c d
    → IsConsistent c
    → d.service_call_id ≤ c.service_call_id
shape-id-le (same e) h = rw e (omega arith)
shape-id-le {id} {c} (taken e) h = rw e (id-take-le c h id)
shape-id-le (mark t s e l f) h = rw f (omega arith)

id-step-le :
    (op : Op) (c : Calls) → IsConsistent c → (step op c).service_call_id ≤ c.service_call_id + 1
unfolding step remove_call
id-step-le (start cb u) c h = omega (arith, id-new_call c cb u)
id-step-le (finish id) c h = omega (arith, id-take-le c h id)
id-step-le (cancel id) c h = omega (arith, shape-id-le (cancel-shape id c) h)

step-IsConsistent :
    (op : Op) (c : Calls)
    → IsConsistent c
    → c.service_call_id + 1 < id_mod
    → IsConsistent (step op c)
unfolding step remove_call
step-IsConsistent (start cb u) c h room = new_call-IsConsistent c h cb u room
step-IsConsistent (finish id) c h room = take-IsConsistent c h id
step-IsConsistent (cancel id) c h room = cancel-IsConsistent c id h

-- A run of operations from a consistent table leaves a consistent table, if the counter has room
-- below 2 ^ 32 for one identifier for each operation.
pub run-IsConsistent :
    (ops : List Op) (c : Calls)
    → IsConsistent c
    → c.service_call_id + length ops < id_mod
    → IsConsistent (run ops c)
unfolding run
run-IsConsistent [] c h room = h
run-IsConsistent (op ∷ ops) c h room =
    run-IsConsistent ops (step op c) (step-IsConsistent op c h (omega arith))
      (omega (arith, id-step-le op c h))

id-run-le :
    (ops : List Op) (c : Calls)
    → IsConsistent c
    → c.service_call_id + length ops < id_mod
    → (run ops c).service_call_id ≤ c.service_call_id + length ops
unfolding run
id-run-le [] c h room = omega arith
id-run-le (op ∷ ops) c h room = omega (
  arith,
  id-step-le op c h,
  id-run-le ops (step op c) (step-IsConsistent op c h (omega arith))
      (omega (arith, id-step-le op c h)),
)

-- A call that starts, alone.
module _ (c : Calls) (cb : Option ℕ) (u : ℕ) (h : IsConsistent c) where
  abbrev RoundTrip : Type 0
  RoundTrip =
      let (id, d) = new_call cb u c in
      (view c id ≡ none)
      × ((take id d).0 ≡ some (fresh_call id cb u))
      × ((j : ℕ) → view (take id d).1 j ≡ view c j)

  abbrev new_id : ℕ
  new_id = (c.service_call_id + 1) % id_mod

  round_trip : c.service_call_id + 1 < id_mod → RoundTrip
  unfolding new_call
  round_trip room =
      let fresh = new_call-fresh c h cb u room in
      (
        fresh,
        take-result (new_call cb u c).1 new_id ∙ ground (arith, view-new_call c cb u new_id),
        λ j.
            view-take (new_call cb u c).1 new_id j
            ∙ ground (arith, fresh, view-new_call c cb u j, nat_beq_iff new_id j),
      )

-- In a run from the empty table with fewer than 2 ^ 32 operations, one more call that starts gets
-- an identifier that no outstanding call has; taking it returns the call just made, and the
-- outstanding calls of the others are those from before.
pub new_call-take :
    (ops : List Op) (cb : Option ℕ) (u : ℕ)
    → length ops + 1 < id_mod
    → let c = run ops no_calls in
      let (id, d) = new_call cb u c in
      (view c id ≡ none)
      × ((take id d).0 ≡ some (fresh_call id cb u))
      × ((j : ℕ) → view (take id d).1 j ≡ view c j)
new_call-take ops cb u room =
    round_trip (run ops no_calls) cb u
      (run-IsConsistent ops no_calls IsConsistent-no_calls (omega arith))
      (omega (arith, id-run-le ops no_calls IsConsistent-no_calls (omega arith)))
