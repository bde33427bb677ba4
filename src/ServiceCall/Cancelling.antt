-- ===== src/ServiceCall/Cancelling.antt =====
-- Which of its cases `connui_cell_cancel_service_call` comes to, and writes through the pointer to a call.
use connui_cellular.Prelude.{
  ℕ, ◌≡◌, refl, Bool, true, false, Option, none, some, arith, Option-cases, Bool-cases, inl, inr,
  ◌==◌, nat_eq, nat_beq_iff, is_some, if◌then◌else◌, Table, lookup, insert, lookup-insert,
}
use connui_cellular.ServiceCall.{
  ServiceCall, Calls, entries, find, write, write_found, remove_call, Cancelled, ignored, unknown,
  requested, delegated, dropped, cancel_found, cancel_from, cancel_service_call,
}
use connui_cellular.ServiceCall.View.{view}
use connui_cellular.ServiceCall.Consistency.{IsConsistent}

abbrev marked : ServiceCall → ServiceCall
marked s = record s { cancellable = some true }

-- What cancelling the call `id` comes to.
pub data CancelCase (id : ℕ) (c : Calls) : Cancelled × Calls → Type 0 where
  nothing : view c id ≡ none → CancelCase id c (ignored, c)
  no_call : view c id ≡ none → CancelCase id c (unknown, c)
  in_flight :
      (s : ServiceCall)
      → view c id ≡ some s
      → is_some s.cancellable ≡ true
      → CancelCase id c (requested, write (record s { cancellable = some true }) c)
  waits :
      (s : ServiceCall)
      → view c id ≡ some s
      → s.cancellable ≡ none
      → s.cancel ≡ true
      → CancelCase id c (delegated s, c)
  plain :
      (s : ServiceCall)
      → view c id ≡ some s
      → s.cancellable ≡ none
      → s.cancel ≡ false
      → CancelCase id c (dropped, remove_call id c)

found-CancelCase :
    (id : ℕ) (o : Option ServiceCall) (t : Table ℕ ServiceCall) (c : Calls)
    → c.service_calls ≡ some t
    → view c id ≡ o
    → ((s : ServiceCall) → o ≡ some s → s.id ≡ id)
    → CancelCase id c (cancel_found id o t c)
unfolding cancel_found
found-CancelCase id none t c e v named = no_call v
found-CancelCase id (some s) t c e v named = by_tests s.cancellable s.cancel refl refl
  where
    same_write : write (marked s) c ≡ write_found id (some (marked s)) t c
    same_write = unfold write write_found in rw (e, entries, named s refl) refl

    by_tests :
        (k : Option Bool) (b : Bool)
        → s.cancellable ≡ k
        → s.cancel ≡ b
        → CancelCase id c (
            if is_some k
            then (requested, write_found id (some (marked s)) t c)
            else if b
            then (delegated s, c)
            else (dropped, remove_call id c))
    by_tests (some k) b p q = rw⁻¹ same_write (in_flight s v (rw p refl))
    by_tests none true p q = waits s v p q
    by_tests none false p q = plain s v p q

from-CancelCase :
    (id : ℕ) (o : Option (Table ℕ ServiceCall)) (c : Calls)
    → c.service_calls ≡ o
    → IsConsistent c
    → CancelCase id c (cancel_from id o c)
unfolding cancel_from
from-CancelCase id none c e h = nothing (unfold view find lookup in rw (e, entries) refl)
from-CancelCase id (some t) c e h = elim (Bool-cases (id == 0)) [
  | inl z ↦ rw z (nothing (absent z))
  | inr z ↦
      rw z (found-CancelCase id (find id t) t c e (unfold view find in rw (e, entries) refl) named)
]
  where
    absent : (id == 0) ≡ true → view c id ≡ none
    absent z = elim (Option-cases (view c id)) [
      | inl n ↦ n
      | inr (s, n) ↦ absurd (ground (arith, h.bounded id s n, nat_beq_iff id 0))
    ]

    named : (s : ServiceCall) → find id t ≡ some s → s.id ≡ id
    named s f = h.named id s (unfold view find in rw (e, entries) (unfold find in f))

pub cancel-CancelCase :
    (id : ℕ) (c : Calls) → IsConsistent c → CancelCase id c (cancel_service_call id c)
unfolding cancel_service_call
cancel-CancelCase id c h = from-CancelCase id c.service_calls c refl h

pub view-write :
    (s : ServiceCall) (c : Calls) (j : ℕ)
    → view (write s c) j ≡ (if s.id == j then some s else view c j)
unfolding view find write
view-write s c j = lookup-insert s.id j s (entries c.service_calls)

-- A write to a call that the table has.
pub write-IsConsistent :
    (s old : ServiceCall) (c : Calls)
    → IsConsistent c
    → view c s.id ≡ some old
    → IsConsistent (write s c)
write-IsConsistent s old c h e = record {
  inhabited = unfold write insert in λ p. cc;
  idle = unfold write in λ p. cc;
  bounded = λ j x p.
      ground
        (arith, h.bounded j x, h.bounded s.id old e, view-write s c j, counter, nat_beq_iff s.id j);
  named = λ j x p. ground (arith, h.named j x, view-write s c j, nat_beq_iff s.id j);
}
  where
    counter : (write s c).service_call_id ≡ c.service_call_id
    counter = unfold write in refl
