-- ===== src/Sups/Outcomes.antt =====
-- What each operation of lib/sups.c tells the clients.
use connui_cellular.Prelude.{
  ℕ, ◌+◌, ◌≤◌, ◌≡◌, refl, sym, ◌∙◌, Bool, true, false, Option, none, some, List, ◌∷◌, arith, ◌==◌,
  nat_eq, nat_beq_iff, is_some, if◌then◌else◌,
}
use connui_cellular.Errors.{io_cancelled}
use connui_cellular.ServiceCall.{ServiceCall, Calls, write, Cancelled, cancel_service_call}
use connui_cellular.ServiceCall.View.{view}
use connui_cellular.ServiceCall.Cancelling.{
  view-write, CancelCase, nothing, no_call, in_flight, waits, plain, cancel-CancelCase,
}
use connui_cellular.Sups.{
  SupsData, Answer, Reply, failed, Sups, get_data, answers_of, finish, replied, remove_pending,
  cancelled, cancel_by, cancel, waiting_ids, add, do_pending,
}
use connui_cellular.Sups.Pending.{IsAsked, do_pending-IsAsked}
use connui_cellular.Sups.Tracked.{IsTracked, IsFinished, finish-IsFinished}
use connui_cellular.Sups.Steps.{IsGotten, get_data-IsGotten, is_unready, unready_gotten}

-- oFono's reply to a request, which has a cancellable.
abbrev pub reply_to : Option ServiceCall → Reply → Sups → Sups
reply_to none r w = w
reply_to (some s) r w = if is_some s.cancellable then replied s r w else w

-- What one step tells the clients.
pub data Outcome (w v : Sups) : Type 0 where
  -- no client is told, and no call ends
  silent :
      v.told ≡ w.told
      → ((j : ℕ) → is_some (view w.calls j) ≡ true → is_some (view v.calls j) ≡ true)
      → Outcome w v
  -- the client of one call is told, which ends, and no other
  answers :
      (id : ℕ) (s : ServiceCall) (a : Answer)
      → view w.calls id ≡ some s
      → v.told ≡ (id, s.callback, s.user_data, a) ∷ w.told
      → view v.calls id ≡ none
      → ((j : ℕ) → (id == j) ≡ false → view v.calls j ≡ view w.calls j)
      → Outcome w v

-- A step of the table: an outcome, with at most one more identifier.
pub record IsStep (w v : Sups) : Type 0 where
  pub outcome : Outcome w v
  pub counter : v.calls.service_call_id ≤ w.calls.service_call_id + 1

pub same-IsStep : (w : Sups) → IsStep w w
same-IsStep w = record { outcome = silent refl (λ j e. e); counter = omega arith }

-- A call ends in a state `u` that has the calls of `w`.
finished-IsStep :
    (id : ℕ) (s : ServiceCall) (a : Answer) (w u v : Sups)
    → view w.calls id ≡ some s
    → s.id ≡ id
    → u.calls ≡ w.calls
    → u.told ≡ w.told
    → IsFinished s a u v
    → IsStep w v
finished-IsStep id s a w u v e n c t k = record {
  outcome =
      answers id s a e (ground (arith, k.told, n, t))
        (ground (arith, k.views id, n, nat_beq_iff id id)) (λ j f. ground (arith, k.views j, n, c));
  counter = ground (arith, k.counter, c);
}

cancelled-IsStep :
    (id : ℕ) (s : ServiceCall) (w : Sups)
    → view w.calls id ≡ some s
    → IsTracked w
    → IsStep w (cancelled s w)
unfolding cancelled
cancelled-IsStep id s w e h = rw (h.ours id s e).2 (
    finished-IsStep id s (answers_of s.async_cb (failed io_cancelled)) w v _ e
      (h.table.named id s e) refl refl
      (finish-IsFinished s (answers_of s.async_cb (failed io_cancelled)) v h.table))
  where
    v : Sups
    v = record w { sups_data = remove_pending s.id w.sups_data }

requested-IsStep : (s : ServiceCall) (w : Sups) → IsStep w (record w { calls = write s w.calls })
requested-IsStep s w = record {
  outcome = silent refl (λ j e. ground (arith, view-write s w.calls j));
  counter = unfold write in omega arith;
}

pub cancel-IsStep : (id : ℕ) (w : Sups) → IsTracked w → IsStep w (cancel id w)
unfolding cancel
cancel-IsStep id w h =
    by_case (cancel_service_call id w.calls) (cancel-CancelCase id w.calls h.table)
  where
    by_case : (r : Cancelled × Calls) → CancelCase id w.calls r → IsStep w (cancel_by r.0 r.1 w)
    by_case _ (nothing e) = same-IsStep w
    by_case _ (no_call e) = same-IsStep w
    by_case _ (in_flight s e f) = requested-IsStep (record s { cancellable = some true }) w
    by_case _ (waits s e f g) = cancelled-IsStep id s w e h
    by_case _ (plain s e f g) = absurd (ground (arith, h.ours id s e, g))

pub reply-IsStep :
    (id : ℕ) (r : Reply) (w : Sups) → IsTracked w → IsStep w (reply_to (view w.calls id) r w)
reply-IsStep id r w h = by_view (view w.calls id) refl
  where
    by_cancellable :
        (s : ServiceCall) (b : Bool)
        → view w.calls id ≡ some s
        → IsStep w (if b then replied s r w else w)
    by_cancellable s true e =
        unfold replied in
        finished-IsStep id s (answers_of s.async_cb r) w w (finish s (answers_of s.async_cb r) w) e
          (h.table.named id s e) refl refl (finish-IsFinished s (answers_of s.async_cb r) w h.table)
    by_cancellable s false e = same-IsStep w

    by_view : (o : Option ServiceCall) → view w.calls id ≡ o → IsStep w (reply_to o r w)
    by_view none e = same-IsStep w
    by_view (some s) e = by_cancellable s (is_some s.cancellable) e

gotten-IsStep : (w v : Sups) (sd : SupsData) → IsGotten w sd v → IsStep w v
gotten-IsStep w v sd k = record {
  outcome = silent k.told (λ j e. rw k.calls e);
  counter = rw k.calls (omega arith);
}

asked-IsStep :
    (ids : List ℕ) (w v u : Sups) (sd : Option SupsData)
    → IsStep w v
    → w.told ≡ v.told
    → v.calls ≡ w.calls
    → IsAsked ids v u
    → IsStep w (record u { sups_data = sd })
asked-IsStep ids w v u sd k t c q = record {
  outcome = silent (q.told ∙ sym t) (λ j e. ground (arith, q.views j, c));
  counter = ground (arith, q.counter, c);
}

pub add-IsStep :
    (made : Bool) (w : Sups) → IsTracked w → is_unready w.sups_data ≡ true → IsStep w (add made w)
unfolding add
add-IsStep made w h u =
    let k = get_data-IsGotten w h in
    rw (unready_gotten w (get_data w).1 (get_data w).0 k u) (by_made made k)
  where
    by_made :
        (b : Bool)
        → IsGotten w (get_data w).0 (get_data w).1
        → IsStep w (
            if b
            then record (do_pending
                (record (get_data w).0 { proxy = true })
                (waiting_ids (get_data w).0.pending)
                (get_data w).1) {
                  sups_data = some (record (get_data w).0 { proxy = true; pending = none });
                }
            else (get_data w).1)
    by_made true k =
        asked-IsStep (waiting_ids (get_data w).0.pending) w (get_data w).1
          (do_pending (record (get_data w).0 { proxy = true }) (waiting_ids (get_data w).0.pending)
            (get_data w).1)
          (some (record (get_data w).0 { proxy = true; pending = none }))
          (gotten-IsStep w (get_data w).1 (get_data w).0 k) (sym k.told) k.calls
          (do_pending-IsAsked (record (get_data w).0 { proxy = true })
            (waiting_ids (get_data w).0.pending) (get_data w).1 refl k.tracked.table)
    by_made false k = gotten-IsStep w (get_data w).1 (get_data w).0 k
