-- ===== src/Sups/Endings.antt =====
-- Cancelling a call of lib/sups.c, and the calls of an interface that disappears.
use connui_cellular.Prelude.{
  ℕ, ◌≡◌, refl, sym, subst, Bool, true, false, Option, none, some, ◌∷◌, arith, ◌==◌, nat_eq,
  nat_beq_iff, is_some, if◌then◌else◌,
}
use connui_cellular.Errors.{io_cancelled}
use connui_cellular.ServiceCall.{ServiceCall, write, Cancelled, Calls, cancel_service_call}
use connui_cellular.ServiceCall.View.{view}
use connui_cellular.ServiceCall.Cancelling.{
  view-write, CancelCase, nothing, no_call, in_flight, waits, plain, cancel-CancelCase,
}
use connui_cellular.Sups.{
  Reply, failed, Sups, get_data, answers_of, is_live, finish, replied, remove_pending, cancelled,
  cancel_by, cancel, add, remove, do_pending,
}
use connui_cellular.Sups.Tracked.{
  pending_of, IsTracked, IsFinished, finish-IsFinished, mem-remove_pending,
}
use connui_cellular.Sups.Pending.{mem}
use connui_cellular.Sups.Outcomes.{reply_to}

-- What cancelling the call `s`, with the identifier `id`, does.
pub record IsCancelled (id : ℕ) (s : ServiceCall) (w v : Sups) : Type 0 where
  -- one that waits is answered at once, and is gone
  pub waiting :
      s.cancellable ≡ none
      → (v.told
          ≡ (id, s.callback, s.user_data, answers_of s.async_cb (failed io_cancelled)) ∷ w.told)
        × (view v.calls id ≡ none)
        × (mem id (pending_of v.sups_data) ≡ false)
  -- one that was put to oFono stays, cancelled, for oFono to answer
  pub requested :
      is_some s.cancellable ≡ true
      → (v.told ≡ w.told)
        × (view v.calls id ≡ some (record s { cancellable = some true }))
        × (v.sups_data ≡ w.sups_data)
  pub others : (j : ℕ) → (id == j) ≡ false → view v.calls j ≡ view w.calls j

cancelled-waiting :
    (id : ℕ) (s : ServiceCall) (w : Sups)
    → view w.calls id ≡ some s
    → s.cancellable ≡ none
    → IsTracked w
    → IsCancelled id s w (cancelled s w)
unfolding cancelled
cancelled-waiting id s w e n h =
    rw (h.ours id s e).2
      (of_finished (finish-IsFinished s (answers_of s.async_cb (failed io_cancelled)) u h.table))
  where
    u : Sups
    u = record w { sups_data = remove_pending s.id w.sups_data }

    named : s.id ≡ id
    named = h.table.named id s e

    of_finished :
        {v : Sups}
        → IsFinished s (answers_of s.async_cb (failed io_cancelled)) u v
        → IsCancelled id s w v
    of_finished {v} k = record {
      waiting = λ q. (
        ground (arith, k.told, named),
        ground (arith, k.views id, named, nat_beq_iff id id),
        ground
            (arith, k.sups_data, mem-remove_pending s.id id w.sups_data, named, nat_beq_iff id id),
      );
      requested = λ q. absurd (ground (arith, n));
      others = λ j ne. ground (arith, k.views j, named);
    }

marked-IsCancelled :
    (id : ℕ) (s : ServiceCall) (w : Sups)
    → view w.calls id ≡ some s
    → s.id ≡ id
    → is_some s.cancellable ≡ true
    → IsCancelled id s w (record w { calls = write (record s { cancellable = some true }) w.calls })
marked-IsCancelled id s w e n f = record {
  waiting = λ q. absurd (ground (arith, f));
  requested = λ q. (refl, ground (arith, views id, n, nat_beq_iff id id), refl);
  others = λ j ne. ground (arith, views j, n);
}
  where
    views :
        (j : ℕ)
        → view (write (record s { cancellable = some true }) w.calls) j
          ≡ (if s.id == j then some (record s { cancellable = some true }) else view w.calls j)
    views j = view-write (record s { cancellable = some true }) w.calls j

some_call : {t s : ServiceCall} {o : Option ServiceCall} → o ≡ some t → o ≡ some s → t ≡ s
some_call e f = cc

module _ (id : ℕ) (s : ServiceCall) (w : Sups) (h : IsTracked w)
    (e : view w.calls id ≡ some s) where
  -- A call that waits for the interface is answered, cancelled, at once and is no longer pending; one
  -- that oFono was asked is only marked, for oFono to answer; and no other call changes. The calls are
  -- as `IsTracked` says.
  pub cancel-IsCancelled : IsCancelled id s w (cancel id w)
  unfolding cancel
  cancel-IsCancelled =
      by_case (cancel_service_call id w.calls) (cancel-CancelCase id w.calls h.table)
    where
      by_case :
          (r : Cancelled × Calls)
          → CancelCase id w.calls r
          → IsCancelled id s w (cancel_by r.0 r.1 w)
      by_case _ (nothing f) = absurd cc
      by_case _ (no_call f) = absurd cc
      by_case _ (in_flight t f g) =
          subst
            (λ x.
              IsCancelled id x w
                (record w { calls = write (record t { cancellable = some true }) w.calls }))
            (some_call f e) (marked-IsCancelled id t w f (h.table.named id t f) g)
      by_case _ (waits t f g _) =
          subst (λ x. IsCancelled id x w (cancelled t w)) (some_call f e)
            (cancelled-waiting id t w f g h)
      by_case _ (plain t f g k) = absurd (ground (arith, h.ours id t f))

  -- What the loss of the interface means for the call.
  pub record IsLost : Type 0 where
    -- oFono's reply to it, or its cancellation, reads the data that was freed
    pub stray_reply :
        (r : Reply)
        → is_some s.cancellable ≡ true
        → (reply_to (view (remove w).calls id) r (remove w)).stray ≡ true
    pub stray_cancel : s.cancellable ≡ none → (cancel id (remove w)).stray ≡ true
    -- one that waited is still in the table, but when the interface comes again oFono is not asked
    pub forgotten :
        (made : Bool)
        → (view (add made (remove w)).calls id ≡ some s)
          × ((add made (remove w)).initiated ≡ w.initiated)
          × (mem id (pending_of (add made (remove w)).sups_data) ≡ false)

  -- When the interface disappears while the call is outstanding, oFono's reply to it, and its
  -- cancellation by the client, read data that was freed; and a call that waited stays in the table
  -- with nobody to answer it: when the interface comes again oFono is not asked for it.
  pub remove-IsLost : IsLost
  remove-IsLost = record {
    stray_reply =
        λ r f. unfold remove replied finish in rw e (asked_reply r (is_some s.cancellable) f);
    stray_cancel = λ f.
        unfold cancel remove in
        by_case (cancel_service_call id w.calls) (cancel-CancelCase id w.calls h.table) f;
    forgotten = forgotten;
  }
    where
      dead : is_live s.async_data none ≡ false
      dead = ground arith

      asked_reply :
          (r : Reply) (b : Bool)
          → b ≡ true
          → (if b then replied s r (remove w) else remove w).stray ≡ true
      asked_reply r true f = unfold replied finish remove in rw dead refl
      asked_reply r false f = absurd cc

      by_case :
          (r : Cancelled × Calls)
          → CancelCase id w.calls r
          → s.cancellable ≡ none
          → (cancel_by r.0 r.1 (remove w)).stray ≡ true
      by_case _ (nothing f) q = absurd cc
      by_case _ (no_call f) q = absurd cc
      by_case _ (in_flight t f g) q = absurd (ground (arith, e))
      by_case _ (waits t f g _) q =
          subst (λ x. (cancelled x (remove w)).stray ≡ true) (sym (some_call f e))
            (unfold cancelled finish remove in rw dead (rw dead refl))
      by_case _ (plain t f g k) q = absurd (ground (arith, h.ours id t f))

      forgotten :
          (made : Bool)
          → (view (add made (remove w)).calls id ≡ some s)
            × ((add made (remove w)).initiated ≡ w.initiated)
            × (mem id (pending_of (add made (remove w)).sups_data) ≡ false)
      forgotten true = unfold add get_data do_pending remove in (e, refl, refl)
      forgotten false = unfold add get_data do_pending remove in (e, refl, refl)
