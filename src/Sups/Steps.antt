-- ===== src/Sups/Steps.antt =====
-- The operations of lib/sups.c keep its calls in order.
use connui_cellular.Prelude.{
  ℕ, ◌≡◌, refl, sym, ap, ◌∙◌, Bool, true, false, not, ◌||◌, Option, none, some, arith, ◌==◌, nat_eq,
  nat_beq_iff, is_some, if◌then◌else◌,
}
use connui_cellular.Errors.{io_cancelled}
use connui_cellular.ServiceCall.{ServiceCall, Calls, write, Cancelled, cancel_service_call}
use connui_cellular.ServiceCall.View.{view}
use connui_cellular.ServiceCall.Cancelling.{
  view-write, write-IsConsistent, CancelCase, nothing, no_call, in_flight, waits, plain,
  cancel-CancelCase,
}
use connui_cellular.Sups.{
  SupsData, failed, Sups, data_or_new, get_data, do_pending, answers_of, is_live, remove_pending,
  cancelled, cancel_by, cancel, waiting_ids, add,
}
use connui_cellular.Sups.Pending.{mem, asked, IsAsked, do_pending-IsAsked}
use connui_cellular.Sups.Tracked.{pending_of, IsTracked, finish-IsFinished, mem-remove_pending}

remove_pending-live :
    (id : ℕ) (o : Option SupsData) (a : Option ℕ) → is_live a (remove_pending id o) ≡ is_live a o
remove_pending-live id o a = ground arith

remove_pending-ready :
    (id : ℕ) (o : Option SupsData)
    → ((sd : SupsData) → o ≡ some sd → is_some sd.pending ≡ not sd.proxy)
    → (sd : SupsData) → remove_pending id o ≡ some sd
    → is_some sd.pending ≡ not sd.proxy
remove_pending-ready id none h sd e = absurd cc
remove_pending-ready id (some d) h sd e = ground (arith, h d refl)

-- A call that waits is cancelled.
pub cancelled-IsTracked :
    (id : ℕ) (s : ServiceCall) (w : Sups)
    → view w.calls id ≡ some s
    → IsTracked w
    → IsTracked (cancelled s w)
unfolding cancelled
cancelled-IsTracked id s w e h =
    let live = (h.ours id s e).2 in
    let v : Sups = record w { sups_data = remove_pending s.id w.sups_data } in
    let k = finish-IsFinished s (answers_of s.async_cb (failed io_cancelled)) v h.table in
    rw live (record {
      table = k.table;
      ours = λ j t q. ground (
        arith,
        k.sups_data,
        k.views j,
        h.ours j t,
        remove_pending-live s.id w.sups_data t.async_data,
      );
      waits = λ j t q.
          ground
            (arith, k.sups_data, k.views j, h.waits j t, mem-remove_pending s.id j w.sups_data);
      known = λ j m.
          ground (arith, k.sups_data, k.views j, h.known j, mem-remove_pending s.id j w.sups_data);
      ready = λ sd q. remove_pending-ready s.id w.sups_data h.ready sd (sym k.sups_data ∙ q);
      unaborted = k.aborted ∙ h.unaborted;
      sound = k.sound (remove_pending-live s.id w.sups_data s.async_data ∙ live) ∙ h.sound;
    })

-- A request to oFono is cancelled: only its cancellable changes.
requested-IsTracked :
    (id : ℕ) (s : ServiceCall) (w : Sups)
    → view w.calls id ≡ some s
    → is_some s.cancellable ≡ true
    → IsTracked w
    → IsTracked (record w { calls = write (record s { cancellable = some true }) w.calls })
requested-IsTracked id s w e f h = record {
  table =
      write-IsConsistent (record s { cancellable = some true }) s w.calls h.table
        (ap (view w.calls) named ∙ e);
  ours = λ j t q. ground (arith, views j, h.ours j t, h.ours id s e, named, nat_beq_iff id j);
  waits = λ j t q. ground (arith, views j, h.waits j t, h.waits id s e, named, nat_beq_iff id j);
  known = λ j m. ground (arith, views j, h.known j m);
  ready = h.ready;
  unaborted = h.unaborted;
  sound = h.sound;
}
  where
    named : s.id ≡ id
    named = h.table.named id s e

    views :
        (j : ℕ)
        → view (write (record s { cancellable = some true }) w.calls) j
          ≡ (if s.id == j then some (record s { cancellable = some true }) else view w.calls j)
    views j = view-write (record s { cancellable = some true }) w.calls j

pub cancel-IsTracked : (id : ℕ) (w : Sups) → IsTracked w → IsTracked (cancel id w)
unfolding cancel
cancel-IsTracked id w h =
    by_case (cancel_service_call id w.calls) (cancel-CancelCase id w.calls h.table)
  where
    by_case : (r : Cancelled × Calls) → CancelCase id w.calls r → IsTracked (cancel_by r.0 r.1 w)
    by_case _ (nothing e) = h
    by_case _ (no_call e) = h
    by_case _ (in_flight s e f) = requested-IsTracked id s w e f h
    by_case _ (waits s e f g) = cancelled-IsTracked id s w e h
    by_case _ (plain s e f g) = absurd (ground (arith, h.ours id s e, g))

-- The sups_data of the modem is there, and nothing else changed.
pub record IsGotten (w : Sups) (sd : SupsData) (v : Sups) : Type 0 where
  pub tracked : IsTracked v
  pub present : v.sups_data ≡ some sd
  pub calls : v.calls ≡ w.calls
  pub told : v.told ≡ w.told
  pub pending : pending_of v.sups_data ≡ pending_of w.sups_data
  pub proxy : (d : SupsData) → w.sups_data ≡ some d → d ≡ sd
  pub unready : w.sups_data ≡ none → sd.proxy ≡ false

pub get_data-IsGotten : (w : Sups) → IsTracked w → IsGotten w (get_data w).0 (get_data w).1
unfolding get_data
get_data-IsGotten w h = by_data w.sups_data refl
  where
    by_data :
        (o : Option SupsData) → w.sups_data ≡ o → IsGotten w (data_or_new o w).0 (data_or_new o w).1
    by_data none e = record {
      tracked = record {
        table = h.table;
        ours = λ j t q. absurd (ground (arith, h.ours j t q, e));
        waits = λ j t q. absurd (ground (arith, h.ours j t q, e));
        known = λ j m. absurd cc;
        ready = λ sd q. ground arith;
        unaborted = h.unaborted;
        sound = h.sound;
      };
      present = refl;
      calls = refl;
      told = refl;
      pending = rw e refl;
      proxy = λ d q. absurd cc;
      unready = λ q. refl;
    }
    by_data (some sd) e = record {
      tracked = h;
      present = e;
      calls = refl;
      told = refl;
      pending = refl;
      proxy = λ d q. cc;
      unready = λ q. absurd cc;
    }

-- Where a call comes from that stands in the table after oFono was asked.
asked-some :
    (b : Bool) (o : Option ServiceCall) (t : ServiceCall)
    → (if b then asked o else o) ≡ some t
    → (s : ServiceCall) × (o ≡ some s)
      × (t.async_cb ≡ s.async_cb)
      × (t.cancel ≡ s.cancel)
      × (t.async_data ≡ s.async_data)
      × (is_some t.cancellable ≡ (b || is_some s.cancellable))
asked-some true none t e = absurd cc
asked-some true (some s) t e = (s, refl, cc, cc, cc, ground arith)
asked-some false none t e = absurd cc
asked-some false (some s) t e = (s, refl, cc, cc, cc, ground arith)

-- The interface appears: oFono is asked for all that waited.
pub asked-IsTracked :
    (sd : SupsData) (w v : Sups)
    → IsTracked w
    → w.sups_data ≡ some sd
    → IsAsked (waiting_ids sd.pending) w v
    → IsTracked (record v { sups_data = some (record sd { proxy = true; pending = none }) })
asked-IsTracked sd w v h e k = record {
  table = k.table;
  ours = λ j t q.
      let (s, f, cb, c, d, _) =
        asked-some (mem j (waiting_ids sd.pending)) (view w.calls j) t (sym (k.views j) ∙ q) in
      ground (arith, h.ours j s f, e, cb, c, d);
  waits = λ j t q.
      let (s, f, cb, c, d, x) =
        asked-some (mem j (waiting_ids sd.pending)) (view w.calls j) t (sym (k.views j) ∙ q) in
      ground (arith, h.waits j s f, e, x);
  known = λ j m. absurd cc;
  ready = λ d q. ground arith;
  unaborted = k.aborted ∙ h.unaborted;
  sound = k.stray ∙ h.sound;
}

-- The interface is not there, as for an interface that lib/modem.c finds new.
abbrev pub is_unready : Option SupsData → Bool
is_unready none = true
is_unready (some sd) = not sd.proxy

pub unready_gotten :
    (w v : Sups) (sd : SupsData)
    → IsGotten w sd v
    → is_unready w.sups_data ≡ true
    → sd.proxy ≡ false
unready_gotten w v sd k u = by_data w.sups_data refl
  where
    by_data : (o : Option SupsData) → w.sups_data ≡ o → sd.proxy ≡ false
    by_data none e = k.unready e
    by_data (some d) e = ground (arith, k.proxy d e, u)

pub add-IsTracked :
    (made : Bool) (w : Sups) → is_unready w.sups_data ≡ true → IsTracked w → IsTracked (add made w)
unfolding add
add-IsTracked made w u h =
    let k = get_data-IsGotten w h in
    rw (unready_gotten w (get_data w).1 (get_data w).0 k u) (by_made made k)
  where
    by_made :
        (b : Bool)
        → IsGotten w (get_data w).0 (get_data w).1
        → IsTracked (
            if b
            then record (do_pending
                (record (get_data w).0 { proxy = true })
                (waiting_ids (get_data w).0.pending)
                (get_data w).1) {
                  sups_data = some (record (get_data w).0 { proxy = true; pending = none });
                }
            else (get_data w).1)
    by_made true k =
        asked-IsTracked (get_data w).0 (get_data w).1
          (do_pending (record (get_data w).0 { proxy = true }) (waiting_ids (get_data w).0.pending)
            (get_data w).1)
          k.tracked k.present
          (do_pending-IsAsked (record (get_data w).0 { proxy = true })
            (waiting_ids (get_data w).0.pending) (get_data w).1 refl k.tracked.table)
    by_made false k = k.tracked
