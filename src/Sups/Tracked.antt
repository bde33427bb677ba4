-- ===== src/Sups/Tracked.antt =====
-- What holds of the calls of lib/sups.c between two operations.
use connui_cellular.Prelude.{
  ℕ, ◌≤◌, ◌≡◌, ◌≢◌, refl, sym, ◌∙◌, true, false, not, ◌&&◌, Option, none, some, List, [], ◌∷◌,
  arith, ◌==◌, nat_eq, nat_beq_iff, is_some, if◌then◌else◌,
}
use connui_cellular.ServiceCall.{ServiceCall, remove_call}
use connui_cellular.ServiceCall.View.{view, view-take}
use connui_cellular.ServiceCall.Consistency.{IsConsistent, take-IsConsistent, id-take-le}
use connui_cellular.Sups.{
  SupsData, Answer, Reply, Sups, answers_of, is_live, finish, replied, remove_id, remove_pending,
  waiting_ids,
}
use connui_cellular.Sups.Pending.{mem}

abbrev pub pending_of : Option SupsData → List ℕ
pending_of none = []
pending_of (some sd) = waiting_ids sd.pending

pub record IsTracked (w : Sups) : Type 0 where
  pub table : IsConsistent w.calls
  -- every call has its callback, can be cancelled, and points to the present sups_data
  pub ours :
      (id : ℕ) (s : ServiceCall)
      → view w.calls id ≡ some s
      → (is_some s.async_cb ≡ true) × (s.cancel ≡ true) × (is_live s.async_data w.sups_data ≡ true)
  -- it waits for the interface, or oFono was asked, and not both
  pub waits :
      (id : ℕ) (s : ServiceCall)
      → view w.calls id ≡ some s
      → mem id (pending_of w.sups_data) ≡ not (is_some s.cancellable)
  -- what waits is a call
  pub known : (id : ℕ) → mem id (pending_of w.sups_data) ≡ true → view w.calls id ≢ none
  pub ready : (sd : SupsData) → w.sups_data ≡ some sd → is_some sd.pending ≡ not sd.proxy
  -- no assertion failed, and no freed data was read
  pub unaborted : w.aborted ≡ false
  pub sound : w.stray ≡ false

-- The end of a call.
pub record IsFinished (s : ServiceCall) (a : Answer) (w v : Sups) : Type 0 where
  pub views : (j : ℕ) → view v.calls j ≡ (if s.id == j then none else view w.calls j)
  pub table : IsConsistent v.calls
  pub counter : v.calls.service_call_id ≤ w.calls.service_call_id
  pub told : v.told ≡ (s.id, s.callback, s.user_data, a) ∷ w.told
  pub sups_data : v.sups_data ≡ w.sups_data
  pub aborted : v.aborted ≡ w.aborted
  pub sound : is_live s.async_data w.sups_data ≡ true → v.stray ≡ w.stray

pub finish-IsFinished :
    (s : ServiceCall) (a : Answer) (w : Sups)
    → IsConsistent w.calls
    → IsFinished s a w (finish s a w)
unfolding finish remove_call
finish-IsFinished s a w h = record {
  views = λ j. view-take w.calls s.id j;
  table = take-IsConsistent w.calls h s.id;
  counter = id-take-le w.calls h s.id;
  told = refl;
  sups_data = refl;
  aborted = refl;
  sound = λ e. rw e refl;
}

-- A call that oFono was asked ends.
pub finished-IsTracked :
    (id : ℕ) (s : ServiceCall) (a : Answer) (w v : Sups)
    → view w.calls id ≡ some s
    → is_some s.cancellable ≡ true
    → IsTracked w
    → IsFinished s a w v
    → IsTracked v
finished-IsTracked id s a w v e f h k = record {
  table = k.table;
  ours = λ j t q. rw k.sups_data (h.ours j t (ground (arith, k.views j)));
  waits = λ j t q. rw k.sups_data (h.waits j t (ground (arith, k.views j)));
  known = λ j m. ground (
    arith,
    k.views j,
    k.sups_data,
    h.known j,
    h.waits id s e,
    h.table.named id s e,
    nat_beq_iff id j,
  );
  ready = λ sd q. h.ready sd (sym k.sups_data ∙ q);
  unaborted = k.aborted ∙ h.unaborted;
  sound = k.sound (h.ours id s e).2 ∙ h.sound;
}

pub replied-IsTracked :
    (id : ℕ) (s : ServiceCall) (r : Reply) (w : Sups)
    → view w.calls id ≡ some s
    → is_some s.cancellable ≡ true
    → IsTracked w
    → IsTracked (replied s r w)
unfolding replied
replied-IsTracked id s r w e f h =
    finished-IsTracked id s (answers_of s.async_cb r) w (finish s (answers_of s.async_cb r) w) e f h
      (finish-IsFinished s (answers_of s.async_cb r) w h.table)

pub mem-remove_id :
    (id j : ℕ) (ids : List ℕ) → mem j (remove_id id ids) ≡ (mem j ids && not (id == j))
unfolding remove_id
mem-remove_id id j [] = refl
mem-remove_id id j (k ∷ ids) =
    ground (arith, mem-remove_id id j ids, nat_beq_iff k id, nat_beq_iff k j, nat_beq_iff id j)

pub mem-remove_pending :
    (id j : ℕ) (o : Option SupsData)
    → mem j (pending_of (remove_pending id o)) ≡ (mem j (pending_of o) && not (id == j))
mem-remove_pending id j none = refl
mem-remove_pending id j (some sd) = by_pending sd.pending refl
  where
    by_pending :
        (p : Option (List ℕ))
        → sd.pending ≡ p
        → mem j (
            pending_of (elim p [
              | none ↦ some sd
              | some ids ↦ some (record sd { pending = some (remove_id id ids) })
            ]))
          ≡ (mem j (waiting_ids p) && not (id == j))
    by_pending none e = rw e refl
    by_pending (some ids) e = mem-remove_id id j ids
