-- ===== src/Sups/Started.antt =====
-- A new call of lib/sups.c.
use connui_cellular.Prelude.{
  ℕ, ◌+◌, ◌%◌, ◌≤◌, ◌<◌, ◌≡◌, refl, sym, ◌∙◌, Bool, true, false, Option, none, some, List, [], ◌∷◌,
  arith, Bool-cases, inl, inr, ◌==◌, nat_eq, nat_beq_iff, is_some, if◌then◌else◌,
}
use connui_cellular.ServiceCall.{AsyncCb, ServiceCall, Calls, id_mod, fresh_call, write, new_call}
use connui_cellular.ServiceCall.View.{view, view-new_call}
use connui_cellular.ServiceCall.Consistency.{
  IsConsistent, new_call-IsConsistent, new_call-fresh, id-new_call,
}
use connui_cellular.ServiceCall.Cancelling.{view-write, write-IsConsistent}
use connui_cellular.Sups.{SupsData, Sups, commands, get_data, do_call, add_pending, service_call}
use connui_cellular.Sups.Pending.{IsAsked, do_call-IsAsked}
use connui_cellular.Sups.Tracked.{IsTracked}
use connui_cellular.Sups.Steps.{IsGotten, get_data-IsGotten}

-- The call, before it waits or oFono is asked.
abbrev pub started : AsyncCb → ℕ → Option ℕ → ℕ → ℕ → SupsData → ServiceCall
started a id cb arg user_data sd = record (fresh_call id cb user_data) {
  argument = arg;
  async_cb = some a;
  async_data = some sd.number;
  cancel = true;
}

-- The table with the new call `s`.
record IsEntered (s : ServiceCall) (w u : Sups) : Type 0 where
  views : (j : ℕ) → view u.calls j ≡ (if s.id == j then some s else view w.calls j)
  table : IsConsistent u.calls
  fresh : view w.calls s.id ≡ none
  sups_data : u.sups_data ≡ w.sups_data
  aborted : u.aborted ≡ w.aborted
  stray : u.stray ≡ w.stray

enter-IsEntered :
    (a : AsyncCb) (cb : Option ℕ) (arg user_data : ℕ) (sd : SupsData) (w : Sups)
    → IsConsistent w.calls
    → w.calls.service_call_id + 1 < id_mod
    → IsEntered (started a (new_call cb user_data w.calls).0 cb arg user_data sd) w (record w {
      calls =
          write
            (started a (new_call cb user_data w.calls).0 cb arg user_data sd)
            (new_call cb user_data w.calls).1;
    })
enter-IsEntered a cb arg user_data sd w h room = record {
  views = λ j. ground (arith, view-write s c j, view-new_call w.calls cb user_data j, same_id);
  table =
      write-IsConsistent s (fresh_call s.id cb user_data) c
        (new_call-IsConsistent w.calls h cb user_data room)
        (ground (arith, view-new_call w.calls cb user_data s.id, same_id, nat_beq_iff s.id s.id));
  fresh = new_call-fresh w.calls h cb user_data room;
  sups_data = refl;
  aborted = refl;
  stray = refl;
}
  where
    c : Calls
    c = (new_call cb user_data w.calls).1

    s : ServiceCall
    s = started a (new_call cb user_data w.calls).0 cb arg user_data sd

    same_id : s.id ≡ (w.calls.service_call_id + 1) % id_mod
    same_id = unfold new_call in refl

-- oFono is asked at once.
asked_at_once :
    (s : ServiceCall) (sd : SupsData) (w u v : Sups)
    → is_some s.async_cb ≡ true
    → s.cancel ≡ true
    → s.async_data ≡ some sd.number
    → w.sups_data ≡ some sd
    → sd.proxy ≡ true
    → IsTracked w
    → IsEntered s w u
    → IsAsked (s.id ∷ []) u v
    → IsTracked v
asked_at_once s sd w u v cb c d e p h k q = record {
  table = q.table;
  ours = λ j t f. ground (
    arith,
    q.views j,
    k.views j,
    q.sups_data,
    k.sups_data,
    h.ours j t,
    nat_beq_iff sd.number sd.number,
  );
  waits = λ j t f.
      ground (arith, q.views j, k.views j, q.sups_data, k.sups_data, h.waits j t, h.ready sd e);
  known = λ j m. ground (arith, q.sups_data, k.sups_data, h.ready sd e);
  ready = λ x f. h.ready x (sym (q.sups_data ∙ k.sups_data) ∙ f);
  unaborted = q.aborted ∙ k.aborted ∙ h.unaborted;
  sound = q.stray ∙ k.stray ∙ h.sound;
}

-- It waits for the interface.
waits_first :
    (s : ServiceCall) (sd : SupsData) (w u : Sups)
    → is_some s.async_cb ≡ true
    → s.cancel ≡ true
    → s.cancellable ≡ none
    → s.async_data ≡ some sd.number
    → w.sups_data ≡ some sd
    → sd.proxy ≡ false
    → IsTracked w
    → IsEntered s w u
    → IsTracked
        (record u { sups_data = some (record sd { pending = add_pending s.id sd.pending }) })
waits_first s sd w u cb c n d e p h k = by_pending sd.pending refl
  where
    by_pending :
        (o : Option (List ℕ))
        → sd.pending ≡ o
        → IsTracked (record u { sups_data = some (record sd { pending = add_pending s.id o }) })
    by_pending none f = absurd (ground (arith, h.ready sd e))
    by_pending (some ids) f = record {
      table = k.table;
      ours = λ j t q. ground (arith, k.views j, h.ours j t, nat_beq_iff sd.number sd.number);
      waits =
          λ j t q. ground (arith, k.views j, h.waits j t, h.known j, k.fresh, nat_beq_iff s.id j);
      known = λ j m. ground (arith, k.views j, h.known j);
      ready = λ x q. ground (arith, p);
      unaborted = k.aborted ∙ h.unaborted;
      sound = k.stray ∙ h.sound;
    }

do_call-waits :
    (sd : SupsData) (s : ServiceCall) (u : Sups)
    → sd.proxy ≡ false
    → do_call sd s u
      ≡ record u { sups_data = some (record sd { pending = add_pending s.id sd.pending }) }
unfolding do_call
do_call-waits sd s u p = ground (arith, p)

do_call-IsTracked :
    (s : ServiceCall) (sd : SupsData) (w u : Sups)
    → is_some s.async_cb ≡ true
    → s.cancel ≡ true
    → s.cancellable ≡ none
    → s.async_data ≡ some sd.number
    → w.sups_data ≡ some sd
    → IsTracked w
    → IsEntered s w u
    → IsTracked (do_call sd s u)
do_call-IsTracked s sd w u cb c n d e h k = elim (Bool-cases sd.proxy) [
  | inl p ↦
      asked_at_once s sd w u (do_call sd s u) cb c d e p h k (
        do_call-IsAsked sd s s.id u p k.table (ground (arith, k.views s.id, nat_beq_iff s.id s.id)))
  | inr p ↦ rw (do_call-waits sd s u p) (waits_first s sd w u cb c n d e p h k)
]

pub service_call-IsTracked :
    (a : AsyncCb) (cb : Option ℕ) (arg user_data : ℕ) (w : Sups)
    → w.calls.service_call_id + 1 < id_mod
    → IsTracked w
    → IsTracked (service_call a cb arg user_data w).1
unfolding service_call
service_call-IsTracked a cb arg user_data w room h =
    let g = get_data-IsGotten w h in
    let sd = (get_data w).0 in
    let v = (get_data w).1 in
    do_call-IsTracked (started a (new_call cb user_data v.calls).0 cb arg user_data sd) sd v
      (record v {
        calls =
            write (started a (new_call cb user_data v.calls).0 cb arg user_data sd)
              (new_call cb user_data v.calls).1;
      })
      refl refl refl refl g.present g.tracked
      (enter-IsEntered a cb arg user_data sd v g.tracked.table (rw g.calls room))

-- A new call tells no client, ends no call, and takes one identifier.
pub record IsStarted (w v : Sups) : Type 0 where
  pub kept : (j : ℕ) → is_some (view w.calls j) ≡ true → is_some (view v.calls j) ≡ true
  pub told : v.told ≡ w.told
  pub counter : v.calls.service_call_id ≤ w.calls.service_call_id + 1

do_call-IsStarted :
    (sd : SupsData) (s : ServiceCall) (w u : Sups)
    → IsEntered s w u
    → u.told ≡ w.told
    → u.calls.service_call_id ≤ w.calls.service_call_id + 1
    → IsStarted w (do_call sd s u)
unfolding do_call
do_call-IsStarted sd s w u k t n = by_proxy sd.proxy
  where
    t_s : ServiceCall
    t_s = record s { cancellable = some false }

    by_proxy :
        (b : Bool)
        → IsStarted w (
            if b
            then record u {
              calls = write t_s u.calls;
              initiated = (s.id, commands s.async_cb s.argument) ∷ u.initiated;
            }
            else record u {
              sups_data = some (record sd { pending = add_pending s.id sd.pending });
            })
    by_proxy true = record {
      kept = λ j e. ground (arith, k.views j, view-write t_s u.calls j);
      told = t;
      counter = unfold write in n;
    }
    by_proxy false = record { kept = λ j e. ground (arith, k.views j); told = t; counter = n }

pub service_call-IsStarted :
    (a : AsyncCb) (cb : Option ℕ) (arg user_data : ℕ) (w : Sups)
    → w.calls.service_call_id + 1 < id_mod
    → IsTracked w
    → IsStarted w (service_call a cb arg user_data w).1
unfolding service_call
service_call-IsStarted a cb arg user_data w room h = gotten g g.calls g.told
  where
    sd : SupsData
    sd = (get_data w).0

    v : Sups
    v = (get_data w).1

    g : IsGotten w sd v
    g = get_data-IsGotten w h

    s : ServiceCall
    s = started a (new_call cb user_data v.calls).0 cb arg user_data sd

    u : Sups
    u = record v { calls = write s (new_call cb user_data v.calls).1 }

    counted : u.calls.service_call_id ≤ v.calls.service_call_id + 1
    counted = unfold write in omega (arith, id-new_call v.calls cb user_data)

    gotten : IsGotten w sd v → v.calls ≡ w.calls → v.told ≡ w.told → IsStarted w (do_call sd s u)
    gotten k c t =
        let d =
          do_call-IsStarted sd s v u
            (enter-IsEntered a cb arg user_data sd v k.tracked.table (rw c room)) refl counted in
        record {
          kept = λ j e. d.kept j (rw c e);
          told = d.told ∙ t;
          counter = ground (arith, d.counter, c);
        }
