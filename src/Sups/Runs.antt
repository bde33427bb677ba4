-- ===== src/Sups/Runs.antt =====
-- Sequences of calls, cancellations, replies of oFono and appearances of the modem's interface.
use connui_cellular.Prelude.{
  ℕ, suc, ◌+◌, ◌<◌, ◌≡◌, refl, Bool, true, false, Option, none, some, List, [], ◌∷◌, arith,
  Bool-cases, inl, inr, nat_eq, is_some, if◌then◌else◌,
}
use connui_cellular.ServiceCall.{find, AsyncCb, ServiceCall, no_calls, id_mod}
use connui_cellular.ServiceCall.View.{view}
use connui_cellular.ServiceCall.Consistency.{IsConsistent-no_calls}
use connui_cellular.Sups.{Reply, Sups, service_call, replied, cancel, add}
use connui_cellular.Sups.Tracked.{IsTracked, replied-IsTracked}
use connui_cellular.Sups.Steps.{is_unready, add-IsTracked, cancel-IsTracked}
use connui_cellular.Sups.Started.{service_call-IsTracked, service_call-IsStarted}
use connui_cellular.Sups.Outcomes.{
  reply_to, Outcome, silent, IsStep, same-IsStep, cancel-IsStep, reply-IsStep, add-IsStep,
}

abbrev pub no_sups : Sups
no_sups = record {
  calls = no_calls;
  sups_data = none;
  made = 0;
  initiated = [];
  told = [];
  aborted = false;
  stray = false;
}

pub data Op : Type 0 where
  start : AsyncCb → Option ℕ → ℕ → ℕ → Op
  added : Bool → Op
  cancelling : ℕ → Op
  reply : ℕ → Reply → Op

-- oFono replies to what it was asked; lib/modem.c adds the services when their interface is new.
unfoldable pub step : Op → Sups → Sups
step (start a cb arg user_data) w = (service_call a cb arg user_data w).1
step (added made) w = if is_unready w.sups_data then add made w else w
step (cancelling id) w = cancel id w
step (reply id r) w = reply_to (view w.calls id) r w

unfoldable pub run : List Op → Sups → Sups
unfolding step
run [] w = w
run (op ∷ ops) w = run ops (step op w)

abbrev pub length : List Op → ℕ
length [] = 0
length (op ∷ ops) = suc (length ops)

step-IsTracked :
    (op : Op) (w : Sups)
    → w.calls.service_call_id + 1 < id_mod
    → IsTracked w
    → IsTracked (step op w)
unfolding step
step-IsTracked (start a cb arg u) w room h = service_call-IsTracked a cb arg u w room h
step-IsTracked (added made) w room h = elim (Bool-cases (is_unready w.sups_data)) [
  | inl e ↦ rw e (add-IsTracked made w e h)
  | inr e ↦ rw e h
]
step-IsTracked (cancelling id) w room h = cancel-IsTracked id w h
step-IsTracked (reply id r) w room h = by_view (view w.calls id) refl
  where
    by_cancellable :
        (s : ServiceCall) (b : Bool)
        → view w.calls id ≡ some s
        → is_some s.cancellable ≡ b
        → IsTracked (if b then replied s r w else w)
    by_cancellable s true e f = replied-IsTracked id s r w e f h
    by_cancellable s false e f = h

    by_view : (o : Option ServiceCall) → view w.calls id ≡ o → IsTracked (reply_to o r w)
    by_view none e = h
    by_view (some s) e = by_cancellable s (is_some s.cancellable) e refl

step-IsStep :
    (op : Op) (w : Sups) → w.calls.service_call_id + 1 < id_mod → IsTracked w → IsStep w (step op w)
step-IsStep (start a cb arg u) w room h =
    let k = service_call-IsStarted a cb arg u w room h in
    unfold step in record { outcome = silent k.told k.kept; counter = k.counter }
step-IsStep (added made) w room h = elim (Bool-cases (is_unready w.sups_data)) [
  | inl e ↦ unfold step in rw e (add-IsStep made w h e)
  | inr e ↦ unfold step in rw e (same-IsStep w)
]
step-IsStep (cancelling id) w room h = unfold step in cancel-IsStep id w h
step-IsStep (reply id r) w room h = unfold step in reply-IsStep id r w h

-- Each step of a run tells no client, and ends no call, or tells the client of one call, once, with its
-- own function and data, and ends that call and no other. The table has an identifier left.
pub step-Outcome :
    (op : Op) (w : Sups)
    → w.calls.service_call_id + 1 < id_mod
    → IsTracked w
    → Outcome w (step op w)
step-Outcome op w room h = (step-IsStep op w room h).outcome

counted_run :
    (ops : List Op) (w : Sups)
    → IsTracked w
    → w.calls.service_call_id + length ops < id_mod
    → IsTracked (run ops w)
unfolding run
counted_run [] w h room = h
counted_run (op ∷ ops) w h room =
    counted_run ops (step op w) (step-IsTracked op w (omega (arith, room)) h)
      (omega (arith, room, (step-IsStep op w (omega (arith, room)) h).counter))

no_sups-IsTracked : IsTracked no_sups
unfolding view find
no_sups-IsTracked = record {
  table = IsConsistent-no_calls;
  ours = λ id s e. absurd cc;
  waits = λ id s e. absurd cc;
  known = λ id e. absurd cc;
  ready = λ sd e. absurd cc;
  unaborted = refl;
  sound = refl;
}

-- In every run of fewer than 2 ^ 32 calls, cancellations, replies and appearances of the interface:
-- the table of calls is consistent, each call points to the modem's present data, and waits for the
-- interface or was put to oFono, not both; what waits is in the table; and no assertion failed and no
-- freed data was read. The interface does not disappear.
pub run-IsTracked : (ops : List Op) → length ops < id_mod → IsTracked (run ops no_sups)
run-IsTracked ops room = counted_run ops no_sups no_sups-IsTracked (omega (arith, room))
