-- ===== src/Sups/Tests.antt =====
-- The theorems on supplementary services at concrete inputs.
use connui_cellular.Prelude.{◌≡◌, refl, true, none, some, List, [], ◌∷◌, arith}
use connui_cellular.Errors.{io_cancelled}
use connui_cellular.ServiceCall.{call_waiting_get, forwarding_get, ServiceCall, fresh_call}
use connui_cellular.ServiceCall.View.{view}
use connui_cellular.Sups.{answer_of, result, failed, waiting, service_call, add, replied, cancel}
use connui_cellular.Sups.Tracked.{IsTracked}
use connui_cellular.Sups.Outcomes.{Outcome}
use connui_cellular.Sups.Endings.{IsCancelled, cancel-IsCancelled}
use connui_cellular.Sups.Runs.{
  no_sups, Op, start, added, cancelling, reply, step, run, run-IsTracked, step-Outcome,
}

-- A call that waits, a second that is cancelled, and the interface.
abbrev session : List Op
session =
    start call_waiting_get (some 7) 0 1
    ∷ start forwarding_get (some 8) 0 2
    ∷ cancelling 2
    ∷ added true
    ∷ reply 1 (result "CallWaiting" (("VoiceCallWaiting", "enabled") ∷ []))
    ∷ []

abbrev waiting_session : List Op
waiting_session = start call_waiting_get (some 7) 0 1 ∷ start forwarding_get (some 8) 0 2 ∷ []

told_both :
    (run session no_sups).told
    ≡ (1, some 7, 1, waiting true none)
      ∷ (2, some 8, 2, answer_of forwarding_get (failed io_cancelled))
      ∷ []
unfolding run step service_call add replied cancel view
told_both = refl

run-IsTracked_example : IsTracked (run session no_sups)
run-IsTracked_example = run-IsTracked session (omega arith)

step-Outcome_example :
    Outcome (run waiting_session no_sups) (step (cancelling 2) (run waiting_session no_sups))
step-Outcome_example =
    step-Outcome (cancelling 2) (run waiting_session no_sups)
      (unfold run step service_call in omega arith) (run-IsTracked waiting_session (omega arith))

abbrev second_call : ServiceCall
second_call = record (fresh_call 2 (some 8) 2) {
  async_cb = some forwarding_get;
  async_data = some 0;
  cancel = true;
}

second_waits : view (run waiting_session no_sups).calls 2 ≡ some second_call
unfolding run step view service_call
second_waits = refl

cancel-IsCancelled_example :
    IsCancelled 2 second_call (run waiting_session no_sups) (cancel 2 (run waiting_session no_sups))
cancel-IsCancelled_example =
    cancel-IsCancelled 2 second_call (run waiting_session no_sups)
      (run-IsTracked waiting_session (omega arith)) second_waits
