-- ===== src/CodeUi/Status/Steps.antt =====
-- The callbacks of lib/code-ui.c in any order, between the turns of its main loops.
use connui_cellular.Prelude.{
  ℕ, ◌+◌, ◌<◌, ◌≡◌, refl, String, Bool, true, false, ◌||◌, Option, List, [], ◌∷◌, arith, ◌==◌,
  nat_eq, string_eq, ltb, if◌then◌else◌,
}
use connui_cellular.Sim.{SimStatus, CodeType}
use connui_cellular.CodeUi.{State, ok, state_is_error, Ui, close_dialog, pin_correct}
use connui_cellular.CodeUi.Codes.{Response, Query, waits, replies, code_cb}
use connui_cellular.CodeUi.Codes.Kept.{IsSound, KeptQuery, code_cb-Kept}
use connui_cellular.CodeUi.Status.{
  by_status, note_or, finish_status, wait_better_status, drop_timeout, sim_status_cb,
  sim_status_timeout_cb, verify_code_cb,
}

-- The callbacks, with what they are given and what the calls in them return.
pub data Event : Type 0 where
  status : String → SimStatus → Bool → Event
  query : String → CodeType → Bool → List Response → Event
  verified : CodeType → Bool → Option ℕ → Bool → Event
  timed_out : Event

abbrev after_query : Ui → Query → Ui
after_query u waits = u
after_query u (replies r v rs) = v

module _ (source : ℕ → ℕ) where
  -- A callback runs only while it is registered; `source n` is what `g_timeout_add` returns.
  unfoldable pub step : ℕ → Event → Ui → Ui
  unfolding sim_status_cb code_cb verify_code_cb sim_status_timeout_cb
  step n (status modem_id s registered) u =
      if u.status_open then sim_status_cb (source n) registered modem_id s u else u
  step n (query modem_id ty wants rs) u =
      if u.code_open then after_query u (code_cb modem_id ty wants u rs) else u
  step n (verified ty done left registered) u = verify_code_cb ty done left registered u
  step n timed_out u = if ltb 0 u.timers then sim_status_timeout_cb u else u

  unfoldable pub run : ℕ → List Event → Ui → Ui
  unfolding step
  run n [] u = u
  run n (e ∷ es) u = run (n + 1) es (step n e u)

abbrev pub is_ok : State → Bool
is_ok ok = true
is_ok _ = false

-- The main loops end (STATE_IS_ERROR or OK), or something is left that can end them.
abbrev pub is_live : Ui → Bool
is_live u =
    state_is_error u.state || is_ok u.state || u.status_open || u.code_open || ltb 0 u.timers

pub record IsSafe (u : Ui) : Type 0 where
  pub sound : IsSound u
  pub tracked : u.timers ≡ (if u.sim_status_timeout == 0 then 0 else 1)
  pub live : is_live u ≡ true

module _ (source : ℕ → ℕ) (positive : (n : ℕ) → 0 < source n) where
  -- The filters are no matter of the status.
  sound-sim_status_cb :
      (id : ℕ) (registered : Bool) (modem_id : String) (s : SimStatus) (u : Ui)
      → let v = sim_status_cb id registered modem_id s u in
        (v.filters ≡ u.filters) × (v.filters_count ≡ u.filters_count) × (v.dialog ≡ u.dialog)
  unfolding sim_status_cb by_status note_or finish_status wait_better_status drop_timeout
  sound-sim_status_cb id registered modem_id s u = ground arith

  abbrev Tracked : Ui → Type 0
  Tracked u = u.timers ≡ (if u.sim_status_timeout == 0 then 0 else 1)

  Tracked-by_status :
      (n : ℕ) (registered : Bool) (s : SimStatus) (u : Ui)
      → u.timers ≡ 0
      → u.sim_status_timeout ≡ 0
      → Tracked (by_status (source n) registered s u)
  unfolding by_status note_or finish_status wait_better_status
  Tracked-by_status n registered s u t z = ground (arith, positive n)

  Tracked-sim_status_cb :
      (n : ℕ) (registered : Bool) (modem_id : String) (s : SimStatus) (u : Ui)
      → Tracked u
      → Tracked (sim_status_cb (source n) registered modem_id s u)
  unfolding sim_status_cb drop_timeout
  Tracked-sim_status_cb n registered modem_id s u h =
      ground
        (arith, h, Tracked-by_status n registered s (record (drop_timeout u) { sim_status = s }))

  live-by_status :
      (n : ℕ) (registered : Bool) (s : SimStatus) (u : Ui)
      → is_live (by_status (source n) registered s u) ≡ true
  unfolding by_status note_or finish_status wait_better_status
  live-by_status n registered s u = ground arith

  live-sim_status_cb :
      (n : ℕ) (registered : Bool) (modem_id : String) (s : SimStatus) (u : Ui)
      → is_live u ≡ true
      → is_live (sim_status_cb (source n) registered modem_id s u) ≡ true
  unfolding sim_status_cb
  live-sim_status_cb n registered modem_id s u h =
      ground (arith, h, live-by_status n registered s (record (drop_timeout u) { sim_status = s }))

  IsSound-verify_code_cb :
      (ty : CodeType) (done : Bool) (left : Option ℕ) (registered : Bool) (u : Ui)
      → IsSound u
      → IsSound (verify_code_cb ty done left registered u)
  unfolding verify_code_cb pin_correct close_dialog
  IsSound-verify_code_cb ty true left registered u h = ground (arith, h)
  IsSound-verify_code_cb ty false left registered u h = ground (arith, h)

  after-verify_code_cb :
      (ty : CodeType) (done : Bool) (left : Option ℕ) (registered : Bool) (u : Ui)
      → let v = verify_code_cb ty done left registered u in
        (v.timers ≡ u.timers) × (v.sim_status_timeout ≡ u.sim_status_timeout) × (is_live v ≡ true)
  unfolding verify_code_cb pin_correct close_dialog
  after-verify_code_cb ty true left registered u = ground arith
  after-verify_code_cb ty false left registered u = ground arith

  guarded : (b : Bool) (u v : Ui) → IsSafe u → (b ≡ true → IsSafe v) → IsSafe (if b then v else u)
  guarded true u v h k = k refl
  guarded false u v h k = h

  status-IsSafe :
      (n : ℕ) (registered : Bool) (modem_id : String) (s : SimStatus) (u : Ui)
      → IsSafe u
      → IsSafe (sim_status_cb (source n) registered modem_id s u)
  status-IsSafe n registered modem_id s u h = record {
    sound = ground (arith, h.sound, sound-sim_status_cb (source n) registered modem_id s u);
    tracked = Tracked-sim_status_cb n registered modem_id s u h.tracked;
    live = live-sim_status_cb n registered modem_id s u h.live;
  }

  query-IsSafe :
      (q : Query) (u : Ui)
      → u.code_open ≡ true
      → IsSafe u
      → KeptQuery u q
      → IsSafe (after_query u q)
  query-IsSafe waits u o h k = h
  query-IsSafe (replies r v rs) u o h k = record {
    sound = k.0;
    tracked = ground (arith, h.tracked, k.1);
    live = ground (arith, o, k.1);
  }

  pub step-IsSafe : (n : ℕ) (e : Event) (u : Ui) → IsSafe u → IsSafe (step source n e u)
  unfolding step
  step-IsSafe n (status modem_id s registered) u h =
      guarded u.status_open u (sim_status_cb (source n) registered modem_id s u) h
        (λ _. status-IsSafe n registered modem_id s u h)
  step-IsSafe n (query modem_id ty wants rs) u h =
      guarded u.code_open u (after_query u (code_cb modem_id ty wants u rs)) h (λ o.
        query-IsSafe (code_cb modem_id ty wants u rs) u o h
          (code_cb-Kept modem_id ty wants u rs h.sound))
  step-IsSafe n (verified ty done left registered) u h = record {
    sound = IsSound-verify_code_cb ty done left registered u h.sound;
    tracked = ground (arith, h.tracked, after-verify_code_cb ty done left registered u);
    live = (after-verify_code_cb ty done left registered u).2;
  }
  step-IsSafe n timed_out u h = unfold sim_status_timeout_cb in ground (arith, h, h.sound)

  -- In any order of callbacks, from a state that is safe: the root window has the filters that
  -- `code_ui_filters_count` counts, one at most and none without a dialog; there is one pending
  -- timeout if `sim_status_timeout` says so, and none if not; and the main loops never wait for
  -- nothing: the state is an error or OK, or a callback is registered or the timeout is pending.
  -- GLib gives identifiers above 0.
  pub run-IsSafe : (es : List Event) (n : ℕ) (u : Ui) → IsSafe u → IsSafe (run source n es u)
  unfolding run
  run-IsSafe [] n u h = h
  run-IsSafe (e ∷ es) n u h = run-IsSafe es (n + 1) (step source n e u) (step-IsSafe n e u h)
