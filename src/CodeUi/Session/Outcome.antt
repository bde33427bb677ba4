-- ===== src/CodeUi/Session/Outcome.antt =====
-- How `connui_cell_code_ui_init` ends.
use connui_cellular.Prelude.{
  ℕ, ◌+◌, ◌<◌, ◌≡◌, refl, sym, ap, subst, ◌∙◌, String, Bool, true, false, not, ◌||◌, Option, none,
  some, List, [], ◌∷◌, ◌++◌, ◌==◌, nat_eq, ltb, if◌then◌else◌, ◌⊎◌, inl, inr, arith, Bool-cases,
}
use connui_cellular.Modem.{ModemStatus}
use connui_cellular.CodeUi.{Ui, sim_error, startup, idle}
use connui_cellular.CodeUi.Codes.Kept.{IsSound}
use connui_cellular.CodeUi.Status.{launch}
use connui_cellular.CodeUi.Status.Steps.{Event, step, is_ok, is_live, IsSafe, step-IsSafe}
use connui_cellular.CodeUi.Session.{
  Session, Flock, taken, would_block, broken, lock, zeroed, destroy, prepare, unlock, is_over,
  known_status, is_online, World, finish, turns, finished, watch_sim, after_status, watch_modem,
  init,
}

-- A callback is registered, or a timeout is pending.
abbrev pub has_source : Ui → Bool
has_source u = u.status_open || u.code_open || ltb 0 u.timers

-- What `init` needs of the structure: it is sound, and a timeout is pending just if it says so.
pub record IsReady (s : Session) : Type 0 where
  pub free : s.held ≡ false
  pub sound : s.alive ≡ true → IsSound s.ui
  pub clear : s.alive ≡ false → (s.ui.filters ≡ 0) × (s.ui.filters_count ≡ 0) × (s.ui.timers ≡ 0)
  pub tracked : s.alive ≡ true → s.ui.timers ≡ (if s.ui.sim_status_timeout == 0 then 0 else 1)

-- The lock was taken by this process.
abbrev pub is_taken : Option Flock → Bool
is_taken (some taken) = true
is_taken o = false

-- The structure after events, the first of them with the number `n`.
abbrev pub after : (ℕ → ℕ) → ℕ → List Event → Ui → Ui
after source n [] u = u
after source n (e ∷ es) u = after source (n + 1) es (step source n e u)

-- The structure when the loop on the SIM starts.
abbrev pub watched : String → Bool → Session → Ui
unfolding prepare
watched modem_id show s = record (prepare modem_id show (record s { held = true })).ui {
  status_open = true;
}

-- The loop stops at `v`: it comes after some of the events, and is over.
pub record Stopped (source : ℕ → ℕ) (n : ℕ) (es : List Event) (u v : Ui) : Type 0 where
  pub past : List Event
  pub rest : List Event
  pub split : es ≡ past ++ rest
  pub reached : v ≡ after source n past u
  pub over : is_over v ≡ true

module _ (source : ℕ → ℕ) (w : World) (modem_id : String) (show : Bool) (es : List Event)
    (s : Session) where
  pub data Ended (r : Option (Bool × Session)) : Type 0 where
    -- another program runs, or there is no lock
    refused : is_taken w.flock ≡ false → r ≡ some (false, s) → Ended r
    -- the SIM can be used: the events made the state OK
    opened :
        (t : Session)
        → r ≡ some (true, t)
        → t.held ≡ false
        → t.alive ≡ true
        → Stopped source 0 es (watched modem_id show s) t.ui
        → is_ok t.ui.state ≡ true
        → IsSafe t.ui
        → Ended r
    -- the SIM cannot be watched, or not at startup the modem has no power, and the structure is gone
    unwatched :
        (t : Session)
        → r ≡ some (false, t)
        → t.held ≡ false
        → t.alive ≡ false
        → (w.sim_registered ≡ false) ⊎ ((show ≡ false) × (w.is_powered ≡ false))
        → Ended r
    -- the events made the state an error, and the structure is gone
    failed :
        (t : Session) (u : Ui)
        → r ≡ some (false, t)
        → t.held ≡ false
        → t.alive ≡ false
        → Stopped source 0 es (watched modem_id show s) u
        → is_ok u.state ≡ false
        → Ended r
    -- at startup the modem is not online, or cannot be watched, and the structure is left
    kept :
        (t : Session)
        → r ≡ some (false, t)
        → t.held ≡ false
        → t.alive ≡ true
        → show ≡ true
        → (w.modem_registered ≡ false)
          ⊎ ((m : ModemStatus) × (known_status w.statuses ≡ some m) × (is_online m ≡ false))
        → Ended r
    -- the modem's status does not come
    awaits_modem : r ≡ none → show ≡ true → known_status w.statuses ≡ none → Ended r
    -- after all events the SIM's status or the user's code has still to come
    awaits_sim :
        (u : Ui)
        → r ≡ none
        → u ≡ after source 0 es (watched modem_id show s)
        → IsSafe u
        → is_over u ≡ false
        → has_source u ≡ true
        → Ended r

live-has_source : (u : Ui) → is_live u ≡ true → is_over u ≡ false → has_source u ≡ true
live-has_source u l o = ground (arith, l, o)

module _ (source : ℕ → ℕ) (positive : (n : ℕ) → 0 < source n) where
  -- The loop ends, or waits for something that is there.
  data Turned (n : ℕ) (es : List Event) (u : Ui) : Type 0 where
    turned :
        (v : Ui) (rest : List Event)
        → turns source n es u ≡ some (v, rest)
        → Stopped source n es u v
        → IsSafe v
        → Turned n es u
    waiting :
        (v : Ui)
        → turns source n es u ≡ none
        → v ≡ after source n es u
        → is_over v ≡ false
        → IsSafe v
        → Turned n es u

  Stopped-cons :
      (n : ℕ) (e : Event) (es : List Event) (u v : Ui)
      → Stopped source (n + 1) es (step source n e u) v
      → Stopped source n (e ∷ es) u v
  Stopped-cons n e es u v h = record {
    past = e ∷ h.past;
    rest = h.rest;
    split = ap (λ l. e ∷ l) h.split;
    reached = h.reached;
    over = h.over;
  }

  turns-Turned : (n : ℕ) (es : List Event) (u : Ui) → IsSafe u → Turned n es u
  unfolding turns
  turns-Turned n [] u h = elim (Bool-cases (is_over u)) [
    | inl e ↦
        turned u [] (rw e) (record { past = []; rest = []; split = refl; reached = refl; over = e })
          h
    | inr e ↦ waiting u (rw e) refl e h
  ]
  turns-Turned n (e ∷ es) u h = elim (Bool-cases (is_over u)) [
    | inl o ↦
        turned u (e ∷ es) (rw o)
          (record { past = []; rest = e ∷ es; split = refl; reached = refl; over = o }) h
    | inr o ↦
        elim (turns-Turned (n + 1) es (step source n e u) (step-IsSafe source positive n e u h)) [
          | turned v rest t p k ↦ turned v rest (rw o t) (Stopped-cons n e es u v p) k
          | waiting v t q p k ↦ waiting v (rw o t) q p k
        ]
  ]

unlock-destroy :
    (s : Session) → ((unlock (destroy s)).held ≡ false) × ((unlock (destroy s)).alive ≡ false)
unfolding unlock destroy
unlock-destroy s = ground arith

finish-cases :
    (s : Session)
    → ((is_ok s.ui.state ≡ true) × (finish s ≡ (true, unlock s)))
      ⊎ ((is_ok s.ui.state ≡ false) × (finish s ≡ (false, unlock (destroy s))))
unfolding finish
finish-cases s = elim (Bool-cases (is_ok s.ui.state)) [
  | inl e ↦ inl (e, rw e)
  | inr e ↦ inr (e, rw e)
]

module _ (source : ℕ → ℕ) (positive : (n : ℕ) → 0 < source n) (w : World) (modem_id : String)
    (show : Bool) (es : List Event) (s : Session) where
  abbrev Ends : Option (Bool × Session) → Type 0
  Ends r = Ended source w modem_id show es s r

  -- The structure `t` that `init` prepared.
  record IsPrepared (t : Session) : Type 0 where
    alive : t.alive ≡ true
    shows : t.ui.show_status_notes ≡ show
    start : record t.ui { status_open = true } ≡ watched modem_id show s
    safe : IsSafe (record t.ui { status_open = true })

  if-Ended :
      (b : Bool) (x y : Option (Bool × Session))
      → (b ≡ true → Ends x)
      → (b ≡ false → Ends y)
      → Ends (if b then x else y)
  if-Ended true x y p q = p refl
  if-Ended false x y p q = q refl

  gone :
      (u : Session)
      → (w.sim_registered ≡ false) ⊎ ((show ≡ false) × (w.is_powered ≡ false))
      → Ends (some (false, unlock (destroy u)))
  gone u why = unwatched (unlock (destroy u)) refl (unlock-destroy u).0 (unlock-destroy u).1 why

  -- The part on the SIM, with the structure `t`.
  watch_sim-Ended :
      (registered : Bool) (t : Session)
      → registered ≡ w.sim_registered
      → IsPrepared t
      → Ends (watch_sim source registered es t)
  unfolding watch_sim
  watch_sim-Ended false t q h =
      gone (if t.ui.show_status_notes then t else record t { ui = launch sim_error "no_sim" t.ui })
        (inl (sym q))
  watch_sim-Ended true t q h =
      elim (turns-Turned source positive 0 es (record t.ui { status_open = true }) h.safe) [
        | turned v rest e o k ↦
            subst (λ r. Ends (finished source t r)) (sym e)
              (ends v (subst (λ u. Stopped source 0 es u v) h.start o) k)
        | waiting v e r o k ↦
            subst (λ r. Ends (finished source t r)) (sym e)
              (awaits_sim v refl (r ∙ ap (after source 0 es) h.start) k o
                (live-has_source v k.live o))
      ]
    where
      ends :
          (v : Ui)
          → Stopped source 0 es (watched modem_id show s) v
          → IsSafe v
          → Ends (some (finish (record t { ui = v })))
      ends v o k = elim (finish-cases (record t { ui = v })) [
        | inl f ↦
            opened (unlock (record t { ui = v })) (ap (λ p. some p) f.1) (unfold unlock in refl)
              (unfold unlock in h.alive) (unfold unlock in o) (unfold unlock in f.0)
              (unfold unlock in k)
        | inr f ↦
            let u = record t { ui = v } in
            subst (λ r. Ends (some r)) (sym f.1)
              (failed (unlock (destroy u)) v refl (unlock-destroy u).0 (unlock-destroy u).1 o f.0)
      ]

  after_status-Ended :
      (o : Option ModemStatus) (t : Session)
      → show ≡ true
      → known_status w.statuses ≡ o
      → IsPrepared t
      → Ends (after_status source w es o t)
  unfolding after_status
  after_status-Ended none t d e h = awaits_modem refl d e
  after_status-Ended (some m) t d e h = elim (Bool-cases (is_online m)) [
    | inl o ↦ rw o (watch_sim-Ended w.sim_registered t refl h)
    | inr o ↦
        rw o (kept _ refl (unfold unlock in refl) (unfold unlock in h.alive) d (inr (m, e, o)))
  ]

  watch_modem-Ended : (t : Session) → IsPrepared t → Ends (watch_modem source w es t)
  unfolding watch_modem
  watch_modem-Ended t h =
      if-Ended t.ui.show_status_notes _ _
        (λ n.
          if-Ended w.modem_registered _ _
            (λ _. after_status-Ended (known_status w.statuses) t (sym h.shows ∙ n) refl h)
            (λ m.
              kept (unlock t) refl (unfold unlock in refl) (unfold unlock in h.alive)
                (sym h.shows ∙ n) (inl m)))
        (λ n.
          if-Ended w.is_powered _ _ (λ _. watch_sim-Ended w.sim_registered t refl h)
            (λ p.
              gone (record t { ui = record t.ui { launched = "no_network" ∷ t.ui.launched } })
                (inr (sym h.shows ∙ n, p))))

prepare-IsSafe :
    (modem_id : String) (show : Bool) (s : Session)
    → IsReady s
    → IsSafe (record (prepare modem_id show (record s { held = true })).ui { status_open = true })
unfolding prepare
prepare-IsSafe modem_id show s r = go s.alive refl
  where
    go :
        (b : Bool)
        → s.alive ≡ b
        → IsSafe (record (if b then s.ui else zeroed s.ui) {
          modem_id = modem_id;
          show_status_notes = show;
          state = if show then startup else idle;
          status_open = true;
        })
    go true e = record {
      sound = ground (arith, r.sound e);
      tracked = r.tracked e;
      live = ground arith;
    }
    go false e = record {
      sound = ground (arith, r.clear e);
      tracked = (r.clear e).2;
      live = ground arith;
    }

-- From a structure that is sound, or none, and in any world: `connui_cell_code_ui_init` refuses, and
-- changes nothing, if the lock is not to be had. Else, when it returns, the lock is released. It returns
-- TRUE with the structure there, safe, and in the state OK, which the first events made it; it returns
-- FALSE with the structure gone if the SIM cannot be watched, if the modem has no power and it is not
-- startup, or if the first events made the state an error; and with the structure left behind only at
-- startup, with a modem that is not online or cannot be watched. Where it does not return, it waits for
-- the modem's status at startup, or, after all events, for a callback that is registered or a timeout
-- that is pending, in a safe state that is neither OK nor an error.
pub init-Ended :
    (source : ℕ → ℕ) (w : World) (modem_id : String) (show : Bool) (es : List Event) (s : Session)
    → ((n : ℕ) → 0 < source n)
    → IsReady s
    → Ended source w modem_id show es s (init source w modem_id show es s)
unfolding init
init-Ended source w modem_id show es s positive r = go w.flock refl
  where
    go :
        (o : Option Flock)
        → w.flock ≡ o
        → Ended source w modem_id show es s (
            if not (lock o).0 || not (lock o).1
            then some (false, s)
            else watch_modem source w es (prepare modem_id show (record s { held = true })))
    go none e = unfold lock in refused (ap is_taken e) refl
    go (some would_block) e = unfold lock in refused (ap is_taken e) refl
    go (some broken) e = unfold lock in refused (ap is_taken e) refl
    go (some taken) e =
        unfold lock in
        watch_modem-Ended source positive w modem_id show es s
          (prepare modem_id show (record s { held = true }))
          (record {
            alive = unfold prepare in refl;
            shows = unfold prepare in refl;
            start = refl;
            safe = prepare-IsSafe modem_id show s r;
          })
