-- ===== src/Context/Lifetime.antt =====
-- How long the context lives.
use connui_cellular.Prelude.{
  ℕ, ◌≡◌, refl, sym, subst, ◌∙◌, String, Bool, true, false, ◌&&◌, ◌||◌, Option, none, some, List,
  [], ◌∷◌, arith, if◌then◌else◌, is_some, Bool-cases, inl, inr,
}
use connui_cellular.ServiceCall.{new_call, take}
use connui_cellular.Context.{
  Clients, call_status, same, set_cbs, Context, add_modem, remove_modem, add_all, get_by, get,
  is_empty, is_used, destroy, destroys, enter, register_with, register, close, ask, leave,
  start_call, end_call,
}

-- oFono's answer when the context has to be created.
abbrev pub Ofono : Type 0
Ofono = Option (List (String × Bool))

pub data Event : Type 0 where
  registers : Clients → Option (List (String × Bool)) → ℕ → ℕ → Event
  closes : Clients → Option (List (String × Bool)) → ℕ → Event
  asks : Option (List (String × Bool)) → Event
  leaves : Option (List (String × Bool)) → Event
  starts : Option (List (String × Bool)) → Option ℕ → ℕ → Event
  ends : Option (List (String × Bool)) → ℕ → Event
  added : Bool → String → Event
  removed : String → Event

-- Whether the last call was one that leaves the context as it is. oFono's signals are no calls.
abbrev pub left_after : Event → Bool → Bool
left_after (leaves o) b = true
left_after (added made path) b = b
left_after (removed path) b = b
left_after e b = false

abbrev pub left_by : Bool → List Event → Bool
left_by b [] = b
left_by b (e ∷ es) = left_by (left_after e b) es

-- The context is there while it is used, and otherwise only if it was left; when it is not, nothing is
-- left of its modems.
pub record IsAlive (left : Bool) (c : Context) : Type 0 where
  pub alive : c.initialized ≡ (is_used c || left && c.initialized)
  pub modems : c.initialized ≡ false → c.modems ≡ []

is_used-same :
    (b : Bool) (ms : List String) (c : Context)
    → is_used (record c { initialized = b; modems = ms }) ≡ is_used c
unfolding is_used
is_used-same b ms c = refl

destroy-IsAlive : (c : Context) → c.initialized ≡ true → IsAlive false (destroy c)
unfolding destroy
destroy-IsAlive c i = elim (Bool-cases (is_used c)) [ inl u ↦ used u | inr u ↦ unused u ]
  where
    used : is_used c ≡ true → IsAlive false (destroy c)
    used u = unfold destroy in ground (arith, i, u)

    unused : is_used c ≡ false → IsAlive false (destroy c)
    unused u = unfold destroy in ground (arith, i, u, is_used-same false [] c)

add_all-same :
    (ms : List (String × Bool)) (c : Context)
    → ((add_all ms c).initialized ≡ c.initialized) × ((add_all ms c).calls ≡ c.calls)
unfolding add_all add_modem
add_all-same [] c = (refl, refl)
add_all-same ((path, made) ∷ ms) c = ground (arith, add_all-same ms (add_modem made path c))

-- What getting the context comes to.
data Got (c : Context) : Bool × Context → Type 0 where
  refused : c.initialized ≡ false → Got c (false, c)
  there : (d : Context) → d.initialized ≡ true → Got c (true, d)

get_by-Got : (b : Bool) (o : Ofono) (c : Context) → c.initialized ≡ b → Got c (get_by b o c)
unfolding get_by
get_by-Got true o c e = there c e
get_by-Got false none c e = refused e
get_by-Got false (some ms) c e = there _ refl

get-Got : (o : Ofono) (c : Context) → Got c (get o c)
unfolding get
get-Got o c = get_by-Got c.initialized o c refl

-- A context that is not there was not left.
not_left : {left : Bool} {c : Context} → c.initialized ≡ false → IsAlive left c → IsAlive false c
not_left {left} {c} e h = record { alive = ground (arith, e, h.alive); modems = h.modems }

leave-IsAlive :
    {left : Bool} {c : Context} (r : Bool × Context) → Got c r → IsAlive left c → IsAlive true r.1
leave-IsAlive {left} {c} _ (refused e) h = record {
  alive = ground (arith, e, h.alive);
  modems = h.modems;
}
leave-IsAlive _ (there d e) h = record {
  alive = ground (arith, e);
  modems = λ f. absurd (ground (arith, f, e));
}

module _ (notify_add : List (ℕ × ℕ) → ℕ → ℕ → List (ℕ × ℕ))
    (notify_remove : List (ℕ × ℕ) → ℕ → List (ℕ × ℕ)) where
  -- oFono's signals reach a context that is there.
  unfoldable pub step : Event → Context → Context
  unfolding register close ask leave start_call end_call add_modem remove_modem
  step (registers k o cb user_data) c = (register notify_add notify_remove k o cb user_data c).1
  step (closes k o cb) c = close notify_add notify_remove k o cb c
  step (asks o) c = ask o c
  step (leaves o) c = leave o c
  step (starts o cb user_data) c = start_call o cb user_data c
  step (ends o id) c = end_call o id c
  step (added made path) c = if c.initialized then add_modem made path c else c
  step (removed path) c = if c.initialized then remove_modem path c else c

  unfoldable pub run : List Event → Context → Context
  unfolding step
  run [] c = c
  run (e ∷ es) c = run es (step e c)

  -- A call that changes the context and then calls `destroy`.
  with_destroy :
      {left : Bool} {c : Context} (f : Context → Context) (r : Bool × Context)
      → Got c r
      → ((d : Context) → (f d).initialized ≡ d.initialized)
      → IsAlive left c
      → IsAlive false (if r.0 then destroy (f r.1) else r.1)
  with_destroy f _ (refused e) same h = not_left e h
  with_destroy f _ (there d e) same h = destroy-IsAlive (f d) (same d ∙ e)

  module _
      (adds : (cbs : List (ℕ × ℕ)) (cb user_data : ℕ)
        → is_empty (notify_add cbs cb user_data) ≡ false) where
    kept_IsAlive :
        (k : Clients) (cb u : ℕ) (c : Context)
        → destroys k ≡ false
        → c.initialized ≡ true
        → IsAlive false (set_cbs k (notify_add (c.cbs k) cb u) c)
    kept_IsAlive k cb u c e i = record {
      alive = unfold is_used in ground (arith, e, i, adds (c.cbs k) cb u);
      modems = λ f. absurd (ground (arith, f, i));
    }

    enter-IsAlive :
        (k : Clients) (cb u : ℕ) (d : Context)
        → d.initialized ≡ true
        → IsAlive false (enter notify_add notify_remove k cb u d)
    enter-IsAlive k cb u d e = by_kind (destroys k) refl
      where
        by_kind :
            (b : Bool) → destroys k ≡ b → IsAlive false (enter notify_add notify_remove k cb u d)
        by_kind true f =
            unfold enter in rw f (destroy-IsAlive (set_cbs k (notify_add (d.cbs k) cb u) d) e)
        by_kind false f = unfold enter in rw f (kept_IsAlive k cb u d f e)

    registered :
        (k : Clients) (cb u : ℕ) {left : Bool} {c : Context} (r : Bool × Context)
        → Got c r
        → IsAlive left c
        → IsAlive false (register_with notify_add notify_remove k cb u r).1
    unfolding register_with
    registered k cb u _ (refused e) h = not_left e h
    registered k cb u _ (there d e) h = enter-IsAlive k cb u d e

    signal-IsAlive :
        (f : Context → Context) (c : Context)
        → (f c).initialized ≡ c.initialized
        → is_used (f c) ≡ is_used c
        → (left b : Bool) → c.initialized ≡ b
        → IsAlive left c
        → IsAlive left (if b then f c else c)
    signal-IsAlive f c i u left true e h = record {
      alive = ground (arith, i, u, h.alive);
      modems = λ g. absurd (ground (arith, g, i, e));
    }
    signal-IsAlive f c i u left false e h = h

    step-IsAlive :
        (left : Bool) (e : Event) (c : Context)
        → IsAlive left c
        → IsAlive (left_after e left) (step e c)
    unfolding step register close ask leave start_call end_call
    step-IsAlive left (registers k o cb u) c h = registered k cb u (get o c) (get-Got o c) h
    step-IsAlive left (closes k o cb) c h =
        with_destroy (λ d. set_cbs k (notify_remove (d.cbs k) cb) d) (get o c) (get-Got o c)
          (λ d. refl) h
    step-IsAlive left (asks o) c h = with_destroy (λ d. d) (get o c) (get-Got o c) (λ d. refl) h
    step-IsAlive left (leaves o) c h = leave-IsAlive (get o c) (get-Got o c) h
    step-IsAlive left (starts o cb u) c h =
        with_destroy (λ d. record d { calls = (new_call cb u d.calls).1 }) (get o c) (get-Got o c)
          (λ d. refl) h
    step-IsAlive left (ends o id) c h =
        with_destroy (λ d. record d { calls = (take id d.calls).1 }) (get o c) (get-Got o c)
          (λ d. refl) h
    step-IsAlive left (added made path) c h =
        signal-IsAlive (add_modem made path) c (unfold add_modem in ground arith)
          (unfold add_modem is_used in ground arith) left c.initialized refl h
    step-IsAlive left (removed path) c h =
        signal-IsAlive (remove_modem path) c (unfold remove_modem in refl)
          (unfold remove_modem is_used in refl) left c.initialized refl h

    -- In every run of clients that register and close, calls that ask, calls that start and end, and
    -- modems that come and go, whatever oFono answers: between two of these the context is initialized
    -- while one of the lists of clients, but for that of call status, is not empty or a call is
    -- outstanding; it is initialized otherwise only if the last call was one of those that do not give
    -- it back; and when it is not initialized, it has no modems. connui-utils' list is not empty after
    -- something was added to it.
    pub run-IsAlive :
        (left : Bool) (es : List Event) (c : Context)
        → IsAlive left c
        → IsAlive (left_by left es) (run es c)
    unfolding run
    run-IsAlive left [] c h = h
    run-IsAlive left (e ∷ es) c h =
        run-IsAlive (left_after e left) es (step e c) (step-IsAlive left e c h)

  unused_calls : (c : Context) → is_used c ≡ false → is_some c.calls.service_calls ≡ false
  unfolding is_used
  unused_calls c e = ground arith

  -- With no other client, the list of call status does not keep the context.
  dropped :
      (cb u : ℕ) (d : Context)
      → d.initialized ≡ true
      → is_some d.calls.service_calls ≡ false
      → (enter notify_add notify_remove call_status cb u (record d { cbs = λ k. [] })).initialized
        ≡ false
  dropped cb u d e f = unfold enter destroy is_used in ground (arith, e, f)

  get-cbs :
      (p : List (String × Bool)) (c : Context)
      → c.initialized ≡ false
      → (get (some p) c).1.cbs call_status ≡ []
  unfolding get
  get-cbs p c e =
      subst (λ b. (get_by b (some p) c).1.cbs call_status ≡ []) (sym e) (unfold get_by in refl)

  -- A client that registers for the status of calls, while nobody uses the context, is told that it
  -- succeeded, but is no longer among the clients when the context is created next.
  pub register-call_status :
      (o p : List (String × Bool)) (cb u : ℕ) (c : Context)
      → IsAlive false c
      → is_used c ≡ false
      → ((register notify_add notify_remove call_status (some o) cb u c).0 ≡ true)
        × ((get (some p) (register notify_add notify_remove call_status (some o) cb u c).1).1.cbs
              call_status
            ≡ [])
  register-call_status o p cb u c h unused =
      subst (λ r. (r.0 ≡ true) × ((get (some p) r.1).1.cbs call_status ≡ [])) (sym entered)
        (
          refl,
          get-cbs p (enter notify_add notify_remove call_status cb u fresh) (
              dropped cb u made refl (
                ground
                  (arith, (add_all-same o (record c { modems = [] })).1, unused_calls c unused))),
        )
    where
      off : c.initialized ≡ false
      off = ground (arith, h.alive, unused)

      made : Context
      made = record (add_all o (record c { modems = [] })) { initialized = true }

      fresh : Context
      fresh = record made { cbs = λ k. [] }

      entered :
          register notify_add notify_remove call_status (some o) cb u c
          ≡ (true, enter notify_add notify_remove call_status cb u fresh)
      entered =
          unfold register get in
          subst
            (λ b.
              register_with notify_add notify_remove call_status cb u (get_by b (some o) c)
              ≡ (true, enter notify_add notify_remove call_status cb u fresh))
            (sym off) (unfold get_by register_with in refl)
