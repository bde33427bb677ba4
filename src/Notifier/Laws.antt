-- ===== src/Notifier/Laws.antt =====
-- What holds of every object that notifies in that way.
use connui_cellular.Prelude.{
  ℕ, suc, ◌+◌, ◌≤◌, ◌<◌, ◌≡◌, refl, ap, ◌∙◌, List, [], ◌∷◌, Option, none, some, arith, ◌==◌, nat_eq,
  if◌then◌else◌,
}
use connui_cellular.Notifier.{
  Object, IsQuiet, Loop, Event, changed, registered, idle, notify, property_changed, step, run,
  start, destroy, read_all,
}

abbrev pub latest : {V : Type 0} → List V → Option V
latest [] = none
latest (v ∷ vs) = some v

abbrev pub length : {A : Type 0} → List A → ℕ
length [] = 0
length (x ∷ xs) = suc (length xs)

-- A client's registration or a signal.
abbrev pub requests : {E : Type 0} → List (Event E) → ℕ
requests [] = 0
requests (idle ∷ es) = requests es
requests (changed e ∷ es) = suc (requests es)
requests (registered ∷ es) = suc (requests es)

abbrev request : {E : Type 0} → Event E → ℕ
request idle = 0
request (changed e) = 1
request registered = 1

-- The changes among the events, in order.
abbrev pub changes : {E : Type 0} → List (Event E) → List E
changes [] = []
changes (changed e ∷ es) = e ∷ changes es
changes (registered ∷ es) = changes es
changes (idle ∷ es) = changes es

module _ {E S V : Type 0} (o : Object E S V) (source : ℕ → ℕ) where
  -- What the clients of an object are served, from its creation with the data `s` and after `es`.
  pub record IsServed (s : S) (es : List (Event E)) : Type 0 where
    -- the data is what the signals made of it
    pub current : (run o source es (start o source s)).data_now ≡ read_all o (changes es) s
    -- with no source pending the clients have it
    pub fresh :
        (run o source es (start o source s)).sources ≡ 0
        → latest (run o source es (start o source s)).sent
          ≡ some (o.view (read_all o (changes es) s))
    -- and one turn of the main loop suffices
    pub turn :
        latest (step o source idle (run o source es (start o source s))).sent
        ≡ some (o.view (read_all o (changes es) s))
    -- there are no more calls of the clients than changes and registrations, and the first
    pub bound : length (run o source es (start o source s)).sent ≤ requests es + 1
    -- and a destroyed object has no source
    pub single : (run o source es (start o source s)).sources ≤ 1
    pub released : (destroy o source (run o source es (start o source s))).sources ≡ 0

module _ {E S V : Type 0} (o : Object E S V) (source : ℕ → ℕ) (positive : (n : ℕ) → 0 < source n)
    (quiet : IsQuiet o) where
  -- The field says what the main loop holds; with nothing pending the clients have the present data;
  -- and there were no more notifications than requests for one.
  pub record IsSound (bound : ℕ) (l : Loop S V) : Type 0 where
    pub tracked : l.sources ≡ (if l.idle_id == 0 then 0 else 1)
    pub fresh : l.sources ≡ 0 → latest l.sent ≡ some (o.view l.data_now)
    pub coalesced : length l.sent + l.sources ≤ bound

  step-IsSound :
      (e : Event E) (n : ℕ) (l : Loop S V)
      → IsSound n l
      → IsSound (request e + n) (step o source e l)
  unfolding step
  step-IsSound (changed e) n l h = ground (arith, h, quiet e l.data_now, positive l.added)
  step-IsSound registered n l h = ground (arith, h, positive l.added)
  step-IsSound idle n l h = ground (arith, h)

  weaken : (m n : ℕ) (l : Loop S V) → n ≤ m → IsSound n l → IsSound m l
  weaken m n l le h = ground (arith, h)

  run-IsSound :
      (es : List (Event E)) (m n : ℕ) (l : Loop S V)
      → requests es + n ≤ m
      → IsSound n l
      → IsSound m (run o source es l)
  unfolding run
  run-IsSound [] m n l le h = weaken m n l (omega arith) h
  run-IsSound (e ∷ es) m n l le h =
      run-IsSound es m (request e + n) (step o source e l) (counted e le) (step-IsSound e n l h)
    where
      counted : (e : Event E) → requests (e ∷ es) + n ≤ m → requests es + (request e + n) ≤ m
      counted (changed e) k = omega arith
      counted registered k = omega arith
      counted idle k = omega arith

  start-IsSound : (s : S) → IsSound 1 (start o source s)
  unfolding start
  start-IsSound s = ground (arith, positive 0)

  data-run :
      (es : List (Event E)) (l : Loop S V)
      → (run o source es l).data_now ≡ read_all o (changes es) l.data_now
  unfolding run step read_all
  data-run [] l = refl
  data-run (changed e ∷ es) l = ground (arith, data-run es (property_changed o source e l))
  data-run (registered ∷ es) l = ground (arith, data-run es (notify o source l))
  data-run (idle ∷ es) l = ground (arith, data-run es (step o source idle l))

  start-data : (xs : List E) (s : S) → read_all o xs (start o source s).data_now ≡ read_all o xs s
  unfolding start
  start-data xs s = refl

  turn_of :
      (n : ℕ) (l : Loop S V)
      → IsSound n l
      → latest (step o source idle l).sent ≡ some (o.view l.data_now)
  unfolding step
  turn_of n l h = ground (arith, h)

  rest_of :
      (n : ℕ) (l : Loop S V) → IsSound n l → (l.sources ≤ 1) × ((destroy o source l).sources ≡ 0)
  unfolding destroy
  rest_of n l h = ground (arith, h)

  pub served : (s : S) (es : List (Event E)) → IsServed o source s es
  served s es =
      let l = run o source es (start o source s) in
      let now : l.data_now ≡ read_all o (changes es) s =
        data-run es (start o source s) ∙ start-data (changes es) s in
      let h =
        run-IsSound es (requests es + 1) 1 (start o source s) (omega arith) (start-IsSound s) in
      record {
        current = now;
        fresh = λ z. h.fresh z ∙ ap (λ d. some (o.view d)) now;
        turn = turn_of (requests es + 1) l h ∙ ap (λ d. some (o.view d)) now;
        bound = omega (arith, h.coalesced);
        single = (rest_of (requests es + 1) l h).0;
        released = (rest_of (requests es + 1) l h).1;
      }
