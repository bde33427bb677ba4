-- ===== src/CodeUi/Codes/Kept.antt =====
-- What the questions of lib/code-ui.c leave as it was: the filters match the dialogs, and no timer or
-- callback comes or goes.
use connui_cellular.Prelude.{
  ℕ, zero, suc, ◌≤◌, ◌≡◌, refl, String, Bool, true, false, Option, none, some, List, ◌==◌,
  string_eq, arith, Bool-cases, inl, inr, not, ◌||◌,
}
use connui_cellular.Sim.{CodeType}
use connui_cellular.CodeUi.{
  State, pin_error, new_pin, confirm_pin, Ui, incorrect_pin_change, close_dialog, create_dialog,
}
use connui_cellular.CodeUi.Codes.{
  Response, run_dialog, left_dialog, get_code, NewCode, waits, refused, given, compared, settle,
  second_code, first_code, get_new_code, length, Query, replies, code_cb, ask_old, with_old,
  with_new, with_answer, keep, known_code, enter_query, is_idle,
}

-- The root window has the filters that are counted: one at most, and none without a dialog.
pub record IsSound (u : Ui) : Type 0 where
  pub counted : u.filters ≡ u.filters_count
  pub single : u.filters_count ≤ 1
  pub closed : u.dialog ≡ false → u.filters_count ≡ 0

-- The two are alike in timers and callbacks.
pub record Alike (u v : Ui) : Type 0 where
  pub same_timers : v.timers ≡ u.timers
  pub same_timeout : v.sim_status_timeout ≡ u.sim_status_timeout
  pub same_status : v.status_open ≡ u.status_open
  pub same_code : v.code_open ≡ u.code_open
  pub same_modem : v.modem_id ≡ u.modem_id

abbrev pub Kept : Ui → Ui → Type 0
Kept u v = IsSound v × Alike u v

pub Kept-close_dialog :
    (u : Ui) → IsSound u → Kept u (close_dialog u) × ((close_dialog u).dialog ≡ false)
unfolding close_dialog
Kept-close_dialog u h = ground arith

Kept-create_dialog : (u : Ui) → IsSound u → u.dialog ≡ false → Kept u (create_dialog u)
unfolding create_dialog
Kept-create_dialog u h n = ground arith

Kept-left_dialog : (c : Option String) (u : Ui) → IsSound u → Kept u (left_dialog c u)
unfolding left_dialog
Kept-left_dialog none u h = (Kept-close_dialog u h).0
Kept-left_dialog (some c) u h = ground arith

Kept-trans : {u v w : Ui} → Kept u v → Kept v w → Kept u w
Kept-trans h k = ground arith

asked :
    (c : Option String) (u : Ui)
    → IsSound u
    → Kept u (left_dialog c (create_dialog (close_dialog u)))
asked c u h =
    let (a, n) = Kept-close_dialog u h in
    let b = Kept-create_dialog (close_dialog u) a.0 n in
    Kept-trans (Kept-trans a b) (Kept-left_dialog c (create_dialog (close_dialog u)) b.0)

abbrev KeptNew : Ui → NewCode → Type 0
KeptNew u waits = u ≡ u
KeptNew u (refused v rs) = Kept u v
KeptNew u (given c v rs) = Kept u v

abbrev pub KeptQuery : Ui → Query → Type 0
KeptQuery u Query.waits = u ≡ u
KeptQuery u (replies r v rs) = Kept u v

KeptNew-trans : {u v : Ui} (r : NewCode) → Kept u v → KeptNew v r → KeptNew u r
KeptNew-trans waits h k = refl
KeptNew-trans (refused w rs) h k = Kept-trans h k
KeptNew-trans (given c w rs) h k = Kept-trans h k

KeptQuery-trans : {u v : Ui} (r : Query) → Kept u v → KeptQuery v r → KeptQuery u r
KeptQuery-trans Query.waits h k = refl
KeptQuery-trans (replies r w rs) h k = Kept-trans h k

abbrev Keeps : (Ui → List Response → NewCode) → Type 0
Keeps f = (u : Ui) (rs : List Response) → IsSound u → KeptNew u (f u rs)

abbrev in_state : State → Ui → Ui
in_state s u = record u { state = s }

Kept-in_state : (s : State) (u : Ui) → IsSound u → Kept u (in_state s u)
Kept-in_state s u h = ground arith

abbrev KeptAnswer : Ui → Option (Option String × Ui × List Response) → Type 0
KeptAnswer u none = u ≡ u
KeptAnswer u (some (c, v, rest)) = Kept u v

get_code-Kept : (u : Ui) (rs : List Response) → IsSound u → KeptAnswer u (get_code u rs)
unfolding get_code
get_code-Kept u rs h = by_answer (run_dialog rs)
  where
    by_answer :
        (o : Option (Option String × List Response))
        → KeptAnswer u (elim o [
          | none ↦ none
          | some (c, rest) ↦ some (c, left_dialog c (create_dialog (close_dialog u)), rest)
        ])
    by_answer none = refl
    by_answer (some (c, rest)) = asked c u h

-- A question to the user, with what follows it.
answered :
    (u : Ui) (o : Option (Option String × Ui × List Response))
    (k : Option String → Ui → List Response → NewCode)
    → ((c : Option String) (v : Ui) (rest : List Response) → IsSound v → KeptNew v (k c v rest))
    → KeptAnswer u o
    → KeptNew u (elim o [ none ↦ waits | some (c, v, rest) ↦ k c v rest ])
answered u none k after h = refl
answered u (some (c, v, rest)) k after h = KeptNew-trans (k c v rest) h (after c v rest h.0)

compared-Kept :
    (f : Ui → List Response → NewCode) (c : String) (d : Option String) (u : Ui)
    (rs : List Response)
    → Keeps f
    → IsSound u
    → KeptNew u (settle (compared c d u rs) (λ x. f x rs))
unfolding settle compared
compared-Kept f c none u rs ih h = Kept-in_state pin_error u h
compared-Kept f c (some d) u rs ih h = elim (Bool-cases (c == d)) [
  | inl e ↦ rw e (ground (arith, h))
  | inr e ↦ rw e (
      KeptNew-trans (f (record u { pin_message = some incorrect_pin_change }) rs)
        (ground (arith, h))
        (ih (record u { pin_message = some incorrect_pin_change }) rs (ground (arith, h))))
]

first-Kept :
    (f : Ui → List Response → NewCode) (c : Option String) (u : Ui) (rs : List Response)
    → Keeps f
    → IsSound u
    → KeptNew u (first_code c u rs f)
unfolding first_code second_code
first-Kept f none u rs ih h = Kept-in_state pin_error u h
first-Kept f (some c) u rs ih h =
    KeptNew-trans (second_code c u rs f) (Kept-in_state confirm_pin u h) (
      answered (in_state confirm_pin u) (get_code (in_state confirm_pin u) rs)
        (λ d v rest. settle (compared c d v rest) (λ x. f x rest))
        (λ d v rest. compared-Kept f c d v rest ih)
        (get_code-Kept (in_state confirm_pin u) rs (Kept-in_state confirm_pin u h).0))

get_new_code-Kept : (n : ℕ) → Keeps (get_new_code n)
unfolding get_new_code
get_new_code-Kept zero u rs h = refl
get_new_code-Kept (suc n) u rs h =
    KeptNew-trans (get_new_code (suc n) u rs) (Kept-in_state new_pin u h) (
      answered (in_state new_pin u) (get_code (in_state new_pin u) rs)
        (λ c v rest. first_code c v rest (get_new_code n))
        (λ c v rest. first-Kept (get_new_code n) c v rest (get_new_code-Kept n))
        (get_code-Kept (in_state new_pin u) rs (Kept-in_state new_pin u h).0))

with_new-Kept :
    (ty : CodeType) (old : String) (u : Ui) (r : NewCode)
    → KeptNew u r
    → KeptQuery u (with_new ty old r)
unfolding with_new keep
with_new-Kept ty old u waits h = refl
with_new-Kept ty old u (refused v rs) h = h
with_new-Kept ty old u (given c v rs) h = ground (arith, h)

with_old-Kept :
    (ty : CodeType) (wants : Bool) (old : String) (u : Ui) (rs : List Response)
    → IsSound u
    → KeptQuery u (with_old ty wants old u rs)
unfolding with_old keep
with_old-Kept ty true old u rs h =
    with_new-Kept ty old u (get_new_code (length rs) u rs) (get_new_code-Kept (length rs) u rs h)
with_old-Kept ty false old u rs h = ground (arith, h)

with_answer-Kept :
    (ty : CodeType) (wants : Bool) (c : Option String) (u : Ui) (rs : List Response)
    → IsSound u
    → KeptQuery u (with_answer ty wants c u rs)
unfolding with_answer
with_answer-Kept ty wants none u rs h = Kept-in_state pin_error u h
with_answer-Kept ty wants (some c) u rs h = with_old-Kept ty wants c u rs h

ask_old-Kept :
    (ty : CodeType) (wants : Bool) (old : Option String) (u : Ui) (rs : List Response)
    → IsSound u
    → KeptQuery u (ask_old ty wants old u rs)
unfolding ask_old
ask_old-Kept ty wants (some old) u rs h = with_old-Kept ty wants old u rs h
ask_old-Kept ty wants none u rs h = by_answer (get_code u rs) (get_code-Kept u rs h)
  where
    by_answer :
        (o : Option (Option String × Ui × List Response))
        → KeptAnswer u o
        → KeptQuery u
            (elim o [ none ↦ Query.waits | some (c, v, rest) ↦ with_answer ty wants c v rest ])
    by_answer none k = refl
    by_answer (some (c, v, rest)) k =
        KeptQuery-trans (with_answer ty wants c v rest) k (with_answer-Kept ty wants c v rest k.0)

-- A query takes away or adds no timer and no callback, and keeps the filters right.
pub code_cb-Kept :
    (modem_id : String) (ty : CodeType) (wants : Bool) (u : Ui) (rs : List Response)
    → IsSound u
    → KeptQuery u (code_cb modem_id ty wants u rs)
unfolding code_cb
code_cb-Kept modem_id ty wants u rs h =
    elim (Bool-cases (not (modem_id == u.modem_id) || is_idle u.state)) [
      | inl e ↦ rw e (ground (arith, h))
      | inr e ↦ rw e (
          KeptQuery-trans (ask_old ty wants (known_code ty u) (in_state (enter_query u.state) u) rs)
            (Kept-in_state (enter_query u.state) u h)
            (ask_old-Kept ty wants (known_code ty u) (in_state (enter_query u.state) u) rs
              (Kept-in_state (enter_query u.state) u h).0))
    ]
