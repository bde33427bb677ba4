-- ===== src/Settings/Progress.antt =====
-- The progress indicator of the settings, from showing a modem until its settings are read.
use connui_cellular.Prelude.{
  ℕ, suc, ◌<◌, ◌≡◌, refl, ap, ◌∙◌, String, Bool, true, false, not, ◌&&◌, ◌||◌, Option, none, some,
  List, [], ◌∷◌, ltb, ◌==◌, nat_eq, inl, inr, arith, Bool-cases, Option-cases, is_some,
}
use connui_cellular.Settings.{
  Request, Answer, clir, waiting, forward, forward_failed, clir_set, waiting_set, request_of,
  Settings, made_if, answered, stop_progress_indicator, show_widgets, choose_divert, get_clir_cb,
  first_enabled, forward_read, get_forward_cb, get_forward_failed, ask_forward, get_waiting_cb,
  handle, take, receive, number_of, is_cancelled, call_show, modem_show, disable_widgets,
}
use connui_cellular.Settings.Counter.{count, count-take, drain}

-- What reads the settings.
abbrev reads : Request → Bool
reads r = ltb (number_of r) 3

abbrev all_read : List Request → Bool
all_read [] = true
all_read (r ∷ rs) = reads r && all_read rs

abbrev cancels : Answer → Bool
cancels (waiting b e id) = is_cancelled e
cancels (forward_failed e) = is_cancelled (some e)
cancels a = false

abbrev pub none_cancels : List Answer → Bool
none_cancels [] = true
none_cancels (a ∷ answers) = not (cancels a) && none_cancels answers

abbrev pub is_nil : List Request → Bool
is_nil [] = true
is_nil (r ∷ rs) = false

-- The indicator is on while requests are outstanding, and the button to save takes input otherwise.
record IsIndicated (s : Settings) : Type 0 where
  exact : s.pending ≡ count s.outstanding
  few : count s.outstanding < 3
  progress : s.progress ≡ not (is_nil s.outstanding)
  ok_sensitive : s.ok_sensitive ≡ is_nil s.outstanding
  reading : all_read s.outstanding ≡ true

-- An answer is about to be handled: both are as they were.
record IsDue (s : Settings) : Type 0 where
  exact : s.pending ≡ suc (count s.outstanding)
  few : count s.outstanding < 2
  progress : s.progress ≡ true
  ok_sensitive : s.ok_sensitive ≡ false
  reading : all_read s.outstanding ≡ true

is_nil-count : (l : List Request) → is_nil l ≡ (count l == 0)
is_nil-count [] = refl
is_nil-count (r ∷ rs) = ground arith

stop-IsIndicated : (s : Settings) → IsDue s → IsIndicated (stop_progress_indicator s)
unfolding stop_progress_indicator answered
stop-IsIndicated s d =
    ground
      (arith, d.exact, d.few, d.progress, d.ok_sensitive, d.reading, is_nil-count s.outstanding)

answered-IsDue :
    (s t : Settings)
    → s.pending ≡ t.pending
    → s.outstanding ≡ t.outstanding
    → s.progress ≡ t.progress
    → s.ok_sensitive ≡ t.ok_sensitive
    → IsDue s
    → IsDue t
answered-IsDue s t p o g k d =
    ground (arith, p, o, g, k, d.exact, d.few, d.progress, d.ok_sensitive, d.reading)

same-IsIndicated :
    (s t : Settings)
    → s.pending ≡ t.pending
    → s.outstanding ≡ t.outstanding
    → s.progress ≡ t.progress
    → s.ok_sensitive ≡ t.ok_sensitive
    → IsIndicated s
    → IsIndicated t
same-IsIndicated s t p o g k d =
    ground (arith, p, o, g, k, d.exact, d.few, d.progress, d.ok_sensitive, d.reading)

ask_forward-IsIndicated : (id : ℕ) (s : Settings) → IsDue s → IsIndicated (ask_forward id s)
unfolding ask_forward
ask_forward-IsIndicated id s d = elim (Bool-cases (id == 0)) [
  | inl e ↦ rw e (stop-IsIndicated _ (answered-IsDue s _ refl refl refl refl d))
  | inr e ↦ rw e (record {
    exact = d.exact;
    few = omega (arith, d.few);
    progress = d.progress;
    ok_sensitive = d.ok_sensitive;
    reading = d.reading;
  })
]

forward_read-IsIndicated :
    (b : Bool) (n : Option String) (ok : Bool) (s : Settings)
    → IsDue s
    → IsIndicated (forward_read b n ok s)
unfolding forward_read choose_divert show_widgets
forward_read-IsIndicated b n ok s d =
    same-IsIndicated (stop_progress_indicator s) _ refl refl refl refl (stop-IsIndicated s d)

handle-IsIndicated :
    (a : Answer) (s : Settings)
    → cancels a ≡ false
    → reads (request_of a) ≡ true
    → IsDue s
    → IsIndicated (handle a s)
unfolding handle get_clir_cb get_waiting_cb get_forward_cb get_forward_failed
handle-IsIndicated (clir n e) s c r d =
    stop-IsIndicated _ (answered-IsDue s _ refl refl refl refl d)
handle-IsIndicated (waiting v e id) s c r d = rw c (
    let t : Settings = record s {
      waiting_enabled = v;
      waiting_active = v;
      waiting_sensitive = s.waiting_sensitive || not (is_some e);
    } in
    ask_forward-IsIndicated id t (answered-IsDue s t refl refl refl refl d))
handle-IsIndicated (forward f) s c r d =
    forward_read-IsIndicated (first_enabled f).0 (first_enabled f).1 true _
      (answered-IsDue s _ refl refl refl refl d)
handle-IsIndicated (forward_failed e) s c r d =
    rw c (forward_read-IsIndicated false none false _ (answered-IsDue s _ refl refl refl refl d))
handle-IsIndicated clir_set s c r d = cc
handle-IsIndicated waiting_set s c r d = cc

and_right : (a b : Bool) → a && b ≡ true → b ≡ true
and_right a b h = ground (arith, h)

take-reads :
    (r : Request) (l l' : List Request)
    → all_read l ≡ true
    → take r l ≡ some l'
    → (reads r ≡ true) × (all_read l' ≡ true)
unfolding take
take-reads r [] l' h e = cc
take-reads r (q ∷ qs) l' h e = elim (Bool-cases (number_of q == number_of r)) [
  | inl s ↦ ground (arith, rw (s) at e, h)
  | inr s ↦ elim (Option-cases (take r qs)) [
    | inl n ↦ absurd (ground (arith, rw (s, n) at e))
    | inr (m, n) ↦
        ground (arith, rw (s, n) at e, take-reads r qs m (and_right (reads q) (all_read qs) h) n, h)
  ]
]

receive-IsIndicated :
    (a : Answer) (s : Settings) → cancels a ≡ false → IsIndicated s → IsIndicated (receive a s)
unfolding receive
receive-IsIndicated a s c v = elim (Option-cases (take (request_of a) s.outstanding)) [
  | inl e ↦ rw (e, receive) v
  | inr (rest, e) ↦
      rw (e, receive)
        (let one = count-take (request_of a) s.outstanding rest e in
          let read = take-reads (request_of a) s.outstanding rest v.reading e in
          handle-IsIndicated a (record s { outstanding = rest }) c read.0
            (record {
              exact = v.exact ∙ one;
              few = omega (arith, v.few, one);
              progress = ground (arith, v.progress, is_nil-count s.outstanding, one);
              ok_sensitive = ground (arith, v.ok_sensitive, is_nil-count s.outstanding, one);
              reading = read.1;
            }))
]

drain-IsIndicated :
    (answers : List Answer) (s : Settings)
    → none_cancels answers ≡ true
    → IsIndicated s
    → IsIndicated (drain answers s)
unfolding drain
drain-IsIndicated [] s h v = v
drain-IsIndicated (a ∷ answers) s h v = elim (Bool-cases (cancels a)) [
  | inl c ↦ absurd (ground (arith, h, c))
  | inr c ↦ drain-IsIndicated answers (receive a s) (and_right _ _ h) (receive-IsIndicated a s c v)
]

-- Nothing was asked, and nothing ever answers.
module _ (s : Settings) (p : s.outstanding ≡ []) where
  receive-nothing : (a : Answer) → receive a s ≡ s
  unfolding receive take
  receive-nothing a = ground (arith, p)

drain-nothing : (answers : List Answer) (s : Settings) → s.outstanding ≡ [] → drain answers s ≡ s
unfolding drain
drain-nothing [] s p = refl
drain-nothing (a ∷ answers) s p = rw (receive-nothing s p a) (drain-nothing answers s p)

modem_show-started :
    (clir_ok : Bool) (id : ℕ) (s : Settings)
    → s.pending ≡ 0
    → s.outstanding ≡ []
    → clir_ok || not (id == 0) ≡ true
    → IsIndicated (modem_show clir_ok id s)
unfolding modem_show call_show made_if choose_divert disable_widgets show_widgets
modem_show-started true id s p o h = elim (Bool-cases (id == 0)) [
  | inl e ↦ ground (arith, p, o, e)
  | inr e ↦ ground (arith, p, o, e)
]
modem_show-started false id s p o h = ground (arith, p, o, h)

modem_show-nothing :
    (clir_ok : Bool) (id : ℕ) (s : Settings)
    → clir_ok || not (id == 0) ≡ false
    → (modem_show clir_ok id s).outstanding ≡ s.outstanding
unfolding modem_show call_show made_if choose_divert disable_widgets show_widgets
modem_show-nothing true id s h = cc
modem_show-nothing false id s h = ground (arith, h)

modem_show-alone :
    (clir_ok : Bool) (id : ℕ) (s : Settings)
    → clir_ok || not (id == 0) ≡ false
    → ((modem_show clir_ok id s).progress ≡ true)
      × ((modem_show clir_ok id s).ok_sensitive ≡ false)
      × ((modem_show clir_ok id s).pending ≡ s.pending)
unfolding modem_show call_show made_if choose_divert disable_widgets show_widgets
modem_show-alone true id s h = cc
modem_show-alone false id s h = ground (arith, h)

-- A modem is shown while nothing is outstanding, and its settings are asked for. If a request can be
-- made, and none of the answers is a cancellation, the progress indicator is on as long as a request
-- is outstanding, and off then, and it is then that the button to save takes input. If no request can
-- be made, no answer to a request turns the indicator off, or lets the button take input.
pub modem_show-progress :
    (clir_ok : Bool) (id : ℕ) (answers : List Answer) (s : Settings)
    → s.pending ≡ 0
    → s.outstanding ≡ []
    → none_cancels answers ≡ true
    → let t = drain answers (modem_show clir_ok id s) in
      (clir_ok || not (id == 0) ≡ true
        → (t.progress ≡ not (is_nil t.outstanding))
          × (t.ok_sensitive ≡ is_nil t.outstanding)
          × (t.pending ≡ count t.outstanding))
      × (clir_ok || not (id == 0) ≡ false
          → (t.progress ≡ true) × (t.ok_sensitive ≡ false) × (t.pending ≡ 0))
modem_show-progress clir_ok id answers s p o h = (
  λ e.
      let v = drain-IsIndicated answers _ h (modem_show-started clir_ok id s p o e) in
      (v.progress, v.ok_sensitive, v.exact),
  λ e.
      let still = drain-nothing answers _ (modem_show-nothing clir_ok id s e ∙ o) in
      let alone = modem_show-alone clir_ok id s e in
      (
        ap (λ t. t.progress) still ∙ alone.0,
        ap (λ t. t.ok_sensitive) still ∙ alone.1,
        ap (λ t. t.pending) still ∙ (alone.2 ∙ p),
      ),
)
