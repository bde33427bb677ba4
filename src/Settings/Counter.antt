-- ===== src/Settings/Counter.antt =====
-- The counter of the requests that are outstanding, and the loops that wait for it.
use connui_cellular.Prelude.{
  ℕ, suc, ◌<◌, ◌^◌, ◌≡◌, ◌≢◌, refl, sym, ap, subst, String, ◌∙◌, Bool, true, false, not, ◌||◌,
  Option, none, some, List, [], ◌∷◌, ◌++◌, ◌==◌, nat_eq, nat_beq_iff, inl, inr, arith, Bool-cases,
  Option-cases, is_some,
}
use connui_cellular.Settings.{
  Request, Answer, clir, waiting, forward, forward_failed, clir_set, waiting_set, request_of,
  Settings, answered, stop_progress_indicator, show_widgets, choose_divert, get_clir_cb,
  first_enabled, forward_read, get_forward_cb, get_forward_failed, ask_forward, get_waiting_cb,
  handle, take, receive, wait, number_of, is_cancelled,
}

abbrev pub count : List Request → ℕ
count [] = 0
count (r ∷ rs) = suc (count rs)

-- The counter counts; there are fewer requests than a gint can count.
pub record IsCounted (s : Settings) : Type 0 where
  pub exact : s.pending ≡ count s.outstanding
  pub bounded : count s.outstanding < 2 ^ 31

-- An answer is about to be handled, and its request is out already.
record IsDue (s : Settings) : Type 0 where
  exact : s.pending ≡ suc (count s.outstanding)
  bounded : suc (count s.outstanding) < 2 ^ 31

pub count-take : (r : Request) (l l' : List Request) → take r l ≡ some l' → count l ≡ suc (count l')
unfolding take
count-take r [] l' h = cc
count-take r (q ∷ qs) l' h = elim (Bool-cases (number_of q == number_of r)) [
  | inl e ↦ ground (arith, rw e at h)
  | inr e ↦ elim (Option-cases (take r qs)) [
    | inl n ↦ ground (arith, rw (e, n) at h)
    | inr (m, n) ↦ ground (arith, rw (e, n) at h, count-take r qs m n)
  ]
]

answered-IsCounted : (s : Settings) → IsDue s → IsCounted (answered s)
unfolding answered
answered-IsCounted s d = record {
  exact = omega (arith, d.exact, d.bounded);
  bounded = omega (arith, d.bounded);
}

stop_progress_indicator-IsCounted : (s : Settings) → IsDue s → IsCounted (stop_progress_indicator s)
unfolding stop_progress_indicator answered
stop_progress_indicator-IsCounted s d = ground (arith, d.exact, d.bounded)

ask_forward-IsCounted : (id : ℕ) (s : Settings) → IsDue s → IsCounted (ask_forward id s)
unfolding ask_forward stop_progress_indicator answered
ask_forward-IsCounted id s d = ground (arith, d.exact, d.bounded)

-- Other fields do not matter.
same-IsDue :
    (s t : Settings) → s.pending ≡ t.pending → s.outstanding ≡ t.outstanding → IsDue s → IsDue t
same-IsDue s t p o d = record {
  exact = sym p ∙ (d.exact ∙ ap (λ l. suc (count l)) o);
  bounded = subst (λ l. suc (count l) < 2 ^ 31) o d.bounded;
}

same-IsCounted :
    (s t : Settings)
    → s.pending ≡ t.pending
    → s.outstanding ≡ t.outstanding
    → IsCounted s
    → IsCounted t
same-IsCounted s t p o d = record {
  exact = sym p ∙ (d.exact ∙ ap count o);
  bounded = subst (λ l. count l < 2 ^ 31) o d.bounded;
}

forward_read-IsCounted :
    (b : Bool) (n : Option String) (ok : Bool) (s : Settings)
    → IsDue s
    → IsCounted (forward_read b n ok s)
unfolding forward_read choose_divert show_widgets
forward_read-IsCounted b n ok s d =
    same-IsCounted (stop_progress_indicator s) _ refl refl (stop_progress_indicator-IsCounted s d)

handle-IsCounted : (a : Answer) (s : Settings) → IsDue s → IsCounted (handle a s)
unfolding handle get_clir_cb get_waiting_cb get_forward_cb get_forward_failed
handle-IsCounted (clir n e) s d = stop_progress_indicator-IsCounted _ (same-IsDue s _ refl refl d)
handle-IsCounted (waiting v e id) s d = elim (Bool-cases (is_cancelled e)) [
  | inl c ↦ rw c (answered-IsCounted _ (same-IsDue s _ refl refl d))
  | inr c ↦ rw c (
      let t : Settings = record s {
        waiting_enabled = v;
        waiting_active = v;
        waiting_sensitive = s.waiting_sensitive || not (is_some e);
      } in
      ask_forward-IsCounted id t (same-IsDue s t refl refl d))
]
handle-IsCounted (forward f) s d =
    forward_read-IsCounted (first_enabled f).0 (first_enabled f).1 true _
      (same-IsDue s _ refl refl d)
handle-IsCounted (forward_failed e) s d = elim (Bool-cases (is_cancelled (some e))) [
  | inl c ↦ rw c (answered-IsCounted _ (same-IsDue s _ refl refl d))
  | inr c ↦ rw c (forward_read-IsCounted false none false _ (same-IsDue s _ refl refl d))
]
handle-IsCounted clir_set s d = answered-IsCounted s d
handle-IsCounted waiting_set s d = answered-IsCounted s d

pub receive-IsCounted : (a : Answer) (s : Settings) → IsCounted s → IsCounted (receive a s)
unfolding receive
receive-IsCounted a s c = elim (Option-cases (take (request_of a) s.outstanding)) [
  | inl e ↦ rw (e, receive) c
  | inr (rest, e) ↦
      rw (e, receive)
        (let one = count-take (request_of a) s.outstanding rest e in
          handle-IsCounted a (record s { outstanding = rest })
            (record { exact = c.exact ∙ one; bounded = omega (arith, c.bounded, one) }))
]

-- All the answers, with no loop.
unfoldable pub drain : List Answer → Settings → Settings
drain [] s = s
drain (a ∷ answers) s = drain answers (receive a s)

count-zero : (l : List Request) → count l ≡ 0 → l ≡ []
count-zero [] h = refl
count-zero (r ∷ rs) h = absurd (omega (arith, h))

pub wait-idle :
    (answers : List Answer) (s : Settings)
    → (s.pending == 0) ≡ true
    → wait answers s ≡ some (s, answers)
unfolding wait
wait-idle [] s e = rw e
wait-idle (a ∷ answers) s e = rw e

pub wait-busy :
    (a : Answer) (answers : List Answer) (s : Settings)
    → (s.pending == 0) ≡ false
    → wait (a ∷ answers) s ≡ wait answers (receive a s)
unfolding wait
wait-busy a answers s e = rw e

wait-stuck : (s : Settings) → (s.pending == 0) ≡ false → wait [] s ≡ none
unfolding wait
wait-stuck s e = rw e

-- A loop has ended with the answers `used`, and none is due.
pub record IsEnded (answers : List Answer) (s t : Settings) (left : List Answer) : Type 0 where
  pub counted : IsCounted t
  pub idle : t.pending ≡ 0
  pub settled : t.outstanding ≡ []
  pub used : List Answer
  pub split : used ++ left ≡ answers
  pub drained : t ≡ drain used s

idle-IsEnded :
    (answers : List Answer) (s : Settings)
    → IsCounted s
    → (s.pending == 0) ≡ true
    → IsEnded answers s s answers
unfolding drain
idle-IsEnded answers s c e =
    let zero' = (nat_beq_iff s.pending 0).0 e in
    record {
      counted = c;
      idle = zero';
      settled = count-zero s.outstanding (sym c.exact ∙ zero');
      used = [];
      split = refl;
      drained = refl;
    }

later-IsEnded :
    (a : Answer) (answers : List Answer) (s t : Settings) (left : List Answer)
    → IsEnded answers (receive a s) t left
    → IsEnded (a ∷ answers) s t left
unfolding drain
later-IsEnded a answers s t left v = record {
  counted = v.counted;
  idle = v.idle;
  settled = v.settled;
  used = a ∷ v.used;
  split = ap (λ l. a ∷ l) v.split;
  drained = v.drained;
}

-- The loop waits for ever on the answers, or ends.
pub data Waits (answers : List Answer) (s : Settings) : Type 0 where
  ended :
      (t : Settings) (left : List Answer)
      → wait answers s ≡ some (t, left)
      → IsEnded answers s t left
      → Waits answers s
  stuck : wait answers s ≡ none → (drain answers s).outstanding ≢ [] → Waits answers s

-- A loop that waits for the requests, entered with the counter right, and given any answers: either it
-- ends, with nothing outstanding and the counter at zero, in the state that the answers up to there
-- leave, although an answer may make a new request; or it waits for more, and then the answers leave
-- some request outstanding.
pub wait-Waits : (answers : List Answer) (s : Settings) → IsCounted s → Waits answers s
unfolding drain
wait-Waits [] s c = elim (Bool-cases (s.pending == 0)) [
  | inl e ↦ ended s [] (wait-idle [] s e) (idle-IsEnded [] s c e)
  | inr e ↦ stuck (wait-stuck s e) (λ n. absurd (ground (arith, c.exact, ap count n, e)))
]
wait-Waits (a ∷ answers) s c = elim (Bool-cases (s.pending == 0)) [
  | inl e ↦ ended s (a ∷ answers) (wait-idle (a ∷ answers) s e) (idle-IsEnded (a ∷ answers) s c e)
  | inr e ↦ elim (wait-Waits answers (receive a s) (receive-IsCounted a s c)) [
    | ended t left w v ↦
        ended t left (wait-busy a answers s e ∙ w) (later-IsEnded a answers s t left v)
    | stuck w n ↦ stuck (wait-busy a answers s e ∙ w) n
  ]
]
