-- ===== src/Settings/Applied.antt =====
-- What saving the settings sends.
use connui_cellular.Prelude.{
  ◌≡◌, refl, sym, ap, subst, ◌∙◌, Bool, true, false, not, ◌&&◌, some, List, [], ◌∷◌, ◌==◌, nat_eq,
  string_eq, if◌then◌else◌, arith,
}
use connui_cellular.Settings.{
  Request, set_clir, set_waiting, Answer, clir, waiting, forward, forward_failed, clir_set,
  waiting_set, Settings, made_if, answered, handle, take, receive, wait,
}
use connui_cellular.Settings.Counter.{wait-idle, wait-busy}
use connui_cellular.Settings.Apply.{
  bool_eq, chosen, apply_anonymity, apply_waiting, show_applying, enable_if, apply_calls,
  lacks_number, apply,
}

-- The answers to the two requests come, the second after the first.
abbrev pub has_waiting : List Answer → Bool
has_waiting [] = false
has_waiting (waiting_set ∷ answers) = true
has_waiting (a ∷ answers) = has_waiting answers

abbrev pub in_order : List Answer → Bool
in_order [] = false
in_order (clir_set ∷ answers) = has_waiting answers
in_order (a ∷ answers) = in_order answers

abbrev clir_differs : Settings → Bool
clir_differs s = not (chosen s.cid == s.anonimity)

abbrev waiting_differs : Settings → Bool
waiting_differs s = not (bool_eq s.waiting_active s.waiting_enabled)

abbrev pub sent_if : Bool → Request → List Request → List Request
sent_if true r l = r ∷ l
sent_if false r l = l

-- The settings once they are saved.
abbrev pub saved : Bool → Bool → Bool → Settings → Settings
saved enable clir_ok waiting_ok s = record s {
  applying = false;
  progress = not enable;
  vbox_sensitive = enable;
  ok_sensitive = enable;
  asked =
      sent_if (waiting_differs s && waiting_ok) set_waiting
        (sent_if (clir_differs s && clir_ok) set_clir s.asked);
}

in_order-has_waiting :
    (answers : List Answer) → in_order answers ≡ true → has_waiting answers ≡ true
in_order-has_waiting [] h = h
in_order-has_waiting (clir n e ∷ l) h = in_order-has_waiting l h
in_order-has_waiting (waiting b e id ∷ l) h = in_order-has_waiting l h
in_order-has_waiting (forward f ∷ l) h = in_order-has_waiting l h
in_order-has_waiting (forward_failed e ∷ l) h = in_order-has_waiting l h
in_order-has_waiting (clir_set ∷ l) h = h
in_order-has_waiting (waiting_set ∷ l) h = refl

-- One request that changes a setting is out.
abbrev asking : Request → Settings → Settings
asking r s = record s { pending = 1; outstanding = r ∷ [] }

abbrev at_rest : Settings → Settings
at_rest s = record s { pending = 0; outstanding = [] }

module _ (s : Settings) where
  -- The loop for the first request leaves the answer to the second.
  wait-set_clir :
      (answers : List Answer)
      → in_order answers ≡ true
      → (left : List Answer) × (wait answers (asking set_clir s) ≡ some (at_rest s, left))
        × (has_waiting left ≡ true)
  unfolding receive take handle answered wait
  wait-set_clir [] h = absurd cc
  wait-set_clir (clir n e ∷ l) h = wait-set_clir l h
  wait-set_clir (waiting b e id ∷ l) h = wait-set_clir l h
  wait-set_clir (forward f ∷ l) h = wait-set_clir l h
  wait-set_clir (forward_failed e ∷ l) h = wait-set_clir l h
  wait-set_clir (clir_set ∷ l) h =
      (l, wait-busy clir_set l (asking set_clir s) refl ∙ wait-idle l (at_rest s) refl, h)
  wait-set_clir (waiting_set ∷ l) h = wait-set_clir l h

  wait-set_waiting :
      (answers : List Answer)
      → has_waiting answers ≡ true
      → (left : List Answer) × (wait answers (asking set_waiting s) ≡ some (at_rest s, left))
  unfolding receive take handle answered wait
  wait-set_waiting [] h = absurd cc
  wait-set_waiting (clir n e ∷ l) h = wait-set_waiting l h
  wait-set_waiting (waiting b e id ∷ l) h = wait-set_waiting l h
  wait-set_waiting (forward f ∷ l) h = wait-set_waiting l h
  wait-set_waiting (forward_failed e ∷ l) h = wait-set_waiting l h
  wait-set_waiting (clir_set ∷ l) h = wait-set_waiting l h
  wait-set_waiting (waiting_set ∷ l) h =
      (l, wait-busy waiting_set l (asking set_waiting s) refl ∙ wait-idle l (at_rest s) refl)

abbrev with_asked : Bool → Request → Settings → Settings
with_asked b r s = record s { asked = sent_if b r s.asked }

at_rest-eq : (s : Settings) → s.pending ≡ 0 → s.outstanding ≡ [] → s ≡ at_rest s
at_rest-eq s p o = ground (arith, p, o)

module _ (answers : List Answer) (s : Settings) where
  apply_anonymity-sends :
      (ok : Bool)
      → in_order answers ≡ true
      → (left : List Answer) × (apply_anonymity ok answers (at_rest s)
          ≡ some (with_asked (clir_differs s && ok) set_clir (at_rest s), left))
        × (has_waiting left ≡ true)
  unfolding apply_anonymity made_if
  apply_anonymity-sends ok h = go (chosen s.cid == s.anonimity) refl ok
    where
      go :
          (b : Bool)
          → (chosen s.cid == s.anonimity) ≡ b
          → (ok : Bool)
          → (left : List Answer) × ((if b
                then some (at_rest s, answers)
                else wait answers (made_if ok set_clir (at_rest s)))
              ≡ some (with_asked (not b && ok) set_clir (at_rest s), left))
            × (has_waiting left ≡ true)
      go true e ok = (answers, refl, in_order-has_waiting answers h)
      go false e true = wait-set_clir (with_asked true set_clir s) answers h
      go false e false =
          (answers, wait-idle answers (at_rest s) refl, in_order-has_waiting answers h)

  apply_waiting-sends :
      (ok enable : Bool)
      → has_waiting answers ≡ true
      → (left : List Answer) × (wait answers (enable_if enable (apply_waiting ok (at_rest s)))
          ≡ some (
            enable_if enable (with_asked (waiting_differs s && ok) set_waiting (at_rest s)),
            left,
          ))
  unfolding apply_waiting made_if enable_if show_applying
  apply_waiting-sends ok enable h = go (bool_eq s.waiting_active s.waiting_enabled) ok enable
    where
      go :
          (b ok enable : Bool)
          → (left : List Answer) × (wait answers
                (enable_if enable (if b then at_rest s else made_if ok set_waiting (at_rest s)))
              ≡ some (enable_if enable (with_asked (not b && ok) set_waiting (at_rest s)), left))
      go true ok true = (answers, wait-idle answers _ refl)
      go true ok false = (answers, wait-idle answers _ refl)
      go false true true =
          wait-set_waiting (enable_if true (with_asked true set_waiting s)) answers h
      go false true false =
          wait-set_waiting (enable_if false (with_asked true set_waiting s)) answers h
      go false false true = (answers, wait-idle answers _ refl)
      go false false false = (answers, wait-idle answers _ refl)

enabled :
    (enable clir_ok waiting_ok : Bool) (s : Settings)
    → enable_if enable (
        with_asked (waiting_differs s && waiting_ok) set_waiting (
          with_asked
            (clir_differs s && clir_ok)
            set_clir
            (at_rest (show_applying true (record s { applying = true })))))
      ≡ saved enable clir_ok waiting_ok (at_rest s)
unfolding enable_if show_applying
enabled true clir_ok waiting_ok s = refl
enabled false clir_ok waiting_ok s = refl

-- Saving, with a number to divert to, and nothing outstanding.
apply_calls-saves :
    (enable clir_ok waiting_ok : Bool) (answers : List Answer) (s : Settings)
    → in_order answers ≡ true
    → (left : List Answer) × (apply_calls enable clir_ok waiting_ok answers
          (show_applying true (record (at_rest s) { applying = true }))
        ≡ some (saved enable clir_ok waiting_ok (at_rest s), left))
unfolding apply_calls show_applying
apply_calls-saves enable clir_ok waiting_ok answers s h =
    let t : Settings = show_applying true (record s { applying = true }) in
    let first = apply_anonymity-sends answers t clir_ok h in
    let second =
      apply_waiting-sends first.0 (with_asked (clir_differs s && clir_ok) set_clir t) waiting_ok
        enable first.2 in
    (
      second.0,
      rw (first.1) (second.1 ∙ ap (λ u. some (u, second.0)) (enabled enable clir_ok waiting_ok s)),
    )

-- With no request outstanding, and if telepathy and then oFono answer: saving is refused, and changes and
-- sends nothing, exactly if calls are to be diverted to no number; else it ends with nothing outstanding,
-- and has sent, in this order and once, the caller's identity if it is not the one that was read and
-- the call waiting if it is not the one that was read, each if the call can be started; it sends no
-- call forwarding. The dialog takes input again only if that is asked for.
pub apply-saves :
    (enable clir_ok waiting_ok : Bool) (answers : List Answer) (s : Settings)
    → s.pending ≡ 0
    → s.outstanding ≡ []
    → in_order answers ≡ true
    → (lacks_number s ≡ true → apply enable clir_ok waiting_ok answers s ≡ some (false, s, answers))
      × (lacks_number s ≡ false
          → (left : List Answer) × (apply enable clir_ok waiting_ok answers s
              ≡ some (true, saved enable clir_ok waiting_ok s, left)))
unfolding apply
apply-saves enable clir_ok waiting_ok answers s p o h =
    let rest = apply_calls-saves enable clir_ok waiting_ok answers s h in
    let same : at_rest s ≡ s = sym (at_rest-eq s p o) in
    let done : apply_calls enable clir_ok waiting_ok answers
          (show_applying true (record s { applying = true }))
        ≡ some (saved enable clir_ok waiting_ok s, rest.0) =
      subst
        (λ u.
          apply_calls enable clir_ok waiting_ok answers
            (show_applying true (record u { applying = true }))
          ≡ some (saved enable clir_ok waiting_ok u, rest.0))
        same rest.1 in
    (λ e. rw e, λ e. (rest.0, rw e (rw done)))
