-- ===== src/Roaming/Answered.antt =====
-- A request about roaming, until it is answered.
use connui_cellular.Prelude.{
  ℕ, ◌≡◌, ◌≢◌, refl, sym, subst, String, Bool, true, false, ◌&&◌, none, some, ◌∷◌, string_eq,
  eq_iff, arith,
}
use connui_cellular.Roaming.{
  auto, Roaming, gconf_list_contains, send_reply, close, note_response_cb, confirm_enable,
  auto_response_cb, signal, respond, ask, show,
}

-- No request is under way.
pub record IsIdle (r : Roaming) : Type 0 where
  pub dialog : r.dialog ≡ none
  pub done_fn : r.done_fn ≡ false
  pub message : r.message ≡ none

-- The request was answered once, with `enable`, and is done, once, with its number.
pub record IsAnswered (id : ℕ) (sender imsi : String) (enable : Bool) (r v : Roaming) : Type 0 where
  pub idle : IsIdle v
  pub replied : v.replies ≡ (some sender, imsi, enable) ∷ r.replies
  pub done : v.done ≡ (id, false) ∷ r.done

abbrev pub was_asked : Bool → String → Roaming → Bool
was_asked client imsi r = client && gconf_list_contains r.roam_asked imsi

-- What a request with an IMSI and the user's first and second answer come to.
pub record IsAsked (client : Bool) (id : ℕ) (sender imsi : String) (first second : Bool)
    (r v : Roaming) : Type 0 where
  -- a user who was asked and agreed is not asked
  pub unasked :
      was_asked client imsi r ≡ true
      → gconf_list_contains r.gprs_roam_disabled imsi ≡ false
      → IsAnswered id sender imsi true r v
  -- one who was asked and declined is asked once
  pub confirmed :
      was_asked client imsi r ≡ true
      → gconf_list_contains r.gprs_roam_disabled imsi ≡ true
      → IsAnswered id sender imsi first r (respond client first v)
  -- one who was not is asked for all times, and if he declines for this time
  pub agreed :
      was_asked client imsi r ≡ false
      → first ≡ true
      → IsAnswered id sender imsi true r (respond client first v)
  pub declined :
      was_asked client imsi r ≡ false
      → first ≡ false
      → IsAnswered id sender imsi second r (respond client second (respond client first v))
  -- but the answer for all times is stored so that it is not found again
  pub forgotten :
      client ≡ true
      → was_asked client imsi r ≡ false
      → (other : Bool) (any : String)
      → (was_asked other any (respond client first v) ≡ false)
        × (gconf_list_contains (respond client first v).gprs_roam_disabled any ≡ false)

started : ℕ → String → Roaming → Roaming
started id sender r = record r { done_fn = true; iap_id = id; message = some sender }

ask-unasked :
    (client : Bool) (imsi : String) (r : Roaming)
    → was_asked client imsi r ≡ false
    → ask client imsi r ≡ record r { dialog = some (auto imsi) }
ask-unasked client imsi r e = unfold ask in ground (arith, e)

ask-agreed :
    (client : Bool) (imsi : String) (r : Roaming)
    → was_asked client imsi r ≡ true
    → gconf_list_contains r.gprs_roam_disabled imsi ≡ false
    → ask client imsi r ≡ close (send_reply imsi true r)
ask-agreed client imsi r e f = unfold ask in ground (arith, e, f)

ask-confirmed :
    (client : Bool) (imsi : String) (r : Roaming)
    → was_asked client imsi r ≡ true
    → gconf_list_contains r.gprs_roam_disabled imsi ≡ true
    → ask client imsi r ≡ confirm_enable imsi r
ask-confirmed client imsi r e f = unfold ask in ground (arith, e, f)

closed_reply :
    (id : ℕ) (sender imsi : String) (b : Bool) (r : Roaming)
    → IsAnswered id sender imsi b r (close (send_reply imsi b (started id sender r)))
unfolding close send_reply started
closed_reply id sender imsi b r = record {
  idle = record { dialog = refl; done_fn = refl; message = refl };
  replied = refl;
  done = refl;
}

confirmed_reply :
    (client : Bool) (id : ℕ) (sender imsi : String) (b : Bool) (r : Roaming)
    → IsAnswered id sender imsi b r (respond client b (confirm_enable imsi (started id sender r)))
unfolding respond signal note_response_cb confirm_enable close send_reply started
confirmed_reply client id sender imsi b r = record {
  idle = record { dialog = refl; done_fn = refl; message = refl };
  replied = refl;
  done = refl;
}

auto_agreed :
    (client : Bool) (id : ℕ) (sender imsi : String) (r : Roaming)
    → IsAnswered id sender imsi true r
        (respond client true (record (started id sender r) { dialog = some (auto imsi) }))
unfolding respond signal auto_response_cb close send_reply started
auto_agreed true id sender imsi r = record {
  idle = record { dialog = refl; done_fn = refl; message = refl };
  replied = refl;
  done = refl;
}
auto_agreed false id sender imsi r = record {
  idle = record { dialog = refl; done_fn = refl; message = refl };
  replied = refl;
  done = refl;
}

auto_declined :
    (client : Bool) (id : ℕ) (sender imsi : String) (b : Bool) (r : Roaming)
    → IsAnswered id sender imsi b r (
        respond client b
          (respond client false (record (started id sender r) { dialog = some (auto imsi) })))
unfolding respond signal auto_response_cb note_response_cb confirm_enable close send_reply started
auto_declined true id sender imsi b r = record {
  idle = record { dialog = refl; done_fn = refl; message = refl };
  replied = refl;
  done = refl;
}
auto_declined false id sender imsi b r = record {
  idle = record { dialog = refl; done_fn = refl; message = refl };
  replied = refl;
  done = refl;
}

auto_forgotten :
    (first other : Bool) (imsi any : String) (r : Roaming)
    → (was_asked other any (respond true first (record r { dialog = some (auto imsi) })) ≡ false)
      × (gconf_list_contains
            (respond true first (record r { dialog = some (auto imsi) })).gprs_roam_disabled
            any
          ≡ false)
unfolding respond signal auto_response_cb confirm_enable close send_reply gconf_list_contains
auto_forgotten first other imsi any r = ground arith

ask-IsAsked :
    (client : Bool) (id : ℕ) (sender imsi : String) (first second : Bool) (r : Roaming)
    → IsAsked client id sender imsi first second r (ask client imsi (started id sender r))
ask-IsAsked client id sender imsi first second r = record {
  unasked = λ e f.
      subst (λ v. IsAnswered id sender imsi true r v)
        (sym (ask-agreed client imsi (started id sender r) (same_asked e) (same_disabled f)))
        (closed_reply id sender imsi true r);
  confirmed = λ e f.
      subst (λ v. IsAnswered id sender imsi first r (respond client first v))
        (sym (ask-confirmed client imsi (started id sender r) (same_asked e) (same_disabled f)))
        (confirmed_reply client id sender imsi first r);
  agreed = λ e f.
      subst (λ v. IsAnswered id sender imsi true r (respond client first v))
        (sym (ask-unasked client imsi (started id sender r) (same_asked e)))
        (subst
          (λ b.
            IsAnswered id sender imsi true r
              (respond client b (record (started id sender r) { dialog = some (auto imsi) })))
          (sym f) (auto_agreed client id sender imsi r));
  declined = λ e f.
      subst
        (λ v. IsAnswered id sender imsi second r (respond client second (respond client first v)))
        (sym (ask-unasked client imsi (started id sender r) (same_asked e)))
        (subst
          (λ b. IsAnswered id sender imsi second r (
            respond client second
              (respond client b (record (started id sender r) { dialog = some (auto imsi) }))))
          (sym f) (auto_declined client id sender imsi second r));
  forgotten = λ t e other any.
      subst
        (λ v.
          (was_asked other any (respond client first v) ≡ false)
          × (gconf_list_contains (respond client first v).gprs_roam_disabled any ≡ false))
        (sym (ask-unasked client imsi (started id sender r) (same_asked e)))
        (subst
          (λ c.
            (was_asked other any
                (respond c first (record (started id sender r) { dialog = some (auto imsi) }))
              ≡ false)
            × (gconf_list_contains
                  (respond c first
                    (record (started id sender r) { dialog = some (auto imsi) })).gprs_roam_disabled
                  any
                ≡ false))
          (sym t) (auto_forgotten first other imsi any (started id sender r)));
}
  where
    same_asked :
        {b : Bool} → was_asked client imsi r ≡ b → was_asked client imsi (started id sender r) ≡ b
    same_asked e = unfold started in e

    same_disabled :
        {b : Bool}
        → gconf_list_contains r.gprs_roam_disabled imsi ≡ b
        → gconf_list_contains (started id sender r).gprs_roam_disabled imsi ≡ b
    same_disabled e = unfold started in e

-- A request about an IMSI that is not empty is accepted, answered with one signal to its sender, and
-- done once, with its number: at once with yes, if the user was asked before and did not decline; with
-- the answer to one question, if he declined; with the answers to two otherwise, the second for this
-- time only. But with a GConf client the answer for all times is never found again, for any IMSI.
pub show-IsAsked :
    (client : Bool) (id : ℕ) (sender imsi : String) (first second : Bool) (r : Roaming)
    → imsi ≢ ""
    → ((show client id sender (some imsi) r).0 ≡ true)
      × IsAsked client id sender imsi first second r (show client id sender (some imsi) r).1
show-IsAsked client id sender imsi first second r ne =
    subst (λ s. (s.0 ≡ true) × IsAsked client id sender imsi first second r s.1) (sym shown)
      (refl, ask-IsAsked client id sender imsi first second r)
  where
    shown : show client id sender (some imsi) r ≡ (true, ask client imsi (started id sender r))
    shown = unfold show started in ground (arith, eq_iff imsi "")
