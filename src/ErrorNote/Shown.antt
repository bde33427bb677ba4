-- ===== src/ErrorNote/Shown.antt =====
-- A request to show a note, until it is done.
use connui_cellular.Prelude.{
  ℕ, ◌≡◌, ◌≢◌, ◌↔◌, refl, sym, subst, String, Bool, true, false, not, ◌&&◌, ◌||◌, Option, none,
  some, List, [], ◌∷◌, ◌==◌, string_eq, eq_iff, nat_eq, nat_beq_iff, if◌then◌else◌, arith, is_some,
  inl, inr, ◌⊎◌,
}
use connui_cellular.ErrorNote.{
  note_text, Dialog, information, limit, unconnected, Note, remove_notify, close,
  set_warning_acknowledged, autoconnect_enabled, limit_dialog, psd_auto_dialog, create_dialog,
  watch, show_on, show, Response, ok, cancel, disable_warning, disconnect, run_signal, respond,
}

-- No note is shown, and nothing is left of one.
pub record IsClosed (n : Note) : Type 0 where
  pub dialog : n.dialog ≡ none
  pub done_func : n.done_func ≡ false
  pub gconf : n.gconf ≡ false
  pub notifies : n.notifies ≡ []

-- The request `iap_id` is under way; `done` are those that are done.
record IsOpen (iap_id : ℕ) (done : List (Option ℕ × Bool)) (n : Note) : Type 0 where
  done_func : n.done_func ≡ true
  done_id : n.done_func_dialog_id ≡ some iap_id
  done_calls : n.done ≡ done
  gconf : n.gconf ≡ true
  notifies : n.notifies ≡ n.gconf_notify ∷ []

-- The request `iap_id` is done, and once; `done` were done before.
pub record IsDone (iap_id : ℕ) (done : List (Option ℕ × Bool)) (n : Note) : Type 0 where
  pub closed : IsClosed n
  pub once : (process_pending : Bool) × (n.done ≡ (some iap_id, process_pending) ∷ done)

module _ (iap_id : ℕ) (done : List (Option ℕ × Bool)) where
  close-IsDone : (b : Bool) (n : Note) → IsOpen iap_id done n → IsDone iap_id done (close b n)
  unfolding close remove_notify
  close-IsDone b n h =
      rw (h.done_func, h.gconf, h.notifies)
        (record {
          closed = record {
            dialog = refl;
            done_func = refl;
            gconf = refl;
            notifies = ground (arith, nat_beq_iff n.gconf_notify n.gconf_notify);
          };
          once = (b, ground (arith, h.done_id, h.done_calls));
        })

  acknowledged-IsOpen :
      (b : Bool) (n : Note)
      → IsOpen iap_id done n
      → IsOpen iap_id done (set_warning_acknowledged b n)
  unfolding set_warning_acknowledged
  acknowledged-IsOpen b n h = record {
    done_func = h.done_func;
    done_id = h.done_id;
    done_calls = h.done_calls;
    gconf = h.gconf;
    notifies = h.notifies;
  }

  -- What `create_dialog` comes to.
  data Created (t : String) (n : Note) : Note → Type 0 where
    finished :
        (v : Note)
        → (t ≡ "req_autoconn_confirmation_dlg"
            → (n.settings.auto_connect_asked || autoconnect_enabled n.settings.auto_connect) ≡ true)
        → IsDone iap_id done v
        → Created t n v
    opened :
        (d : Dialog) (v : Note)
        → (d ≡ information) ⊎ (d ≡ limit)
        → t ≢ "req_autoconn_confirmation_dlg"
        → v.dialog ≡ some d
        → IsOpen iap_id done v
        → Created t n v
    fatal :
        (v : Note)
        → t ≡ "req_autoconn_confirmation_dlg"
        → (n.settings.auto_connect_asked || autoconnect_enabled n.settings.auto_connect) ≡ false
        → v.crashed ≡ true
        → Created t n v

  dialog-IsOpen :
      (d : Dialog) (n : Note)
      → IsOpen iap_id done n
      → IsOpen iap_id done (record n { dialog = some d })
  dialog-IsOpen d n h = record {
    done_func = h.done_func;
    done_id = h.done_id;
    done_calls = h.done_calls;
    gconf = h.gconf;
    notifies = h.notifies;
  }

  not_notification :
      (t : String)
      → t ≡ "req_autoconn_confirmation_dlg"
      → (t == "home_notification" || t == "roaming_notification") ≡ false
  not_notification t q = rw q refl

  create_dialog-Created :
      (t : String) (n : Note)
      → n.dialog ≡ none
      → IsOpen iap_id done n
      → Created t n (create_dialog t n)
  unfolding create_dialog
  create_dialog-Created t n empty h =
      by_tests
        ((t == "home_notification" && not n.settings.home_ntfy_enable)
          || (t == "roaming_notification" && not n.settings.roam_ntfy_enable))
        (t == "home_notification" || t == "roaming_notification")
        (t == "req_autoconn_confirmation_dlg")
        (n.settings.auto_connect_asked || autoconnect_enabled n.settings.auto_connect)
        (λ e q. ground (arith, e, not_notification t q))
        (λ e q. ground (arith, e, not_notification t q)) (eq_iff t "req_autoconn_confirmation_dlg")
        refl
    where
      by_tests :
          (a b c d : Bool)
          → (a ≡ true → t ≢ "req_autoconn_confirmation_dlg")
          → (b ≡ true → t ≢ "req_autoconn_confirmation_dlg")
          → (c ≡ true) ↔ (t ≡ "req_autoconn_confirmation_dlg")
          → (n.settings.auto_connect_asked || autoconnect_enabled n.settings.auto_connect) ≡ d
          → Created t n (
              if a
              then close false n
              else if b
              then limit_dialog t n
              else if c
              then (if d then close false n else psd_auto_dialog n)
              else record n { dialog = some information })
      by_tests true b c d w x y z =
          finished (close false n) (λ q. absurd (w refl q)) (close-IsDone false n h)
      by_tests false true c d w x y z =
          opened limit (limit_dialog t n) (inr refl) (x refl)
            (unfold limit_dialog set_warning_acknowledged in refl)
            (unfold limit_dialog in
              acknowledged-IsOpen false
                (record n { dialog = some limit; is_home = t == "home_notification" })
                (record {
                  done_func = h.done_func;
                  done_id = h.done_id;
                  done_calls = h.done_calls;
                  gconf = h.gconf;
                  notifies = h.notifies;
                }))
      by_tests false false true true w x y z =
          finished (close false n) (λ q. z) (close-IsDone false n h)
      by_tests false false true false w x y z =
          fatal (psd_auto_dialog n) (y.0 refl) z (unfold psd_auto_dialog in rw empty refl)
      by_tests false false false d w x y z =
          opened information (record n { dialog = some information }) (inl refl)
            (λ e. ground (arith, y)) refl (dialog-IsOpen information n h)

  -- What a response does to a dialog that is open.
  respond-IsDone :
      (garbage : List String) (r : Response) (d : Dialog) (n : Note)
      → (r ≡ ok) ⊎ (r ≡ cancel)
      → (d ≡ information) ⊎ (d ≡ limit)
      → n.dialog ≡ some d
      → IsOpen iap_id done n
      → IsDone iap_id done (respond garbage r n)
  unfolding respond
  respond-IsDone garbage r d n a c e h =
      subst (λ o. IsDone iap_id done (run_signal garbage o r n)) (sym e) (by_dialog r d a c)
    where
      by_dialog :
          (r : Response) (d : Dialog)
          → (r ≡ ok) ⊎ (r ≡ cancel)
          → (d ≡ information) ⊎ (d ≡ limit)
          → IsDone iap_id done (run_signal garbage (some d) r n)
      by_dialog ok information a c = close-IsDone false n h
      by_dialog cancel information a c = close-IsDone false n h
      by_dialog ok limit a c =
          close-IsDone true (set_warning_acknowledged true n) (acknowledged-IsOpen true n h)
      by_dialog cancel limit a c =
          close-IsDone true (set_warning_acknowledged true n) (acknowledged-IsOpen true n h)
      by_dialog disable_warning d a c = absurd (ground (arith, a))
      by_dialog disconnect d a c = absurd (ground (arith, a))
      by_dialog r unconnected a c = absurd (ground (arith, c))

  done_respond :
      (garbage : List String) (r : Response) (n : Note)
      → IsDone iap_id done n
      → IsDone iap_id done (respond garbage r n)
  unfolding respond
  done_respond garbage r n h =
      subst (λ o. IsDone iap_id done (run_signal garbage o r n)) (sym h.closed.dialog) h

-- What becomes of a request that was accepted, and of the user's answer.
pub record IsShown (iap_id : ℕ) (t : String) (n v : Note) : Type 0 where
  -- answered, it is done, once
  pub answered :
      (garbage : List String) (r : Response)
      → (r ≡ ok) ⊎ (r ≡ cancel)
      → t ≢ "req_autoconn_confirmation_dlg"
      → IsDone iap_id n.done (respond garbage r v)
  -- the question on automatic connections is done unasked if it was asked before or they are on
  pub unasked :
      t ≡ "req_autoconn_confirmation_dlg"
      → (n.settings.auto_connect_asked || autoconnect_enabled n.settings.auto_connect) ≡ true
      → IsDone iap_id n.done v
  -- otherwise a NULL is read
  pub fatal :
      t ≡ "req_autoconn_confirmation_dlg"
      → (n.settings.auto_connect_asked || autoconnect_enabled n.settings.auto_connect) ≡ false
      → v.crashed ≡ true

Created-IsShown :
    (iap_id : ℕ) (t : String) (n m v : Note)
    → m.settings ≡ n.settings
    → Created iap_id n.done t m v
    → IsShown iap_id t n v
Created-IsShown iap_id t n m v s (finished _ f d) = record {
  answered = λ garbage r a q. done_respond iap_id n.done garbage r v d;
  unasked = λ q e. d;
  fatal = λ q e. absurd (ground (arith, f q, e, s));
}
Created-IsShown iap_id t n m v s (opened d _ c u e h) = record {
  answered = λ garbage r a q. respond-IsDone iap_id n.done garbage r d v a c e h;
  unasked = λ q f. absurd (u q);
  fatal = λ q f. absurd (u q);
}
Created-IsShown iap_id t n m v s (fatal _ q f e) = record {
  answered = λ garbage r a u. absurd (u q);
  unasked = λ _ g. absurd (ground (arith, f, g, s));
  fatal = λ _ _. e;
}

new_note : ℕ → Note → Note
new_note iap_id n =
    watch (record n { done_func_dialog_id = some iap_id; done_func = true; gconf = true })

new_note-IsOpen : (iap_id : ℕ) (n : Note) → IsClosed n → IsOpen iap_id n.done (new_note iap_id n)
unfolding new_note watch
new_note-IsOpen iap_id n h = record {
  done_func = refl;
  done_id = refl;
  done_calls = refl;
  gconf = refl;
  notifies = ground (arith, h.notifies);
}

show-accepts :
    (iap_id : ℕ) (t : String) (n : Note)
    → note_text t ≢ none
    → t ≢ "no_network"
    → show true iap_id (some t) n ≡ (true, create_dialog t (new_note iap_id n))
unfolding show new_note
show-accepts iap_id t n text other =
    by_tests (is_some (note_text t)) (t == "no_network") (n.gconf || true)
      (some_text (note_text t) text) (ground (arith, eq_iff t "no_network")) (ground arith)
  where
    some_text : (o : Option String) → o ≢ none → is_some o ≡ true
    some_text none h = absurd (h refl)
    some_text (some s) h = refl

    m : Note
    m = record n { done_func_dialog_id = some iap_id; done_func = true }

    by_tests :
        (a b c : Bool)
        → a ≡ true
        → b ≡ false
        → c ≡ true
        → (if not a then (false, n) else if b then (true, n) else show_on c t m)
          ≡ (true, create_dialog t (watch (record m { gconf = true })))
    by_tests true false true x y z = refl
    by_tests false b c x y z = absurd cc
    by_tests true true c x y z = absurd cc
    by_tests true false false x y z = absurd cc

-- A request for a known note that is not "no_network", when no other is under way and GConf has a
-- client, is accepted. Answered by the user, or not to be shown, it is done once, with its number, and
-- nothing is left of it. The exception is "req_autoconn_confirmation_dlg": unless automatic connections
-- are on or were asked about, showing it reads a NULL pointer, since no dialog is open.
pub show-IsShown :
    (iap_id : ℕ) (t : String) (n : Note)
    → IsClosed n
    → note_text t ≢ none
    → t ≢ "no_network"
    → ((show true iap_id (some t) n).0 ≡ true) × IsShown iap_id t n (show true iap_id (some t) n).1
show-IsShown iap_id t n h text other =
    subst (λ r. (r.0 ≡ true) × IsShown iap_id t n r.1) (sym (show-accepts iap_id t n text other))
      (
        refl,
        Created-IsShown iap_id t n (new_note iap_id n) (create_dialog t (new_note iap_id n))
            (unfold new_note watch in refl)
            (create_dialog-Created iap_id n.done t (new_note iap_id n)
              (unfold new_note watch in h.dialog) (new_note-IsOpen iap_id n h)),
      )
