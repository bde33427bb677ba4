-- ===== src/Sups/Pending.antt =====
-- Asking oFono, for one call and for those that waited for the modem's interface.
use connui_cellular.Prelude.{
  ℕ, ◌≡◌, refl, ap, ◌∙◌, Bool, true, false, ◌||◌, Option, none, some, List, [], ◌∷◌, arith, ◌==◌,
  nat_eq, nat_beq_iff, if◌then◌else◌,
}
use connui_cellular.ServiceCall.{ServiceCall, write}
use connui_cellular.ServiceCall.View.{view}
use connui_cellular.ServiceCall.Consistency.{IsConsistent}
use connui_cellular.ServiceCall.Cancelling.{view-write, write-IsConsistent}
use connui_cellular.Sups.{SupsData, Sups, do_call, do_pending}

abbrev pub mem : ℕ → List ℕ → Bool
mem id [] = false
mem id (j ∷ js) = j == id || mem id js

-- A call that oFono was asked.
abbrev pub asked : Option ServiceCall → Option ServiceCall
asked none = none
asked (some s) = some (record s { cancellable = some false })

-- What asking oFono for the calls `ids` changes.
pub record IsAsked (ids : List ℕ) (w v : Sups) : Type 0 where
  pub views :
      (j : ℕ) → view v.calls j ≡ (if mem j ids then asked (view w.calls j) else view w.calls j)
  pub table : IsConsistent v.calls
  pub counter : v.calls.service_call_id ≡ w.calls.service_call_id
  pub sups_data : v.sups_data ≡ w.sups_data
  pub made : v.made ≡ w.made
  pub told : v.told ≡ w.told
  pub aborted : v.aborted ≡ w.aborted
  pub stray : v.stray ≡ w.stray

none-IsAsked :
    (id : ℕ) (w : Sups) → IsConsistent w.calls → view w.calls id ≡ none → IsAsked (id ∷ []) w w
none-IsAsked id w h e = record {
  views = λ j. ground (arith, e, nat_beq_iff id j);
  table = h;
  counter = refl;
  sups_data = refl;
  made = refl;
  told = refl;
  aborted = refl;
  stray = refl;
}

pub do_call-IsAsked :
    (sd : SupsData) (s : ServiceCall) (id : ℕ) (w : Sups)
    → sd.proxy ≡ true
    → IsConsistent w.calls
    → view w.calls id ≡ some s
    → IsAsked (id ∷ []) w (do_call sd s w)
do_call-IsAsked sd s id w p h e =
    unfold do_call in
    rw p (record {
      views = λ j.
          ground (
            arith,
            view-write (record s { cancellable = some false }) w.calls j,
            e,
            h.named id s e,
          );
      table =
          write-IsConsistent (record s { cancellable = some false }) s w.calls h
            (ap (view w.calls) (h.named id s e) ∙ e);
      counter = unfold write in refl;
      sups_data = refl;
      made = refl;
      told = refl;
      aborted = refl;
      stray = refl;
    })

pub after-IsAsked :
    (id : ℕ) (ids : List ℕ) (u v w : Sups)
    → IsAsked (id ∷ []) u v
    → IsAsked ids v w
    → IsAsked (id ∷ ids) u w
after-IsAsked id ids u v w a b = record {
  views = λ j. ground (arith, a.views j, b.views j);
  table = b.table;
  counter = b.counter ∙ a.counter;
  sups_data = b.sups_data ∙ a.sups_data;
  made = b.made ∙ a.made;
  told = b.told ∙ a.told;
  aborted = b.aborted ∙ a.aborted;
  stray = b.stray ∙ a.stray;
}

pub do_pending-IsAsked :
    (sd : SupsData) (ids : List ℕ) (w : Sups)
    → sd.proxy ≡ true
    → IsConsistent w.calls
    → IsAsked ids w (do_pending sd ids w)
unfolding do_pending
do_pending-IsAsked sd [] w p h = record {
  views = λ j. refl;
  table = h;
  counter = refl;
  sups_data = refl;
  made = refl;
  told = refl;
  aborted = refl;
  stray = refl;
}
do_pending-IsAsked sd (id ∷ ids) w p h =
    by_view (λ v k. do_pending-IsAsked sd ids v p k) (view w.calls id) refl
  where
    by_view :
        ((v : Sups) → IsConsistent v.calls → IsAsked ids v (do_pending sd ids v))
        → (o : Option ServiceCall) → view w.calls id ≡ o
        → IsAsked
            (id ∷ ids)
            w
            (do_pending sd ids (elim o [ none ↦ w | some scd ↦ do_call sd scd w ]))
    by_view rest none e =
        after-IsAsked id ids w w (do_pending sd ids w) (none-IsAsked id w h e) (rest w h)
    by_view rest (some s) e =
        let one = do_call-IsAsked sd s id w p h e in
        after-IsAsked id ids w (do_call sd s w) (do_pending sd ids (do_call sd s w)) one
          (rest (do_call sd s w) one.table)
