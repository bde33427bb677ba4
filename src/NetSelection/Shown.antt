-- ===== src/NetSelection/Shown.antt =====
-- What the dialog of networks lists, and when it searches.
use connui_cellular.Prelude.{
  ℕ, ◌+◌, ◌≡◌, Bool, true, false, not, ◌&&◌, ◌||◌, Option, none, some, List, [], ◌∷◌, ◌++◌, leb,
  if◌then◌else◌, string_eq, nat_eq, arith, ◌∙◌, map,
}
use connui_cellular.Net.{Network}
use connui_cellular.NetSelection.{Row, row_of, Dialog, Call, net_list, Selection, net_list_cb, hide}
use connui_cellular.NetSelection.Session.{show, Event, run}
use connui_cellular.NetSelection.Sound.{
  rows_in, visible_in, is_sound, hide-Kept, show-Kept, net_list_cb-Kept, run-is_sound,
  insert_all-IsInserted,
}

-- Whether the list is there and at most 20 seconds old.
abbrev pub is_fresh : ℕ → Selection → Bool
is_fresh now s = s.unknown_bool_1 && leb now (20 + s.net_list_ts)

abbrev pub searches : List Call → ℕ
searches [] = 0
searches (net_list ∷ cs) = searches cs + 1
searches (c ∷ cs) = searches cs

abbrev sensitive_in : Option Dialog → Bool
sensitive_in none = false
sensitive_in (some d) = d.sensitive

abbrev listing : Selection → List Row
listing s = rows_in s.selection_dialog

-- The dialog `s'` that is shown at a time in the state `s`.
pub record IsListed (now : ℕ) (begun : Bool) (s s' : Selection) : Type 0 where
  pub visible : visible_in s'.selection_dialog ≡ true
  pub rows : listing s' ≡ (if is_fresh now s then listing s else [])
  pub searching :
      s'.net_list_in_progress ≡ (s.net_list_in_progress || not (is_fresh now s) && begun)
  pub calls :
      searches s'.calls
      ≡ searches s.calls + (if s.net_list_in_progress || is_fresh now s then 0 else 1)
  pub sensitive :
      sensitive_in s'.selection_dialog
      ≡ (is_fresh now s || not s.unknown_bool_1 && sensitive_in s.selection_dialog)
  pub settled : (s'.connecting ≡ false) × (s'.unknown_bool_2 ≡ false)
  pub found_rows :
      (t : ℕ) (ns : List Network) → listing (net_list_cb t ns s') ≡ listing s' ++ map row_of ns
  pub shown_again :
      (t later : ℕ) (ns : List Network) (b : Bool)
      → listing (show later b (hide (net_list_cb t ns s')))
        ≡ (if leb later (20 + t) then listing s' ++ map row_of ns else [])

rows-show :
    (now : ℕ) (begun : Bool) (s : Selection)
    → is_sound s ≡ true
    → listing (show now begun s) ≡ (if is_fresh now s then listing s else [])
unfolding show
rows-show now begun s h = ground (arith, h)

module _ (now : ℕ) (begun : Bool) (s : Selection) where
  calls-show :
      searches (show now begun s).calls
      ≡ searches s.calls + (if s.net_list_in_progress || is_fresh now s then 0 else 1)
  unfolding show
  calls-show = ground arith

  sensitive-show :
      sensitive_in (show now begun s).selection_dialog
      ≡ (is_fresh now s || not s.unknown_bool_1 && sensitive_in s.selection_dialog)
  unfolding show
  sensitive-show = ground arith

  searching-show :
      (show now begun s).net_list_in_progress
      ≡ (s.net_list_in_progress || not (is_fresh now s) && begun)
  unfolding show
  searching-show = ground arith

  settled-show :
      ((show now begun s).connecting ≡ false) × ((show now begun s).unknown_bool_2 ≡ false)
  unfolding show
  settled-show = ground arith

  visible-show : visible_in (show now begun s).selection_dialog ≡ true
  unfolding show
  visible-show = ground arith

listing-net_list_cb :
    (t : ℕ) (ns : List Network) (s : Selection)
    → visible_in s.selection_dialog ≡ true
    → listing (net_list_cb t ns s) ≡ listing s ++ map row_of ns
unfolding net_list_cb
listing-net_list_cb t ns s v =
    elim s.selection_dialog
        as (λ o.
          visible_in o ≡ true
          → listing (net_list_cb t ns (record s { selection_dialog = o }))
            ≡ rows_in o ++ map row_of ns) [
              | none ↦ λ v. cc v
              | some d ↦ λ v. (insert_all-IsInserted ns d).in_rows
            ]
      v

listing-hide :
    (s : Selection)
    → (listing (hide s) ≡ listing s)
      × ((hide s).unknown_bool_1 ≡ s.unknown_bool_1)
      × ((hide s).net_list_ts ≡ s.net_list_ts)
unfolding hide
listing-hide s = ground arith

is_fresh-found :
    (t later : ℕ) (ns : List Network) (s : Selection)
    → is_fresh later (hide (net_list_cb t ns s)) ≡ leb later (20 + t)
unfolding hide net_list_cb
is_fresh-found t later ns s = ground arith

-- Whatever happened before: when the dialog of networks is shown, it is visible, and it has the rows that
-- it had if the networks were listed at most 20 seconds ago, and none otherwise. If they were not, and
-- no search is running, one is asked for. Its button is on if they were, off if the list was older, and
-- stays as it was if nothing was listed; no selection is going on, and no reset of the network is due. The
-- networks that are found next become further rows in their order, and after hiding the dialog they
-- are there when it is shown again within 20 seconds, and no row is there later.
pub show-IsListed :
    (es : List Event) (now : ℕ) (begun : Bool)
    → IsListed now begun (run es) (show now begun (run es))
show-IsListed es now begun =
    let s' = show now begun (run es) in
    record {
      visible = visible-show now begun (run es);
      rows = rows-show now begun (run es) (run-is_sound es);
      searching = searching-show now begun (run es);
      calls = calls-show now begun (run es);
      sensitive = sensitive-show now begun (run es);
      settled = settled-show now begun (run es);
      found_rows = λ t ns. listing-net_list_cb t ns s' (visible-show now begun (run es));
      shown_again = λ t later ns b.
          rows-show later b (hide (net_list_cb t ns s'))
            (hide-Kept _ (net_list_cb-Kept t ns s' (show-Kept now begun _ (run-is_sound es))))
          ∙ rw (
            is_fresh-found t later ns s',
            (listing-hide (net_list_cb t ns s')).0,
            listing-net_list_cb t ns s' (visible-show now begun (run es)),
          );
    }
