-- ===== src/NetSelection/Sound.antt =====
-- What holds of the dialog of networks in every session.
use connui_cellular.Prelude.{
  ℕ, ◌-◌, ◌≡◌, refl, Bool, true, false, not, ◌&&◌, ◌||◌, Option, none, some, List, [], ◌∷◌, ◌++◌,
  is_some, String, string_eq, nat_eq, arith, ap, sym, ◌∙◌, map,
}
use connui_cellular.Net.{Network}
use connui_cellular.NetSelection.{
  Row, row_of, Dialog, Selection, on_dialog, insert_row, insert_all, net_list_cb, destroy,
  clear_cache, reset_network, hide, select_done, select_cb, select, inetstate_status_cb, chosen,
  select_current,
}
use connui_cellular.NetSelection.Session.{
  show, Event, shown, hidden, destroyed, cleared, reset_asked, found, picked, accepted, automatic,
  inet_changed, answered, note_closed, pick, pick_row, step, run,
}

abbrev pub is_empty {ℓ} : {A : Type ℓ} → List A → Bool
is_empty [] = true
is_empty (x ∷ xs) = false

abbrev pub rows_in : Option Dialog → List Row
rows_in none = []
rows_in (some d) = d.rows

abbrev pub visible_in : Option Dialog → Bool
visible_in none = false
visible_in (some d) = d.visible

abbrev differ : Bool → Bool → Bool
differ true b = not b
differ false b = b

-- A search runs only while the dialog is visible, rows are there only if the networks are listed, and
-- some row is selected unless there is none.
abbrev pub is_sound : Selection → Bool
is_sound s =
    (not s.net_list_in_progress || visible_in s.selection_dialog)
    && (s.unknown_bool_1 || is_empty (rows_in s.selection_dialog))
    && differ (is_some (chosen s.selection_dialog)) (is_empty (rows_in s.selection_dialog))

abbrev pub Kept : (Selection → Selection) → Type 0
Kept f = (s : Selection) → is_sound s ≡ true → is_sound (f s) ≡ true

pub hide-Kept : Kept hide
unfolding hide
hide-Kept s h = ground (arith, h)

destroy-Kept : Kept destroy
unfolding destroy
destroy-Kept s h = ground (arith, h)

clear_cache-Kept : Kept clear_cache
unfolding clear_cache
clear_cache-Kept s h = ground (arith, h)

select_done-Kept : (success : Bool) → Kept (select_done success)
unfolding select_done hide
select_done-Kept success s h = ground (arith, h)

select_cb-Kept : (name : Option String) (success : Bool) → Kept (select_cb name success)
unfolding select_cb select_done hide
select_cb-Kept name success s h = ground (arith, h)

select-Kept : (net : Option Network) → Kept (select net)
unfolding select
select-Kept net s h = h

inetstate-Kept :
    (is_up : Bool) (ty : Option (Option String)) (n : Network)
    → Kept (inetstate_status_cb is_up ty n)
unfolding inetstate_status_cb select
inetstate-Kept is_up ty n s h = ground (arith, h)

reset_network-Kept : Kept reset_network
unfolding reset_network
reset_network-Kept s h = ground (arith, h)

select_current-Kept : Kept select_current
unfolding select_current
select_current-Kept s h = ground (arith, h)

pub show-Kept : (now : ℕ) (begun : Bool) → Kept (show now begun)
unfolding show
show-Kept now begun s h = ground (arith, h)

-- What the dialog has after the networks are put in.
pub record IsInserted (ns : List Network) (d : Dialog) : Type 0 where
  pub in_rows : (insert_all ns d).rows ≡ d.rows ++ map row_of ns
  pub in_view : (insert_all ns d).visible ≡ d.visible
  pub in_use : (insert_all ns d).sensitive ≡ (d.sensitive || not (is_empty ns))
  pub in_choice : is_some (insert_all ns d).selected ≡ (is_some d.selected || not (is_empty ns))

append_nil : (rows : List Row) → rows ++ [] ≡ rows
append_nil [] = refl
append_nil (r ∷ rs) = ap (λ x. r ∷ x) (append_nil rs)

append_assoc : (rs ss ts : List Row) → (rs ++ ss) ++ ts ≡ rs ++ (ss ++ ts)
append_assoc [] ss ts = refl
append_assoc (r ∷ rs) ss ts = ap (λ x. r ∷ x) (append_assoc rs ss ts)

pub insert_all-IsInserted : (ns : List Network) (d : Dialog) → IsInserted ns d
unfolding insert_all
insert_all-IsInserted [] d = record {
  in_rows = sym (append_nil d.rows);
  in_view = refl;
  in_use = ground arith;
  in_choice = ground arith;
}
insert_all-IsInserted (n ∷ ns) d =
    let rest = insert_all-IsInserted ns (insert_row n d) in
    record {
      in_rows = rest.in_rows ∙ append_assoc d.rows (row_of n ∷ []) (map row_of ns);
      in_view = rest.in_view;
      in_use = ground (arith, rest.in_use);
      in_choice = ground (arith, rest.in_choice);
    }

is_empty-append : (rs ss : List Row) → is_empty (rs ++ ss) ≡ (is_empty rs && is_empty ss)
is_empty-append [] ss = refl
is_empty-append (r ∷ rs) ss = refl

is_empty-map : (ns : List Network) → is_empty (map row_of ns) ≡ is_empty ns
is_empty-map [] = refl
is_empty-map (n ∷ ns) = refl

pub net_list_cb-Kept : (now : ℕ) (ns : List Network) → Kept (net_list_cb now ns)
unfolding net_list_cb
net_list_cb-Kept now ns s h =
    elim s.selection_dialog
        as (λ o.
          is_sound (record s { selection_dialog = o }) ≡ true
          → is_sound (net_list_cb now ns (record s { selection_dialog = o })) ≡ true) [
            | none ↦ λ h. ground (arith, h)
            | some d ↦ λ h.
                let i = insert_all-IsInserted ns d in
                rw (i.in_rows, is_empty-append d.rows (map row_of ns), is_empty-map ns, i.in_choice)
                  (ground (arith, h))
          ]
      h

is_some-pick :
    (i : ℕ) (rows : List Row) (old : Option Network)
    → is_some old ≡ true
    → is_some (pick i rows old) ≡ true
unfolding pick
is_some-pick i [] old h = h
is_some-pick i (r ∷ rs) old h = ground (arith, is_some-pick (i - 1) rs old h)

pick-Kept : (i : ℕ) → Kept (on_dialog (pick_row i))
unfolding pick
pick-Kept i s h =
    elim s.selection_dialog
        as (λ o.
          is_sound (record s { selection_dialog = o }) ≡ true
          → is_sound (on_dialog (pick_row i) (record s { selection_dialog = o })) ≡ true) [
            | none ↦ λ h. h
            | some d ↦ λ h. ground (arith, h, is_some-pick i d.rows d.selected)
          ]
      h

pub run-is_sound : (es : List Event) → is_sound (run es) ≡ true
unfolding run step
run-is_sound [] = refl
run-is_sound (e ∷ past) = by_event e (run past) (run-is_sound past)
  where
    by_event : (e : Event) → Kept (step e)
    by_event (shown now begun) = show-Kept now begun
    by_event hidden = hide-Kept
    by_event destroyed = destroy-Kept
    by_event cleared = clear_cache-Kept
    by_event reset_asked = reset_network-Kept
    by_event (found now ns) = net_list_cb-Kept now ns
    by_event (picked i) = pick-Kept i
    by_event accepted = select_current-Kept
    by_event automatic = select-Kept none
    by_event (inet_changed is_up ty n) = inetstate-Kept is_up ty n
    by_event (answered name success) = select_cb-Kept name success
    by_event note_closed = select_done-Kept false
