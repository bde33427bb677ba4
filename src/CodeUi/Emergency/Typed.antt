-- ===== src/CodeUi/Emergency/Typed.antt =====
-- What the keypad makes of the keys.
use connui_cellular.Prelude.{
  ◌≡◌, refl, sym, ◌∙◌, Bool, true, false, Option, none, some, List, [], ◌∷◌, ◌++◌, ◌&&◌, ap, nat_eq,
  leb, ◌↔◌, ◌⊎◌, inl, inr, if◌then◌else◌, arith, Bool-cases, subst,
}
use connui_cellular.CodeUi.Emergency.{
  Text, Key, digits, back_space, Keypad, length, same_text, any_number, get_em_mode, refresh,
  number_after, reads_null, typed, guarded, dialog_input, shorten, max_code_length, run,
}

-- The text is one of the numbers.
abbrev pub Among : Text → List Text → Type 0
Among s [] = ⊥
Among s (n ∷ ns) = (s ≡ n) ⊎ Among s ns

-- The first key that was pressed; the latest stands first.
abbrev pub first : Key → List Key → Key
first key [] = key
first key (p ∷ past) = first p past

abbrev pub is_digits : Key → Bool
is_digits (digits s) = true
is_digits back_space = false

-- All digits that were typed had room in the dialog.
abbrev pub fits : (List Key → Text) → List Key → Bool
fits contents [] = true
fits contents (digits s ∷ past) =
    leb (length (contents past ++ s)) max_code_length && fits contents past
fits contents (back_space ∷ past) = fits contents past

-- What the keypad `v` shows of the keys.
pub record IsFollowed (contents : List Key → Text) (ns : List Text) (k : Keypad) (past : List Key)
    (v : Keypad) : Type 0 where
  pub number : v.em_number ≡ some (contents past)
  pub alive : v.crashed ≡ false
  pub em_mode : (v.em_mode ≡ true) ↔ Among (contents past) ns
  pub done : k.has_done ≡ true → v.done_sensitive ≡ leb k.code_min_len (length (contents past))

same_text_iff : (s t : Text) → (same_text s t ≡ true) ↔ (s ≡ t)
unfolding same_text
same_text_iff [] [] = (λ h. refl, λ h. refl)
same_text_iff [] (d ∷ ds) = (λ h. cc, λ h. cc)
same_text_iff (c ∷ cs) [] = (λ h. cc, λ h. cc)
same_text_iff (c ∷ cs) (d ∷ ds) =
    (λ h. ground (arith, same_text_iff cs ds, h), λ h. ground (arith, same_text_iff cs ds, h))

any_number_iff : (s : Text) (ns : List Text) → (any_number s ns ≡ true) ↔ Among s ns
unfolding any_number
any_number_iff s [] = (λ h. cc, λ h. absurd h)
any_number_iff s (n ∷ ns) = elim (Bool-cases (same_text s n)) [
  | inl e ↦ (λ h. inl ((same_text_iff s n).0 e), λ h. rw e)
  | inr e ↦ (
    λ h. inr ((any_number_iff s ns).0 (rw e at h)),
    λ h. elim h [
      | inl p ↦ absurd (ground (arith, (same_text_iff s n).1 p, e))
      | inr p ↦ rw e ((any_number_iff s ns).1 p)
    ],
  )
]

refresh-IsFollowed :
    (contents : List Key → Text) (ns : List Text) (k u : Keypad) (past : List Key)
    → u.em_number ≡ some (contents past)
    → u.crashed ≡ false
    → u.has_done ≡ k.has_done
    → u.code_min_len ≡ k.code_min_len
    → IsFollowed contents ns k past (refresh ns u)
unfolding refresh get_em_mode
refresh-IsFollowed contents ns k u past e c d m = record {
  number = e;
  alive = c;
  em_mode = rw e (any_number_iff (contents past) ns);
  done = λ h. rw (d, h, e, m);
}

-- The keypad's dialog and numbers stay, and so do the other two.
record Same (k v : Keypad) : Type 0 where
  dialog : v.dialog ≡ k.dialog
  numbers : v.emergency_numbers ≡ k.emergency_numbers
  has_done : v.has_done ≡ k.has_done
  code_min_len : v.code_min_len ≡ k.code_min_len

Same-refl : (k : Keypad) → Same k k
Same-refl k = record { dialog = refl; numbers = refl; has_done = refl; code_min_len = refl }

typed-Same : (ns : List Text) (code : Text) (key : Key) (k : Keypad) → Same k (typed ns code key k)
unfolding typed refresh
typed-Same ns code key k = ground arith

if-Same : (b : Bool) (k u v : Keypad) → Same k u → Same k v → Same k (if b then u else v)
if-Same true k u v p q = p
if-Same false k u v p q = q

Same-trans : (k u v : Keypad) → Same k u → Same u v → Same k v
Same-trans k u v p q = record {
  dialog = q.dialog ∙ p.dialog;
  numbers = q.numbers ∙ p.numbers;
  has_done = q.has_done ∙ p.has_done;
  code_min_len = q.code_min_len ∙ p.code_min_len;
}

guarded-Same :
    (o : Option (List Text)) (code : Text) (key : Key) (k : Keypad) → Same k (guarded o code key k)
guarded-Same none code key k = Same-refl k
guarded-Same (some ns) code key k = if-Same k.dialog k _ _ (typed-Same ns code key k) (Same-refl k)

run-Same :
    (contents : List Key → Text) (k : Keypad) (past : List Key) → Same k (run contents k past)
unfolding run dialog_input
run-Same contents k [] = Same-refl k
run-Same contents k (key ∷ past) =
    let t = run contents k past in
    Same-trans k t _ (run-Same contents k past) (
      if-Same t.crashed t _ _ (Same-refl t)
        (guarded-Same t.emergency_numbers (contents past) key t))

module _ (contents : List Key → Text) (ns : List Text) (k : Keypad) (open' : k.dialog ≡ true)
    (numbers : k.emergency_numbers ≡ some ns) where
  input-typed :
      (past : List Key) (key : Key)
      → (run contents k past).crashed ≡ false
      → run contents k (key ∷ past) ≡ typed ns (contents past) key (run contents k past)
  unfolding run dialog_input
  input-typed past key c =
      let same = run-Same contents k past in simp (c, same.numbers ∙ numbers, same.dialog ∙ open')

  -- One key that reads no NULL.
  typed-IsFollowed :
      (past : List Key) (key : Key)
      → reads_null key (run contents k past).em_number ≡ false
      → number_after (contents past) key (run contents k past).em_number
        ≡ some (contents (key ∷ past))
      → (run contents k past).crashed ≡ false
      → IsFollowed contents ns k (key ∷ past) (run contents k (key ∷ past))
  typed-IsFollowed past key r n c =
      let t = run contents k past in
      let same = run-Same contents k past in
      subst (λ v. IsFollowed contents ns k (key ∷ past) v) (sym (input-typed past key c))
        (unfold typed in
          simp r (
            refresh-IsFollowed contents ns k
              (record t { em_number = number_after (contents past) key t.em_number }) (key ∷ past) n
              c same.has_done same.code_min_len))

  run-IsFollowed :
      ((s : Text) (past : List Key)
        → leb (length (contents past ++ s)) max_code_length ≡ true
        → contents (digits s ∷ past) ≡ contents past ++ s)
      → ((past : List Key) → contents (back_space ∷ past) ≡ shorten (contents past))
      → (key : Key) (past : List Key) → k.crashed ≡ false
      → fits contents (key ∷ past) ≡ true
      → is_digits (first key past) ≡ true
      → IsFollowed contents ns k (key ∷ past) (run contents k (key ∷ past))
  unfolding number_after
  run-IsFollowed typing erasing (digits s) [] c r f =
      typed-IsFollowed [] (digits s) refl (ap (λ t. some t) (sym (typing s [] (ground (arith, r)))))
        (unfold run in c)
  run-IsFollowed typing erasing back_space [] c r f = cc
  run-IsFollowed typing erasing (digits s) (p ∷ past) c r f =
      let v = run-IsFollowed typing erasing p past c (ground (arith, r)) f in
      typed-IsFollowed (p ∷ past) (digits s) refl
        (ap (λ t. some t) (sym (typing s (p ∷ past) (ground (arith, r))))) v.alive
  run-IsFollowed typing erasing back_space (p ∷ past) c r f =
      let v = run-IsFollowed typing erasing p past c r f in
      typed-IsFollowed (p ∷ past) back_space (rw (v.number))
        (rw (v.number) (ap (λ t. some t) (sym (erasing (p ∷ past))))) v.alive

  run-crashed :
      (key : Key) (past : List Key)
      → k.crashed ≡ false
      → k.em_number ≡ none
      → is_digits (first key past) ≡ false
      → (run contents k (key ∷ past)).crashed ≡ true
  unfolding run dialog_input typed
  run-crashed (digits s) [] c n f = cc
  run-crashed back_space [] c n f = simp (c, numbers, open', n)
  run-crashed key (p ∷ past) c n f = let v = run-crashed p past c n f in rw v v

-- A dialog is open, and there are emergency numbers. The dialog takes digits while its text stays within
-- the maximal length, and takes its last byte away for the back space. If the first key is one with
-- digits, then after keys whose digits all had room, the number is the text that the dialog holds, the
-- emergency mode is on just if that is an emergency number, and the button to go on takes input just if
-- it is long enough. If the first key is the back space, and no number is left from before, a NULL is
-- read.
pub run-follows :
    (contents : List Key → Text) (ns : List Text) (k : Keypad) (key : Key) (past : List Key)
    → ((s : Text) (past : List Key)
        → leb (length (contents past ++ s)) max_code_length ≡ true
        → contents (digits s ∷ past) ≡ contents past ++ s)
    → ((past : List Key) → contents (back_space ∷ past) ≡ shorten (contents past))
    → k.dialog ≡ true
    → k.emergency_numbers ≡ some ns
    → k.crashed ≡ false
    → (fits contents (key ∷ past) ≡ true
        → is_digits (first key past) ≡ true
        → IsFollowed contents ns k (key ∷ past) (run contents k (key ∷ past)))
      × (is_digits (first key past) ≡ false
          → k.em_number ≡ none
          → (run contents k (key ∷ past)).crashed ≡ true)
run-follows contents ns k key past typing erasing open' numbers c = (
  λ r f. run-IsFollowed contents ns k open' numbers typing erasing key past c r f,
  λ f n. run-crashed contents ns k open' numbers key past c n f,
)
