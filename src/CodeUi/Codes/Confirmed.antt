-- ===== src/CodeUi/Codes/Confirmed.antt =====
-- The two questions for a new code against a reading of the user's answers.
use connui_cellular.Prelude.{
  ℕ, zero, suc, ◌≤◌, ◌<◌, ◌≡◌, refl, String, Option, none, some, List, [], ◌∷◌, ◌==◌, string_eq,
  arith, if◌then◌else◌, Option-cases, Bool-cases, inl, inr,
}
use connui_cellular.CodeUi.{Ui, incorrect_pin_change}
use connui_cellular.CodeUi.Codes.{
  Response, entered, cancelled, other, run_dialog, get_code, NewCode, waits, refused, given,
  compared, settle, second_code, first_code, get_new_code, length,
}

-- The answers to the dialogs, in order: a code, or none where the dialog was cancelled.
abbrev pub answers : List Response → List (Option String)
answers [] = []
answers (entered c ∷ rs) = some c ∷ answers rs
answers (cancelled ∷ rs) = none ∷ answers rs
answers (other ∷ rs) = answers rs

-- A new code is the first that is answered twice in a row, with the answers taken in pairs, unless
-- an answer before it is none.
pub data Choice : Type 0 where
  open_question : Choice
  no_code : Choice
  chosen : String → Choice

unfoldable pub choose : List (Option String) → Choice
choose [] = open_question
choose (none ∷ later) = no_code
choose (some c ∷ []) = open_question
choose (some c ∷ none ∷ later) = no_code
choose (some c ∷ some d ∷ later) = let rest = choose later in if c == d then chosen c else rest

abbrev pub result : NewCode → Choice
result waits = open_question
result (refused u rs) = no_code
result (given c u rs) = chosen c

-- What `run_dialog` takes is the first answer.
abbrev pub first_answer : Option (Option String × List Response) → List (Option String)
first_answer none = []
first_answer (some (c, rest)) = c ∷ answers rest

answers-run_dialog : (rs : List Response) → answers rs ≡ first_answer (run_dialog rs)
unfolding run_dialog
answers-run_dialog [] = refl
answers-run_dialog (entered c ∷ rs) = refl
answers-run_dialog (cancelled ∷ rs) = refl
answers-run_dialog (other ∷ rs) = answers-run_dialog rs

length-run_dialog :
    (rs rest : List Response) (c : Option String)
    → run_dialog rs ≡ some (c, rest)
    → length rest < length rs
unfolding run_dialog
length-run_dialog [] rest c e = cc
length-run_dialog (entered d ∷ rs) rest c e = ground arith
length-run_dialog (cancelled ∷ rs) rest c e = ground arith
length-run_dialog (other ∷ rs) rest c e = omega (arith, length-run_dialog rs rest c e)

abbrev Enough : ℕ → Type 0
Enough n =
    (u : Ui) (rs : List Response)
    → length rs ≤ n
    → result (get_new_code n u rs) ≡ choose (answers rs)

-- A mismatch starts the questions again.
compared-choose :
    (n : ℕ) (c : String) (d : Option String) (u : Ui) (rs : List Response)
    → Enough n
    → length rs ≤ n
    → result (settle (compared c d u rs) (λ x. get_new_code n x rs))
      ≡ choose (some c ∷ d ∷ answers rs)
unfolding settle compared choose
compared-choose n c none u rs ih l = refl
compared-choose n c (some d) u rs ih l = elim (Bool-cases (c == d)) [
  | inl e ↦ rw (e) refl
  | inr e ↦ rw (e) (ih (record u { pin_message = some incorrect_pin_change }) rs l)
]

second-choose :
    (n : ℕ) (c : String) (u : Ui) (rs : List Response)
    → Enough n
    → length rs ≤ n
    → result (second_code c u rs (get_new_code n)) ≡ choose (some c ∷ answers rs)
unfolding second_code get_code
second-choose n c u rs ih l = elim (Option-cases (run_dialog rs)) [
  | inl e ↦ rw (answers-run_dialog rs, second_code, get_code, e) (unfold choose in refl)
  | inr ((d, rest), e) ↦
      rw (answers-run_dialog rs, second_code, get_code, e)
        (compared-choose n c d _ rest ih (omega (arith, length-run_dialog rs rest d e)))
]

first-choose :
    (n : ℕ) (c : Option String) (u : Ui) (rs : List Response)
    → Enough n
    → length rs ≤ n
    → result (first_code c u rs (get_new_code n)) ≡ choose (c ∷ answers rs)
unfolding first_code
first-choose n none u rs ih l = unfold choose in refl
first-choose n (some c) u rs ih l = second-choose n c u rs ih l

enough : (n : ℕ) → Enough n
unfolding get_new_code get_code
enough zero u [] l = unfold choose in refl
enough zero u (r ∷ rs) l = absurd (omega arith)
enough (suc n) u rs l = elim (Option-cases (run_dialog rs)) [
  | inl e ↦ rw (answers-run_dialog rs, get_new_code, get_code, e) (unfold choose in refl)
  | inr ((c, rest), e) ↦
      rw (answers-run_dialog rs, get_new_code, get_code, e)
        (first-choose n c _ rest (enough n) (omega (arith, length-run_dialog rs rest c e)))
]

-- With fuel for each response, `connui_cell_code_ui_code_get_new_code` agrees with the reading of
-- the user's answers: taken in pairs, it returns the first code that is given twice, NULL if an
-- answer before that is a cancelled dialog, and waits if there is neither. The fuel is enough.
pub get_new_code-choose :
    (u : Ui) (rs : List Response) → result (get_new_code (length rs) u rs) ≡ choose (answers rs)
get_new_code-choose u rs = enough (length rs) u rs (omega arith)
