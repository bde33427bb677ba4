-- ===== src/CodeUi/Codes/Remembered.antt =====
-- The PIN that lib/code-ui.c keeps between two queries.
use mathlib.Core.Path.{subst}
use connui_cellular.Prelude.{
  ◌∙◌, ◌≡◌, refl, String, Bool, true, false, not, ◌||◌, Option, none, some, List, arith, ◌==◌,
  string_eq, Bool-cases, inl, inr,
}
use connui_cellular.Sim.{pin}
use connui_cellular.CodeUi.{State, Ui}
use connui_cellular.CodeUi.Codes.{
  Response, NewCode, refused, given, get_code, get_new_code, length, Query, waits, replies, Reply,
  keep, with_new, with_old, with_answer, ask_old, enter_query, is_idle, code_cb,
}

-- What a PIN that was handed out leaves in `code`: the code that is in force if it is accepted.
abbrev pub in_force : Reply → Option String
in_force r = elim r.new [ none ↦ r.old | some c ↦ some c ]

abbrev pub Remembers : Query → Type 0
Remembers waits = true ≡ true
Remembers (replies r u rs) = r.has_cb ≡ true → u.code ≡ in_force r

keep-Remembers :
    (old : String) (new : Option String) (u : Ui) (rs : List Response)
    → Remembers (keep pin old new u rs)
unfolding keep
keep-Remembers old none u rs = λ h. refl
keep-Remembers old (some c) u rs = λ h. refl

with_new-Remembers : (old : String) (n : NewCode) → Remembers (with_new pin old n)
unfolding with_new
with_new-Remembers old NewCode.waits = refl
with_new-Remembers old (refused u rs) = λ h. cc
with_new-Remembers old (given c u rs) = keep-Remembers old (some c) u rs

with_old-Remembers :
    (wants : Bool) (old : String) (u : Ui) (rs : List Response)
    → Remembers (with_old pin wants old u rs)
unfolding with_old
with_old-Remembers true old u rs = with_new-Remembers old (get_new_code (length rs) u rs)
with_old-Remembers false old u rs = keep-Remembers old none u rs

with_answer-Remembers :
    (wants : Bool) (c : Option String) (u : Ui) (rs : List Response)
    → Remembers (with_answer pin wants c u rs)
unfolding with_answer
with_answer-Remembers wants none u rs = λ h. cc
with_answer-Remembers wants (some c) u rs = with_old-Remembers wants c u rs

ask_old-Remembers :
    (wants : Bool) (old : Option String) (u : Ui) (rs : List Response)
    → Remembers (ask_old pin wants old u rs)
unfolding ask_old
ask_old-Remembers wants (some old) u rs = with_old-Remembers wants old u rs
ask_old-Remembers wants none u rs = by_answer (get_code u rs)
  where
    by_answer :
        (o : Option (Option String × Ui × List Response))
        → Remembers (elim o [ none ↦ waits | some (c, v, rest) ↦ with_answer pin wants c v rest ])
    by_answer none = refl
    by_answer (some (c, v, rest)) = with_answer-Remembers wants c v rest

code_cb-Remembers :
    (modem_id : String) (wants : Bool) (u : Ui) (rs : List Response)
    → Remembers (code_cb modem_id pin wants u rs)
unfolding code_cb
code_cb-Remembers modem_id wants u rs =
    elim (Bool-cases (not (modem_id == u.modem_id) || is_idle u.state)) [
      | inl e ↦ rw e (λ h. cc)
      | inr e ↦ rw e (ask_old-Remembers wants u.code (record u { state = enter_query u.state }) rs)
    ]

remembered :
    (modem_id : String) (wants : Bool) (u v : Ui) (rs rest : List Response) (r : Reply)
    → code_cb modem_id pin wants u rs ≡ replies r v rest
    → r.has_cb ≡ true
    → v.code ≡ in_force r
remembered modem_id wants u v rs rest r q =
    subst Remembers q (code_cb-Remembers modem_id wants u rs)

-- A query for a PIN that hands a code out keeps the code that is in force if it is accepted: the new
-- one if one was asked for, and the old one if not. The next query for the PIN of the modem alone,
-- from whatever state that is not idle, hands out that code, and shows no dialog: it takes no
-- response of the user.
pub code_cb-again :
    (modem_id : String) (wants : Bool) (u v : Ui) (rs rest later : List Response) (r : Reply)
    (c : String) (s : State)
    → code_cb modem_id pin wants u rs ≡ replies r v rest
    → r.has_cb ≡ true
    → in_force r ≡ some c
    → (modem_id == v.modem_id) ≡ true
    → is_idle s ≡ false
    → code_cb modem_id pin false (record v { state = s }) later
      ≡ replies
          (record { old = some c; new = none; has_cb = true })
          (record v { state = enter_query s; code = some c })
          later
unfolding code_cb ask_old with_old keep
code_cb-again modem_id wants u v rs rest later r c s q cb f m i =
    let known = remembered modem_id wants u v rs rest r q cb ∙ f in ground (arith, known, m, i)
