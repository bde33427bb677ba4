-- ===== src/Net/CallerId/Answers.antt =====
-- What clients that ask for the caller's identity, or set it, are told.
use connui_cellular.Prelude.{
  ℕ, ◌+◌, ◌%◌, ◌<◌, ◌≡◌, refl, sym, Bool, true, Option, none, some, List, [], ◌∷◌, ◌==◌, nat_eq,
  nat_beq_iff, string_eq, if◌then◌else◌, arith, Bool-cases, Option-cases, inl, inr,
}
use connui_cellular.Errors.{GError}
use connui_cellular.ServiceCall.{Calls, id_mod, remove_call, new_call}
use connui_cellular.ServiceCall.View.{view, view-new_call, view-take}
use connui_cellular.ServiceCall.Consistency.{IsConsistent, new_call-fresh}
use connui_cellular.Net.CallerId.{
  Account, Prepared, failed, ready, find_ring_account, Told, anonymity_of, cid_get_cb,
  get_caller_id_anonymity, updating, destroyed, dropped, SetCall, set_caller_id_anonymity, answer,
  cid_set_cb, cid_update_parameter_cb, set_run,
}

-- `a` is the first account of the connection manager "ring".
pub data IsRing (a : Account) : List Account → Type 0 where
  here : (rest : List Account) → a.cm_name ≡ "ring" → IsRing a (a ∷ rest)
  there :
      (b : Account) (rest : List Account)
      → ¬ (b.cm_name ≡ "ring")
      → IsRing a rest
      → IsRing a (b ∷ rest)

find_ring_account-IsRing :
    (a : Account) (accounts : List Account)
    → IsRing a accounts
    → find_ring_account accounts ≡ some a
unfolding find_ring_account
find_ring_account-IsRing a _ (here rest e) = ground (arith, string_eq.test_iff a.cm_name "ring")
find_ring_account-IsRing a _ (there b rest ne h) =
    ground (arith, string_eq.test_iff b.cm_name "ring", find_ring_account-IsRing a rest h)

found-IsRing :
    (a : Account) (accounts : List Account)
    → find_ring_account accounts ≡ some a
    → IsRing a accounts
unfolding find_ring_account
found-IsRing a [] e = absurd cc
found-IsRing a (b ∷ rest) e = elim (Bool-cases (b.cm_name == "ring")) [
  | inl t ↦
      subst_account (ground (arith, t)) (here rest ((string_eq.test_iff b.cm_name "ring").0 t))
  | inr t ↦
      there b rest (λ f. ground (arith, string_eq.test_iff b.cm_name "ring"))
        (found-IsRing a rest (ground (arith, t)))
]
  where
    subst_account : b ≡ a → IsRing b (b ∷ rest) → IsRing a (b ∷ rest)
    subst_account e r = rw (sym e) r

find_ring_account-none :
    (accounts : List Account)
    → ((a : Account) → ¬ IsRing a accounts)
    → find_ring_account accounts ≡ none
find_ring_account-none accounts h = elim (Option-cases (find_ring_account accounts)) [
  | inl e ↦ e
  | inr (a, e) ↦ absurd (h a (found-IsRing a accounts e))
]

view-remove_call :
    (c : Calls) (id j : ℕ) → view (remove_call id c) j ≡ (if id == j then none else view c j)
unfolding remove_call
view-remove_call c id j = view-take c id j

-- The client's request, and telepathy's answer to the call that it made.
abbrev pub request : Bool → ℕ → ℕ → Prepared → Calls → Calls × Told
request manager cb user_data p c =
    let (b, id, c') = get_caller_id_anonymity manager cb user_data c in
    elim id [ none ↦ (c', []) | some n ↦ cid_get_cb n cb user_data p (c', []) ]

-- What a request that was answered leaves: the client was told once, and the table is as it was.
pub record IsAnswered (cb user_data : ℕ) (p : Prepared) (c : Calls) (r : Calls × Told)
    : Type 0 where
  pub ring :
      (a : Account) (accounts : List Account)
      → p ≡ ready accounts
      → IsRing a accounts
      → r.1 ≡ (cb, user_data, a.anonymity_modes, none) ∷ []
  pub no_ring :
      (accounts : List Account)
      → p ≡ ready accounts
      → ((a : Account) → ¬ IsRing a accounts)
      → r.1 ≡ (cb, user_data, 0, none) ∷ []
  pub error : (e : GError) → p ≡ failed e → r.1 ≡ (cb, user_data, 0, some e) ∷ []
  pub restored : (j : ℕ) → view r.0 j ≡ view c j

cid_get_cb-told :
    (cb user_data id : ℕ) (p : Prepared) (c d : Calls)
    → ((j : ℕ) → view (remove_call id d) j ≡ view c j)
    → IsAnswered cb user_data p c (cid_get_cb id cb user_data p (d, []))
unfolding cid_get_cb anonymity_of
cid_get_cb-told cb user_data id (failed e) c d same = record {
  ring = λ a accounts q. absurd cc;
  no_ring = λ accounts q. absurd cc;
  error = λ e q. cc;
  restored = same;
}
cid_get_cb-told cb user_data id (ready accounts) c d same = record {
  ring = λ a others q h. ground (arith, find_ring_account-IsRing a others h);
  no_ring = λ others q h. ground (arith, find_ring_account-none others h);
  error = λ e q. absurd cc;
  restored = same;
}

new_call-id :
    (c : Calls) (cb : Option ℕ) (u : ℕ) → (new_call cb u c).0 ≡ (c.service_call_id + 1) % id_mod
unfolding new_call
new_call-id c cb u = refl

-- A client that asks for the caller's identity is told once: the anonymity of the first account of
-- "ring", 0 without one, or the error; and the outstanding calls are afterwards those of before. The
-- table is consistent and has an identifier left.
pub request-IsAnswered :
    (cb user_data : ℕ) (p : Prepared) (c : Calls)
    → IsConsistent c
    → c.service_call_id + 1 < id_mod
    → IsAnswered cb user_data p c (request true cb user_data p c)
unfolding get_caller_id_anonymity
request-IsAnswered cb user_data p c h room =
    cid_get_cb-told cb user_data (new_call (some cb) user_data c).0 p c
      (new_call (some cb) user_data c).1
      (λ j. ground (
        arith,
        view-remove_call (new_call (some cb) user_data c).1 (new_call (some cb) user_data c).0 j,
        view-new_call c (some cb) user_data j,
        new_call-id c (some cb) user_data,
        new_call-fresh c h (some cb) user_data room,
        nat_beq_iff (new_call (some cb) user_data c).0 j,
      ))

-- What becomes of a call that sets the caller's identity; `e` is what telepathy says of the update.
pub record IsSettled (p : Prepared) (e : Option GError) (anonymity cb user_data : ℕ) (s : SetCall)
    : Type 0 where
  pub error :
      (f : GError)
      → p ≡ failed f
      → ((set_run p e s).stage ≡ destroyed)
        × ((set_run p e s).answers ≡ (cb, user_data, some f) ∷ [])
  -- the ring account is updated to the anonymity, and the client is told of that
  pub ring :
      (a : Account) (accounts : List Account)
      → p ≡ ready accounts
      → IsRing a accounts
      → ((cid_set_cb p s).stage ≡ updating a anonymity)
        × ((set_run p e s).stage ≡ destroyed)
        × ((set_run p e s).answers ≡ (cb, user_data, e) ∷ [])
  -- without one the client is never told, and the call is lost
  pub no_ring :
      (accounts : List Account)
      → p ≡ ready accounts
      → ((a : Account) → ¬ IsRing a accounts)
      → ((set_run p e s).stage ≡ dropped) × ((set_run p e s).answers ≡ [])

-- A client that sets the caller's identity is told once, of the error or of the update of the first
-- account of "ring", and the call is destroyed; but without such an account the client is not told
-- at all, and the call is neither under way nor destroyed.
pub set_caller_id_anonymity-IsSettled :
    (p : Prepared) (e : Option GError) (anonymity cb user_data : ℕ) (s : SetCall)
    → set_caller_id_anonymity true anonymity (some (cb, user_data)) ≡ some s
    → IsSettled p e anonymity cb user_data s
unfolding set_caller_id_anonymity set_run cid_set_cb cid_update_parameter_cb answer
set_caller_id_anonymity-IsSettled p e anonymity cb user_data s h = record {
  error = λ f q. ground arith;
  ring = λ a accounts q r. ground (arith, find_ring_account-IsRing a accounts r);
  no_ring = λ accounts q r. ground (arith, find_ring_account-none accounts r);
}
