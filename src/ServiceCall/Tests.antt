-- ===== src/ServiceCall/Tests.antt =====
-- Runs of the table of service calls on concrete operations.
use connui_cellular.Prelude.{ℕ, ◌≡◌, refl, none, some, [], ◌∷◌, List, arith, nat_eq}
use connui_cellular.ServiceCall.{Calls, no_calls, fresh_call, new_call, take, cancel_service_call}
use connui_cellular.ServiceCall.View.{view}
use connui_cellular.ServiceCall.Consistency.{IsConsistent, IsConsistent-no_calls}
use connui_cellular.ServiceCall.Runs.{
  Op, start, finish, cancel, run, run-IsConsistent, new_call-take,
}

abbrev some_ops : List Op
some_ops = start (some 7) 1 ∷ start none 2 ∷ cancel 2 ∷ start none 3 ∷ finish 1 ∷ cancel 9 ∷ []

abbrev two_calls : Calls
two_calls = run (start (some 7) 1 ∷ start none 2 ∷ []) no_calls

identifiers :
    (view (run some_ops no_calls) 3 ≡ some (fresh_call 3 none 3))
    × (view (run some_ops no_calls) 2 ≡ none)
unfolding run view cancel_service_call new_call
identifiers = (refl, refl)

run-IsConsistent_example : IsConsistent (run some_ops no_calls)
run-IsConsistent_example = run-IsConsistent some_ops no_calls IsConsistent-no_calls (omega arith)

new_call-take_example :
    let c = run some_ops no_calls in
    let (id, d) = new_call (some 4) 5 c in
    (view c id ≡ none)
    × ((take id d).0 ≡ some (fresh_call id (some 4) 5))
    × ((j : ℕ) → view (take id d).1 j ≡ view c j)
new_call-take_example = new_call-take some_ops (some 4) 5 (omega arith)
