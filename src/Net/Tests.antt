-- ===== src/Net/Tests.antt =====
-- The theorems on the network at concrete inputs.
use connui_cellular.Prelude.{
  ℕ, suc, ◌≡◌, refl, String, true, Option, none, some, List, [], ◌∷◌, arith, ◌==◌, nat_eq,
  string_eq, if◌then◌else◌,
}
use connui_cellular.Glib.{texts}
use connui_cellular.Notifier.{changed, registered, idle, read_all}
use connui_cellular.Notifier.Laws.{IsServed}
use connui_cellular.Net.{create, netreg}
use connui_cellular.Net.Served.{netreg-IsServed}
use connui_cellular.ServiceCall.{no_calls}
use connui_cellular.ServiceCall.Consistency.{IsConsistent-no_calls}
use connui_cellular.Net.Operator.{Operators, get_operator_name}
use connui_cellular.Net.Operator.First.{IsNamed, get_operator_name-IsNamed}
use connui_cellular.Net.Search.{Search, no_search, error, net_list_cb}
use connui_cellular.Net.Search.Waiting.{Event as SearchEvent, search, cancel, reply, run}
use connui_cellular.Net.CallerId.{Account, ready, SetCall, preparing, set_caller_id_anonymity}
use connui_cellular.Net.CallerId.Answers.{
  IsAnswered, request, request-IsAnswered, IsSettled, set_caller_id_anonymity-IsSettled,
}

abbrev number : String → ℕ
number s = if s == "244" then 244 else if s == "05" then 5 else 91

abbrev database : ℕ → ℕ → Option String
database mcc mnc = if mnc == 91 then some "DNA" else none

abbrev two_modems : Operators
two_modems =
    none
    ∷ some (
        record { mobile_country_code = some "244"; mobile_network_code = some "91"; name = some "" }
        ∷ record {
          mobile_country_code = some "244";
          mobile_network_code = some "05";
          name = some "Elisa";
        }
        ∷ [])
    ∷ []

get_operator_name-IsNamed_example :
    IsNamed number database "244" "05" two_modems
      (get_operator_name number database "244" "05" two_modems)
get_operator_name-IsNamed_example = get_operator_name-IsNamed number database "244" "05" two_modems

listed_name : get_operator_name number database "244" "05" two_modems ≡ some "Elisa"
unfolding get_operator_name
listed_name = refl

database_name : get_operator_name number database "244" "91" two_modems ≡ some "DNA"
unfolding get_operator_name
database_name = refl

abbrev prepend : List (ℕ × ℕ) → ℕ → ℕ → List (ℕ × ℕ)
prepend cbs cb user_data = (cb, user_data) ∷ cbs

abbrev drop_cb : List (ℕ × ℕ) → ℕ → List (ℕ × ℕ)
drop_cb [] cb = []
drop_cb ((c, u) ∷ cbs) cb = let rest = drop_cb cbs cb in if c == cb then rest else (c, u) ∷ rest

abbrev session : List SearchEvent
session = search true 7 1 ∷ search true 8 2 ∷ cancel 7 ∷ reply error ∷ search true 9 3 ∷ []

-- After an error the client 8 still waits, and is there at the next search.
left_over : (run prepend drop_cb session no_search).net_list_cbs ≡ (9, 3) ∷ (8, 2) ∷ []
unfolding run net_list_cb
left_over = refl

abbrev waiting : Search
waiting = record no_search {
  net_list_cbs = (7, 1) ∷ [];
  get_available_network_call = true;
  begun = 1;
}

abbrev ring_account : Account
ring_account = record { cm_name = "ring"; anonymity_modes = 2 }

abbrev accounts : List Account
accounts = record { cm_name = "gabble"; anonymity_modes = 0 } ∷ ring_account ∷ []

request-IsAnswered_example :
    IsAnswered 7 1 (ready accounts) no_calls (request true 7 1 (ready accounts) no_calls)
request-IsAnswered_example =
    request-IsAnswered 7 1 (ready accounts) no_calls IsConsistent-no_calls (omega arith)

abbrev new_set : SetCall
new_set = record { callback = some (7, 1); anonymity = 2; stage = preparing; answers = [] }

set_caller_id_anonymity-IsSettled_example : IsSettled (ready accounts) none 2 7 1 new_set
set_caller_id_anonymity-IsSettled_example =
    set_caller_id_anonymity-IsSettled (ready accounts) none 2 7 1 new_set
      (unfold set_caller_id_anonymity in refl)

netreg-IsServed_example :
    IsServed
      (netreg texts)
      suc
      (read_all (netreg texts) (("Status", "roaming") ∷ ("Technology", "edge") ∷ []) create)
      (changed ("Strength", "40") ∷ idle ∷ registered ∷ changed ("Name", "Elisa") ∷ [])
netreg-IsServed_example =
    netreg-IsServed texts suc (λ n. omega arith)
      (("Status", "roaming") ∷ ("Technology", "edge") ∷ [])
      (changed ("Strength", "40") ∷ idle ∷ registered ∷ changed ("Name", "Elisa") ∷ [])
