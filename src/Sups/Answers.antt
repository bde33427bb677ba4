-- ===== src/Sups/Answers.antt =====
-- What clients make of oFono's replies, of a cancellation, and of the loss of the interface.
use connui_cellular.Prelude.{
  ◌≡◌, ◌≢◌, ◌↔◌, refl, sym, Bool, true, false, Option, none, some, String, arith, Option-cases, inl,
  inr, ◌==◌, nat_eq, string_eq, eq_iff, is_some, if◌then◌else◌, Table, lookup,
}
use connui_cellular.Errors.{GError, connui, not_recognized}
use connui_cellular.ServiceCall.{call_waiting_get, call_waiting_set, forwarding_get}
use connui_cellular.Sups.{
  Forward, Forwards, waiting, changed, forwarding, Reply, failed, result, number_at, forward_at,
  is_enabled, answer_of,
}

-- A number of a conditional forwarding: it is on exactly if oFono gives one that is not empty.
pub record IsForward (key : String) (dict : Table String String) (f : Forward) : Type 0 where
  pub number : (s : String) → (f.number ≡ some s) ↔ ((lookup key dict ≡ some s) × (s ≢ ""))
  pub on : (f.enabled ≡ true) ↔ ((s : String) × (lookup key dict ≡ some s) × (s ≢ ""))

number_at-some :
    (key s : String) (dict : Table String String)
    → (number_at key dict ≡ some s) ↔ ((lookup key dict ≡ some s) × (s ≢ ""))
unfolding number_at
number_at-some key s dict = by_value (lookup key dict)
  where
    by_value :
        (o : Option String)
        → ((elim o [ none ↦ none | some u ↦ if u == "" then none else some u ]) ≡ some s)
          ↔ ((o ≡ some s) × (s ≢ ""))
    by_value none = ground arith
    by_value (some u) = ground (arith, eq_iff u "")

forward_at-IsForward :
    (key : String) (dict : Table String String) → IsForward key dict (forward_at key dict)
unfolding forward_at
forward_at-IsForward key dict = record {
  number = λ s. number_at-some key s dict;
  on = (forth, back);
}
  where
    forth :
        is_some (number_at key dict) ≡ true → (s : String) × (lookup key dict ≡ some s) × (s ≢ "")
    forth e = elim (Option-cases (number_at key dict)) [
      | inl n ↦ absurd (ground (arith, n))
      | inr (s, n) ↦ let (p, q) = (number_at-some key s dict).0 n in (s, p, q)
    ]

    back :
        (s : String) × (lookup key dict ≡ some s) × (s ≢ "") → is_some (number_at key dict) ≡ true
    back (s, e, n) = rw ((number_at-some key s dict).1 (e, n)) refl

-- What the three callbacks make of a reply.
pub record IsRead (r : Reply) : Type 0 where
  pub waiting_on :
      (dict : Table String String)
      → r ≡ result "CallWaiting" dict
      → (b : Bool) × (answer_of call_waiting_get r ≡ waiting b none)
        × ((b ≡ true) ↔ (lookup "VoiceCallWaiting" dict ≡ some "enabled"))
  pub waiting_set :
      (dict : Table String String)
      → r ≡ result "CallWaiting" dict
      → answer_of call_waiting_set r ≡ changed none
  pub forwarding_to :
      (dict : Table String String)
      → r ≡ result "CallForwarding" dict
      → (f : Forwards) × (answer_of forwarding_get r ≡ forwarding (some f) none)
        × IsForward "VoiceBusy" dict f.busy
        × IsForward "VoiceNoReply" dict f.no_reply
        × IsForward "VoiceNotReachable" dict f.unreachable
  pub no_waiting :
      (name : String) (dict : Table String String)
      → r ≡ result name dict
      → name ≢ "CallWaiting"
      → (answer_of call_waiting_get r ≡ waiting false (some (connui not_recognized)))
        × (answer_of call_waiting_set r ≡ changed (some (connui not_recognized)))
  pub no_forwarding :
      (name : String) (dict : Table String String)
      → r ≡ result name dict
      → name ≢ "CallForwarding"
      → answer_of forwarding_get r ≡ forwarding none (some (connui not_recognized))
  pub refused :
      (e : GError)
      → r ≡ failed e
      → (answer_of call_waiting_get r ≡ waiting false (some e))
        × (answer_of call_waiting_set r ≡ changed (some e))
        × (answer_of forwarding_get r ≡ forwarding none (some e))

is_enabled_iff :
    (dict : Table String String)
    → (is_enabled dict ≡ true) ↔ (lookup "VoiceCallWaiting" dict ≡ some "enabled")
unfolding is_enabled
is_enabled_iff dict = by_value (lookup "VoiceCallWaiting" dict)
  where
    by_value :
        (o : Option String)
        → ((elim o [ none ↦ false | some s ↦ s == "enabled" ]) ≡ true) ↔ (o ≡ some "enabled")
    by_value none = ground arith
    by_value (some s) = ground (arith, eq_iff s "enabled")

-- The answers that clients get to oFono's replies: call waiting is on exactly if the result CallWaiting
-- has VoiceCallWaiting as "enabled"; each conditional forwarding has the number in the result
-- CallForwarding, and is on exactly if that is there and not empty; a result of another name is an
-- error of each callback; and an error of oFono is passed on.
pub answer_of-IsRead : (r : Reply) → IsRead r
unfolding answer_of
answer_of-IsRead (failed e) = record {
  waiting_on = λ dict q. absurd cc;
  waiting_set = λ dict q. absurd cc;
  forwarding_to = λ dict q. absurd cc;
  no_waiting = λ name dict q. absurd cc;
  no_forwarding = λ name dict q. absurd cc;
  refused = λ f q. (cc, cc, cc);
}
answer_of-IsRead (result name d) = record {
  waiting_on = λ dict q. (is_enabled d, ground (arith, eq_iff name "CallWaiting"), of_dict dict q);
  waiting_set = λ dict q. ground (arith, eq_iff name "CallWaiting");
  forwarding_to = λ dict q. (
    record {
      busy = forward_at "VoiceBusy" d;
      no_reply = forward_at "VoiceNoReply" d;
      unreachable = forward_at "VoiceNotReachable" d;
    },
    ground (arith, eq_iff name "CallForwarding"),
    of_key "VoiceBusy" dict q,
    of_key "VoiceNoReply" dict q,
    of_key "VoiceNotReachable" dict q,
  );
  no_waiting = λ n dict q ne. ground (arith, eq_iff name "CallWaiting");
  no_forwarding = λ n dict q ne. ground (arith, eq_iff name "CallForwarding");
  refused = λ f q. absurd cc;
}
  where
    same_dict : {n m : String} {x y : Table String String} → result n x ≡ result m y → x ≡ y
    same_dict e = cc

    of_dict :
        (dict : Table String String)
        → result name d ≡ result "CallWaiting" dict
        → (is_enabled d ≡ true) ↔ (lookup "VoiceCallWaiting" dict ≡ some "enabled")
    of_dict dict q = rw (sym (same_dict q)) (is_enabled_iff d)

    of_key :
        (key : String) (dict : Table String String)
        → result name d ≡ result "CallForwarding" dict
        → IsForward key dict (forward_at key d)
    of_key key dict q = rw (sym (same_dict q)) (forward_at-IsForward key d)
