-- ===== src/Sim/Getters/Answered.antt =====
-- What the getters of lib/sim.c answer.
use connui_cellular.Prelude.{
  ℕ, ◌≡◌, refl, ap, String, Bool, true, false, Option, none, some, List, [], ◌∷◌, ◌==◌, string_eq,
  eq_iff, if◌then◌else◌, inl, inr, ◌⊎◌, ◌↔◌, Table, lookup, arith, Bool-cases,
}
use connui_cellular.Errors.{GError, connui, not_found}
use connui_cellular.Sim.{SimData, unknown, CodeType, unasked}
use connui_cellular.Sim.LockedPins.{any_of}
use connui_cellular.Sim.Getters.{
  Modems, sim_data_get, get, get_service_provider, get_imsi, get_present, get_sim_status,
  get_active, needs_pin, get_enabled, in_range, device_locks, any_lock, is_locked,
  verify_attempts_left, deactivate_lock,
}

-- All the getters give their defaults, with this error.
pub record IsDefault (path : String) (ms : Modems) (e : Option GError) : Type 0 where
  pub status : get_sim_status path ms ≡ (unknown, e)
  pub active : get_active path ms ≡ (unasked, e)
  pub needed : needs_pin path ms ≡ (false, e)
  pub present : get_present path ms ≡ (false, e)
  pub imsi : get_imsi path ms ≡ (none, e)
  pub service_provider : get_service_provider path ms ≡ (none, e)
  pub enabled : (ty : CodeType) → get_enabled ty path ms ≡ (false, if in_range ty then e else none)
  pub locked :
      (answer : String → GError ⊎ Option (List String)) → is_locked answer path ms ≡ (false, e)
  pub attempts :
      (answer : String → GError ⊎ Option (Table String ℕ)) (ty : CodeType)
      → verify_attempts_left answer ty path ms ≡ (0, e)
  pub unlocked :
      (answer : String → Option String → String → Bool × Option GError) (code : String)
      → deactivate_lock answer path code ms ≡ (false, e)

module _ (path : String) (ms : Modems) where
  get-IsDefault : (e : Option GError) → sim_data_get path ms ≡ (e, none) → IsDefault path ms e
  unfolding get_sim_status get_active needs_pin get_present get_imsi get_service_provider
      get_enabled is_locked verify_attempts_left deactivate_lock get
  get-IsDefault e h = record {
    status = rw h;
    active = rw h;
    needed = rw h;
    present = rw h;
    imsi = rw h;
    service_provider = rw h;
    enabled = λ ty. elim (Bool-cases (in_range ty)) [ inl r ↦ rw (r, h) | inr r ↦ rw r ];
    locked = λ answer. rw (is_locked, h, h);
    attempts = λ answer ty. rw (verify_attempts_left, h, h);
    unlocked = λ answer code. rw (deactivate_lock, h, h);
  }

-- `p` is one of `pins` and one of the locks of the device.
abbrev Both : String → List String → Type 0
Both p pins = (any_of p pins ≡ true) × (any_of p device_locks ≡ true)

any_of-tail :
    (p q : String) (qs : List String)
    → any_of q device_locks ≡ false
    → any_of p device_locks ≡ true
    → any_of p (q ∷ qs) ≡ true
    → any_of p qs ≡ true
any_of-tail p q qs e r h = elim (Bool-cases (q == p)) [
  | inl s ↦ cc (ap (λ t. any_of t device_locks) ((eq_iff q p).0 s))
  | inr s ↦ rw s at h
]

any_lock_iff : (pins : List String) → (any_lock pins ≡ true) ↔ ((p : String) × Both p pins)
unfolding any_lock
any_lock_iff [] = (λ h. cc, λ h. cc (h.1.0))
any_lock_iff (q ∷ qs) = elim (Bool-cases (any_of q device_locks)) [
  | inl e ↦ (λ h. (q, (ground (arith, eq_iff q q), e)), λ h. rw e)
  | inr e ↦ (
    λ h. let v = (any_lock_iff qs).0 (rw e at h) in (v.0, (ground (arith, v.1.0), v.1.1)),
    λ h. rw e ((any_lock_iff qs).1 (h.0, (any_of-tail h.0 q qs e h.1.1 h.1.0, h.1.1))),
  )
]

-- What the getters answer, by what the context has at the path.
pub IsAnswered : String → Modems → Option (Option SimData) → Type 0
unfolding is_locked
IsAnswered path ms none = IsDefault path ms (some (connui not_found))
IsAnswered path ms (some none) = IsDefault path ms none
IsAnswered path ms (some (some sd)) =
    (pins : List String)
    → let answer = is_locked (λ p. inr (some pins)) path ms in
      (answer.1 ≡ none) × ((answer.0 ≡ true) ↔ ((p : String) × Both p pins))

answer-cases :
    (path : String) (ms : Modems) (o : Option (Option SimData))
    → lookup path ms ≡ o
    → IsAnswered path ms o
unfolding IsAnswered sim_data_get is_locked lookup
answer-cases path ms none h = get-IsDefault path ms (some (connui not_found)) (rw (sim_data_get, h))
answer-cases path ms (some none) h = get-IsDefault path ms none (rw (sim_data_get, h))
answer-cases path ms (some (some sd)) h =
    λ pins. (rw (is_locked, sim_data_get, h), rw (is_locked, sim_data_get, h) (any_lock_iff pins))

-- For every path: if the context has no modem there, every getter of lib/sim.c, the count of attempts
-- and the unlocking answer with their defaults and NOT_FOUND. If the modem has no SIM manager, they
-- answer with the same defaults and no error at all. Otherwise, whatever names oFono gives as
-- LockedPins, `is_locked` has no error and is true just if one of the names is among the locks of the
-- device.
pub lookup-IsAnswered : (path : String) (ms : Modems) → IsAnswered path ms (lookup path ms)
lookup-IsAnswered path ms = answer-cases path ms (lookup path ms) refl
