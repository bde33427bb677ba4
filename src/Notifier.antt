-- ===== src/Notifier.antt =====
-- The notification that lib/net.c, lib/connmgr.c and lib/modem.c share: `_notify` adds an idle source
-- unless one is pending, and `_idle_notify` calls the clients with the data of that time.
pub mod Laws
use connui_cellular.Prelude.{
  ℕ, ◌+◌, ◌-◌, Bool, true, false, List, [], ◌∷◌, ◌≡◌, ◌==◌, nat_eq, if◌then◌else◌,
}

-- The data `S` of an object of oFono, the changes `E` that its signals bring, and what the clients see
-- of the data, a `V`. `apply` says whether it notifies.
pub record Object (E S V : Type 0) : Type 0 where
  pub apply : E → S → Bool × S
  pub view : S → V

-- What does not notify does not change what the clients see.
abbrev pub IsQuiet : {E S V : Type 0} → Object E S V → Type 0
IsQuiet {E} {S} o = (e : E) (s : S) → (o.apply e s).0 ≡ false → o.view (o.apply e s).1 ≡ o.view s

pub record Loop (S V : Type 0) : Type 0 where
  pub data_now : S
  pub idle_id : ℕ
  pub added : ℕ  -- how many sources were ever added
  pub sources : ℕ  -- pending sources that run `_idle_notify`
  pub sent : List V  -- what the clients got, the latest first

pub data Event (E : Type 0) : Type 0 where
  changed : E → Event E  -- a signal of oFono
  registered : Event E  -- a client registers
  idle : Event E  -- the main loop runs the source, if there is one

module _ {E S V : Type 0} (o : Object E S V) (source : ℕ → ℕ) where
  -- `_notify`; `source n` is what `g_idle_add` returns for the n-th source.
  unfoldable pub notify : Loop S V → Loop S V
  notify l =
      if l.idle_id == 0
      then record l { idle_id = source l.added; added = l.added + 1; sources = l.sources + 1 }
      else l

  -- `_idle_notify`, run by the main loop, which drops the source.
  unfoldable pub idle_notify : Loop S V → Loop S V
  idle_notify l = record l {
    idle_id = 0;
    sources = l.sources - 1;
    sent = o.view l.data_now ∷ l.sent;
  }

  -- `_property_changed_cb`
  unfoldable pub property_changed : E → Loop S V → Loop S V
  unfolding notify
  property_changed e l =
      let (notifies, s) = o.apply e l.data_now in
      if notifies then notify (record l { data_now = s }) else record l { data_now = s }

  unfoldable pub step : Event E → Loop S V → Loop S V
  unfolding property_changed idle_notify notify
  step (changed e) l = property_changed e l
  step registered l = notify l
  step idle l = if l.sources == 0 then l else idle_notify l

  unfoldable pub run : List (Event E) → Loop S V → Loop S V
  unfolding step
  run [] l = l
  run (e ∷ es) l = run es (step e l)

  -- A new object whose properties were read, after the first `_notify`.
  unfoldable pub start : S → Loop S V
  unfolding notify
  start s = notify (record { data_now = s; idle_id = 0; added = 0; sources = 0; sent = [] })

  -- What the destruction of the data leaves in the main loop.
  unfoldable pub destroy : Loop S V → Loop S V
  destroy l = if l.idle_id == 0 then l else record l { sources = l.sources - 1 }

unfoldable pub read_all : {E S V : Type 0} → Object E S V → List E → S → S
read_all o [] s = s
read_all o (e ∷ es) s = read_all o es (o.apply e s).1
