-- ===== src/Glib.antt =====
-- What the library takes from GLib and libc and this repository does not hold: the values of D-Bus
-- properties, read by type. A getter is used at the type that the property is documented to have.
use connui_cellular.Prelude.{ℕ, String, Bool, true, List, [], ◌∷◌}

pub record Variants : Type 1 where
  pub Variant : Type 0
  pub get_boolean : Variant → Bool
  pub get_string : Variant → String
  pub get_strv : Variant → List String
  pub get_byte : Variant → ℕ
  pub get_uint16 : Variant → ℕ
  pub get_uint32 : Variant → ℕ
  pub atoi : String → ℕ  -- as a guint

-- Values that are all texts, for the tests.
abbrev pub texts : Variants
texts = record {
  Variant = String;
  get_boolean = λ s. true;
  get_string = λ s. s;
  get_strv = λ s. s ∷ [];
  get_byte = λ s. 0;
  get_uint16 = λ s. 0;
  get_uint32 = λ s. 0;
  atoi = λ s. 0;
}
