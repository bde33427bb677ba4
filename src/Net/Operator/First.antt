-- ===== src/Net/Operator/First.antt =====
-- Which name `connui_cell_net_get_operator_name` gives.
use connui_cellular.Prelude.{
  ℕ, ◌%◌, ◌^◌, ◌≡◌, ◌≢◌, ◌⊎◌, refl, sym, ap, ◌∙◌, String, Bool, true, ◌&&◌, Option, none, some,
  List, [], ◌∷◌, ◌++◌, nat_eq, nat_beq_iff, string_eq, eq_iff, if◌then◌else◌, is_some, inl, inr,
  arith, Option-cases, Bool-cases,
}
use connui_cellular.Net.Operator.{
  Operator, Operators, has_code, name_in, name_of, unless_empty, get_operator_name,
}

-- The operators that can be read, of all modems.
abbrev pub readable : Operators → List Operator
readable [] = []
readable (none ∷ ms) = readable ms
readable (some os ∷ ms) = os ++ readable ms

unless_empty-some : (n : String) (d : Option String) → n ≢ "" → unless_empty (some n) d ≡ some n
unfolding unless_empty
unless_empty-some n d ne = ground (arith, eq_iff n "")

unless_empty-none :
    (o d : Option String) → ((n : String) → o ≡ some n → n ≡ "") → unless_empty o d ≡ d
unfolding unless_empty
unless_empty-none none d h = refl
unless_empty-none (some n) d h = ground (arith, eq_iff n "", h n refl)

unless_empty-nonempty : (o d : Option String) → d ≢ some "" → unless_empty o d ≢ some ""
unfolding unless_empty
unless_empty-nonempty none d h = h
unless_empty-nonempty (some n) d h = ground (arith, eq_iff n "")

module _ (strtoll : String → ℕ) (mbpi_get_name : ℕ → ℕ → Option String) where
  -- An operator with both codes and a name.
  pub record Fits (mcc mnc : ℕ) (n : String) (o : Operator) : Type 0 where
    pub country : (c : String) × (o.mobile_country_code ≡ some c) × (mcc ≡ strtoll c)
    pub network : (c : String) × (o.mobile_network_code ≡ some c) × (mnc ≡ strtoll c)
    pub named : o.name ≡ some n

  -- `n` is the name of the first operator that fits.
  pub data IsFirst (mcc mnc : ℕ) (n : String) : List Operator → Type 0 where
    here : (o : Operator) (os : List Operator) → Fits mcc mnc n o → IsFirst mcc mnc n (o ∷ os)
    there :
        (o : Operator) (os : List Operator)
        → ((m : String) → ¬ Fits mcc mnc m o)
        → IsFirst mcc mnc n os
        → IsFirst mcc mnc n (o ∷ os)

  has_code-some :
      (n : ℕ) (o : Option String)
      → has_code strtoll mbpi_get_name n o ≡ true
      → (c : String) × (o ≡ some c) × (n ≡ strtoll c)
  unfolding has_code
  has_code-some n none e = absurd cc
  has_code-some n (some c) e = (c, refl, (nat_beq_iff n (strtoll c)).0 e)

  code-has :
      (n : ℕ) (o : Option String) (c : String)
      → o ≡ some c
      → n ≡ strtoll c
      → has_code strtoll mbpi_get_name n o ≡ true
  unfolding has_code
  code-has n o c e f = rw (e, f) ((nat_beq_iff (strtoll c) (strtoll c)).1 refl)

  module _ (mcc mnc : ℕ) where
    test : Operator → Bool
    test o =
        has_code strtoll mbpi_get_name mcc o.mobile_country_code
        && has_code strtoll mbpi_get_name mnc o.mobile_network_code
        && is_some o.name

    test-Fits : (o : Operator) → test o ≡ true → (n : String) × Fits mcc mnc n o
    unfolding test
    test-Fits o e = elim (Option-cases o.name) [
      | inl z ↦ absurd (ground (arith, z))
      | inr (n, z) ↦ (
        n,
        record {
          country = has_code-some mcc o.mobile_country_code (ground arith);
          network = has_code-some mnc o.mobile_network_code (ground arith);
          named = z;
        },
      )
    ]

    Fits-test : (o : Operator) (n : String) → Fits mcc mnc n o → test o ≡ true
    unfolding test
    Fits-test o n f =
        rw
          (
            code-has mcc o.mobile_country_code f.country.0 f.country.1 f.country.2,
            code-has mnc o.mobile_network_code f.network.0 f.network.1 f.network.2,
            f.named,
          )
          refl

    name_in-step :
        (o : Operator) (os : List Operator)
        → name_in strtoll mbpi_get_name mcc mnc (o ∷ os)
          ≡ (if test o then o.name else name_in strtoll mbpi_get_name mcc mnc os)
    unfolding name_in test
    name_in-step o os = refl

    IsFirst-name_in :
        (n : String) (os : List Operator)
        → IsFirst mcc mnc n os
        → name_in strtoll mbpi_get_name mcc mnc os ≡ some n
    IsFirst-name_in n _ (here o os f) = rw (name_in-step o os, Fits-test o n f) f.named
    IsFirst-name_in n _ (there o os unfit h) = elim (Bool-cases (test o)) [
      | inl t ↦ absurd (unfit (test-Fits o t).0 (test-Fits o t).1)
      | inr t ↦ rw (name_in-step o os, t) (IsFirst-name_in n os h)
    ]

    name_in-IsFirst :
        (n : String) (os : List Operator)
        → name_in strtoll mbpi_get_name mcc mnc os ≡ some n
        → IsFirst mcc mnc n os
    unfolding name_in
    name_in-IsFirst n [] e = absurd cc
    name_in-IsFirst n (o ∷ os) e = elim (Bool-cases (test o)) [
      | inl t ↦ here o os record {
        country = (test-Fits o t).1.country;
        network = (test-Fits o t).1.network;
        named = ground (arith, name_in-step o os);
      }
      | inr t ↦
          there o os (λ m f. ground (arith, Fits-test o m f))
            (name_in-IsFirst n os (ground (arith, name_in-step o os)))
    ]

    name_in-append :
        (os ps : List Operator)
        → name_in strtoll mbpi_get_name mcc mnc (os ++ ps)
          ≡ (elim (name_in strtoll mbpi_get_name mcc mnc os) [
            | none ↦ name_in strtoll mbpi_get_name mcc mnc ps
            | some n ↦ some n
          ])
    unfolding name_in
    name_in-append [] ps = refl
    name_in-append (o ∷ os) ps = ground (arith, name_in-append os ps)

    -- The two loops are one over all operators that can be read.
    name_of-readable :
        (ms : Operators)
        → name_of strtoll mbpi_get_name mcc mnc ms
          ≡ name_in strtoll mbpi_get_name mcc mnc (readable ms)
    unfolding name_of name_in
    name_of-readable [] = refl
    name_of-readable (none ∷ ms) = name_of-readable ms
    name_of-readable (some os ∷ ms) =
        ground (arith, name_in-append os (readable ms), name_of-readable ms)

  -- What the name of a network's operator is.
  pub record IsNamed (country_code operator_code : String) (ms : Operators) (r : Option String)
      : Type 0 where
    pub listed :
        (n : String)
        → IsFirst (strtoll country_code % 2 ^ 32) (strtoll operator_code % 2 ^ 32) n (readable ms)
        → n ≢ ""
        → r ≡ some n
    pub database :
        (d : String)
        → ((n : String)
            → IsFirst
                (strtoll country_code % 2 ^ 32)
                (strtoll operator_code % 2 ^ 32)
                n
                (readable ms)
            → n ≡ "")
        → mbpi_get_name (strtoll country_code % 2 ^ 32) (strtoll operator_code % 2 ^ 32) ≡ some d
        → d ≢ ""
        → r ≡ some d
    pub nameless :
        ((n : String)
          → IsFirst (strtoll country_code % 2 ^ 32) (strtoll operator_code % 2 ^ 32) n (readable ms)
          → n ≡ "")
        → (mbpi_get_name (strtoll country_code % 2 ^ 32) (strtoll operator_code % 2 ^ 32) ≡ none)
          ⊎ (mbpi_get_name (strtoll country_code % 2 ^ 32) (strtoll operator_code % 2 ^ 32)
              ≡ some "")
        → r ≡ none
    pub nonempty : r ≢ some ""

  -- Of all operators of all modems that can be read, the first with both codes and a name gives the
  -- name. When there is none, or its name is empty, it is the database's, and no name when that has
  -- none or an empty one: what is returned is never empty.
  pub get_operator_name-IsNamed :
      (country_code operator_code : String) (ms : Operators)
      → IsNamed country_code operator_code ms
          (get_operator_name strtoll mbpi_get_name country_code operator_code ms)
  unfolding get_operator_name
  get_operator_name-IsNamed country operator ms = record {
    listed = λ n h ne. found n h ∙ unless_empty-some n _ ne;
    database = λ d h e ne. missing h ∙ (rw e (unless_empty-some d none ne));
    nameless = λ h e. missing h ∙ unnamed e;
    nonempty =
        unless_empty-nonempty (name_of strtoll mbpi_get_name mcc mnc ms) rest
          (unless_empty-nonempty (mbpi_get_name mcc mnc) none (λ e. cc));
  }
    where
      mcc : ℕ
      mcc = strtoll country % 2 ^ 32

      mnc : ℕ
      mnc = strtoll operator % 2 ^ 32

      rest : Option String
      rest = unless_empty (mbpi_get_name mcc mnc) none

      found :
          (n : String)
          → IsFirst mcc mnc n (readable ms)
          → unless_empty (name_of strtoll mbpi_get_name mcc mnc ms) rest
            ≡ unless_empty (some n) rest
      found n h =
          ap (λ o. unless_empty o rest)
            (name_of-readable mcc mnc ms ∙ IsFirst-name_in mcc mnc n (readable ms) h)

      unnamed : (mbpi_get_name mcc mnc ≡ none) ⊎ (mbpi_get_name mcc mnc ≡ some "") → rest ≡ none
      unnamed (inl e) = rw e (unfold unless_empty in refl)
      unnamed (inr e) = rw e (unfold unless_empty in refl)

      missing :
          ((n : String) → IsFirst mcc mnc n (readable ms) → n ≡ "")
          → unless_empty (name_of strtoll mbpi_get_name mcc mnc ms) rest ≡ rest
      missing h = unless_empty-none _ rest (λ n e.
          h n (name_in-IsFirst mcc mnc n (readable ms) (sym (name_of-readable mcc mnc ms) ∙ e)))
