-- ===== src/Memory/Accepted.antt =====
-- Which sizes `parseMemoryMiB` accepts, and as what.
use spind.Prelude.{
  ap, true, ◌++◌, ◌∙◌, >>=-eq-ok, Bool-cases, Bytes, Option, [], arith, false, guard, inl, inr,
  is_empty, le_of_ltb-false, ltb, not, ok, refl, some, suc, zero, ℕ, ◌%◌, ◌*◌, ◌/◌, ◌<◌, ◌^◌, ◌↔◌,
  ◌∷◌, ◌≡◌, ◌≤◌,
}
use spind.Text.Words.{trim_space, to_lower}
use spind.Text.Decimal.{max_int, Signed, plus, parse_int}
use spind.Memory.Units.{IsUnit, no_digit, all_digits, split_joined, split_append, IsUnit-iff}
use spind.Memory.{
  memory_empty, split_memory_size, memory_mib_multiplier, parse_memory_mib, positive_base,
  multiplier_of, scaled,
}

multiplier_pos : (unit : Bytes) {m : ℕ} → memory_mib_multiplier unit ≡ some m → 0 < m
unfolding memory_mib_multiplier
multiplier_pos unit h = ground arith

-- what the code's own functions ask for
record Passes (value : Bytes) (mib : ℕ) : Type 0 where
  base : ℕ
  multiplier : ℕ
  number : parse_int (split_memory_size (trim_space value)).0 ≡ some (plus base)
  unit : memory_mib_multiplier (split_memory_size (trim_space value)).1 ≡ some multiplier
  product : mib ≡ base * multiplier
  positive : 0 < mib
  fits : mib ≤ max_int

fits_iff : (a m : ℕ) → 0 < m → (a ≤ max_int / m) ↔ (a * m ≤ max_int)
fits_iff a m h = (λ k. grind arith, λ k. grind arith)

no_wrap : (a b : ℕ) → a * b ≤ max_int → a * b % 2 ^ 64 ≡ a * b
no_wrap a b h = omega arith

scaled-ok : (a m : ℕ) → 0 < m → a * m ≤ max_int → scaled a m ≡ ok (a * m)
unfolding scaled
scaled-ok a m h k = ground (arith, (fits_iff a m h).1 k, no_wrap a m k)

ok-scaled : (a m : ℕ) {r : ℕ} → 0 < m → scaled a m ≡ ok r → (r ≡ a * m) × (a * m ≤ max_int)
unfolding scaled
ok-scaled a m h e = elim (Bool-cases (ltb (max_int / m) a)) [
  | inl large ↦ cc (rw large at e)
  | inr small ↦
      let k = (fits_iff a m h).0 (le_of_ltb-false _ _ small) in ground (arith, k, no_wrap a m k)
]

ok-positive_base :
    (o : Option Signed) {n : ℕ} → positive_base o ≡ ok n → (o ≡ some (plus n)) × (0 < n)
unfolding positive_base
ok-positive_base o h = ground arith

ok-multiplier_of : (u : Bytes) {m : ℕ} → multiplier_of u ≡ ok m → memory_mib_multiplier u ≡ some m
unfolding multiplier_of
ok-multiplier_of u h = ground arith

pos_product : (a m r : ℕ) → r ≡ a * m → 0 < a → 0 < m → 0 < r
pos_product a m r e ha hm = grind arith

parse_memory_mib-Passes :
    (value : Bytes) (mib : ℕ) → parse_memory_mib value ≡ ok mib → Passes value mib
unfolding parse_memory_mib
parse_memory_mib-Passes value mib h =
    let (_, _, h1) = >>=-eq-ok (guard (not (is_empty (trim_space value))) memory_empty) _ h in
    let (base, base_ok, h2) = >>=-eq-ok (positive_base _) _ h1 in
    let (multiplier, multiplier_ok, h3) = >>=-eq-ok (multiplier_of _) _ h2 in
    let (number, base_pos) = ok-positive_base _ base_ok in
    let unit = ok-multiplier_of _ multiplier_ok in
    let positive = multiplier_pos _ unit in
    let (product, fits) = ok-scaled base multiplier positive h3 in
    record {
      base = base;
      multiplier = multiplier;
      number = number;
      unit = unit;
      product = product;
      positive = pos_product base multiplier mib product base_pos positive;
      fits = ground (arith, product, fits);
    }

not_empty :
    (value : Bytes) {n : ℕ}
    → parse_int (split_memory_size value).0 ≡ some (plus n)
    → is_empty value ≡ false
unfolding parse_int split_memory_size is_empty
not_empty [] h = cc
not_empty (c ∷ cs) h = refl

pos_factor : (a m r : ℕ) → r ≡ a * m → 0 < r → 0 < a
pos_factor zero m r e h = omega (arith, e, h)
pos_factor (suc a) m r e h = omega arith

positive_base-ok : (n : ℕ) → 0 < n → positive_base (some (plus n)) ≡ ok n
unfolding positive_base
positive_base-ok n h = ground arith

multiplier_of-ok : (u : Bytes) {m : ℕ} → memory_mib_multiplier u ≡ some m → multiplier_of u ≡ ok m
unfolding multiplier_of
multiplier_of-ok u h = rw (h, multiplier_of) refl

Passes-parse_memory_mib :
    (value : Bytes) (mib : ℕ) → Passes value mib → parse_memory_mib value ≡ ok mib
unfolding parse_memory_mib
Passes-parse_memory_mib value mib x =
    let base_pos = pos_factor x.base x.multiplier mib x.product x.positive in
    let full = not_empty (trim_space value) x.number in
    let based = positive_base-ok x.base base_pos in
    let product_ok =
      scaled-ok x.base x.multiplier (multiplier_pos _ x.unit) (ground (arith, x.product, x.fits)) in
    let number = x.number in
    let unit = multiplier_of-ok _ x.unit in
    let product = x.product in rw (full, number, based, unit, product_ok, product) refl

-- The value, without the spaces around it, is digits and a unit; the number times the MiB of the unit
-- is the size, which is positive and fits in an `int64`.
pub record IsSize (value : Bytes) (mib : ℕ) : Type 0 where
  pub digits : Bytes
  pub unit : Bytes
  pub base : ℕ
  pub multiplier : ℕ
  pub parts : trim_space value ≡ digits ++ unit
  pub are_digits : all_digits digits ≡ true
  pub unit_begins : no_digit unit ≡ true
  pub number : parse_int digits ≡ some (plus base)
  pub is_unit : IsUnit (to_lower unit) multiplier
  pub product : mib ≡ base * multiplier
  pub positive : 0 < mib
  pub fits : mib ≤ max_int

Passes-IsSize : (value : Bytes) (mib : ℕ) → Passes value mib → IsSize value mib
Passes-IsSize value mib p =
    let (joined, digits, begins) = split_joined (trim_space value) in
    record {
      digits = (split_memory_size (trim_space value)).0;
      unit = (split_memory_size (trim_space value)).1;
      base = p.base;
      multiplier = p.multiplier;
      parts = joined;
      are_digits = digits;
      unit_begins = begins;
      number = p.number;
      is_unit = (IsUnit-iff _ p.multiplier).0 p.unit;
      product = p.product;
      positive = p.positive;
      fits = p.fits;
    }

IsSize-Passes : (value : Bytes) (mib : ℕ) → IsSize value mib → Passes value mib
IsSize-Passes value mib x =
    let split =
      ap split_memory_size x.parts ∙ split_append x.digits x.unit x.are_digits x.unit_begins in
    record {
      base = x.base;
      multiplier = x.multiplier;
      number = ap (λ t. parse_int t.0) split ∙ x.number;
      unit =
          ap (λ t. memory_mib_multiplier t.1) split ∙ (IsUnit-iff x.unit x.multiplier).1 x.is_unit;
      product = x.product;
      positive = x.positive;
      fits = x.fits;
    }

-- A value is taken as `mib` exactly when, without the spaces around it, it is a positive decimal
-- number and a unit: none or m, mb, mib for MiB, g, gb, gib for 1024 of them, t, tb, tib for 1024
-- times 1024, in any case of the letters; and `mib` is their product, which fits in an `int64` (so
-- that it has not wrapped).
pub parse_memory_mib_iff :
    (value : Bytes) (mib : ℕ) → (parse_memory_mib value ≡ ok mib) ↔ IsSize value mib
parse_memory_mib_iff value mib = (
  λ h. Passes-IsSize value mib (parse_memory_mib-Passes value mib h),
  λ x. Passes-parse_memory_mib value mib (IsSize-Passes value mib x),
)
