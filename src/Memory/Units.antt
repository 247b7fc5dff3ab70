-- ===== src/Memory/Units.antt =====
-- The number and the unit of a size.
use spind.Prelude.{
  Any, Bool, List, or_cases, str_eq, ap, codes, leb, true, str_eq_iff, ◌&&◌, ◌++◌, ◌⊎◌, Bool-cases,
  Bytes, [], arith, false, inl, inr, not, refl, some, ℕ, ◌↔◌, ◌∷◌, ◌≡◌,
}
use spind.Text.Words.{to_lower}
use spind.Text.Decimal.{is_digit}
use spind.Memory.{one_of, split_memory_size, memory_mib_multiplier}

abbrev mib_units : List Bytes
mib_units = codes "m" ∷ codes "mb" ∷ codes "mib" ∷ []

abbrev gib_units : List Bytes
gib_units = codes "g" ∷ codes "gb" ∷ codes "gib" ∷ []

abbrev tib_units : List Bytes
tib_units = codes "t" ∷ codes "tb" ∷ codes "tib" ∷ []

-- how many MiB a unit is, in lower case
abbrev pub IsUnit : Bytes → ℕ → Type 0
IsUnit unit mib =
    (mib ≡ 1) × Any (λ u. unit ≡ u) ([] ∷ codes "m" ∷ codes "mb" ∷ codes "mib" ∷ [])
    ⊎ (mib ≡ 1024) × Any (λ u. unit ≡ u) (codes "g" ∷ codes "gb" ∷ codes "gib" ∷ [])
    ⊎ (mib ≡ 1048576) × Any (λ u. unit ≡ u) (codes "t" ∷ codes "tb" ∷ codes "tib" ∷ [])

-- The text begins with no digit.
unfoldable pub no_digit : Bytes → Bool
no_digit [] = true
no_digit (c ∷ cs) = not (leb b'0' c && leb c b'9')

unfoldable pub all_digits : Bytes → Bool
all_digits [] = true
all_digits (c ∷ cs) = leb b'0' c && leb c b'9' && all_digits cs

pub split_joined :
    (s : Bytes)
    → let (number, unit) = split_memory_size s in
      (s ≡ number ++ unit) × (all_digits number ≡ true) × (no_digit unit ≡ true)
unfolding split_memory_size all_digits no_digit is_digit
split_joined [] = (refl, refl, refl)
split_joined (c ∷ cs) =
    let (joined, digits, begins) = split_joined cs in
    elim (Bool-cases (is_digit c)) [
      | inl e ↦ rw e (ap (λ t. c ∷ t) joined, ground (arith, e, digits), begins)
      | inr e ↦ rw e (refl, refl, ground (arith, e))
    ]

pub split_append :
    (number unit : Bytes)
    → all_digits number ≡ true
    → no_digit unit ≡ true
    → split_memory_size (number ++ unit) ≡ (number, unit)
unfolding split_memory_size all_digits no_digit is_digit
split_append [] [] h k = refl
split_append [] (c ∷ cs) h k = let other : is_digit c ≡ false = ground (arith, k) in rw other refl
split_append (c ∷ cs) unit h k =
    let digit : is_digit c ≡ true = ground (arith, h) in
    let rest : all_digits cs ≡ true = ground (arith, h) in
    rw (digit, split_append cs unit rest k) refl

one_of-Any : (unit : Bytes) (us : List Bytes) → one_of unit us ≡ true → Any (λ u. unit ≡ u) us
unfolding one_of
one_of-Any unit [] h = cc
one_of-Any unit (u ∷ us) h = elim (or_cases (str_eq unit u) (one_of unit us) h) [
  | inl e ↦ inl ((str_eq_iff unit u).0 e)
  | inr e ↦ inr (one_of-Any unit us e)
]

multiplier-IsUnit :
    (unit : Bytes) (mib : ℕ) → memory_mib_multiplier unit ≡ some mib → IsUnit (to_lower unit) mib
unfolding memory_mib_multiplier
multiplier-IsUnit unit mib h = elim (Bool-cases (str_eq (to_lower unit) [])) [
  | inl e ↦ inl (cc (rw (memory_mib_multiplier, e) at h), inl ((str_eq_iff _ _).0 e))
  | inr e ↦ elim (Bool-cases (one_of (to_lower unit) mib_units)) [
    | inl e1 ↦
        inl (
          cc (rw (memory_mib_multiplier, e, e1) at h),
          inr (one_of-Any (to_lower unit) mib_units e1),
        )
    | inr e1 ↦ elim (Bool-cases (one_of (to_lower unit) gib_units)) [
      | inl e2 ↦ inr (
          inl (
            cc (rw (memory_mib_multiplier, e, e1, e2) at h),
            one_of-Any (to_lower unit) gib_units e2,
          ))
      | inr e2 ↦ elim (Bool-cases (one_of (to_lower unit) tib_units)) [
        | inl e3 ↦ inr (
            inr (
              cc (rw (memory_mib_multiplier, e, e1, e2, e3) at h),
              one_of-Any (to_lower unit) tib_units e3,
            ))
        | inr e3 ↦ cc (rw (memory_mib_multiplier, e, e1, e2, e3) at h)
      ]
    ]
  ]
]

IsUnit-multiplier :
    (unit : Bytes) (mib : ℕ) → IsUnit (to_lower unit) mib → memory_mib_multiplier unit ≡ some mib
unfolding memory_mib_multiplier one_of str_eq
IsUnit-multiplier unit mib h = elim h [
  | inl (e, inl q) ↦ rw (memory_mib_multiplier, q, e) refl
  | inl (e, inr (inl q)) ↦ rw (memory_mib_multiplier, q, e) refl
  | inl (e, inr (inr (inl q))) ↦ rw (memory_mib_multiplier, q, e) refl
  | inl (e, inr (inr (inr (inl q)))) ↦ rw (memory_mib_multiplier, q, e) refl
  | inr (inl (e, inl q)) ↦ rw (memory_mib_multiplier, q, e) refl
  | inr (inl (e, inr (inl q))) ↦ rw (memory_mib_multiplier, q, e) refl
  | inr (inl (e, inr (inr (inl q)))) ↦ rw (memory_mib_multiplier, q, e) refl
  | inr (inr (e, inl q)) ↦ rw (memory_mib_multiplier, q, e) refl
  | inr (inr (e, inr (inl q))) ↦ rw (memory_mib_multiplier, q, e) refl
  | inr (inr (e, inr (inr (inl q)))) ↦ rw (memory_mib_multiplier, q, e) refl
  | inl (e, inr (inr (inr (inr x)))) ↦ elim x [ ]
  | inr (inl (e, inr (inr (inr x)))) ↦ elim x [ ]
  | inr (inr (e, inr (inr (inr x)))) ↦ elim x [ ]
]

pub IsUnit-iff :
    (unit : Bytes) (mib : ℕ) → (memory_mib_multiplier unit ≡ some mib) ↔ IsUnit (to_lower unit) mib
IsUnit-iff unit mib = (multiplier-IsUnit unit mib, IsUnit-multiplier unit mib)
