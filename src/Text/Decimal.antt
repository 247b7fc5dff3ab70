-- ===== src/Text/Decimal.antt =====
-- `strconv.Itoa` of a number, and `strconv.ParseInt(s, 10, 64)`.
use spind.Prelude.{
  Bool, Bool-cases, Bytes, Option, [], ap, arith, eq_of_==, if◌then◌else◌, inl, inr, leb, none,
  pos_of_==_zero, refl, some, suc, sym, true, zero, ℕ, ◌%◌, ◌&&◌, ◌*◌, ◌+◌, ◌-◌, ◌/◌, ◌==◌, ◌^◌,
  ◌∙◌, ◌∷◌, ◌≡◌, ◌≢◌, ◌≤◌,
}
use spind.Text.Words.{is_space, no_space}

abbrev pub max_int : ℕ
max_int = 2 ^ 63 - 1

-- the digits of a number, the last first; each round divides by ten, so the number is fuel enough
digits_rev : ℕ → ℕ → Bytes
digits_rev zero n = []
digits_rev (suc fuel) n =
    let rest = digits_rev fuel (n / 10) in if n == 0 then [] else (b'0' + n % 10) ∷ rest

append_rev : Bytes → Bytes → Bytes
append_rev [] out = out
append_rev (c ∷ cs) out = append_rev cs (c ∷ out)

unfoldable pub itoa : ℕ → Bytes
unfolding digits_rev append_rev
itoa n = if n == 0 then b'0' ∷ [] else append_rev (digits_rev n n) []

unfoldable pub is_digit : ℕ → Bool
is_digit c = leb b'0' c && leb c b'9'

-- the number that digits stand for, with those read before
unfoldable pub read_digits : ℕ → Bytes → Option ℕ
unfolding is_digit
read_digits acc [] = some acc
read_digits acc (c ∷ cs) =
    let rest = read_digits (acc * 10 + (c - b'0')) cs in if is_digit c then rest else none

-- A number with a sign.
pub data Signed : Type 0 where
  plus minus : ℕ → Signed

in_range : Signed → Option Signed
in_range (plus n) = if leb n max_int then some (plus n) else none
in_range (minus n) = if leb n (max_int + 1) then some (minus n) else none

unsigned : (ℕ → Signed) → Bytes → Option Signed
unsigned sign [] = none
unsigned sign (c ∷ cs) = elim (read_digits 0 (c ∷ cs)) [ none ↦ none | some n ↦ in_range (sign n) ]

-- `ParseInt(s, 10, 64)`; `none` is an error
unfoldable pub parse_int : Bytes → Option Signed
unfolding in_range unsigned
parse_int [] = none
parse_int (c ∷ cs) =
    if c == b'+'
    then unsigned plus cs
    else if c == b'-'
    then unsigned minus cs
    else unsigned plus (c ∷ cs)

last_digit : (n : ℕ) → is_digit (b'0' + n % 10) ≡ true
unfolding is_digit
last_digit n = ground arith

zero_digit : read_digits 0 (b'0' ∷ []) ≡ some 0
unfolding read_digits
zero_digit = refl

read_digits-append_rev :
    (fuel n : ℕ) (out : Bytes)
    → n ≤ fuel
    → read_digits 0 (append_rev (digits_rev fuel n) out) ≡ read_digits n out
unfolding read_digits append_rev digits_rev
read_digits-append_rev zero n out h = let e : n ≡ 0 = omega arith in rw e
read_digits-append_rev (suc fuel) n out h = elim (Bool-cases (n == 0)) [
  | inl z ↦ rw (z, eq_of_== n 0 z)
  | inr more ↦
      let digit : is_digit (b'0' + n % 10) ≡ true = last_digit n in
      let value : n / 10 * 10 + (b'0' + n % 10 - b'0') ≡ n = omega arith in
      rw more (
        read_digits-append_rev fuel (n / 10) ((b'0' + n % 10) ∷ out)
          (omega (arith, pos_of_==_zero n more))
        ∙ rw (digit, value))
]

-- The digits that `Itoa` writes read back as the number.
pub read_digits-itoa : (n : ℕ) → read_digits 0 (itoa n) ≡ some n
unfolding itoa read_digits
read_digits-itoa n = elim (Bool-cases (n == 0)) [
  | inl z ↦ rw (z, eq_of_== n 0 z) zero_digit
  | inr more ↦ rw more (read_digits-append_rev n n [] (omega arith))
]

append_rev-no_space :
    (s out : Bytes) → no_space s ≡ true → no_space out ≡ true → no_space (append_rev s out) ≡ true
unfolding append_rev no_space
append_rev-no_space [] out h k = k
append_rev-no_space (c ∷ cs) out h k =
    append_rev-no_space cs (c ∷ out) (ground arith) (ground arith)

digits_rev-no_space : (fuel n : ℕ) → no_space (digits_rev fuel n) ≡ true
unfolding digits_rev no_space is_space
digits_rev-no_space zero n = refl
digits_rev-no_space (suc fuel) n = ground (arith, digits_rev-no_space fuel (n / 10))

pub itoa-no_space : (n : ℕ) → no_space (itoa n) ≡ true
unfolding itoa no_space is_space
itoa-no_space n = elim (Bool-cases (n == 0)) [
  | inl z ↦ rw z
  | inr more ↦ rw more (append_rev-no_space (digits_rev n n) [] (digits_rev-no_space n n) refl)
]

pub itoa-ne-nil : (n : ℕ) → itoa n ≢ []
unfolding itoa read_digits
itoa-ne-nil n e = elim (Bool-cases (n == 0)) [
  | inl z ↦ cc (rw z at e)
  | inr more ↦ ground (arith, ap (read_digits 0) (sym e) ∙ read_digits-itoa n)
]

-- A text of digits only is read as their value.
pub parse_int_digits :
    (s : Bytes) {n : ℕ}
    → s ≢ []
    → read_digits 0 s ≡ some n
    → n ≤ max_int
    → parse_int s ≡ some (plus n)
unfolding parse_int read_digits
parse_int_digits [] ne h k = absurd (ne refl)
parse_int_digits (c ∷ cs) ne h k = ground arith

-- `ParseInt` reads back what `Itoa` writes.
pub parse_int-itoa : (n : ℕ) → n ≤ max_int → parse_int (itoa n) ≡ some (plus n)
parse_int-itoa n h = parse_int_digits (itoa n) (itoa-ne-nil n) (read_digits-itoa n) h
