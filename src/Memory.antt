-- ===== src/Memory.antt =====
-- internal/spind/vm/create/memory.go: the size given by `--memory`, and
-- internal/spind/vm/create/run.go: the options made of the flags.
use spind.Prelude.{
  Bool, Bytes, List, Option, Result, [], codes, err, false, guard, if◌then◌else◌, is_empty, ltb,
  none, not, ok, some, str_eq, ℕ, ◌%◌, ◌*◌, ◌/◌, ◌==◌, ◌^◌, ◌||◌, ◌∷◌, ◌>>=◌, ◌>>◌,
}
pub mod Units
pub mod Accepted
use spind.Text.Words.{trim_space, to_lower}
use spind.Text.Decimal.{max_int, is_digit, Signed, plus, minus, parse_int}

pub data SizeError : Type 0 where
  memory_empty not_positive memory_too_large cpu_not_positive : SizeError
  unsupported_suffix : Bytes → SizeError

-- the digits in front, and the rest
unfoldable pub split_memory_size : Bytes → Bytes × Bytes
split_memory_size [] = ([], [])
split_memory_size (c ∷ cs) =
    let (number, unit) = split_memory_size cs in
    if is_digit c then (c ∷ number, unit) else ([], c ∷ cs)

unfoldable one_of : Bytes → List Bytes → Bool
one_of unit [] = false
one_of unit (u ∷ us) = str_eq unit u || one_of unit us

unfoldable pub memory_mib_multiplier : Bytes → Option ℕ
unfolding one_of
memory_mib_multiplier unit =
    let unit = to_lower unit in
    if str_eq unit []
    then some 1
    else if one_of unit (codes "m" ∷ codes "mb" ∷ codes "mib" ∷ [])
    then some 1
    else if one_of unit (codes "g" ∷ codes "gb" ∷ codes "gib" ∷ [])
    then some 1024
    else if one_of unit (codes "t" ∷ codes "tb" ∷ codes "tib" ∷ [])
    then some (1024 * 1024)
    else none

-- `err != nil || base <= 0`
unfoldable pub positive_base : Option Signed → Result SizeError ℕ
positive_base none = err not_positive
positive_base (some (minus n)) = err not_positive
positive_base (some (plus n)) = if n == 0 then err not_positive else ok n

unfoldable pub multiplier_of : Bytes → Result SizeError ℕ
multiplier_of unit = elim (memory_mib_multiplier unit) [
  | none ↦ err (unsupported_suffix unit)
  | some m ↦ ok m
]

-- The product is an `int64`.
unfoldable pub scaled : ℕ → ℕ → Result SizeError ℕ
scaled base multiplier =
    if ltb (max_int / multiplier) base
    then err memory_too_large
    else ok (base * multiplier % 2 ^ 64)

unfoldable pub parse_memory_mib : Bytes → Result SizeError ℕ
parse_memory_mib value = do
  let value = trim_space value
  guard (not (is_empty value)) memory_empty
  let (base_text, unit) = split_memory_size value
  base ← positive_base (parse_int base_text)
  multiplier ← multiplier_of unit
  scaled base multiplier

-- A flag as it was given: `none` where it was not set. `cpu` may be negative.
pub record Flags : Type 0 where
  pub cpu : Option Signed
  pub memory : Option Bytes

-- Zero where nothing was set.
pub record CreateOptions : Type 0 where
  pub cpu_count : ℕ
  pub memory_mib : ℕ

cpu_option : Option Signed → Result SizeError ℕ
cpu_option none = ok 0
cpu_option (some (minus n)) = err cpu_not_positive
cpu_option (some (plus n)) = if n == 0 then err cpu_not_positive else ok n

memory_option : Option Bytes → Result SizeError ℕ
memory_option none = ok 0
memory_option (some value) = parse_memory_mib value

unfoldable pub manager_create_options : Flags → Result SizeError CreateOptions
unfolding cpu_option memory_option
manager_create_options flags = do
  cpu_count ← cpu_option flags.cpu
  memory_mib ← memory_option flags.memory
  ok (record { cpu_count = cpu_count; memory_mib = memory_mib })
