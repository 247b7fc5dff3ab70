-- ===== src/Shell/Fish.antt =====
-- `fishQuote`, and the quoting rules of fish for one word.
use spind.Prelude.{
  Bool-cases, Bytes, Option, [], ap, eq_of_==, if◌then◌else◌, inl, inr, none, refl, some, sym, ◌++◌,
  ◌==◌, ◌||◌, ◌∷◌, ◌≡◌,
}
use spind.Shell.Posix.{replace_all, quote, backslash, Mode, plain, in_quotes, escaped, prepend}

unfoldable pub fish_quote : Bytes → Bytes
fish_quote value =
    let value = replace_all backslash (backslash ∷ backslash ∷ []) value in
    let value = replace_all quote (backslash ∷ quote ∷ []) value in quote ∷ (value ++ quote ∷ [])

-- How fish reads a word in single quotes: there a backslash stands for itself, but before a
-- backslash or a quote it is dropped. Outside the quotes nothing is read here: `none`.
unfoldable pub read_fish : Mode → Bytes → Option Bytes
read_fish plain [] = some []
read_fish in_quotes [] = none
read_fish escaped [] = none
read_fish plain (c ∷ cs) =
    let opened = read_fish in_quotes cs in if c == quote then opened else none
read_fish in_quotes (c ∷ cs) =
    let closed = read_fish plain cs in
    let next = read_fish escaped cs in
    let rest = read_fish in_quotes cs in
    if c == quote then closed else if c == backslash then next else prepend c rest
read_fish escaped (c ∷ cs) =
    let rest = read_fish in_quotes cs in
    if c == quote || c == backslash then prepend c rest else prepend backslash (prepend c rest)

-- the two replacements of one byte
escaped_twice : Bytes → Bytes
escaped_twice value =
    replace_all quote (backslash ∷ quote ∷ [])
      (replace_all backslash (backslash ∷ backslash ∷ []) value)

read_fish-escaped_twice :
    (value : Bytes) → read_fish in_quotes (escaped_twice value ++ quote ∷ []) ≡ some value
unfolding read_fish replace_all escaped_twice
read_fish-escaped_twice [] = refl
read_fish-escaped_twice (c ∷ cs) = elim (Bool-cases (c == backslash)) [
  | inl is_backslash ↦
      rw (is_backslash, read_fish-escaped_twice cs)
        (ap (λ b. some (b ∷ cs)) (sym (eq_of_== c backslash is_backslash)))
  | inr other ↦ elim (Bool-cases (c == quote)) [
    | inl is_quote ↦
        rw (other, is_quote, read_fish-escaped_twice cs)
          (ap (λ b. some (b ∷ cs)) (sym (eq_of_== c quote is_quote)))
    | inr plain_byte ↦ rw (other, plain_byte, plain_byte, other, read_fish-escaped_twice cs)
  ]
]

-- fish reads the quoted value as exactly the value, whatever bytes it holds.
pub read_fish-fish_quote : (value : Bytes) → read_fish plain (fish_quote value) ≡ some value
unfolding fish_quote read_fish escaped_twice
read_fish-fish_quote value = read_fish-escaped_twice value
