-- ===== src/Shell/Posix.antt =====
-- `posixQuote`, and the quoting rules of a POSIX shell for one word.
use spind.Prelude.{
  Bool-cases, Bytes, Option, [], ap, eq_of_==, if◌then◌else◌, inl, inr, none, refl, some, sym, ℕ,
  ◌++◌, ◌==◌, ◌∷◌, ◌≡◌,
}

-- `strings.ReplaceAll(s, old, new)` for an `old` of one byte
unfoldable pub replace_all : ℕ → Bytes → Bytes → Bytes
replace_all old new [] = []
replace_all old new (c ∷ cs) = (if c == old then new else c ∷ []) ++ replace_all old new cs

abbrev pub quote : ℕ
quote = b'\''

abbrev pub backslash : ℕ
backslash = b'\\'

abbrev escaped_quote : Bytes
escaped_quote = quote ∷ backslash ∷ quote ∷ quote ∷ []

unfoldable pub posix_quote : Bytes → Bytes
posix_quote value = quote ∷ (replace_all quote escaped_quote value ++ quote ∷ [])

-- How a POSIX shell reads a word of quoted parts: in single quotes every byte stands for itself,
-- and outside them a backslash quotes the next byte. `none` is a word that does not end, or that
-- holds an unquoted byte.
pub data Mode : Type 0 where
  plain in_quotes escaped : Mode

abbrev pub prepend : ℕ → Option Bytes → Option Bytes
prepend c none = none
prepend c (some s) = some (c ∷ s)

unfoldable pub read_word : Mode → Bytes → Option Bytes
read_word plain [] = some []
read_word in_quotes [] = none
read_word escaped [] = none
read_word plain (c ∷ cs) =
    let opened = read_word in_quotes cs in
    let next = read_word escaped cs in
    if c == quote then opened else if c == backslash then next else none
read_word in_quotes (c ∷ cs) =
    let closed = read_word plain cs in
    let rest = read_word in_quotes cs in if c == quote then closed else prepend c rest
read_word escaped (c ∷ cs) = let rest = read_word plain cs in prepend c rest

read_word-replace_all :
    (value : Bytes)
    → read_word in_quotes (replace_all quote escaped_quote value ++ quote ∷ []) ≡ some value
unfolding read_word replace_all
read_word-replace_all [] = refl
read_word-replace_all (c ∷ cs) = elim (Bool-cases (c == quote)) [
  | inl is_quote ↦
      rw (is_quote, read_word-replace_all cs)
        (ap (λ b. some (b ∷ cs)) (sym (eq_of_== c quote is_quote)))
  | inr other ↦ rw (other, other, read_word-replace_all cs)
]

-- A POSIX shell reads the quoted value as exactly the value, whatever bytes it holds.
pub read_word-posix_quote : (value : Bytes) → read_word plain (posix_quote value) ≡ some value
unfolding posix_quote read_word
read_word-posix_quote value = read_word-replace_all value
