-- ===== src/Text/Words.antt =====
-- `strings.TrimSpace`, `strings.ToLower`, `strings.Fields` and prefixes, on the bytes of UTF-8.
use spind.Prelude.{
  ap, length, ltb, map, suc, zero, Bool, Bytes, List, [], arith, false, if◌then◌else◌, leb, not,
  refl, true, ℕ, ◌&&◌, ◌++◌, ◌+◌, ◌==◌, ◌||◌, ◌∷◌, ◌≡◌, ◌≢◌,
}
use mathlib.Core.List.{reverse}

unfoldable pub is_space : ℕ → Bool
is_space c = (leb 9 c && leb c 13) || c == 32

unfoldable pub has_prefix : Bytes → Bytes → Bool
has_prefix [] s = true
has_prefix (p ∷ ps) [] = false
has_prefix (p ∷ ps) (c ∷ cs) = p == c && has_prefix ps cs

-- the other spaces of Unicode in UTF-8: U+0085, U+00A0, U+1680, U+2000 to U+200A, U+2028, U+2029,
-- U+202F, U+205F and U+3000
abbrev pub wide_spaces : List Bytes
wide_spaces =
    (194 ∷ 133 ∷ [])
    ∷ (194 ∷ 160 ∷ [])
    ∷ (225 ∷ 154 ∷ 128 ∷ [])
    ∷ (226 ∷ 128 ∷ 128 ∷ [])
    ∷ (226 ∷ 128 ∷ 129 ∷ [])
    ∷ (226 ∷ 128 ∷ 130 ∷ [])
    ∷ (226 ∷ 128 ∷ 131 ∷ [])
    ∷ (226 ∷ 128 ∷ 132 ∷ [])
    ∷ (226 ∷ 128 ∷ 133 ∷ [])
    ∷ (226 ∷ 128 ∷ 134 ∷ [])
    ∷ (226 ∷ 128 ∷ 135 ∷ [])
    ∷ (226 ∷ 128 ∷ 136 ∷ [])
    ∷ (226 ∷ 128 ∷ 137 ∷ [])
    ∷ (226 ∷ 128 ∷ 138 ∷ [])
    ∷ (226 ∷ 128 ∷ 168 ∷ [])
    ∷ (226 ∷ 128 ∷ 169 ∷ [])
    ∷ (226 ∷ 128 ∷ 175 ∷ [])
    ∷ (226 ∷ 129 ∷ 159 ∷ [])
    ∷ (227 ∷ 128 ∷ 128 ∷ [])
    ∷ []

-- the length of the first of the parts with which the text begins
unfoldable pub matched : List Bytes → Bytes → ℕ
matched [] s = 0
matched (part ∷ parts) s =
    let rest = matched parts s in if has_prefix part s then length part else rest

-- the bytes of the space at the front of a text, or of the text reversed; zero where there is none
unfoldable pub space_size : List Bytes → Bytes → ℕ
space_size wide [] = 0
space_size wide (c ∷ cs) =
    if ltb c 128 then (if is_space c then 1 else 0) else matched wide (c ∷ cs)

-- The number is that of the bytes that still belong to the space before.
unfoldable pub skip_spaces : List Bytes → ℕ → Bytes → Bytes
skip_spaces wide n [] = []
skip_spaces wide (suc n) (c ∷ cs) = skip_spaces wide n cs
skip_spaces wide zero (c ∷ cs) = elim (space_size wide (c ∷ cs)) [
  | zero ↦ c ∷ cs
  | suc n ↦ skip_spaces wide n cs
]

unfoldable pub trim_space : Bytes → Bytes
trim_space s =
    reverse (skip_spaces (map reverse wide_spaces) 0 (reverse (skip_spaces wide_spaces 0 s)))

unfoldable pub lower_byte : ℕ → ℕ
lower_byte c = if leb b'A' c && leb c b'Z' then c + 32 else c

-- U+0130 and U+212A are the letters that become ASCII. Others are left: the code compares the result
-- with ASCII text.
unfoldable pub lower_from : ℕ → Bytes → Bytes
lower_from n [] = []
lower_from (suc n) (c ∷ cs) = lower_from n cs
lower_from zero (c ∷ cs) = elim (has_prefix (196 ∷ 176 ∷ []) (c ∷ cs)) [
  | true ↦ b'i' ∷ lower_from 1 cs
  | false ↦ elim (has_prefix (226 ∷ 132 ∷ 170 ∷ []) (c ∷ cs)) [
    | true ↦ b'k' ∷ lower_from 2 cs
    | false ↦ lower_byte c ∷ lower_from 0 cs
  ]
]

unfoldable pub to_lower : Bytes → Bytes
to_lower s = lower_from 0 s

-- puts a byte in front of the first word
abbrev pub grow_word : ℕ → List Bytes → List Bytes
grow_word c [] = (c ∷ []) ∷ []
grow_word c (w ∷ ws) = (c ∷ w) ∷ ws

-- The words of a text, with an empty word in front where the text begins with a space or is empty.
unfoldable pub split_from : ℕ → Bytes → List Bytes
split_from n [] = [] ∷ []
split_from (suc n) (c ∷ cs) = split_from n cs
split_from zero (c ∷ cs) = elim (space_size wide_spaces (c ∷ cs)) [
  | zero ↦ grow_word c (split_from 0 cs)
  | suc n ↦ [] ∷ split_from n cs
]

unfoldable pub split_words : Bytes → List Bytes
split_words s = split_from 0 s

unfoldable pub drop_empty : List Bytes → List Bytes
drop_empty [] = []
drop_empty ([] ∷ ws) = drop_empty ws
drop_empty ((c ∷ cs) ∷ ws) = (c ∷ cs) ∷ drop_empty ws

-- `strings.Fields`
unfoldable pub fields : Bytes → List Bytes
fields s = drop_empty (split_words s)

-- A text of ASCII bytes that are no spaces.
unfoldable pub no_space : Bytes → Bool
no_space [] = true
no_space (c ∷ cs) = ltb c 128 && not (is_space c) && no_space cs

space_size_plain :
    (c : ℕ) (cs : Bytes)
    → ltb c 128 ≡ true
    → is_space c ≡ false
    → space_size wide_spaces (c ∷ cs) ≡ 0
unfolding space_size
space_size_plain c cs h k = rw (h, k) refl

space_size_space : (c : ℕ) (cs : Bytes) → is_space c ≡ true → space_size wide_spaces (c ∷ cs) ≡ 1
unfolding space_size is_space
space_size_space c cs h = let ascii : ltb c 128 ≡ true = ground (arith, h) in rw (ascii, h) refl

-- A word before a space is the first word.
split_words-append :
    (w rest : Bytes) (space : ℕ)
    → no_space w ≡ true
    → is_space space ≡ true
    → split_words (w ++ (space ∷ rest)) ≡ w ∷ split_words rest
unfolding split_words split_from no_space
split_words-append [] rest space h k = rw (split_from, space_size_space space rest k) refl
split_words-append (c ∷ cs) rest space h k =
    let ascii : ltb c 128 ≡ true = ground (arith, h) in
    let plain : is_space c ≡ false = ground (arith, h) in
    let later : no_space cs ≡ true = ground (arith, h) in
    rw (split_from, space_size_plain c (cs ++ (space ∷ rest)) ascii plain)
      (ap (grow_word c) (split_words-append cs rest space later k))

-- The first field of a text that begins with a word and a space.
pub fields-append :
    (w rest : Bytes) (space : ℕ)
    → w ≢ []
    → no_space w ≡ true
    → is_space space ≡ true
    → fields (w ++ (space ∷ rest)) ≡ w ∷ fields rest
unfolding fields drop_empty
fields-append [] rest space ne h k = absurd (ne refl)
fields-append (c ∷ w) rest space ne h k = rw (split_words-append (c ∷ w) rest space h k)

pub fields-nil : fields [] ≡ []
unfolding fields split_words split_from drop_empty
fields-nil = refl

-- `strings.Contains`, with the part it looks for first
unfoldable pub contains : Bytes → Bytes → Bool
contains part [] = has_prefix part []
contains part (c ∷ cs) = has_prefix part (c ∷ cs) || contains part cs
