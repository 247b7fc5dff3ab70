-- ===== src/Name.antt =====
-- internal/spind/store/name.go: the names of images, VMs, snapshots and projects.
use spind.Prelude.{
  Bool, Bytes, [], arith, codes, false, leb, not, refl, str_eq, str_eq_iff, true, ℕ, ◌&&◌, ◌++◌,
  ◌==◌, ◌||◌, ◌∷◌, ◌≡◌, ◌≢◌,
}

abbrev pub within : ℕ → ℕ → ℕ → Bool
within lo hi c = leb lo c && leb c hi

-- `[A-Za-z0-9]`
unfoldable pub is_alphanumeric : ℕ → Bool
is_alphanumeric c = within b'A' b'Z' c || within b'a' b'z' c || within b'0' b'9' c

-- `[A-Za-z0-9._-]`
unfoldable pub is_name_byte : ℕ → Bool
unfolding is_alphanumeric
is_name_byte c = is_alphanumeric c || c == b'.' || c == b'_' || c == b'-'

unfoldable pub all_bytes : (ℕ → Bool) → Bytes → Bool
all_bytes p [] = true
all_bytes p (c ∷ cs) = p c && all_bytes p cs

-- `^[A-Za-z0-9][A-Za-z0-9._-]*$`
matches_name : Bytes → Bool
matches_name [] = false
matches_name (c ∷ cs) = is_alphanumeric c && all_bytes is_name_byte cs

unfoldable pub valid_name : Bytes → Bool
unfolding matches_name
valid_name name =
    matches_name name && (not (str_eq name (codes ".")) && not (str_eq name (codes "..")))

-- One component of a path: not empty, with no separator, and not a way up or down.
pub record IsFileName (name : Bytes) : Type 0 where
  pub not_empty : name ≢ []
  pub no_slash : all_bytes (λ c. not (c == b'/')) name ≡ true
  pub not_dot : name ≢ codes "."
  pub not_dot_dot : name ≢ codes ".."

name_byte-ne-slash : (c : ℕ) → is_name_byte c ≡ true → not (c == b'/') ≡ true
unfolding is_name_byte
name_byte-ne-slash c h = ground arith

all_bytes_mono :
    (p q : ℕ → Bool)
    → ((c : ℕ) → p c ≡ true → q c ≡ true)
    → (s : Bytes) → all_bytes p s ≡ true
    → all_bytes q s ≡ true
unfolding all_bytes
all_bytes_mono p q h [] a = refl
all_bytes_mono p q h (c ∷ cs) a = ground (arith, h c, all_bytes_mono p q h cs)

alphanumeric-name_byte : (c : ℕ) → is_alphanumeric c ≡ true → is_name_byte c ≡ true
unfolding is_name_byte
alphanumeric-name_byte c h = ground arith

-- A valid name is one component of a path, so a file named by it stays in its store.
pub valid_name-IsFileName : (name : Bytes) → valid_name name ≡ true → IsFileName name
unfolding valid_name matches_name all_bytes
valid_name-IsFileName [] h = cc
valid_name-IsFileName (c ∷ cs) h = record {
  not_empty = λ e. cc;
  no_slash =
      all_bytes_mono is_name_byte _ name_byte-ne-slash (c ∷ cs)
        (ground (arith, alphanumeric-name_byte c));
  not_dot = λ e. ground (arith, (str_eq_iff (c ∷ cs) (codes ".")).1 e);
  not_dot_dot = λ e. ground (arith, (str_eq_iff (c ∷ cs) (codes "..")).1 e);
}

all_bytes-append :
    (p : ℕ → Bool) (s t : Bytes)
    → all_bytes p s ≡ true
    → all_bytes p t ≡ true
    → all_bytes p (s ++ t) ≡ true
unfolding all_bytes
all_bytes-append p [] t h k = k
all_bytes-append p (c ∷ cs) t h k = ground (arith, all_bytes-append p cs t)

-- A suffix of name bytes keeps a name valid.
pub valid_name-append :
    (name suffix : Bytes)
    → valid_name name ≡ true
    → all_bytes is_name_byte suffix ≡ true
    → valid_name (name ++ suffix) ≡ true
unfolding valid_name is_alphanumeric str_eq
valid_name-append [] suffix h k = cc
valid_name-append (c ∷ cs) suffix h k = ground (arith, all_bytes-append is_name_byte cs suffix)

-- No valid name begins with a dot.
pub valid_name-dot : (s : Bytes) → valid_name (b'.' ∷ s) ≡ false
unfolding valid_name is_alphanumeric
valid_name-dot s = refl
