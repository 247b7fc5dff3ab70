-- ===== src/Text/Order.antt =====
-- `a < b` on Go's strings, and what `sort.Slice` and `sort.Strings` do with keys that are strings.
use spind.Prelude.{
  All, Bool, Bool-cases, Bytes, List, [], arith, false, if◌then◌else◌, inl, inr, ltb, refl, true,
  ◌∷◌, ◌≡◌, ◌≢◌,
}
use mathlib.Core.List.{Perm}
use mathlib.Core.List.Perm

unfoldable pub str_lt : Bytes → Bytes → Bool
str_lt [] [] = false
str_lt [] (y ∷ ys) = true
str_lt (x ∷ xs) [] = false
str_lt (x ∷ xs) (y ∷ ys) =
    let rest = str_lt xs ys in if ltb x y then true else if ltb y x then false else rest

pub str_lt_asym : (a b : Bytes) → str_lt a b ≡ true → str_lt b a ≡ false
unfolding str_lt
str_lt_asym [] [] h = refl
str_lt_asym [] (y ∷ ys) h = refl
str_lt_asym (x ∷ xs) [] h = cc
str_lt_asym (x ∷ xs) (y ∷ ys) h = ground (arith, str_lt_asym xs ys)

pub str_lt_trans : (a b c : Bytes) → str_lt b a ≡ false → str_lt c b ≡ false → str_lt c a ≡ false
unfolding str_lt
str_lt_trans [] b [] h k = refl
str_lt_trans (x ∷ xs) [] [] h k = cc
str_lt_trans (x ∷ xs) (y ∷ ys) [] h k = cc
str_lt_trans [] b (z ∷ zs) h k = refl
str_lt_trans (x ∷ xs) [] (z ∷ zs) h k = cc
str_lt_trans (x ∷ xs) (y ∷ ys) (z ∷ zs) h k = ground (arith, str_lt_trans xs ys zs)

module _ {A : Type 0} (key : A → Bytes) where
  unfoldable pub insert_by : A → List A → List A
  insert_by x [] = x ∷ []
  insert_by x (y ∷ ys) =
      let rest = insert_by x ys in if str_lt (key y) (key x) then y ∷ rest else x ∷ y ∷ ys

  unfoldable pub sort_by : List A → List A
  sort_by [] = []
  sort_by (x ∷ xs) = insert_by x (sort_by xs)

  abbrev pub IsAscending : List A → Type 0
  IsAscending [] = Unit
  IsAscending (x ∷ xs) = All (λ y. str_lt (key y) (key x) ≡ false) xs × IsAscending xs

  insert_by-perm : (x : A) (xs : List A) → Perm (insert_by x xs) (x ∷ xs)
  unfolding insert_by
  insert_by-perm x [] = Perm.rfl
  insert_by-perm x (y ∷ ys) = elim (Bool-cases (str_lt (key y) (key x))) [
    | inl e ↦ rw e (Perm.trans (Perm.cons y (insert_by-perm x ys)) (Perm.swap x y ys))
    | inr e ↦ rw e Perm.rfl
  ]

  insert_by-cons : (x : A) (xs : List A) → insert_by x xs ≢ []
  unfolding insert_by
  insert_by-cons x [] h = cc
  insert_by-cons x (y ∷ ys) h = elim (Bool-cases (str_lt (key y) (key x))) [
    | inl e ↦ cc (rw e at h)
    | inr e ↦ cc (rw e at h)
  ]

  insert_by-All : (P : A → Type 0) (x : A) (xs : List A) → P x → All P xs → All P (insert_by x xs)
  unfolding insert_by
  insert_by-All P x [] h k = (h, tt)
  insert_by-All P x (y ∷ ys) h (k, ks) = elim (Bool-cases (str_lt (key y) (key x))) [
    | inl e ↦ rw e (k, insert_by-All P x ys h ks)
    | inr e ↦ rw e (h, (k, ks))
  ]

  below-All :
      (x y : A) (ys : List A)
      → str_lt (key y) (key x) ≡ false
      → All (λ z. str_lt (key z) (key y) ≡ false) ys
      → All (λ z. str_lt (key z) (key x) ≡ false) ys
  below-All x y [] h k = tt
  below-All x y (z ∷ zs) h (k, ks) =
      (str_lt_trans (key x) (key y) (key z) h k, below-All x y zs h ks)

  insert_by-IsAscending : (x : A) (xs : List A) → IsAscending xs → IsAscending (insert_by x xs)
  unfolding insert_by
  insert_by-IsAscending x [] h = (tt, tt)
  insert_by-IsAscending x (y ∷ ys) (below, h) = elim (Bool-cases (str_lt (key y) (key x))) [
    | inl e ↦ rw e (
      insert_by-All (λ z. str_lt (key z) (key y) ≡ false) x ys (str_lt_asym (key y) (key x) e)
          below,
      insert_by-IsAscending x ys h,
    )
    | inr e ↦ rw e ((e, below-All x y ys e below), (below, h))
  ]

  pub sort_by-IsAscending : (xs : List A) → IsAscending (sort_by xs)
  unfolding sort_by
  sort_by-IsAscending [] = tt
  sort_by-IsAscending (x ∷ xs) = insert_by-IsAscending x (sort_by xs) (sort_by-IsAscending xs)

  pub sort_by-perm : (xs : List A) → Perm (sort_by xs) xs
  unfolding sort_by
  sort_by-perm [] = Perm.rfl
  sort_by-perm (x ∷ xs) = Perm.trans (insert_by-perm x (sort_by xs)) (Perm.cons x (sort_by-perm xs))

  pub sort_by-nil : (xs : List A) → sort_by xs ≡ [] → xs ≡ []
  unfolding sort_by
  sort_by-nil [] h = refl
  sort_by-nil (x ∷ xs) h = absurd (insert_by-cons x (sort_by xs) h)
