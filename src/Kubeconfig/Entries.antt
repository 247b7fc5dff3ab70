-- ===== src/Kubeconfig/Entries.antt =====
-- What `find` and `filter` make of each other's results.
use spind.Prelude.{
  Bool-cases, Bytes, List, [], ap, append-nil, false, inl, inr, refl, str_eq, str_eq_iff, true,
  ◌++◌, ◌∷◌, ◌≡◌,
}
use spind.Kubeconfig.{find, filter}

module _ {A : Type 0} (key : A → Bytes) where
  pub find-append :
      (xs ys : List A) (n : Bytes) → find key (xs ++ ys) n ≡ find key xs n ++ find key ys n
  unfolding find
  find-append [] ys n = refl
  find-append (x ∷ xs) ys n = elim (Bool-cases (str_eq (key x) n)) [
    | inl same ↦ rw (same, find-append xs ys n) refl
    | inr other ↦ rw (other, find-append xs ys n) refl
  ]

  pub filter-append :
      (xs ys : List A) (n : Bytes) → filter key (xs ++ ys) n ≡ filter key xs n ++ filter key ys n
  unfolding filter
  filter-append [] ys n = refl
  filter-append (x ∷ xs) ys n = elim (Bool-cases (str_eq (key x) n)) [
    | inl same ↦ rw (same, filter-append xs ys n) refl
    | inr other ↦ rw (other, filter-append xs ys n) refl
  ]

  pub find-filter : (xs : List A) (n : Bytes) → find key (filter key xs n) n ≡ []
  unfolding find filter
  find-filter [] n = refl
  find-filter (x ∷ xs) n = elim (Bool-cases (str_eq (key x) n)) [
    | inl same ↦ rw (same, find-filter xs n) refl
    | inr other ↦ rw (other, other, find-filter xs n) refl
  ]

  pub filter-find : (xs : List A) (n : Bytes) → filter key (find key xs n) n ≡ []
  unfolding find filter
  filter-find [] n = refl
  filter-find (x ∷ xs) n = elim (Bool-cases (str_eq (key x) n)) [
    | inl same ↦ rw (same, same, filter-find xs n) refl
    | inr other ↦ rw (other, filter-find xs n) refl
  ]

  pub find-find : (xs : List A) (n : Bytes) → find key (find key xs n) n ≡ find key xs n
  unfolding find
  find-find [] n = refl
  find-find (x ∷ xs) n = elim (Bool-cases (str_eq (key x) n)) [
    | inl same ↦ rw (same, same, find-find xs n) refl
    | inr other ↦ rw (other, find-find xs n) refl
  ]

  pub filter-filter : (xs : List A) (n : Bytes) → filter key (filter key xs n) n ≡ filter key xs n
  unfolding filter
  filter-filter [] n = refl
  filter-filter (x ∷ xs) n = elim (Bool-cases (str_eq (key x) n)) [
    | inl same ↦ rw (same, filter-filter xs n) refl
    | inr other ↦ rw (other, other, filter-filter xs n) refl
  ]

  -- Two names differ where the test says so; a key is not both.
  pub str_eq-other : (a n m : Bytes) → str_eq n m ≡ false → str_eq a n ≡ true → str_eq a m ≡ false
  str_eq-other a n m h k = elim (Bool-cases (str_eq a m)) [
    | inl e ↦ cc (h, e, ap (λ t. str_eq t m) ((str_eq_iff a n).0 k))
    | inr e ↦ e
  ]

  pub find-filter_other :
      (xs : List A) (n m : Bytes)
      → str_eq n m ≡ false
      → find key (filter key xs n) m ≡ find key xs m
  unfolding find filter
  find-filter_other [] n m h = refl
  find-filter_other (x ∷ xs) n m h = elim (Bool-cases (str_eq (key x) n)) [
    | inl same ↦
        let e = str_eq-other (key x) n m h same in rw (same, e, find-filter_other xs n m h) refl
    | inr other ↦ elim (Bool-cases (str_eq (key x) m)) [
      | inl e ↦ rw (other, e, find-filter_other xs n m h) refl
      | inr e ↦ rw (other, e, find-filter_other xs n m h) refl
    ]
  ]

  pub find-find_other :
      (xs : List A) (n m : Bytes) → str_eq n m ≡ false → find key (find key xs n) m ≡ []
  unfolding find
  find-find_other [] n m h = refl
  find-find_other (x ∷ xs) n m h = elim (Bool-cases (str_eq (key x) n)) [
    | inl same ↦
        let e = str_eq-other (key x) n m h same in rw (same, e, find-find_other xs n m h) refl
    | inr other ↦ rw (other, find-find_other xs n m h) refl
  ]

  -- `removeEntry` and then `appendEntry`, on one of the three lists
  abbrev pub replace_entries : List A → List A → Bytes → List A
  replace_entries xs ys n = filter key xs n ++ find key ys n

  pub replace_entries_self :
      (xs ys : List A) (n : Bytes) → find key (replace_entries xs ys n) n ≡ find key ys n
  replace_entries_self xs ys n =
      rw (find-append (filter key xs n) (find key ys n) n, find-filter xs n, find-find ys n) refl

  pub replace_entries_other :
      (xs ys : List A) (n m : Bytes)
      → str_eq n m ≡ false
      → find key (replace_entries xs ys n) m ≡ find key xs m
  replace_entries_other xs ys n m h =
      rw
        (
          find-append (filter key xs n) (find key ys n) m,
          find-filter_other xs n m h,
          find-find_other ys n m h,
        )
        (append-nil (find key xs m))

  pub filter-replace_entries :
      (xs ys : List A) (n : Bytes) → filter key (replace_entries xs ys n) n ≡ filter key xs n
  filter-replace_entries xs ys n =
      rw (filter-append (filter key xs n) (find key ys n) n, filter-filter xs n, filter-find ys n)
        (append-nil (filter key xs n))
