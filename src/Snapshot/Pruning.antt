-- ===== src/Snapshot/Pruning.antt =====
-- Which snapshots a prune leaves in the store.
use spind.Prelude.{
  All, some, ◌+◌, ◌-◌, ◌<◌, ◌≤◌, ◌≢◌, ◌⊎◌, >>=-eq-ok, Bool, Bool-cases, Bytes, List, Result,
  Result-cases, [], ap, arith, false, guard, inl, inr, is_empty, none, not, ok, refl, str_eq,
  str_eq_iff, sym, true, ℕ, ◌&&◌, ◌||◌, ◌∙◌, ◌∷◌, ◌≡◌,
}
use spind.Name.{valid_name}
use spind.Text.Decimal.{Signed, plus}
use spind.Snapshot.{Info, is_backend}
use spind.Snapshot.Prune.{
  PruneError, invalid_name, not_found, size_failed, remove_failed, Disk, directory_size, remove_all,
  has_name, without, delete_with_size, delete_targets, before_cutoff, selected, backend_of,
  created_at, targets_of, total_of, cutoff_of, prune,
}

-- A snapshot of the list has the name.
unfoldable pub is_target : Bytes → List Info → Bool
is_target name [] = false
is_target name (x ∷ xs) = str_eq x.name name || is_target name xs

ok_inj :
    {a b : ℕ × List Bytes} {r : Result PruneError (ℕ × List Bytes)} → r ≡ ok a → r ≡ ok b → a ≡ b
ok_inj h k = cc (h, k)

not_target : (a b : Bool) → a ≡ false → (a || not b) ≡ true → b ≡ false
not_target a b h k = ground arith

neither : (a b : Bool) → (a || b) ≡ false → (a ≡ false) × (b ≡ false)
neither a b h = ground arith

same_test : (x m n : Bytes) → str_eq x m ≡ true → str_eq x n ≡ str_eq m n
same_test x m n h = ap (λ t. str_eq t n) ((str_eq_iff x m).0 h)

differs : (x m n : Bytes) → str_eq x m ≡ false → str_eq m n ≡ true → str_eq x n ≡ false
differs x m n h k = sym (ap (str_eq x) ((str_eq_iff m n).0 k)) ∙ h

has_name-without :
    (n m : Bytes) (xs : List Bytes)
    → has_name n (without m xs) ≡ (not (str_eq m n) && has_name n xs)
unfolding has_name without
has_name-without n m [] = ground arith
has_name-without n m (x ∷ xs) = elim (Bool-cases (str_eq x m)) [
  | inl e ↦ rw (e, has_name-without n m xs, same_test x m n e) (ground arith)
  | inr e ↦ elim (Bool-cases (str_eq m n)) [
    | inl same ↦ rw (e, has_name-without n m xs, same, differs x m n e same) refl
    | inr differ ↦ rw (e, has_name-without n m xs, differ) refl
  ]
]

deleted_names :
    (disk : Disk) (name : Bytes) (names : List Bytes) {r : ℕ × List Bytes}
    → delete_with_size disk name names ≡ ok r
    → r.1 ≡ without name names
unfolding delete_with_size
deleted_names disk name names h =
    let (_, _, h1) = >>=-eq-ok (guard (valid_name name) invalid_name) _ h in
    let (_, _, h2) = >>=-eq-ok (guard (has_name name names) not_found) _ h1 in
    let (_, _, h3) = >>=-eq-ok (guard (not (disk.fails directory_size name)) size_failed) _ h2 in
    let (_, _, h4) = >>=-eq-ok (guard (not (disk.fails remove_all name)) remove_failed) _ h3 in
    ap (λ t. t.1) (sym (ok_inj refl h4))

delete_targets_keeps :
    (disk : Disk) (n : Bytes) (xs : List Info) (total : ℕ) (names : List Bytes)
    → is_target n xs ≡ false
    → has_name n (delete_targets disk xs total names).2 ≡ has_name n names
unfolding delete_targets is_target
delete_targets_keeps disk n [] total names h = refl
delete_targets_keeps disk n (x ∷ xs) total names h =
    elim (Result-cases (delete_with_size disk x.name names)) [
      | inr (e, failed) ↦ rw (delete_targets, failed) refl
      | inl (r, done) ↦
          let (not_x, not_xs) = neither (str_eq x.name n) (is_target n xs) h in
          rw (delete_targets, done)
            (delete_targets_keeps disk n xs _ r.1 not_xs
              ∙ ap (has_name n) (deleted_names disk x.name names done)
              ∙ has_name-without n x.name names
              ∙ rw not_x refl)
    ]

delete_targets_deletes :
    (disk : Disk) (n : Bytes) (xs : List Info) (total : ℕ) (names : List Bytes)
    → (delete_targets disk xs total names).1 ≡ none
    → has_name n (delete_targets disk xs total names).2 ≡ (not (is_target n xs) && has_name n names)
unfolding delete_targets is_target
delete_targets_deletes disk n [] total names h = refl
delete_targets_deletes disk n (x ∷ xs) total names h =
    elim (Result-cases (delete_with_size disk x.name names)) [
      | inr (e, failed) ↦ cc (rw (delete_targets, failed) at h)
      | inl (r, done) ↦
          rw (delete_targets, done)
            (delete_targets_deletes disk n xs _ r.1 (rw (delete_targets, done) at h)
              ∙ ap (λ b. not (is_target n xs) && b)
                  (ap (has_name n) (deleted_names disk x.name names done)
                    ∙ has_name-without n x.name names)
              ∙ ground arith)
    ]

-- Why a prune passes a snapshot over: it is of another backend than the one that is asked for, or a
-- duration is given and the snapshot has no time or was made within it.
pub data Spared (older_than : Signed) (now : ℕ) (backend : Bytes) (info : Info) : Type 0 where
  other_backend :
      backend ≢ [] → backend_of info.metadata ≢ backend → Spared older_than now backend info
  undated :
      {age : ℕ}
      → older_than ≡ plus age
      → 0 < age
      → created_at info.metadata ≡ none
      → Spared older_than now backend info
  recent :
      {age time : ℕ}
      → older_than ≡ plus age
      → 0 < age
      → created_at info.metadata ≡ some time
      → now ≤ time + age
      → Spared older_than now backend info

is_empty-set : (b : Bytes) → b ≢ [] → is_empty b ≡ false
unfolding is_empty
is_empty-set [] h = absurd (h refl)
is_empty-set (c ∷ cs) h = refl

str_eq-differs : (a b : Bytes) → a ≢ b → str_eq a b ≡ false
str_eq-differs a b h = elim (Bool-cases (str_eq a b)) [
  | inl e ↦ absurd (h ((str_eq_iff a b).0 e))
  | inr e ↦ e
]

cutoff_set : (now age : ℕ) → 0 < age → cutoff_of (plus age) now ≡ some (now - age)
unfolding cutoff_of
cutoff_set now age h = ground arith

and_false : (a b : Bool) → b ≡ false → (a && b) ≡ false
and_false a b h = ground (arith, h)

Spared-selected :
    (older_than : Signed) (now : ℕ) (backend : Bytes) (info : Info)
    → Spared older_than now backend info
    → selected backend (cutoff_of older_than now) info ≡ false
Spared-selected older_than now backend info (other_backend set differ) =
    rw (is_empty-set backend set, str_eq-differs _ backend differ) refl
Spared-selected older_than now backend info (undated {age} e positive none_there) =
    and_false (is_empty backend || str_eq (backend_of info.metadata) backend)
      (before_cutoff (cutoff_of older_than now) (created_at info.metadata))
      (rw (e, cutoff_set now age positive, none_there) refl)
Spared-selected older_than now backend info (recent {age} {time} e positive made late) =
    and_false (is_empty backend || str_eq (backend_of info.metadata) backend)
      (before_cutoff (cutoff_of older_than now) (created_at info.metadata))
      (rw (e, cutoff_set now age positive, made) (ground arith))

-- every snapshot of the name is spared
abbrev pub IsSpared : Signed → ℕ → Bytes → Bytes → List Info → Type 0
IsSpared older_than now backend name listed =
    All (λ info. info.name ≡ name → Spared older_than now backend info) listed

Spared-targets :
    (older_than : Signed) (now : ℕ) (backend name : Bytes) (listed : List Info)
    → IsSpared older_than now backend name listed
    → is_target name (targets_of backend (cutoff_of older_than now) listed) ≡ false
unfolding targets_of is_target
Spared-targets older_than now backend name [] h = refl
Spared-targets older_than now backend name (x ∷ xs) (this, rest) =
    let later = Spared-targets older_than now backend name xs rest in
    elim (Bool-cases (str_eq x.name name)) [
      | inl e ↦
          let spared = this ((str_eq_iff x.name name).0 e) in
          rw (Spared-selected older_than now backend x spared) later
      | inr e ↦ elim (Bool-cases (selected backend (cutoff_of older_than now) x)) [
        | inl e' ↦ rw (e', e) later
        | inr e' ↦ rw e' later
      ]
    ]

module _ (disk : Disk) (older_than : Signed) (now : ℕ) (backend : Bytes) (listed : List Info)
    (names : List Bytes) where
  abbrev targets : List Info
  targets = targets_of backend (cutoff_of older_than now) listed

  kept_names :
      (dry_run : Bool) (n : Bytes)
      → (dry_run || not (is_target n targets)) ≡ true
      → has_name n (prune disk older_than now backend dry_run listed names).names ≡ has_name n names
  unfolding prune
  kept_names dry_run n h = elim (Bool-cases (not (is_empty backend) && not (is_backend backend))) [
    | inl e ↦ rw e refl
    | inr e ↦ elim (Bool-cases dry_run) [
      | inl dry ↦ rw (e, dry) refl
      | inr wet ↦
          rw (e, wet)
            (delete_targets_keeps disk n targets (total_of targets) names (not_target _ _ wet h))
    ]
  ]

  -- A prune leaves a name in the store if it is a dry run, or if every snapshot of the list that has the
  -- name is of another backend than the one that is asked for, or, where a positive duration is given,
  -- has no time or was made within the duration; also if the prune ends with an error.
  pub prune_keeps :
      (dry_run : Bool) (n : Bytes)
      → (dry_run ≡ true) ⊎ IsSpared older_than now backend n listed
      → has_name n (prune disk older_than now backend dry_run listed names).names ≡ has_name n names
  prune_keeps dry_run n (inl dry) = kept_names dry_run n (rw dry refl)
  prune_keeps dry_run n (inr spared) =
      let free = Spared-targets older_than now backend n listed spared in
      kept_names dry_run n (ground (arith, free))

  -- A prune that is no dry run and returns no error deletes exactly the snapshots it reports.
  pub prune_deletes :
      (n : Bytes)
      → let out = prune disk older_than now backend false listed names in
        out.error ≡ none
        → has_name n out.names ≡ (not (is_target n out.targets) && has_name n names)
  unfolding prune
  prune_deletes n h = elim (Bool-cases (not (is_empty backend) && not (is_backend backend))) [
    | inl e ↦ cc (rw e at h)
    | inr e ↦ rw e (delete_targets_deletes disk n targets (total_of targets) names (rw e at h))
  ]
