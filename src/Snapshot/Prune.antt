-- ===== src/Snapshot/Prune.antt =====
-- `DeleteWithSize` and `Prune` of internal/spind/snapshot/store.go. The store is the list of the
-- names of its directories; what `List` returns is an argument of `prune`.
use spind.Prelude.{
  Bool, Bytes, List, Option, Result, [], err, false, guard, if◌then◌else◌, is_empty, ltb, none, not,
  ok, some, str_eq, true, ℕ, ◌&&◌, ◌+◌, ◌-◌, ◌==◌, ◌||◌, ◌∷◌, ◌>>◌,
}
use spind.Name.{valid_name}
use spind.Text.Decimal.{Signed, plus, minus}
use spind.Snapshot.{Metadata, Info, is_backend}

pub data PruneError : Type 0 where
  unknown_backend invalid_name not_found size_failed remove_failed : PruneError

pub data DeleteCall : Type 0 where
  directory_size remove_all : DeleteCall

-- which calls fail, and the sizes that `DirectorySize` finds
pub record Disk : Type 0 where
  pub fails : DeleteCall → Bytes → Bool
  pub size : Bytes → ℕ

unfoldable pub has_name : Bytes → List Bytes → Bool
has_name name [] = false
has_name name (x ∷ xs) = str_eq x name || has_name name xs

unfoldable pub without : Bytes → List Bytes → List Bytes
without name [] = []
without name (x ∷ xs) = let rest = without name xs in if str_eq x name then rest else x ∷ rest

-- The size that was freed and the names that are left.
unfoldable pub delete_with_size : Disk → Bytes → List Bytes → Result PruneError (ℕ × List Bytes)
delete_with_size disk name names = do
  guard (valid_name name) invalid_name
  guard (has_name name names) not_found
  guard (not (disk.fails directory_size name)) size_failed
  guard (not (disk.fails remove_all name)) remove_failed
  ok (disk.size name, without name names)

-- The zero time is `none`.
unfoldable pub cutoff_of : Signed → ℕ → Option ℕ
cutoff_of (minus n) now = none
cutoff_of (plus n) now = if n == 0 then none else some (now - n)

abbrev pub before_cutoff : Option ℕ → Option ℕ → Bool
before_cutoff none created = true
before_cutoff (some cutoff) none = false
before_cutoff (some cutoff) (some created) = ltb created cutoff

abbrev pub created_at : Option Metadata → Option ℕ
created_at none = none
created_at (some m) = m.created_at

abbrev pub backend_of : Option Metadata → Bytes
backend_of none = []
backend_of (some m) = m.backend

-- whether the loop of `Prune` takes a snapshot
abbrev pub selected : Bytes → Option ℕ → Info → Bool
selected backend cutoff info =
    (is_empty backend || str_eq (backend_of info.metadata) backend)
    && before_cutoff cutoff (created_at info.metadata)

unfoldable pub targets_of : Bytes → Option ℕ → List Info → List Info
targets_of backend cutoff [] = []
targets_of backend cutoff (x ∷ xs) =
    let rest = targets_of backend cutoff xs in if selected backend cutoff x then x ∷ rest else rest

unfoldable pub total_of : List Info → ℕ
total_of [] = 0
total_of (x ∷ xs) = x.total_size_bytes + total_of xs

pub record Pruned : Type 0 where
  pub targets : List Info
  pub total : ℕ
  pub error : Option PruneError
  pub names : List Bytes

-- the total, the error and the names after the loop that deletes
unfoldable pub delete_targets :
    Disk → List Info → ℕ → List Bytes → ℕ × Option PruneError × List Bytes
delete_targets disk [] total names = (total, none, names)
delete_targets disk (x ∷ xs) total names = elim (delete_with_size disk x.name names) [
  | err e ↦ (total, some e, names)
  | ok r ↦ delete_targets disk xs (if x.total_size_bytes == 0 then total + r.0 else total) r.1
]

unfoldable pub prune : Disk → Signed → ℕ → Bytes → Bool → List Info → List Bytes → Pruned
prune disk older_than now backend dry_run listed names =
    let targets = targets_of backend (cutoff_of older_than now) listed in
    let total = total_of targets in
    let deleted = delete_targets disk targets total names in
    if not (is_empty backend) && not (is_backend backend)
    then record { targets = []; total = 0; error = some unknown_backend; names = names }
    else if dry_run
    then record { targets = targets; total = total; error = none; names = names }
    else record { targets = targets; total = deleted.0; error = deleted.1; names = deleted.2 }
