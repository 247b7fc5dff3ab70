-- ===== src/Kubeconfig/Files.antt =====
-- internal/spind/kubeconfig/mergefile.go: the files that `MergeFile` and `UnmergeFile` read, lock
-- and replace. Every call of the operating system may fail, and the state after it is kept.
use spind.Prelude.{
  Bool, Bytes, Option, Result, [], codes, err, false, guard, if◌then◌else◌, is_empty, none, not, ok,
  some, str_eq, take, true, ℕ, ◌++◌, ◌||◌, ◌>>=◌, ◌>>◌,
}
use spind.Text.Words.{trim_space}
use spind.Kubeconfig.{
  Document, require_entry, no_single_entry, empty_document, MergeOptions, KubeconfigError,
  stat_failed, is_a_directory, read_failed, parse_failed, entry_referenced, marshal_failed,
  mkdir_failed, locked, temp_failed, chmod_failed, write_failed, close_failed, rename_failed,
  merge_document, unmerged, entry_referenced_by_other_context, normalize_header,
}

-- what stands at a path; a file has its permission bits and its contents
pub data Node : Type 0 where
  missing directory : Node
  file : ℕ → Bytes → Node

abbrev pub Files : Type 0
Files = Bytes → Node

unfoldable pub put : Bytes → Node → Files → Files
put path node files other = if str_eq path other then node else files other

abbrev pub is_directory : Node → Bool
is_directory missing = false
is_directory directory = true
is_directory (file mode content) = false

abbrev pub is_missing : Node → Bool
is_missing missing = true
is_missing directory = false
is_missing (file mode content) = false

pub data Call : Type 0 where
  stat mkdir_all open_lock remove_lock read create_temp chmod write close rename remove_temp : Call

-- The operating system and the YAML library. `written` is how much of the data a failed write
-- leaves in the file.
pub record System (V : Type 0) : Type 0 where
  pub fails : Call → Bytes → Bool
  pub temp_name : Files → Bytes → Bytes
  pub written : ℕ
  pub marshal : Document V → Option Bytes
  pub unmarshal : Bytes → Option (Document V)

-- 0o600
abbrev pub owner_only : ℕ
owner_only = 384

abbrev pub lock_path : Bytes → Bytes
lock_path path = path ++ codes ".lock"

-- A step on the files, with its result.
abbrev pub Step : Type 0 → Type 0
Step A = Files → Result KubeconfigError A × Files

module _ {V : Type 0} (os : System V) where
  open os use {fails, temp_name, written, marshal, unmarshal}

  abbrev pub parse_content : Bytes → Result KubeconfigError (Document V)
  parse_content content =
      if is_empty (trim_space content)
      then ok empty_document
      else elim (unmarshal content) [ none ↦ err parse_failed | some doc ↦ ok doc ]

  unfoldable pub read_node : Node → Result KubeconfigError (Document V)
  read_node missing = ok empty_document
  read_node directory = err read_failed
  read_node (file mode content) = parse_content content

  unfoldable pub read_file : Bytes → Files → Result KubeconfigError (Document V)
  unfolding read_node
  read_file path files = if fails read path then err read_failed else read_node (files path)

  -- `Chmod`, `Write`, `Close` and `Rename` of a temporary file that has just been created
  unfoldable pub fill_and_rename : Bytes → Bytes → Bytes → Step (Unit {0})
  fill_and_rename tmp path content files =
      let part = put tmp (file owner_only (take written content)) files in
      let full = put tmp (file owner_only content) files in
      if fails chmod tmp
      then (err chmod_failed, files)
      else if fails write tmp
      then (err write_failed, part)
      else if fails close tmp
      then (err close_failed, full)
      else if fails rename path || is_directory (files path)
      then (err rename_failed, full)
      else (ok tt, put tmp missing (put path (file owner_only content) full))

  -- the deferred removal of the temporary file, where it was not renamed
  unfoldable pub clean_up :
      Bytes → Result KubeconfigError (Unit {0}) × Files → Result KubeconfigError (Unit {0}) × Files
  clean_up tmp (ok x, files) = (ok x, files)
  clean_up tmp (err e, files) =
      if fails remove_temp tmp then (err e, files) else (err e, put tmp missing files)

  -- `os.CreateTemp` opens a name that is not taken, or fails.
  abbrev pub write_data : Bytes → Bytes → Step (Unit {0})
  write_data path content files =
      let tmp = temp_name files path in
      if fails mkdir_all path
      then (err mkdir_failed, files)
      else if fails create_temp path || not (is_missing (files tmp))
      then (err temp_failed, files)
      else clean_up tmp (fill_and_rename tmp path content (put tmp (file owner_only []) files))

  unfoldable pub write_file_atomic : Bytes → Document V → Step (Unit {0})
  write_file_atomic path doc files = elim (marshal doc) [
    | none ↦ (err marshal_failed, files)
    | some content ↦ write_data path content files
  ]

  -- the deferred removal of the lock
  unfoldable pub unlock :
      {A : Type 0} → Bytes → Result KubeconfigError A × Files → Result KubeconfigError A × Files
  unlock path (r, files) =
      if fails remove_lock path then (r, files) else (r, put (lock_path path) missing files)

  -- `O_EXCL`: the lock cannot be opened where it is there already.
  unfoldable pub with_kubeconfig_lock : {A : Type 0} → Bytes → Step A → Step A
  with_kubeconfig_lock path fn files =
      if fails mkdir_all path
      then (err mkdir_failed, files)
      else if fails open_lock path || not (is_missing (files (lock_path path)))
      then (err locked, files)
      else unlock path (fn (put (lock_path path) (file owner_only []) files))

  -- the document that `MergeFile` is to write
  unfoldable pub merge_read :
      MergeOptions → Bytes → Bytes → Bytes → Files → Result KubeconfigError (Document V)
  merge_read options target_path source_path name files = do
    source ← read_file source_path files
    guard (require_entry source name) no_single_entry
    target ← read_file target_path files
    merge_document options source target name

  abbrev pub write_result : Bytes → Result KubeconfigError (Document V) → Step (Unit {0})
  write_result path (err e) files = (err e, files)
  write_result path (ok doc) files = write_file_atomic path doc files

  unfoldable pub merge_file : Bytes → Bytes → Bytes → MergeOptions → Step (Unit {0})
  merge_file target_path source_path name options = with_kubeconfig_lock target_path λ files.
      write_result target_path (merge_read options target_path source_path name files) files

  -- Two documents are equal where they print alike.
  unfoldable pub documents_equal : Document V → Document V → Bool
  documents_equal a b = elim (marshal a) [
    | none ↦ false
    | some a_bytes ↦ elim (marshal b) [ none ↦ false | some b_bytes ↦ str_eq a_bytes b_bytes ]
  ]

  -- The flag of a result without an error; `UnmergeFile` returns one with an error too.
  unfoldable pub flagged :
      Bool → Result KubeconfigError (Unit {0}) × Files → Result KubeconfigError Bool × Files
  flagged changed (ok x, files) = (ok changed, files)
  flagged changed (err e, files) = (err e, files)

  unfoldable pub unmerge_document : Bytes → Bytes → Document V → Step Bool
  unfolding flagged
  unmerge_document path name doc files =
      let next = unmerged doc name in
      if entry_referenced_by_other_context doc name
      then (err entry_referenced, files)
      else if documents_equal doc next
      then (ok false, files)
      else flagged true (write_file_atomic path (normalize_header next) files)

  abbrev pub unmerge_result : Bytes → Bytes → Result KubeconfigError (Document V) → Step Bool
  unmerge_result path name (err e) files = (err e, files)
  unmerge_result path name (ok doc) files = unmerge_document path name doc files

  abbrev pub unmerge_node : Bytes → Bytes → Node → Step Bool
  unmerge_node path name missing files = (ok false, files)
  unmerge_node path name directory files = (err is_a_directory, files)
  unmerge_node path name (file mode content) files =
      with_kubeconfig_lock path (λ files. unmerge_result path name (read_file path files) files)
        files

  unfoldable pub unmerge_file : Bytes → Bytes → Step Bool
  unmerge_file path name files =
      if fails stat path
      then (err stat_failed, files)
      else unmerge_node path name (files path) files
