-- ===== src/Kubeconfig/Lock.antt =====
-- The lock file beside a kubeconfig, and what a step behind it reads.
use spind.Prelude.{
  Bool-cases, Bytes, Result, [], arith, err, false, inl, inr, ok, refl, str_eq, ◌≡◌, ◌⊎◌,
}
use spind.Kubeconfig.{KubeconfigError, mkdir_failed, locked, Document}
use spind.Kubeconfig.Files.{
  missing, file, Files, put, mkdir_all, open_lock, read, remove_lock, System, owner_only, Step,
  lock_path, is_missing, parse_content, read_node, read_file, unlock, with_kubeconfig_lock,
}
use spind.Kubeconfig.Atomic.{put_other, put_self}

-- the files that a step behind the lock starts from
abbrev pub locked_files : Bytes → Files → Files
locked_files path files = put (lock_path path) (file owner_only []) files

module _ {V : Type 0} (os : System V) where
  -- A lock that is there already keeps every step out: there is an error, and no file changes.
  pub with_kubeconfig_lock-excludes :
      {A : Type 0} (path : Bytes) (fn : Step A) (files : Files)
      → is_missing (files (lock_path path)) ≡ false
      → (e : KubeconfigError) × (with_kubeconfig_lock os path fn files ≡ (err e, files))
  unfolding with_kubeconfig_lock
  with_kubeconfig_lock-excludes path fn files held = elim (Bool-cases (os.fails mkdir_all path)) [
    | inl e ↦ (mkdir_failed, rw e refl)
    | inr e ↦ elim (Bool-cases (os.fails open_lock path)) [
      | inl e' ↦ (locked, rw (e, e') refl)
      | inr e' ↦ (locked, rw (e, e', held) refl)
    ]
  ]

  -- The step has not run, or it has and the lock was then removed.
  pub lock_cases :
      {A : Type 0} (path : Bytes) (fn : Step A) (files : Files)
      → ((e : KubeconfigError) × (with_kubeconfig_lock os path fn files ≡ (err e, files)))
        ⊎ (with_kubeconfig_lock os path fn files ≡ unlock os path (fn (locked_files path files)))
  unfolding with_kubeconfig_lock
  lock_cases path fn files = elim (Bool-cases (os.fails mkdir_all path)) [
    | inl e ↦ inl (mkdir_failed, rw e refl)
    | inr e ↦ elim (Bool-cases (os.fails open_lock path)) [
      | inl e' ↦ inl (locked, rw (e, e') refl)
      | inr e' ↦ elim (Bool-cases (is_missing (files (lock_path path)))) [
        | inl free ↦ inr (rw (e, e', free) refl)
        | inr held ↦ inl (locked, rw (e, e', held) refl)
      ]
    ]
  ]

  pub unlock_result :
      {A : Type 0} (path : Bytes) (out : Result KubeconfigError A × Files)
      → (unlock os path out).0 ≡ out.0
  unfolding unlock
  unlock_result path out = ground arith

  pub unlock_other :
      {A : Type 0} (path q : Bytes) (out : Result KubeconfigError A × Files)
      → str_eq (lock_path path) q ≡ false
      → (unlock os path out).1 q ≡ out.1 q
  unfolding unlock
  unlock_other path q out h = elim (Bool-cases (os.fails remove_lock path)) [
    | inl e ↦ rw e refl
    | inr e ↦ rw e (put_other (lock_path path) q missing out.1 h)
  ]

  unlock_self :
      {A : Type 0} (path : Bytes) (out : Result KubeconfigError A × Files)
      → os.fails remove_lock path ≡ false
      → (unlock os path out).1 (lock_path path) ≡ missing
  unfolding unlock
  unlock_self path out h = rw h (put_self (lock_path path) missing out.1)

  -- Where the lock was free and its file can be removed, it is free again, whatever the step does
  -- and returns.
  pub with_kubeconfig_lock_released :
      {A : Type 0} (path : Bytes) (fn : Step A) (files : Files)
      → os.fails remove_lock path ≡ false
      → files (lock_path path) ≡ missing
      → (with_kubeconfig_lock os path fn files).1 (lock_path path) ≡ missing
  with_kubeconfig_lock_released path fn files removable free = elim (lock_cases path fn files) [
    | inl (e, h) ↦ rw h free
    | inr h ↦ rw h (unlock_self path (fn (locked_files path files)) removable)
  ]

  pub read_file_locked :
      (path q : Bytes) (files : Files)
      → str_eq (lock_path path) q ≡ false
      → read_file os q (locked_files path files) ≡ read_file os q files
  unfolding read_file
  read_file_locked path q files h =
      rw (put_other (lock_path path) q (file owner_only []) files h) refl

  -- A file that could be read can be read again, with what has been written.
  pub read_file_written :
      (path content : Bytes) (files files' : Files) {doc : Document V}
      → read_file os path files ≡ ok doc
      → files' path ≡ file owner_only content
      → read_file os path files' ≡ parse_content os content
  unfolding read_file read_node
  read_file_written path content files files' h k = elim (Bool-cases (os.fails read path)) [
    | inl e ↦ cc (rw e at h)
    | inr e ↦ rw (e, k) refl
  ]
