-- ===== src/Disk/Copied.antt =====
-- The copy of a rootfs into a disk by `CreateMBRDisk`: the sparse copy, and the plain one where the host
-- has none.
use spind.Prelude.{
  Bool, Bool-cases, Bytes, arith, eq_of_==, false, inl, inr, length, ok, refl, true, ℕ, ◌+◌, ◌-◌,
  ◌==◌, ◌≡◌, ◌≤◌, ◌⊎◌,
}
use spind.Disk.File.{write_at, byte_at-write_at, length-write_at_ge}
use spind.Disk.Sparse.{
  Env, Outcome, copied, unsupported, failed, einval, seek_src, seek_dst, copy_sparse_range,
  copy_range, from_data,
}
use spind.Disk.Mirror.{Mirrors, Mirrors-none, Zeros, Works}
use spind.Disk.SparseCopy.{ReportsHoles, copy_sparse_range-Mirrors}
use spind.Disk.Grows.{copy_sparse_range_grows}
use spind.Disk.Mbr.{DiskCall, finish_copy}

-- The file system of the rootfs reports holes, or rejects `SEEK_DATA` with `EINVAL`.
pub record Copies (env : Env) (rootfs : Bytes) : Type 0 where
  pub works : Works env
  pub holes : ReportsHoles env rootfs ⊎ ((o : ℕ) → env.seek_data o ≡ einval)

abbrev pub NoFailure : (DiskCall → Bool) → Type 0
NoFailure fails = (c : DiskCall) → fails c ≡ false

-- The rootfs stands at `start`; all else is as before, and the file is no shorter.
pub record Installed (rootfs : Bytes) (start : ℕ) (before : Bytes) (disk : Bytes) : Type 0 where
  pub mirrors : Mirrors rootfs 0 start (length rootfs) before disk
  pub grown : length before ≤ length disk

Mirrors-plain :
    (rootfs before : Bytes) (start : ℕ)
    → Mirrors rootfs 0 start (length rootfs) before (write_at start rootfs before)
Mirrors-plain rootfs before start = record {
  inside = λ j.
      let e : start + j - start ≡ j = omega arith in
      let e' : 0 + j ≡ j = omega arith in rw byte_at-write_at (rw (e, e') (ground arith));
  before = λ j h. rw byte_at-write_at (ground arith);
}

finish_copied :
    (fails : DiskCall → Bool) (rootfs : Bytes) (start : ℕ) (r : Outcome × Bytes)
    → r.0 ≡ copied
    → finish_copy fails rootfs start r ≡ ok r.1
unfolding finish_copy
finish_copied fails rootfs start (copied, d) h = refl
finish_copied fails rootfs start (unsupported, d) h = cc
finish_copied fails rootfs start (failed, d) h = cc

module _ {fails : DiskCall → Bool} (quiet : NoFailure fails) {env : Env} (w : Works env)
    (rootfs : Bytes) (start : ℕ) (before : Bytes) where
  copied_whole :
      {r : Outcome × Bytes}
      → r.0 ≡ copied
      → Installed rootfs start before r.1
      → (disk : Bytes) × (finish_copy fails rootfs start r ≡ ok disk)
        × Installed rootfs start before disk
  copied_whole {r = r} e x = (r.1, finish_copied fails rootfs start r e, x)

  -- with no support for holes the copy is plain
  copied_plain :
      (disk : Bytes) × (finish_copy fails rootfs start (unsupported, before) ≡ ok disk)
      × Installed rootfs start before disk
  unfolding finish_copy
  copied_plain = (
    write_at start rootfs before,
    rw (quiet DiskCall.seek_rootfs, quiet DiskCall.seek_disk, quiet DiskCall.copy_rootfs),
    record {
      mirrors = Mirrors-plain rootfs before start;
      grown = length-write_at_ge start rootfs before;
    },
  )

  sparse_einval :
      ((o : ℕ) → env.seek_data o ≡ einval)
      → (length rootfs == 0) ≡ false
      → copy_sparse_range env rootfs (length rootfs) start before ≡ (unsupported, before)
  unfolding copy_sparse_range copy_range from_data
  sparse_einval h some_size = rw (some_size, w.works seek_src 0, w.works seek_dst start, h 0)

  sparse_empty :
      (length rootfs == 0) ≡ true
      → copy_sparse_range env rootfs (length rootfs) start before ≡ (copied, before)
  unfolding copy_sparse_range
  sparse_empty h = rw h

  pub finish_copy-Installed :
      ReportsHoles env rootfs ⊎ ((o : ℕ) → env.seek_data o ≡ einval)
      → Zeros before start (length rootfs)
      → (disk : Bytes) × (finish_copy fails rootfs start
            (copy_sparse_range env rootfs (length rootfs) start before)
          ≡ ok disk)
        × Installed rootfs start before disk
  finish_copy-Installed (inl reports) blank =
      let (done, m) = copy_sparse_range-Mirrors w reports before (length rootfs) start blank in
      copied_whole done (record {
        mirrors = m;
        grown = copy_sparse_range_grows env rootfs (length rootfs) start before;
      })
  finish_copy-Installed (inr h) blank = elim (Bool-cases (length rootfs == 0)) [
    | inl empty ↦ rw (sparse_empty empty) (
      before,
      finish_copied fails rootfs start (copied, before) refl,
      record {
        mirrors = rw (eq_of_== _ 0 empty) (Mirrors-none rootfs 0 start before);
        grown = omega arith;
      },
    )
    | inr some_size ↦ rw (sparse_einval h some_size) copied_plain
  ]
