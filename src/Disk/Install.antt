-- ===== src/Disk/Install.antt =====
-- The image that `CreateMBRDisk` writes, as `FirstPartition` and a reader of the partition see it.
use spind.Prelude.{
  Bool, Bytes, [], ap, arith, err, false, if◌then◌else◌, leb, length, le→leb, ltb, lt→ltb,
  ne_zero_test, ok, refl, some, suc, true, ℕ, ◌*◌, ◌+◌, ◌-◌, ◌/◌, ◌<◌, ◌==◌, ◌^◌, ◌∙◌, ◌≡◌, ◌≤◌,
}
use spind.Disk.File.{
  byte_at, write_at, truncate, byte_at-write_at, byte_at-truncate, length-truncate,
  length-write_at_ge,
}
use spind.Disk.Sparse.{Env}
use spind.Disk.Mirror.{Zeros}
use spind.Disk.Mbr.{
  DiskCall, DiskError, sector_size, mbr, uint32_at, partition_sectors, start_or_default, write_disk,
  create_mbr_disk, first_partition,
}
use spind.Disk.Copied.{Copies, NoFailure, finish_copy-Installed}

head_bytes :
    (s k disk_size : ℕ) (i : ℕ)
    → i < 512
    → byte_at (write_at 0 (mbr s k) (truncate disk_size [])) i ≡ byte_at (mbr s k) i
unfolding mbr
head_bytes s k disk_size i h =
    let e : i - 0 ≡ i = omega arith in rw byte_at-write_at (rw e (ground arith))

blank_zero : (n i : ℕ) → byte_at (truncate n []) i ≡ 0
unfolding byte_at
blank_zero n i = rw byte_at-truncate (ground arith)

blank_rest :
    (s k disk_size : ℕ) (start n : ℕ)
    → 512 ≤ start
    → Zeros (write_at 0 (mbr s k) (truncate disk_size [])) start n
unfolding mbr
blank_rest s k disk_size start n h j lt =
    rw byte_at-write_at (ground (arith, blank_zero disk_size (start + j)))

signature_bytes :
    (s k : ℕ)
    → (byte_at (mbr s k) 510 ≡ 0x55)
      × (byte_at (mbr s k) 511 ≡ 0xaa)
      × (byte_at (mbr s k) 450 ≡ 0x83)
unfolding mbr byte_at
signature_bytes s k = (refl, refl, refl)

start_bytes : (s k : ℕ) → s < 2 ^ 32 → uint32_at (mbr s k) 454 ≡ s
unfolding mbr byte_at uint32_at
start_bytes s k h = omega arith

count_bytes : (s k : ℕ) → k < 2 ^ 32 → uint32_at (mbr s k) 458 ≡ k
unfolding mbr byte_at uint32_at
count_bytes s k h = omega arith

module _ (disk : Bytes) (s k : ℕ)
    (head : (i : ℕ) → i < 512 → byte_at disk i ≡ byte_at (mbr s k) i) where
  same_uint32 : (i : ℕ) → i + 3 < 512 → uint32_at disk i ≡ uint32_at (mbr s k) i
  unfolding uint32_at
  same_uint32 i lt = omega (
    arith,
    head i (omega arith),
    head (i + 1) (omega arith),
    head (i + 2) (omega arith),
    head (i + 3) (omega arith),
  )

  start_read : s < 2 ^ 32 → uint32_at disk 454 ≡ s
  start_read h = same_uint32 454 (omega arith) ∙ start_bytes s k h

  count_read : k < 2 ^ 32 → uint32_at disk 458 ≡ k
  count_read h = same_uint32 458 (omega arith) ∙ count_bytes s k h

  -- What `FirstPartition` reads of a file that begins with the boot record.
  first_partition-mbr :
      512 ≤ length disk
      → 0 < s
      → s < 2 ^ 32
      → k < 2 ^ 32
      → first_partition disk ≡ (
          if k == 0
          then err DiskError.invalid_bounds
          else ok (record { start = s * sector_size; size = k * sector_size }))
  unfolding first_partition
  first_partition-mbr long pos hs hk =
      let (sig, sig', typed) = signature_bytes s k in
      let some_start : (s == 0) ≡ false = ground arith in
      let long' : leb 512 (length disk) ≡ true = ground arith in
      rw
        (
          long',
          head 510 (omega arith) ∙ sig,
          head 511 (omega arith) ∙ sig',
          head 450 (omega arith) ∙ typed,
          start_read hs,
          count_read hk,
          some_start,
        )
        (ground arith)

start_or_default_lem :
    (n : ℕ) → n < 2 ^ 32 → (0 < start_or_default n) × (start_or_default n < 2 ^ 32)
start_or_default_lem n h = (ground arith, ground arith)

-- The image that was written, and what a reader finds in it.
pub record HoldsRootfs (rootfs : Bytes) (disk_size start : ℕ) (disk : Bytes) : Type 0 where
  pub partition :
      first_partition disk
      ≡ ok (record { start = start; size = (disk_size - start) / sector_size * sector_size })
  pub contents :
      (j : ℕ) → byte_at disk (start + j) ≡ (if ltb j (length rootfs) then byte_at rootfs j else 0)
  pub is_long : disk_size ≤ length disk

-- the count of sectors does not wrap, and is not zero
partition_sectors_lem :
    (disk_size start : ℕ)
    → start + sector_size ≤ disk_size
    → disk_size < 2 ^ 41
    → (partition_sectors disk_size start ≡ (disk_size - start) / sector_size)
      × (0 < partition_sectors disk_size start)
      × (partition_sectors disk_size start < 2 ^ 32)
partition_sectors_lem disk_size start room total = (omega arith, omega arith, omega arith)

write_disk-HoldsRootfs :
    {fails : DiskCall → Bool} (quiet : NoFailure fails) {env : Env} (rootfs : Bytes)
    (disk_size s : ℕ)
    → Copies env rootfs
    → 0 < s
    → s < 2 ^ 32
    → s * sector_size + sector_size ≤ disk_size
    → disk_size < 2 ^ 41
    → (disk : Bytes) × (write_disk fails env rootfs disk_size s ≡ ok disk)
      × HoldsRootfs rootfs disk_size (s * sector_size) disk
unfolding write_disk
write_disk-HoldsRootfs quiet rootfs disk_size s c pos small room total =
    let start = s * sector_size in
    let k = partition_sectors disk_size start in
    let (count, some_sectors, no_wrap) = partition_sectors_lem disk_size start room total in
    let before = write_at 0 (mbr s k) (truncate disk_size []) in
    let blank = λ (n : ℕ). blank_rest s k disk_size start n (omega arith) in
    let (disk, run, x) =
      finish_copy-Installed quiet c.works rootfs start before c.holes (blank (length rootfs)) in
    let long : disk_size ≤ length disk = omega (
      arith,
      x.grown,
      length-write_at_ge 0 (mbr s k) (truncate disk_size []),
      length-truncate disk_size [],
    ) in
    let head =
      λ (i : ℕ) (h : i < 512). x.mirrors.before i (omega arith) ∙ head_bytes s k disk_size i h in
    let some_k : (k == 0) ≡ false = ne_zero_test k some_sectors in
    (
      disk,
      rw (
        quiet DiskCall.create_disk,
        quiet DiskCall.size_disk,
        quiet DiskCall.write_mbr,
        quiet DiskCall.seek_rootfs,
        quiet DiskCall.seek_disk,
        run,
        quiet DiskCall.sync_disk,
      ),
      record {
        partition =
            first_partition-mbr disk s k head (omega arith) pos small no_wrap
            ∙ rw some_k (ap (λ n. ok (record { start = start; size = n * sector_size })) count);
        contents = λ j.
            let e : 0 + j ≡ j = omega arith in
            rw e at (x.mirrors.inside j) ∙ rw (blank (suc j) j (omega arith));
        is_long = long;
      },
    )

-- With no failing call, on a file system that reports holes or rejects `SEEK_DATA`, with a rootfs
-- that fits, a start sector that is a `uint32`, a disk below 2^41 bytes and at least one sector
-- behind the start: the image is written, `FirstPartition` finds the partition at the start
-- sector with the whole sectors that are left of the disk, and the disk holds the rootfs there,
-- and zeros behind it.
pub create_mbr_disk-HoldsRootfs :
    {fails : DiskCall → Bool} (quiet : NoFailure fails) {env : Env} (rootfs : Bytes)
    (disk_size start_sector : ℕ)
    → Copies env rootfs
    → start_sector < 2 ^ 32
    → start_or_default start_sector * sector_size + sector_size ≤ disk_size
    → disk_size < 2 ^ 41
    → start_or_default start_sector * sector_size + length rootfs ≤ disk_size
    → (disk : Bytes) × (create_mbr_disk fails env (some rootfs) disk_size start_sector ≡ ok disk)
      × HoldsRootfs rootfs disk_size (start_or_default start_sector * sector_size) disk
unfolding create_mbr_disk
create_mbr_disk-HoldsRootfs quiet {env} rootfs disk_size start_sector c small room total fits =
    let s = start_or_default start_sector in
    let (pos, small') = start_or_default_lem start_sector small in
    let (disk, run, holds) =
      write_disk-HoldsRootfs quiet rootfs disk_size s c pos small' room total in
    let larger : ltb (s * sector_size) disk_size ≡ true = lt→ltb _ _ (omega arith) in
    let fits' : leb (length rootfs) (disk_size - s * sector_size) ≡ true =
      le→leb _ _ (omega arith) in
    (disk, rw (quiet DiskCall.stat_rootfs, larger, fits', run), holds)
