-- ===== src/Disk/Mbr.antt =====
-- internal/spind/diskimage/diskimage.go: a disk image with one partition.
use spind.Prelude.{
  Bool, Bytes, Option, Result, [], err, guard, if◌then◌else◌, leb, length, ltb, none, not, ok,
  replicate, some, ℕ, ◌%◌, ◌&&◌, ◌*◌, ◌++◌, ◌+◌, ◌-◌, ◌/◌, ◌==◌, ◌^◌, ◌||◌, ◌∷◌, ◌>>=◌, ◌>>◌,
}
use spind.Disk.File.{byte_at, write_at, truncate}
use spind.Disk.Sparse.{Env, Outcome, copied, unsupported, failed, copy_sparse_range}

abbrev pub sector_size : ℕ
sector_size = 512

abbrev pub default_start_sector : ℕ
default_start_sector = 2048

abbrev pub linux_partition_type : ℕ
linux_partition_type = 0x83

pub record Partition : Type 0 where
  pub start : ℕ
  pub size : ℕ

-- The calls of `CreateMBRDisk` that may fail; the copy has its own environment.
pub data DiskCall : Type 0 where
  open_rootfs stat_rootfs create_disk size_disk write_mbr seek_rootfs seek_disk copy_rootfs :
      DiskCall
  sync_disk : DiskCall

pub data DiskError : Type 0 where
  call_failed : DiskCall → DiskError
  disk_too_small rootfs_too_large : DiskError
  no_signature empty_partition invalid_bounds read_mbr_failed : DiskError

-- `binary.LittleEndian.PutUint32`
abbrev pub put_uint32 : ℕ → Bytes
put_uint32 n = n % 256 ∷ n / 2 ^ 8 % 256 ∷ n / 2 ^ 16 % 256 ∷ n / 2 ^ 24 % 256 ∷ []

-- `binary.LittleEndian.Uint32` of the four bytes at an offset
unfoldable pub uint32_at : Bytes → ℕ → ℕ
uint32_at file i =
    byte_at file i
    + byte_at file (i + 1) * 2 ^ 8
    + byte_at file (i + 2) * 2 ^ 16
    + byte_at file (i + 3) * 2 ^ 24

-- the 16 bytes at offset 446
abbrev pub partition_entry : ℕ → ℕ → Bytes
partition_entry start_sector sectors =
    0x00
    ∷ 0x00
    ∷ 0x02
    ∷ 0x00
    ∷ linux_partition_type
    ∷ 0xfe
    ∷ 0xff
    ∷ 0xff
    ∷ (put_uint32 start_sector ++ put_uint32 sectors)

unfoldable pub mbr : ℕ → ℕ → Bytes
mbr start_sector sectors =
    replicate 446 0
    ++ (partition_entry start_sector sectors ++ (replicate 48 0 ++ (0x55 ∷ 0xaa ∷ [])))

abbrev pub start_or_default : ℕ → ℕ
start_or_default start_sector = if start_sector == 0 then default_start_sector else start_sector

-- the partition's length in sectors, a `uint32`
abbrev pub partition_sectors : ℕ → ℕ → ℕ
partition_sectors disk_size start = (disk_size - start) / sector_size % 2 ^ 32

abbrev pub attempt : (DiskCall → Bool) → DiskCall → Result DiskError (Unit {0})
attempt fails call = if fails call then err (call_failed call) else ok tt

-- What follows `copySparseRange`: a plain copy if it was not supported.
unfoldable pub finish_copy :
    (DiskCall → Bool) → Bytes → ℕ → Outcome × Bytes → Result DiskError Bytes
finish_copy fails rootfs start (copied, disk) = ok disk
finish_copy fails rootfs start (failed, disk) = err (call_failed copy_rootfs)
finish_copy fails rootfs start (unsupported, disk) = do
  attempt fails seek_rootfs
  attempt fails seek_disk
  attempt fails copy_rootfs
  ok (write_at start rootfs disk)

unfoldable pub write_disk : (DiskCall → Bool) → Env → Bytes → ℕ → ℕ → Result DiskError Bytes
write_disk fails env rootfs disk_size start_sector = do
  let start = start_sector * sector_size
  attempt fails create_disk
  attempt fails size_disk
  let blank = truncate disk_size []
  attempt fails write_mbr
  let disk = write_at 0 (mbr start_sector (partition_sectors disk_size start)) blank
  attempt fails seek_rootfs
  attempt fails seek_disk
  disk ← finish_copy fails rootfs start (copy_sparse_range env rootfs (length rootfs) start disk)
  attempt fails sync_disk
  ok disk

-- The contents of the image, where no error is returned. `rootfs` is the file system image, `none`
-- where it cannot be opened.
unfoldable pub create_mbr_disk :
    (DiskCall → Bool) → Env → Option Bytes → ℕ → ℕ → Result DiskError Bytes
create_mbr_disk fails env none disk_size start_sector = err (call_failed open_rootfs)
create_mbr_disk fails env (some rootfs) disk_size start_sector = do
  let sector = start_or_default start_sector
  let start = sector * sector_size
  attempt fails stat_rootfs
  guard (ltb start disk_size) disk_too_small
  guard (leb (length rootfs) (disk_size - start)) rootfs_too_large
  write_disk fails env rootfs disk_size sector

unfoldable pub first_partition : Bytes → Result DiskError Partition
first_partition file = do
  guard (leb sector_size (length file)) read_mbr_failed
  guard (byte_at file 510 == 0x55 && byte_at file 511 == 0xaa) no_signature
  guard (not (byte_at file 450 == 0)) empty_partition
  let start_sector = uint32_at file 454
  let sector_count = uint32_at file 458
  guard (not (start_sector == 0 || sector_count == 0)) invalid_bounds
  ok (record { start = start_sector * sector_size; size = sector_count * sector_size })
