-- ===== src/Tests/Disks.antt =====
-- A file system with the data in front, one without holes, and images on them.
use spind.Prelude.{
  Bool-cases, Bytes, Result, [], arith, false, if◌then◌else◌, inl, inr, ltb, ok, refl, some, suc,
  zero, ℕ, ◌+◌, ◌<◌, ◌∷◌, ◌≡◌, ◌≤◌, ◌>>=◌,
}
use spind.Disk.File.{byte_at, write_at, truncate, read_at}
use spind.Disk.Sparse.{
  Env, found, enxio, copied, copy_sparse_range, copy_range, from_data, range_loop, with_hole,
  hole_at, copy_segment, copy_sparse_data, data_loop, after_segment, place, after_place, all_zero,
  chunk_size,
}
use spind.Disk.Mirror.{Mirrors, Works}
use spind.Disk.SparseCopy.{ReportsHoles, copy_sparse_range-Mirrors}
use spind.Disk.Mbr.{
  DiskError, mbr, uint32_at, finish_copy, write_disk, create_mbr_disk, first_partition,
}
use spind.Disk.Install.{HoldsRootfs, create_mbr_disk-HoldsRootfs}

abbrev source : Bytes
source = 1 ∷ 2 ∷ []

-- data up to offset 2 and nothing behind it
abbrev with_holes : Env
with_holes = record {
  seek_data = λ o. if ltb o 2 then found o else enxio;
  seek_hole = λ o. found 2;
  fails = λ op o. false;
}

with_holes-Works : Works with_holes
with_holes-Works = record { works = λ op o. refl }

no_data : (o : ℕ) → (if ltb o 2 then found o else enxio) ≡ enxio → 2 ≤ o
no_data o h = ground arith

data_at : (o d : ℕ) → (if ltb o 2 then found o else enxio) ≡ found d → (o ≡ d) × (o < 2)
data_at o d h = ground arith

beyond : (i : ℕ) → 2 ≤ i → byte_at source i ≡ 0
unfolding byte_at
beyond zero h = absurd (omega (arith, h))
beyond (suc zero) h = absurd (omega (arith, h))
beyond (suc (suc i)) h = refl

gap : (o d i : ℕ) → o ≡ d → o ≤ i → i < d → ⊥
gap o d i e lo hi = omega arith

nothing : (i : ℕ) → byte_at [] i ≡ 0
unfolding byte_at
nothing i = refl

with_holes-ReportsHoles : ReportsHoles with_holes source
with_holes-ReportsHoles = record {
  data_result = λ o. elim (Bool-cases (ltb o 2)) [
    | inl e ↦ inr (o, rw e refl, omega arith)
    | inr e ↦ inl (rw e refl)
  ];
  data_skips = λ o d h i lo hi. let (same, _) = data_at o d h in elim (gap o d i same lo hi) [ ];
  data_ends = λ o h i lo. let far = no_data o h in beyond i (omega (arith, far, lo));
  hole_result = λ o d h. let (same, lt) = data_at o d h in inr (2, refl, omega (arith, same, lt));
}

copy_sparse_range-Mirrors_example :
    ((copy_sparse_range with_holes source 2 3 []).0 ≡ copied)
    × Mirrors source 0 3 2 [] (copy_sparse_range with_holes source 2 3 []).1
copy_sparse_range-Mirrors_example =
    copy_sparse_range-Mirrors with_holes-Works with_holes-ReportsHoles [] 2 3
      (λ j h. nothing (3 + j))

-- A disk of three sectors, the file system behind the first.
create_mbr_disk-HoldsRootfs_example :
    (disk : Bytes) × (create_mbr_disk (λ c. false) with_holes (some source) 1536 1 ≡ ok disk)
    × HoldsRootfs source 1536 512 disk
create_mbr_disk-HoldsRootfs_example =
    create_mbr_disk-HoldsRootfs {fails = λ c. false} (λ c. refl) source 1536 1
      (record { works = with_holes-Works; holes = inl with_holes-ReportsHoles }) (omega arith)
      (omega arith) (omega arith) (omega arith)

small : Result DiskError Bytes
small = create_mbr_disk (λ c. false) with_holes (some source) 1536 1

small_reads : (do disk ← small; first_partition disk) ≡ ok (record { start = 512; size = 1024 })
unfolding uint32_at small create_mbr_disk write_disk finish_copy first_partition mbr truncate
    write_at byte_at copy_sparse_range copy_range from_data range_loop with_hole hole_at
    copy_segment copy_sparse_data data_loop after_segment place after_place all_zero chunk_size
    read_at
small_reads = refl
