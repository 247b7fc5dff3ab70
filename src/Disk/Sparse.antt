-- ===== src/Disk/Sparse.antt =====
-- Sparse copying: internal/spind/diskimage/sparse_unix.go and the same loops of
-- internal/spind/filecopy/copy_file_sparse_unix.go.
use spind.Prelude.{
  Bool, Bytes, Result, [], err, false, if◌then◌else◌, length, ltb, not, ok, suc, true, zero, ℕ,
  ◌&&◌, ◌*◌, ◌+◌, ◌-◌, ◌==◌, ◌||◌, ◌∷◌,
}
use spind.Disk.File.{write_at, read_at}

-- What `unix.Seek` with `SEEK_DATA` or `SEEK_HOLE` returns: an offset, `ENXIO`, `EINVAL`, or
-- another error.
pub data Sought : Type 0 where
  found : ℕ → Sought
  enxio einval other_error : Sought

pub data Op : Type 0 where
  seek_src seek_dst read_src write_dst : Op

-- The operating system: where the source has data and holes, and which calls fail, by their offset.
pub record Env : Type 0 where
  pub seek_data : ℕ → Sought
  pub seek_hole : ℕ → Sought
  pub fails : Op → ℕ → Bool

-- `(true, nil)`, `(false, nil)` or `ErrSparseCopyUnsupported`, and any other error.
pub data Outcome : Type 0 where
  copied unsupported failed : Outcome

abbrev pub buffer_size : ℕ
buffer_size = 256 * 1024

-- the part of the buffer that a round fills
unfoldable pub chunk_size : ℕ → ℕ
chunk_size remaining = if ltb remaining buffer_size then remaining else buffer_size

unfoldable pub all_zero : Bytes → Bool
all_zero [] = true
all_zero (c ∷ cs) = c == 0 && all_zero cs

module _ (env : Env) (src : Bytes) where
  -- One buffer that was read: zeros are skipped, all else is written. `false` is an error.
  unfoldable pub place : Bytes → ℕ → Bytes → Bool × Bytes
  place buffer offset dst =
      if all_zero buffer
      then (not (env.fails seek_dst (offset + length buffer)), dst)
      else if env.fails write_dst offset
      then (false, dst)
      else (true, write_at offset buffer dst)

  unfoldable pub after_place : (Bytes → Bool × Bytes) → Bool → Bool × Bytes → Bool × Bytes
  after_place next short (false, dst) = (false, dst)
  after_place next short (true, dst) = if short then (true, dst) else next dst

  -- The loop of `copySparseData`: `length` bytes from `pos` of the source to `offset`.
  unfoldable pub data_loop : ℕ → ℕ → ℕ → ℕ → Bytes → Bool × Bytes
  data_loop zero pos offset remaining dst = (true, dst)
  data_loop (suc fuel) pos offset remaining dst =
      let chunk = chunk_size remaining in
      let buffer = read_at pos chunk src in
      let n = length buffer in
      if remaining == 0
      then (true, dst)
      else if env.fails read_src pos
      then (false, dst)
      else if n == 0
      then (true, dst)
      else after_place (data_loop fuel (pos + n) (offset + n) (remaining - n)) (ltb n chunk)
          (place buffer offset dst)

  -- Each round reads a byte at least, so the count of bytes left is fuel enough.
  unfoldable pub copy_sparse_data : ℕ → ℕ → ℕ → Bytes → Bool × Bytes
  copy_sparse_data pos offset count dst = data_loop count pos offset count dst

  -- the hole behind `data`: `ENXIO` and a hole past the end stand for the end
  unfoldable pub hole_at : ℕ → Sought → Result Outcome ℕ
  hole_at end (found h) = ok (if ltb end h then end else h)
  hole_at end enxio = ok end
  hole_at end einval = err unsupported
  hole_at end other_error = err failed

  -- `target` is the offset in the destination for an offset in the source.
  unfoldable pub copy_segment : (ℕ → ℕ) → ℕ → ℕ → Bytes → Bool × Bytes
  copy_segment target data_pos hole dst =
      if ltb data_pos hole
      then (if env.fails seek_src data_pos || env.fails seek_dst (target data_pos)
          then (false, dst)
          else copy_sparse_data data_pos (target data_pos) (hole - data_pos) dst)
      else (true, dst)

  -- What follows a `SEEK_DATA`: the loop goes on, or ends.
  unfoldable pub from_data : (ℕ → Bytes → Outcome × Bytes) → Sought → Bytes → Outcome × Bytes
  from_data next (found d) dst = next d dst
  from_data next enxio dst = (copied, dst)
  from_data next einval dst = (unsupported, dst)
  from_data next other_error dst = (failed, dst)

  unfoldable pub after_segment : (ℕ → Bytes → Outcome × Bytes) → ℕ → Bool × Bytes → Outcome × Bytes
  after_segment next hole (false, dst) = (failed, dst)
  after_segment next hole (true, dst) = from_data next (env.seek_data hole) dst

  unfoldable pub with_hole :
      (ℕ → Bytes → Outcome × Bytes) → (ℕ → ℕ) → ℕ → Bytes → Result Outcome ℕ → Outcome × Bytes
  with_hole next target data_pos dst (err o) = (o, dst)
  with_hole next target data_pos dst (ok hole) =
      after_segment next hole (copy_segment target data_pos hole dst)

  -- The loop `for data < end`.
  unfoldable pub range_loop : ℕ → (ℕ → ℕ) → ℕ → ℕ → Bytes → Outcome × Bytes
  range_loop zero target end data_pos dst = (failed, dst)
  range_loop (suc fuel) target end data_pos dst =
      let next = range_loop fuel target end in
      if ltb data_pos end
      then with_hole next target data_pos dst (hole_at end (env.seek_hole data_pos))
      else (copied, dst)

  unfoldable pub copy_range : (ℕ → ℕ) → ℕ → ℕ → Bytes → Outcome × Bytes
  copy_range target offset end dst =
      from_data (range_loop (suc (end - offset)) target end) (env.seek_data offset) dst

  -- `copySparseRange` of internal/spind/diskimage with `copySparseRangePlatform`
  unfoldable pub copy_sparse_range : ℕ → ℕ → Bytes → Outcome × Bytes
  copy_sparse_range src_size dst_start dst =
      if src_size == 0
      then (copied, dst)
      else if env.fails seek_src 0
      then (failed, dst)
      else if env.fails seek_dst dst_start
      then (failed, dst)
      else copy_range (λ d. dst_start + d) 0 src_size dst

  -- `CopySparseContentsRange` of internal/spind/filecopy
  unfoldable pub copy_sparse_contents_range : ℕ → ℕ → Bytes → Outcome × Bytes
  copy_sparse_contents_range offset size dst =
      if size == 0 then (copied, dst) else copy_range (λ d. d - offset) offset (offset + size) dst
