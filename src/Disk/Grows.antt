-- ===== src/Disk/Grows.antt =====
-- No step of a sparse copy makes the destination shorter.
use spind.Prelude.{
  Bool, Bool-cases, Bytes, Result, arith, err, false, inl, inr, length, ltb, ok, suc, true, zero, ℕ,
  ◌+◌, ◌-◌, ◌≤◌,
}
use spind.Disk.File.{read_at, length-write_at_ge}
use spind.Disk.Sparse.{
  Env, Outcome, Sought, found, enxio, einval, other_error, place, after_place, data_loop,
  copy_sparse_data, copy_segment, from_data, after_segment, with_hole, hole_at, range_loop,
  copy_range, copy_sparse_range, chunk_size,
}

module _ (env : Env) (src : Bytes) where
  place_grows :
      (buffer : Bytes) (offset : ℕ) (dst : Bytes)
      → length dst ≤ length (place env src buffer offset dst).1
  unfolding place
  place_grows buffer offset dst = ground (arith, length-write_at_ge offset buffer dst)

  after_place_grows :
      (next : Bytes → Bool × Bytes) (short : Bool) (r : Bool × Bytes)
      → ((d : Bytes) → length d ≤ length (next d).1)
      → length r.1 ≤ length (after_place env src next short r).1
  unfolding after_place
  after_place_grows next short (false, dst) go = omega arith
  after_place_grows next true (true, dst) go = omega arith
  after_place_grows next false (true, dst) go = go dst

  data_loop_grows :
      (fuel pos offset remaining : ℕ) (dst : Bytes)
      → length dst ≤ length (data_loop env src fuel pos offset remaining dst).1
  unfolding data_loop
  data_loop_grows zero pos offset remaining dst = omega arith
  data_loop_grows (suc fuel) pos offset remaining dst =
      let buffer = read_at pos (chunk_size remaining) src in
      let n = length buffer in
      ground (
        arith,
        after_place_grows (data_loop env src fuel (pos + n) (offset + n) (remaining - n))
            (ltb n (chunk_size remaining)) (place env src buffer offset dst)
            (data_loop_grows fuel (pos + n) (offset + n) (remaining - n)),
        place_grows buffer offset dst,
      )

  copy_segment_grows :
      (target : ℕ → ℕ) (d h : ℕ) (dst : Bytes)
      → length dst ≤ length (copy_segment env src target d h dst).1
  unfolding copy_segment copy_sparse_data
  copy_segment_grows target d h dst =
      ground (arith, data_loop_grows (h - d) d (target d) (h - d) dst)

  module _ (next : ℕ → Bytes → Outcome × Bytes)
      (go : (d : ℕ) (dst : Bytes) → length dst ≤ length (next d dst).1) where
    from_data_grows :
        (s : Sought) (dst : Bytes) → length dst ≤ length (from_data env src next s dst).1
    unfolding from_data
    from_data_grows (found d) dst = go d dst
    from_data_grows enxio dst = omega arith
    from_data_grows einval dst = omega arith
    from_data_grows other_error dst = omega arith

    after_segment_grows :
        (h : ℕ) (r : Bool × Bytes) → length r.1 ≤ length (after_segment env src next h r).1
    unfolding after_segment
    after_segment_grows h (false, dst) = omega arith
    after_segment_grows h (true, dst) = from_data_grows (env.seek_data h) dst

    with_hole_grows :
        (target : ℕ → ℕ) (d : ℕ) (dst : Bytes) (r : Result Outcome ℕ)
        → length dst ≤ length (with_hole env src next target d dst r).1
    unfolding with_hole
    with_hole_grows target d dst (err o) = omega arith
    with_hole_grows target d dst (ok h) = omega (
      arith,
      copy_segment_grows target d h dst,
      after_segment_grows h (copy_segment env src target d h dst),
    )

  range_loop_grows :
      (fuel : ℕ) (target : ℕ → ℕ) (end d : ℕ) (dst : Bytes)
      → length dst ≤ length (range_loop env src fuel target end d dst).1
  unfolding range_loop
  range_loop_grows zero target end d dst = omega arith
  range_loop_grows (suc fuel) target end d dst = elim (Bool-cases (ltb d end)) [
    | inl more ↦ rw more (
        with_hole_grows (range_loop env src fuel target end) (range_loop_grows fuel target end)
          target d dst (hole_at env src end (env.seek_hole d)))
    | inr done ↦ rw done (omega arith)
  ]

  pub copy_sparse_range_grows :
      (size start : ℕ) (dst : Bytes)
      → length dst ≤ length (copy_sparse_range env src size start dst).1
  unfolding copy_sparse_range copy_range
  copy_sparse_range_grows size start dst = ground (
    arith,
    from_data_grows (range_loop env src (suc (size - 0)) (λ d. start + d) size)
        (range_loop_grows (suc (size - 0)) (λ d. start + d) size) (env.seek_data 0) dst,
  )
