-- ===== src/Disk/SparseCopy.antt =====
-- A sparse copy leaves the destination as a full copy would: the loop over data and holes.
use spind.Prelude.{
  Bool, Bool-cases, Bytes, arith, eq_of_==, false, if◌then◌else◌, inl, inr, le_of_ltb-false, ltb,
  ltb→lt, lt→ltb, ok, refl, suc, true, zero, ℕ, ◌+◌, ◌-◌, ◌<◌, ◌==◌, ◌≡◌, ◌≤◌, ◌⊎◌,
}
use spind.Disk.File.{byte_at}
use spind.Disk.Sparse.{
  Env, found, enxio, seek_src, seek_dst, Outcome, copied, copy_sparse_data, copy_segment, from_data,
  after_segment, with_hole, hole_at, range_loop, copy_range, copy_sparse_range,
  copy_sparse_contents_range,
}
use spind.Disk.Mirror.{Mirrors, Mirrors-none, Mirrors-zeros, Zeros, Works, data_loop-Copied}

-- What lseek(2) documents of `SEEK_DATA` and `SEEK_HOLE` on a file system that has them.
pub record ReportsHoles (env : Env) (src : Bytes) : Type 0 where
  pub data_result :
      (o : ℕ) → (env.seek_data o ≡ enxio) ⊎ ((d : ℕ) × (env.seek_data o ≡ found d) × (o ≤ d))
  pub data_skips :
      (o d : ℕ) → env.seek_data o ≡ found d → (i : ℕ) → o ≤ i → i < d → byte_at src i ≡ 0
  pub data_ends : (o : ℕ) → env.seek_data o ≡ enxio → (i : ℕ) → o ≤ i → byte_at src i ≡ 0
  pub hole_result :
      (o d : ℕ)
      → env.seek_data o ≡ found d
      → (env.seek_hole d ≡ enxio) ⊎ ((h : ℕ) × (env.seek_hole d ≡ found h) × (d < h))

module _ {env : Env} (w : Works env) {src : Bytes} (reports : ReportsHoles env src) (old : Bytes)
    (base offset end : ℕ) (in_order : offset ≤ end) (target : ℕ → ℕ)
    (targets : (d : ℕ) → offset ≤ d → target d ≡ base + (d - offset))
    (blank : Zeros old base (end - offset)) where
  abbrev Upto : ℕ → Bytes → Type 0
  Upto h dst = Mirrors src offset base (h - offset) old dst

  -- The copy has succeeded and is whole.
  abbrev Done : Outcome × Bytes → Type 0
  Done r = (r.0 ≡ copied) × Upto end r.1

  skip_zeros :
      (h d : ℕ) (dst : Bytes)
      → offset ≤ h
      → h ≤ d
      → d ≤ end
      → ((i : ℕ) → h ≤ i → i < d → byte_at src i ≡ 0)
      → Upto h dst
      → Upto d dst
  skip_zeros h d dst o le room z m =
      let e : h - offset + (d - h) ≡ d - offset = omega arith in
      rw e at (
        Mirrors-zeros blank (d - h) (omega arith)
          (λ j lo hi. z (offset + j) (omega arith) (omega arith)) m)

  copy_segment-Upto :
      (d h : ℕ) (dst : Bytes)
      → offset ≤ d
      → d < h
      → h ≤ end
      → Upto d dst
      → ((copy_segment env src target d h dst).0 ≡ true)
        × Upto h (copy_segment env src target d h dst).1
  unfolding copy_segment copy_sparse_data
  copy_segment-Upto d h dst o lt room m =
      let e : d - offset + (h - d) ≡ h - offset = omega arith in
      rw (lt→ltb d h lt, w.works seek_src d, w.works seek_dst (target d))
        (rw e at (
          data_loop-Copied w blank (h - d) d (target d) (d - offset) (h - d) dst (omega arith)
            (omega arith) (targets d o) (omega arith) m))

  -- the hole that ends a run of data
  hole_at-found :
      (o d : ℕ)
      → env.seek_data o ≡ found d
      → d < end
      → (h : ℕ) × (hole_at env src end (env.seek_hole d) ≡ ok h) × (d < h) × (h ≤ end)
  unfolding hole_at
  hole_at-found o d e lt = elim (reports.hole_result o d e) [
    | inl none_left ↦ (end, rw none_left, lt, omega arith)
    | inr found_one ↦
        let (h, f, gt) = found_one in
        (if ltb end h then end else h, rw f, ground arith, ground arith)
  ]

  from_data-Done :
      (k : ℕ)
      → offset ≤ k
      → k ≤ end
      → (next : ℕ → Bytes → Outcome × Bytes)
      → ((d : ℕ) (dst : Bytes) → k ≤ d → env.seek_data k ≡ found d → Upto k dst → Done (next d dst))
      → (dst : Bytes) → Upto k dst
      → Done (from_data env src next (env.seek_data k) dst)
  unfolding from_data
  from_data-Done k o room next go dst m = elim (reports.data_result k) [
    | inl e ↦
        rw e (
          refl,
          skip_zeros k end dst o room (omega arith) (λ i lo hi. reports.data_ends k e i lo) m,
        )
    | inr some_data ↦ let (d, e, le) = some_data in rw e (go d dst le e m)
  ]

  after_segment-Done :
      (k : ℕ)
      → offset ≤ k
      → k ≤ end
      → (next : ℕ → Bytes → Outcome × Bytes)
      → ((d : ℕ) (dst : Bytes) → k ≤ d → env.seek_data k ≡ found d → Upto k dst → Done (next d dst))
      → (r : Bool × Bytes) → (r.0 ≡ true) × Upto k r.1
      → Done (after_segment env src next k r)
  unfolding after_segment
  after_segment-Done k o room next go (false, dst) m = cc m.0
  after_segment-Done k o room next go (true, dst) m = from_data-Done k o room next go dst m.1

  -- `d` is where `SEEK_DATA` from `h` has led, and all before `h` is copied.
  range_loop-Done :
      (fuel h d : ℕ) (dst : Bytes)
      → end - d < fuel
      → offset ≤ h
      → h ≤ end
      → h ≤ d
      → env.seek_data h ≡ found d
      → Upto h dst
      → Done (range_loop env src fuel target end d dst)
  unfolding range_loop with_hole
  range_loop-Done zero h d dst lt o room le e m = absurd (omega arith)
  range_loop-Done (suc fuel) h d dst lt o room le e m = elim (Bool-cases (ltb d end)) [
    | inr past ↦
        let done = le_of_ltb-false d end past in
        rw past (
          refl,
          skip_zeros h end dst o room (omega arith)
              (λ i lo hi. reports.data_skips h d e i lo (omega arith)) m,
        )
    | inl within ↦
        let short = ltb→lt d end within in
        let (k, is_hole, gt, room') = hole_at-found h d e short in
        let here = skip_zeros h d dst o le (omega arith) (reports.data_skips h d e) m in
        rw (within, is_hole)
          (after_segment-Done k (omega arith) room' (range_loop env src fuel target end)
            (λ d' dst' le' e' m'.
              range_loop-Done fuel k d' dst' (omega arith) (omega arith) room' le' e' m')
            (copy_segment env src target d k dst)
            (copy_segment-Upto d k dst (omega arith) gt room' here))
  ]

  pub copy_range-Done : Done (copy_range env src target offset end old)
  unfolding copy_range
  copy_range-Done =
      let e : offset - offset ≡ 0 = omega arith in
      from_data-Done offset (omega arith) in_order
        (range_loop env src (suc (end - offset)) target end)
        (λ d dst le f m.
          range_loop-Done (suc (end - offset)) offset d dst (omega arith) (omega arith) in_order le
            f m)
        old (rw e (Mirrors-none src offset base old))

module _ {env : Env} (w : Works env) {src : Bytes} (reports : ReportsHoles env src)
    (old : Bytes) where
  -- Where no call fails, the file system reports the holes of the source and the destination is
  -- zero from the start on, for the size: `copySparseRange` leaves it as copying every byte
  -- would, and reports that it has copied.
  pub copy_sparse_range-Mirrors :
      (size start : ℕ)
      → Zeros old start size
      → ((copy_sparse_range env src size start old).0 ≡ copied)
        × Mirrors src 0 start size old (copy_sparse_range env src size start old).1
  unfolding copy_sparse_range
  copy_sparse_range-Mirrors size start blank = elim (Bool-cases (size == 0)) [
    | inl z ↦ rw z (refl, rw (eq_of_== size 0 z) (Mirrors-none src 0 start old))
    | inr some_size ↦
        let e : size - 0 ≡ size = omega arith in
        rw (some_size, w.works seek_src 0, w.works seek_dst start)
          (rw e at (
            copy_range-Done w reports old start 0 size (omega arith) (λ d. start + d)
              (λ d h. omega arith) (rw e blank)))
  ]

  -- Where no call fails, the file system reports the holes of the source and the destination is
  -- zero for the size: `CopySparseContentsRange`, which copies from an offset to the front,
  -- leaves it as copying every byte would, and reports that it has copied.
  pub copy_sparse_contents_range-Mirrors :
      (offset size : ℕ)
      → Zeros old 0 size
      → ((copy_sparse_contents_range env src offset size old).0 ≡ copied)
        × Mirrors src offset 0 size old (copy_sparse_contents_range env src offset size old).1
  unfolding copy_sparse_contents_range
  copy_sparse_contents_range-Mirrors offset size blank = elim (Bool-cases (size == 0)) [
    | inl z ↦ rw z (refl, rw (eq_of_== size 0 z) (Mirrors-none src offset 0 old))
    | inr some_size ↦
        let e : offset + size - offset ≡ size = omega arith in
        rw some_size (
          rw e at (
            copy_range-Done w reports old 0 offset (offset + size) (omega arith) (λ d. d - offset)
              (λ d h. omega arith) (rw e blank)))
  ]
