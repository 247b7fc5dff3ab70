-- ===== src/Disk/Mirror.antt =====
-- The proof that a sparse copy is a copy: the loops of Disk.Sparse against the bytes of the files.
use spind.Prelude.{
  Bool, Bool-cases, Bytes, [], ap, arith, eq_of_==, false, if◌then◌else◌, inl, inr, length, ltb,
  ltb→lt, lt→ltb, pos_of_==_zero, refl, suc, sym, true, zero, ℕ, ◌+◌, ◌-◌, ◌<◌, ◌==◌, ◌∙◌, ◌∷◌, ◌≡◌,
  ◌≤◌,
}
use spind.Disk.File.{
  byte_at, byte_at_beyond, byte_at-write_at, read_at, write_at, byte_at-read_at, length-read_at,
}
use spind.Disk.Sparse.{
  Env, chunk_size, Op, seek_dst, read_src, write_dst, all_zero, place, after_place, data_loop,
}

-- The destination holds `count` bytes of the source from `from`, at `base`, and is otherwise as
-- it was in `old`.
pub record Mirrors (src : Bytes) (from base count : ℕ) (old dst : Bytes) : Type 0 where
  pub inside :
      (j : ℕ)
      → byte_at dst (base + j)
        ≡ (if ltb j count then byte_at src (from + j) else byte_at old (base + j))
  pub before : (j : ℕ) → j < base → byte_at dst j ≡ byte_at old j

-- The bytes of a file are zero from `from` on, for `count` bytes.
abbrev pub Zeros : Bytes → ℕ → ℕ → Type 0
Zeros file from count = (j : ℕ) → j < count → byte_at file (from + j) ≡ 0

pub Mirrors-none : (src : Bytes) (from base : ℕ) (old : Bytes) → Mirrors src from base 0 old old
Mirrors-none src from base old = record { inside = λ j. ground arith; before = λ j h. refl }

pub all_zero-Zeros : (b : Bytes) (j : ℕ) → all_zero b ≡ true → byte_at b j ≡ 0
unfolding all_zero byte_at
all_zero-Zeros [] j h = refl
all_zero-Zeros (c ∷ cs) zero h = ground arith
all_zero-Zeros (c ∷ cs) (suc j) h = all_zero-Zeros cs j (ground arith)

module _ {src old : Bytes} {from base total : ℕ} (blank : Zeros old base total) where
  -- Where the source has zeros nothing need be written.
  pub Mirrors-zeros :
      {count : ℕ} {dst : Bytes} (n : ℕ)
      → count + n ≤ total
      → ((j : ℕ) → count ≤ j → j < count + n → byte_at src (from + j) ≡ 0)
      → Mirrors src from base count old dst
      → Mirrors src from base (count + n) old dst
  Mirrors-zeros {count} {dst} n room z m = record {
    inside = λ j. ground (arith, m.inside j, z j, blank j);
    before = m.before;
  }

module _ {src old : Bytes} {from base : ℕ} where
  Mirrors-write :
      {count : ℕ} {dst : Bytes} (buffer : Bytes)
      → ((j : ℕ)
          → count ≤ j
          → j < count + length buffer
          → byte_at buffer (j - count) ≡ byte_at src (from + j))
      → Mirrors src from base count old dst
      → Mirrors src from base (count + length buffer) old (write_at (base + count) buffer dst)
  Mirrors-write {count} {dst} buffer same m = record {
    inside = λ j.
        let e : base + j - (base + count) ≡ j - count = omega arith in
        rw byte_at-write_at (rw e (ground (arith, m.inside j, same j)));
    before = λ j h. rw byte_at-write_at (ground (arith, m.before j h));
  }

-- No call of the operating system fails.
pub record Works (env : Env) : Type 0 where
  pub works : (op : Op) (offset : ℕ) → env.fails op offset ≡ false

-- The call returned no error, and `count` bytes have been copied.
abbrev pub Copied : Bytes → ℕ → ℕ → Bytes → ℕ → Bool × Bytes → Type 0
Copied src from base old count r = (r.0 ≡ true) × Mirrors src from base count old r.1

chunk_size_bounds : (r : ℕ) → (chunk_size r ≤ r) × (0 < r → 0 < chunk_size r)
unfolding chunk_size
chunk_size_bounds r = (ground arith, λ h. ground arith)

same_bytes :
    (src : Bytes) (from pos chunk count j : ℕ)
    → pos ≡ from + count
    → count ≤ j
    → j - count < chunk
    → byte_at (read_at pos chunk src) (j - count) ≡ byte_at src (from + j)
same_bytes src from pos chunk count j p lo hi =
    let e : pos + (j - count) ≡ from + j = omega arith in
    rw (byte_at-read_at, lt→ltb _ _ hi) (ap (byte_at src) e)

module _ {env : Env} (w : Works env) {src old : Bytes} {from base total : ℕ}
    (blank : Zeros old base total) where
  place-Copied :
      (count offset : ℕ) (dst buffer : Bytes)
      → offset ≡ base + count
      → count + length buffer ≤ total
      → ((j : ℕ)
          → count ≤ j
          → j < count + length buffer
          → byte_at buffer (j - count) ≡ byte_at src (from + j))
      → Mirrors src from base count old dst
      → Copied src from base old (count + length buffer) (place env src buffer offset dst)
  unfolding place
  place-Copied count offset dst buffer e room same m = elim (Bool-cases (all_zero buffer)) [
    | inl z ↦
        rw (z, w.works seek_dst (offset + length buffer))
          (
            refl,
            Mirrors-zeros blank (length buffer) room
                (λ j lo hi. sym (same j lo hi) ∙ all_zero-Zeros buffer (j - count) z) m,
          )
    | inr z ↦ rw (z, w.works write_dst offset, e) (refl, Mirrors-write buffer same m)
  ]

  after_place-Copied :
      (count n remaining : ℕ) (next : Bytes → Bool × Bytes) (short : Bool) (r : Bool × Bytes)
      → n ≤ remaining
      → count + remaining ≤ total
      → (short ≡ true → (j : ℕ) → count + n ≤ j → byte_at src (from + j) ≡ 0)
      → ((dst : Bytes)
          → Mirrors src from base (count + n) old dst
          → Copied src from base old (count + remaining) (next dst))
      → Copied src from base old (count + n) r
      → Copied src from base old (count + remaining) (after_place env src next short r)
  unfolding after_place
  after_place-Copied count n remaining next short (false, dst) le room ends go c = cc c.0
  after_place-Copied count n remaining next true (true, dst) le room ends go c =
      let e : count + n + (remaining - n) ≡ count + remaining = omega arith in
      (
        refl,
        rw e at (Mirrors-zeros blank (remaining - n) (omega arith) (λ j lo hi. ends refl j lo) c.1),
      )
  after_place-Copied count n remaining next false (true, dst) le room ends go c = go dst c.1

  pub data_loop-Copied :
      (fuel pos offset count remaining : ℕ) (dst : Bytes)
      → remaining ≤ fuel
      → pos ≡ from + count
      → offset ≡ base + count
      → count + remaining ≤ total
      → Mirrors src from base count old dst
      → Copied src from base old
          (count + remaining)
          (data_loop env src fuel pos offset remaining dst)
  unfolding data_loop
  data_loop-Copied zero pos offset count remaining dst le p q room m =
      let e : count ≡ count + remaining = omega arith in (refl, rw e at m)
  data_loop-Copied (suc fuel) pos offset count remaining dst le p q room m =
      elim (Bool-cases (remaining == 0)) [
        | inl done ↦ let e : count ≡ count + remaining = ground arith in rw done (refl, rw e at m)
        | inr more ↦
            let chunk = chunk_size remaining in
            let buffer = read_at pos chunk src in
            let n = length buffer in
            let bounds = chunk_size_bounds remaining in
            let size = length-read_at pos chunk src in
            let busy = pos_of_==_zero remaining more in
            rw (more, w.works read_src pos)
              (elim (Bool-cases (n == 0)) [
                | inl empty ↦ rw empty (
                  refl,
                  Mirrors-zeros blank remaining room
                      (λ j lo hi.
                        byte_at_beyond src (from + j)
                          (omega (arith, size, bounds.1 busy, eq_of_== n 0 empty)))
                      m,
                )
                | inr some_read ↦ rw some_read (
                    after_place-Copied count n remaining _ (ltb n chunk) _
                      (omega (arith, size, bounds.0)) room
                      (λ short j lo.
                        byte_at_beyond src (from + j) (omega (arith, size, ltb→lt n chunk short)))
                      (λ dst' m'.
                        let e : count + n + (remaining - n) ≡ count + remaining =
                          omega (arith, size, bounds.0) in
                        rw e at (
                          data_loop-Copied fuel (pos + n) (offset + n) (count + n) (remaining - n)
                            dst' (omega (arith, pos_of_==_zero n some_read)) (omega arith)
                            (omega arith) (omega arith) m'))
                      (place-Copied count offset dst buffer q (omega (arith, size, bounds.0))
                        (λ j lo hi.
                          same_bytes src from pos chunk count j p lo (omega (arith, size)))
                        m))
              ])
      ]
