-- ===== src/Disk/File.antt =====
-- A regular file as its bytes: what `pread`, `pwrite` and `ftruncate` do to it.
use spind.Prelude.{
  Bytes, [], ap, arith, drop, if◌then◌else◌, leb, length, length-drop, length-take, ltb, min, refl,
  suc, take, zero, ℕ, ◌&&◌, ◌+◌, ◌-◌, ◌∷◌, ◌≡◌, ◌≤◌,
}

-- The byte at an offset. Past the end it reads as zero, which is what growing the file would give.
unfoldable pub byte_at : Bytes → ℕ → ℕ
byte_at [] i = 0
byte_at (x ∷ xs) zero = x
byte_at (x ∷ xs) (suc i) = byte_at xs i

-- Overwrites from the front, and grows the file where the buffer is longer.
overwrite : Bytes → Bytes → Bytes
overwrite [] file = file
overwrite (x ∷ xs) [] = x ∷ xs
overwrite (x ∷ xs) (y ∷ ys) = x ∷ overwrite xs ys

-- `WriteAt(buffer, offset)`: a gap past the end is filled with zeros. An empty write changes nothing.
unfoldable pub write_at : ℕ → Bytes → Bytes → Bytes
unfolding overwrite
write_at offset [] file = file
write_at zero (b ∷ buffer) file = overwrite (b ∷ buffer) file
write_at (suc offset) (b ∷ buffer) [] = 0 ∷ write_at offset (b ∷ buffer) []
write_at (suc offset) (b ∷ buffer) (y ∷ ys) = y ∷ write_at offset (b ∷ buffer) ys

-- `Truncate(size)`
unfoldable pub truncate : ℕ → Bytes → Bytes
truncate zero file = []
truncate (suc n) [] = 0 ∷ truncate n []
truncate (suc n) (y ∷ ys) = y ∷ truncate n ys

-- `pread(offset, n)`: less than `n` bytes at the end of the file
unfoldable pub read_at : ℕ → ℕ → Bytes → Bytes
read_at offset n file = take n (drop offset file)

pub byte_at_beyond : (file : Bytes) (i : ℕ) → length file ≤ i → byte_at file i ≡ 0
unfolding byte_at
byte_at_beyond [] i h = refl
byte_at_beyond (x ∷ xs) zero h = absurd (omega arith)
byte_at_beyond (x ∷ xs) (suc i) h = byte_at_beyond xs i (omega arith)

byte_at-overwrite :
    (buffer file : Bytes) (i : ℕ)
    → byte_at (overwrite buffer file) i
      ≡ (if ltb i (length buffer) then byte_at buffer i else byte_at file i)
unfolding byte_at overwrite
byte_at-overwrite [] file i = ground arith
byte_at-overwrite (x ∷ xs) [] zero = ground arith
byte_at-overwrite (x ∷ xs) [] (suc i) = ground (arith, byte_at_beyond xs i)
byte_at-overwrite (x ∷ xs) (y ∷ ys) zero = ground arith
byte_at-overwrite (x ∷ xs) (y ∷ ys) (suc i) = ground (arith, byte_at-overwrite xs ys i)

leb-suc : (a b : ℕ) → leb (suc a) (suc b) ≡ leb a b
leb-suc a b = ground arith

ltb-suc : (a b c : ℕ) → ltb (suc a) (suc b + c) ≡ ltb a (b + c)
ltb-suc a b c = ground arith

-- The bytes of the buffer stand at the offset, and all others are as they were.
pub byte_at-write_at :
    (offset : ℕ) (buffer file : Bytes) (i : ℕ)
    → byte_at (write_at offset buffer file) i ≡ (
        if leb offset i && ltb i (offset + length buffer)
        then byte_at buffer (i - offset)
        else byte_at file i)
unfolding write_at byte_at
byte_at-write_at offset [] file i = ground arith
byte_at-write_at zero (b ∷ buffer) file i = ground (arith, byte_at-overwrite (b ∷ buffer) file i)
byte_at-write_at (suc offset) (b ∷ buffer) [] zero = ground arith
byte_at-write_at (suc offset) (b ∷ buffer) [] (suc i) =
    let e : suc i - suc offset ≡ i - offset = omega arith in
    rw (e, leb-suc offset i, ltb-suc i offset (length (b ∷ buffer)))
      (byte_at-write_at offset (b ∷ buffer) [] i)
byte_at-write_at (suc offset) (b ∷ buffer) (y ∷ ys) zero = ground arith
byte_at-write_at (suc offset) (b ∷ buffer) (y ∷ ys) (suc i) =
    let e : suc i - suc offset ≡ i - offset = omega arith in
    rw (e, leb-suc offset i, ltb-suc i offset (length (b ∷ buffer)))
      (byte_at-write_at offset (b ∷ buffer) ys i)

pub byte_at-truncate :
    (n : ℕ) (file : Bytes) (i : ℕ)
    → byte_at (truncate n file) i ≡ (if ltb i n then byte_at file i else 0)
unfolding byte_at truncate
byte_at-truncate zero file i = ground arith
byte_at-truncate (suc n) [] zero = ground arith
byte_at-truncate (suc n) [] (suc i) = ground (arith, byte_at-truncate n [] i)
byte_at-truncate (suc n) (y ∷ ys) zero = ground arith
byte_at-truncate (suc n) (y ∷ ys) (suc i) = ground (arith, byte_at-truncate n ys i)

pub length-truncate : (n : ℕ) (file : Bytes) → length (truncate n file) ≡ n
unfolding truncate
length-truncate zero file = refl
length-truncate (suc n) [] = ap suc (length-truncate n [])
length-truncate (suc n) (y ∷ ys) = ap suc (length-truncate n ys)

pub byte_at-drop : (k : ℕ) (file : Bytes) (i : ℕ) → byte_at (drop k file) i ≡ byte_at file (k + i)
unfolding byte_at
byte_at-drop zero file i = let e : zero + i ≡ i = omega arith in rw e
byte_at-drop (suc k) [] i = refl
byte_at-drop (suc k) (x ∷ xs) i =
    let e : suc k + i ≡ suc (k + i) = omega arith in rw e (byte_at-drop k xs i)

pub byte_at-take :
    (n : ℕ) (file : Bytes) (i : ℕ)
    → byte_at (take n file) i ≡ (if ltb i n then byte_at file i else 0)
unfolding byte_at
byte_at-take zero file i = ground arith
byte_at-take (suc n) [] i = ground arith
byte_at-take (suc n) (x ∷ xs) zero = ground arith
byte_at-take (suc n) (x ∷ xs) (suc i) = ground (arith, byte_at-take n xs i)

-- Files of one length with the same bytes are the same.
pub byte_at_ext :
    (a b : Bytes) → length a ≡ length b → ((i : ℕ) → byte_at a i ≡ byte_at b i) → a ≡ b
unfolding byte_at
byte_at_ext [] [] h k = refl
byte_at_ext [] (y ∷ b) h k = absurd (omega arith)
byte_at_ext (x ∷ a) [] h k = absurd (omega arith)
byte_at_ext (x ∷ a) (y ∷ b) h k = cc (k 0, byte_at_ext a b (omega arith) (λ i. k (suc i)))

length-overwrite :
    (buffer file : Bytes)
    → length buffer ≤ length file
    → length (overwrite buffer file) ≡ length file
unfolding overwrite
length-overwrite [] file h = refl
length-overwrite (x ∷ xs) [] h = absurd (omega arith)
length-overwrite (x ∷ xs) (y ∷ ys) h = ap suc (length-overwrite xs ys (omega arith))

-- A write within the file keeps its length.
pub length-write_at :
    (offset : ℕ) (buffer file : Bytes)
    → offset + length buffer ≤ length file
    → length (write_at offset buffer file) ≡ length file
unfolding write_at
length-write_at offset [] file h = refl
length-write_at zero (b ∷ buffer) file h = length-overwrite (b ∷ buffer) file (omega arith)
length-write_at (suc offset) (b ∷ buffer) [] h = absurd (omega arith)
length-write_at (suc offset) (b ∷ buffer) (y ∷ ys) h =
    ap suc (length-write_at offset (b ∷ buffer) ys (omega arith))

-- What `read_at` reads is a part of the file, and short only at its end.
pub byte_at-read_at :
    (pos n j : ℕ) (src : Bytes)
    → byte_at (read_at pos n src) j ≡ (if ltb j n then byte_at src (pos + j) else 0)
unfolding read_at
byte_at-read_at pos n j src = rw (byte_at-take, byte_at-drop)

pub length-read_at :
    (pos n : ℕ) (src : Bytes) → length (read_at pos n src) ≡ min n (length src - pos)
unfolding read_at
length-read_at pos n src = rw (length-take, length-drop)

length-overwrite_ge : (buffer file : Bytes) → length file ≤ length (overwrite buffer file)
unfolding overwrite
length-overwrite_ge [] file = omega arith
length-overwrite_ge (x ∷ xs) [] = omega arith
length-overwrite_ge (x ∷ xs) (y ∷ ys) = omega (arith, length-overwrite_ge xs ys)

-- No write makes a file shorter.
pub length-write_at_ge :
    (offset : ℕ) (buffer file : Bytes) → length file ≤ length (write_at offset buffer file)
unfolding write_at
length-write_at_ge offset [] file = omega arith
length-write_at_ge zero (b ∷ buffer) file = length-overwrite_ge (b ∷ buffer) file
length-write_at_ge (suc offset) (b ∷ buffer) [] = omega arith
length-write_at_ge (suc offset) (b ∷ buffer) (y ∷ ys) =
    omega (arith, length-write_at_ge offset (b ∷ buffer) ys)
