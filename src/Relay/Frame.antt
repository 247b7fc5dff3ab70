-- ===== src/Relay/Frame.antt =====
-- The frames of internal/shared/streamrelay/framed.go: `writeFrame` builds the bytes of one frame
-- and `readFrame` takes one frame off the front of a stream.
use spind.Prelude.{
  >>=-eq-ok, Bool-cases, Bytes, Result, Result-cases, [], ap, append-nil, append_assoc, arith, drop,
  drop-append, err, false, if◌then◌else◌, inl, inr, is_empty, leb, length, length-append,
  length-drop, length-take, ltb, ok, refl, sym, take, take-append, take-append_ge, true, ℕ, ◌%◌,
  ◌*◌, ◌++◌, ◌+◌, ◌-◌, ◌/◌, ◌<◌, ◌^◌, ◌∙◌, ◌∷◌, ◌≡◌, ◌≤◌, ◌>>=◌,
}

abbrev pub frame_data : ℕ
frame_data = 0

abbrev pub frame_close_write : ℕ
frame_close_write = 1

abbrev pub max_frame_payload : ℕ
max_frame_payload = 64 * 1024

-- `binary.BigEndian.PutUint32` of a value below 2^32
abbrev pub put_uint32 : ℕ → Bytes
put_uint32 n = n / 2 ^ 24 % 256 ∷ n / 2 ^ 16 % 256 ∷ n / 2 ^ 8 % 256 ∷ n % 256 ∷ []

-- `binary.BigEndian.Uint32`
abbrev pub uint32 : ℕ → ℕ → ℕ → ℕ → ℕ
uint32 a b c d = a * 2 ^ 24 + b * 2 ^ 16 + c * 2 ^ 8 + d

-- `uint32(len(payload))` wraps at 2^32
unfoldable pub header : ℕ → Bytes → Bytes
header frame_type payload = frame_type ∷ put_uint32 (length payload % 2 ^ 32)

pub data ReadError : Type 0 where
  eof unexpected_eof : ReadError
  too_large : ℕ → ReadError

-- `io.ReadFull(r, buf)` on a stream that holds the given bytes and then ends
pub read_full : ℕ → Bytes → Result ReadError (Bytes × Bytes)
read_full n s =
    if leb n (length s)
    then ok (take n s, drop n s)
    else if is_empty s
    then err eof
    else err unexpected_eof

abbrev pub Frame : Type 0
Frame = ℕ × Bytes

-- The tests on the size, and the payload: the rest of `readFrame` after the header.
read_sized : ℕ → ℕ → Bytes → Result ReadError (Frame × Bytes)
read_sized frame_type size rest =
    if ltb max_frame_payload size
    then err (too_large size)
    else if ltb 0 size
    then (do (payload, left) ← read_full size rest; ok ((frame_type, payload), left))
    else ok ((frame_type, []), rest)

read_payload : Bytes → Bytes → Result ReadError (Frame × Bytes)
read_payload (frame_type ∷ a ∷ b ∷ c ∷ d ∷ []) rest = read_sized frame_type (uint32 a b c d) rest
read_payload _ rest = err unexpected_eof

-- The frame at the front of a stream, and what is left of the stream.
pub read_frame : Bytes → Result ReadError (Frame × Bytes)
read_frame s = do (head, rest) ← read_full 5 s; read_payload head rest

-- The bytes of one frame, as `writeFrame` sends them: the header, then the payload.
abbrev pub encode : Frame → Bytes
encode (frame_type, payload) = header frame_type payload ++ payload

length-header : (t : ℕ) (p : Bytes) → length (header t p) ≡ 5
unfolding header
length-header t p = refl

uint32-put_uint32 :
    (n : ℕ)
    → n < 2 ^ 32
    → uint32 (n / 2 ^ 24 % 256) (n / 2 ^ 16 % 256) (n / 2 ^ 8 % 256) (n % 256) ≡ n
uint32-put_uint32 n h = omega arith

read_full-append : (xs ys : Bytes) → read_full (length xs) (xs ++ ys) ≡ ok (xs, ys)
unfolding read_full
read_full-append xs ys =
    let fits : leb (length xs) (length (xs ++ ys)) ≡ true = ground (arith, length-append xs ys) in
    rw (fits, take-append, drop-append)

-- what `read_payload` does once the size is known
size-header :
    (p : Bytes)
    → length p ≤ max_frame_payload
    → (let n = length p % 2 ^ 32 in
        uint32 (n / 2 ^ 24 % 256) (n / 2 ^ 16 % 256) (n / 2 ^ 8 % 256) (n % 256))
      ≡ length p
size-header p h = omega arith

read_sized-append :
    (t : ℕ) (p rest : Bytes)
    → length p ≤ max_frame_payload
    → read_sized t (length p) (p ++ rest) ≡ ok ((t, p), rest)
unfolding read_sized
read_sized-append t [] rest h = refl
read_sized-append t (c ∷ cs) rest h = ground (arith, read_full-append (c ∷ cs) rest)

-- `readFrame` reads back a frame of at most 64 KiB as `writeFrame` has sent it, whatever follows
-- it.
pub read_frame-encode :
    (t : ℕ) (p rest : Bytes)
    → length p ≤ max_frame_payload
    → read_frame (encode (t, p) ++ rest) ≡ ok ((t, p), rest)
unfolding read_frame header read_payload
read_frame-encode t p rest h =
    rw (read_full-append (header t p) (p ++ rest), size-header p h, read_sized-append t p rest h)

pub read_frame-nil : read_frame [] ≡ err eof
unfolding read_frame read_full is_empty
read_frame-nil = refl

read_full_left :
    (n : ℕ) (s : Bytes) {p left : Bytes} → read_full n s ≡ ok (p, left) → length left + n ≡ length s
unfolding read_full
read_full_left n s h = ground (arith, length-drop n s)

read_sized_left :
    (t n : ℕ) (s : Bytes) {f : Frame} {left : Bytes}
    → read_sized t n s ≡ ok (f, left)
    → length left ≤ length s
unfolding read_sized
read_sized_left t n s h = elim (Result-cases (read_full n s)) [
  | inl (p, e) ↦ ground (arith, read_full_left n s e)
  | inr (x, e) ↦ ground arith
]

read_payload_left :
    (head s : Bytes) {f : Frame} {left : Bytes}
    → read_payload head s ≡ ok (f, left)
    → length left ≤ length s
unfolding read_payload
read_payload_left (t ∷ a ∷ b ∷ c ∷ d ∷ []) s h = read_sized_left t (uint32 a b c d) s h
read_payload_left _ s h = cc

-- A frame takes five bytes of the stream at least.
pub read_frame_left :
    (s : Bytes) {f : Frame} {left : Bytes}
    → read_frame s ≡ ok (f, left)
    → length left + 5 ≤ length s
unfolding read_frame
read_frame_left s h =
    let ((head, rest), e, e') = >>=-eq-ok (read_full 5 s) (λ p. read_payload p.0 p.1) h in
    omega (arith, read_full_left 5 s e, read_payload_left head rest e')

read_full_short : (n : ℕ) (s : Bytes) → length s < n → (e : ReadError) × (read_full n s ≡ err e)
unfolding read_full
read_full_short n s h =
    let short : leb n (length s) ≡ false = ground arith in
    (if is_empty s then eof else unexpected_eof, ground (arith, short))

read_sized_short :
    (t n : ℕ) (s : Bytes)
    → length s < n
    → n ≤ max_frame_payload
    → (e : ReadError) × (read_sized t n s ≡ err e)
unfolding read_sized
read_sized_short t n s h k = let (e, failed) = read_full_short n s h in (e, ground (arith, failed))

read_frame_short : (s : Bytes) → length s < 5 → (e : ReadError) × (read_frame s ≡ err e)
unfolding read_frame
read_frame_short s h = let (e, failed) = read_full_short 5 s h in (e, rw failed)

read_frame_cut_payload :
    (t : ℕ) (p s : Bytes)
    → length p ≤ max_frame_payload
    → length s < length p
    → (e : ReadError) × (read_frame (header t p ++ s) ≡ err e)
unfolding read_frame header read_payload
read_frame_cut_payload t p s h lt =
    let (e, failed) = read_sized_short t (length p) s lt h in
    (e, rw (read_full-append (header t p) s, size-header p h, failed))

-- A stream that ends within a frame of at most 64 KiB yields an error.
pub read_frame_cut :
    (k t : ℕ) (p rest : Bytes)
    → length p ≤ max_frame_payload
    → k < 5 + length p
    → (e : ReadError) × (read_frame (take k (encode (t, p) ++ rest)) ≡ err e)
unfolding header
read_frame_cut k t p rest h lt = elim (Bool-cases (ltb k 5)) [
  | inl short ↦
      let s = take k (encode (t, p) ++ rest) in
      read_frame_short s (ground (arith, length-take k (encode (t, p) ++ rest)))
  | inr long ↦
      let left = take (k - 5) (p ++ rest) in
      let (e, failed) =
        read_frame_cut_payload t p left h (ground (arith, length-take (k - 5) (p ++ rest))) in
      (
        e,
        ap (λ s. read_frame (take k s)) (append_assoc (header t p) p rest)
            ∙ ap read_frame (take-append_ge k (header t p) (p ++ rest) (ground arith))
            ∙ failed,
      )
]

pub read_frame-encode_only :
    (t : ℕ) (p : Bytes)
    → length p ≤ max_frame_payload
    → read_frame (encode (t, p)) ≡ ok ((t, p), [])
read_frame-encode_only t p h =
    ap read_frame (sym (append-nil (encode (t, p)))) ∙ read_frame-encode t p [] h

pub length-encode : (t : ℕ) (p : Bytes) → length (encode (t, p)) ≡ 5 + length p
length-encode t p = omega (arith, length-append (header t p) p, length-header t p)
