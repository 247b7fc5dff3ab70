-- ===== src/Relay/Writer.antt =====
-- `writeFull` and `writeFrame` of internal/shared/streamrelay/framed.go, over any `io.Writer`.
use spind.Prelude.{
  Bool, Bool-cases, Bytes, Option, [], ap, append-nil, append_assoc, arith, drop, false,
  if◌then◌else◌, inl, inr, is_empty, length, length-drop, ltb, none, refl, some, suc, sym, take,
  take-append-drop, zero, ℕ, ◌++◌, ◌<◌, ◌==◌, ◌∙◌, ◌∷◌, ◌≡◌, ◌≤◌,
}
use spind.Relay.Frame.{ReadError, Frame, encode, header, max_frame_payload}

pub data RelayError : Type 0 where
  write_failed short_write read_failed close_failed : RelayError
  payload_too_large unknown_frame : ℕ → RelayError
  bad_frame : ReadError → RelayError

-- What one call of `Write` returns: the count of bytes taken, whether the error is set, and the
-- writer after the call.
pub record Wrote (W : Type 0) : Type 0 where
  pub count : ℕ
  pub failed : Bool
  pub next : W

-- An `io.Writer`: `sent` is all that it has taken so far. A call takes a prefix of its buffer.
pub record Writer : Type 1 where
  pub W : Type 0
  pub write : W → Bytes → Wrote W
  pub sent : W → Bytes
  pub count_le : (w : W) (b : Bytes) → (write w b).count ≤ length b
  pub sent_write : (w : W) (b : Bytes) → sent (write w b).next ≡ sent w ++ take (write w b).count b

-- A writer whose calls make progress and never fail, though they may take a part only.
pub record IsReliable (o : Writer) : Type 0 where
  pub succeeds : (w : o.W) (b : Bytes) → (o.write w b).failed ≡ false
  pub progress : (w : o.W) (c : ℕ) (b : Bytes) → 0 < (o.write w (c ∷ b)).count

module _ (o : Writer) where
  open o use {W, write, sent, count_le, sent_write}

  -- The loop `for len(buffer) > 0`. Each round that goes on takes a byte at least, so the length
  -- of the buffer is fuel enough.
  pub write_loop : ℕ → W → Bytes → Option RelayError × W
  write_loop fuel w [] = (none, w)
  write_loop zero w (c ∷ cs) = (none, w)
  write_loop (suc fuel) w (c ∷ cs) =
      let wrote = write w (c ∷ cs) in
      let rest = write_loop fuel wrote.next (drop wrote.count (c ∷ cs)) in
      if wrote.failed
      then (some write_failed, wrote.next)
      else if wrote.count == 0
      then (some short_write, wrote.next)
      else rest

  pub write_full : W → Bytes → Option RelayError × W
  write_full w buffer = write_loop (length buffer) w buffer

  -- A failure to write the header hides the payload.
  then_payload : Option RelayError × W → Bytes → Option RelayError × W
  then_payload (some e, w) payload = (some e, w)
  then_payload (none, w) payload = if is_empty payload then (none, w) else write_full w payload

  pub write_frame : W → Frame → Option RelayError × W
  unfolding then_payload
  write_frame w (frame_type, payload) =
      if ltb max_frame_payload (length payload)
      then (some (payload_too_large (length payload)), w)
      else then_payload (write_full w (header frame_type payload)) payload

  -- The bytes that a call has added to the writer are a prefix of `b`, and all of it if there was
  -- no error.
  pub record Adds (w : W) (b : Bytes) (r : Option RelayError × W) : Type 0 where
    pub part : Bytes
    pub rest : Bytes
    pub splits : b ≡ part ++ rest
    pub added : sent r.1 ≡ sent w ++ part
    pub whole : r.0 ≡ none → rest ≡ []

  pub Adds-after :
      (part : Bytes) {whole_b b : Bytes} {w w' : W} {r : Option RelayError × W}
      → whole_b ≡ part ++ b
      → sent w' ≡ sent w ++ part
      → Adds w' b r
      → Adds w whole_b r
  Adds-after part {w = w} split e a = record {
    part = part ++ a.part;
    rest = a.rest;
    splits = split ∙ rw (append_assoc part a.part a.rest, ← a.splits);
    added = a.added ∙ rw (e, append_assoc (sent w) part a.part);
    whole = a.whole;
  }

  Adds-once : (w : W) (b : Bytes) (e : RelayError) → Adds w b (some e, (write w b).next)
  Adds-once w b e = record {
    part = take (write w b).count b;
    rest = drop (write w b).count b;
    splits = sym (take-append-drop _ b);
    added = sent_write w b;
    whole = λ h. cc;
  }

  write_loop-Adds :
      (fuel : ℕ) (w : W) (b : Bytes) → length b ≤ fuel → Adds w b (write_loop fuel w b)
  unfolding write_loop
  write_loop-Adds fuel w [] h = record {
    part = [];
    rest = [];
    splits = refl;
    added = sym (append-nil _);
    whole = λ _. refl;
  }
  write_loop-Adds zero w (c ∷ cs) h = absurd (omega arith)
  write_loop-Adds (suc fuel) w (c ∷ cs) h = elim (Bool-cases (write w (c ∷ cs)).failed) [
    | inl f ↦ rw f (Adds-once w (c ∷ cs) write_failed)
    | inr f ↦ elim (Bool-cases ((write w (c ∷ cs)).count == 0)) [
      | inl z ↦ rw (f, z) (Adds-once w (c ∷ cs) short_write)
      | inr z ↦
          let n = (write w (c ∷ cs)).count in
          let smaller : length (drop n (c ∷ cs)) ≤ fuel = ground (arith, length-drop n (c ∷ cs)) in
          rw (f, z)
            (Adds-after (take n (c ∷ cs)) (sym (take-append-drop n (c ∷ cs)))
              (sent_write w (c ∷ cs))
              (write_loop-Adds fuel (write w (c ∷ cs)).next (drop n (c ∷ cs)) smaller))
    ]
  ]

  -- Whatever the writer does, `writeFull` adds a prefix of the buffer, and adds all of it if it
  -- returns no error.
  pub write_full-Adds : (w : W) (b : Bytes) → Adds w b (write_full w b)
  unfolding write_full
  write_full-Adds w b = write_loop-Adds (length b) w b (omega arith)

  -- With no error the whole buffer has been added.
  pub Adds-whole :
      {w : W} {b : Bytes} {r : Option RelayError × W}
      → Adds w b r
      → r.0 ≡ none
      → sent r.1 ≡ sent w ++ b
  Adds-whole {w = w} a h =
      let all_sent = rw (a.whole h, append-nil a.part) at a.splits in
      a.added ∙ ap (λ x. sent w ++ x) (sym all_sent)

  then_payload-Adds :
      (w : W) (head payload : Bytes) (r : Option RelayError × W)
      → Adds w head r
      → Adds w (head ++ payload) (then_payload r payload)
  unfolding then_payload is_empty
  then_payload-Adds w head payload (some e, v) a = record {
    part = a.part;
    rest = a.rest ++ payload;
    splits = ap (λ x. x ++ payload) a.splits ∙ append_assoc a.part a.rest payload;
    added = a.added;
    whole = λ h. cc;
  }
  then_payload-Adds w head [] (none, v) a = record {
    part = head;
    rest = [];
    splits = refl;
    added = Adds-whole a refl;
    whole = λ _. refl;
  }
  then_payload-Adds w head (c ∷ cs) (none, v) a =
      Adds-after head refl (Adds-whole a refl) (write_full-Adds v (c ∷ cs))

  -- Whatever the writer does, `writeFrame` adds a prefix of the frame's bytes, and all of them if
  -- it returns no error.
  pub write_frame-Adds : (w : W) (f : Frame) → Adds w (encode f) (write_frame w f)
  unfolding write_frame
  write_frame-Adds w (t, p) = elim (Bool-cases (ltb max_frame_payload (length p))) [
    | inl long ↦ rw long (record {
      part = [];
      rest = encode (t, p);
      splits = refl;
      added = sym (append-nil _);
      whole = λ h. cc;
    })
    | inr fits ↦ rw fits (then_payload-Adds w (header t p) p _ (write_full-Adds w (header t p)))
  ]

  module _ (reliable : IsReliable o) where
    write_loop_reliable : (fuel : ℕ) (w : W) (b : Bytes) → (write_loop fuel w b).0 ≡ none
    unfolding write_loop
    write_loop_reliable fuel w [] = refl
    write_loop_reliable zero w (c ∷ cs) = refl
    write_loop_reliable (suc fuel) w (c ∷ cs) = ground (
      arith,
      reliable.succeeds w (c ∷ cs),
      reliable.progress w c cs,
      write_loop_reliable fuel (write w (c ∷ cs)).next (drop (write w (c ∷ cs)).count (c ∷ cs)),
    )

    pub write_full_reliable : (w : W) (b : Bytes) → (write_full w b).0 ≡ none
    unfolding write_full
    write_full_reliable w b = write_loop_reliable (length b) w b

    then_payload_reliable :
        (r : Option RelayError × W) (p : Bytes) → r.0 ≡ none → (then_payload r p).0 ≡ none
    unfolding then_payload
    then_payload_reliable (some e, w) p h = h
    then_payload_reliable (none, w) p h = ground (arith, write_full_reliable w p)

    pub write_frame_reliable :
        (w : W) (t : ℕ) (p : Bytes) → length p ≤ max_frame_payload → (write_frame w (t, p)).0 ≡ none
    unfolding write_frame
    write_frame_reliable w t p h =
        let fits : ltb max_frame_payload (length p) ≡ false = ground arith in
        rw fits (then_payload_reliable _ p (write_full_reliable w (header t p)))
