-- ===== src/Relay/Cut.antt =====
-- The receiving loop on a stream that breaks off before its end.
use spind.Prelude.{
  Bool-cases, Bytes, Option, [], ap, append-nil, append_assoc, arith, err, inl, inr, length,
  length-append, ltb, refl, some, sym, take, take-append_ge, ℕ, ◌++◌, ◌-◌, ◌<◌, ◌∙◌, ◌∷◌, ◌≡◌, ◌≤◌,
}
use spind.Relay.Frame.{
  ReadError, encode, read_frame, read_frame_cut, length-encode, frame_data, frame_close_write,
  max_frame_payload,
}
use spind.Relay.Writer.{RelayError, IsReliable, bad_frame}
use spind.Relay.Pump.{
  ReadEnd, end_of_file, failed, Source, chunk, last, Conn, round, copy_framed_to_local,
}
use spind.Relay.Loop.{copy_framed_to_local_step}
use spind.Relay.Streams.{payload, chunk_bytes, end_bytes, stream, FitsBuffer}
use spind.Relay.Transparent.{copy_framed_to_local_chunk}

module _ (c : Conn) (reliable : IsReliable c.writer) where
  open c use {W, sent}

  -- The bytes delivered are a prefix of `b`, and the loop returns the error of a frame.
  pub record CutShort (v : W) (b : Bytes) (r : Option RelayError × W) : Type 0 where
    pub part : Bytes
    pub rest : Bytes
    pub splits : b ≡ part ++ rest
    pub delivered : sent r.1 ≡ sent v ++ part
    pub cause : ReadError
    pub reported : r.0 ≡ some (bad_frame cause)

  CutShort-here :
      (v : W) (b s : Bytes) (e : ReadError)
      → read_frame s ≡ err e
      → CutShort v b (copy_framed_to_local c s v)
  unfolding round
  CutShort-here v b s e h =
      rw (copy_framed_to_local_step c s v, h)
        (record {
          part = [];
          rest = b;
          splits = refl;
          delivered = sym (append-nil _);
          cause = e;
          reported = refl;
        })

  CutShort-after :
      (a : Bytes) {v u : W} {b : Bytes} {r : Option RelayError × W}
      → sent u ≡ sent v ++ a
      → CutShort u b r
      → CutShort v (a ++ b) r
  CutShort-after a {v = v} e x = record {
    part = a ++ x.part;
    rest = x.rest;
    splits = rw (append_assoc a x.part x.rest, ← x.splits);
    delivered = x.delivered ∙ rw (e, append_assoc (sent v) a x.part);
    cause = x.cause;
    reported = x.reported;
  }

  cut_within :
      (k : ℕ) (b rest : Bytes)
      → length b ≤ max_frame_payload
      → k < length (chunk_bytes b)
      → (e : ReadError) × (read_frame (take k (chunk_bytes b ++ rest)) ≡ err e)
  cut_within k [] rest h lt = absurd (omega arith)
  cut_within k (x ∷ xs) rest h lt =
      read_frame_cut k frame_data (x ∷ xs) rest h (omega (arith, length-encode frame_data (x ∷ xs)))

  cut_chunk :
      (k : ℕ) (b rest more : Bytes) (v : W)
      → length b ≤ max_frame_payload
      → k < length (chunk_bytes b ++ rest)
      → ((j : ℕ) (u : W)
          → j < length rest
          → CutShort u more (copy_framed_to_local c (take j rest) u))
      → CutShort v (b ++ more) (copy_framed_to_local c (take k (chunk_bytes b ++ rest)) v)
  cut_chunk k b rest more v h lt later = elim (Bool-cases (ltb k (length (chunk_bytes b)))) [
    | inl within ↦ let (e, f) = cut_within k b rest h (ground arith) in CutShort-here v _ _ e f
    | inr beyond ↦
        let j = k - length (chunk_bytes b) in
        let (u, run, got) = copy_framed_to_local_chunk c reliable b (take j rest) v h in
        rw (take-append_ge k (chunk_bytes b) rest (ground arith), run)
          (CutShort-after b got (later j u (ground (arith, length-append (chunk_bytes b) rest))))
  ]

  cut_end :
      (how : ReadEnd) (j : ℕ) (u : W)
      → j < length (end_bytes how)
      → CutShort u [] (copy_framed_to_local c (take j (end_bytes how)) u)
  cut_end end_of_file j u lt =
      let (e, f) =
        read_frame_cut j frame_close_write [] [] (omega arith)
          (omega (arith, length-encode frame_close_write [])) in
      CutShort-here u [] _ e
        (ap (λ s. read_frame (take j s)) (sym (append-nil (encode (frame_close_write, [])))) ∙ f)
  cut_end failed j u lt = absurd (omega arith)

  -- Into a connection that never fails, and for reads of at most 64 KiB: wherever the stream of a
  -- run of reads breaks off before its end, what is delivered is a prefix of the bytes that were
  -- read, and the loop returns an error of a frame.
  pub copy_framed_to_local_cut :
      (k : ℕ) (src : Source) (v : W)
      → FitsBuffer src
      → k < length (stream src)
      → CutShort v (payload src) (copy_framed_to_local c (take k (stream src)) v)
  copy_framed_to_local_cut k (chunk b src) v h lt =
      cut_chunk k b (stream src) (payload src) v h.0 lt
        (λ j u short. copy_framed_to_local_cut j src u h.1 short)
  copy_framed_to_local_cut k (last b how) v h lt =
      rw append-nil at (cut_chunk k b (end_bytes how) [] v h lt (cut_end how))
