-- ===== src/Relay/Transparent.antt =====
-- The receiving loop on what the sending loop has put on the wire.
use spind.Prelude.{
  Bytes, Option, [], append-nil, append_assoc, arith, is_empty, length, none, refl, some, sym, ℕ,
  ◌++◌, ◌∙◌, ◌∷◌, ◌≡◌, ◌≤◌,
}
use spind.Relay.Frame.{
  encode, read_frame-encode, read_frame-encode_only, frame_data, frame_close_write,
  max_frame_payload,
}
use spind.Relay.Writer.{
  RelayError, Writer, IsReliable, Adds-whole, write_full, write_full-Adds, write_full_reliable,
}
use spind.Relay.Pump.{
  end_of_file, failed, Source, chunk, last, Conn, go_on, deliver, round, copy_framed_to_local,
  copy_local_to_framed,
}
use spind.Relay.Loop.{copy_framed_to_local_step}
use spind.Relay.Streams.{
  payload, chunk_bytes, end_bytes, stream, FitsBuffer, EndsWell, copy_local_to_framed-Adds,
  copy_local_to_framed_reliable,
}

go_on-none :
    (c : Conn) (next : c.W → Option RelayError × c.W) (r : Option RelayError × c.W)
    → r.0 ≡ none
    → go_on c.writer next r ≡ next r.1
unfolding go_on
go_on-none c next (some e, v) h = cc
go_on-none c next (none, v) h = refl

module _ (c : Conn) (reliable : IsReliable c.writer) where
  open c use {W, sent}

  -- A data frame that holds bytes is delivered, and the loop goes on.
  copy_framed_to_local_data :
      (x : ℕ) (xs rest : Bytes) (v : W)
      → length (x ∷ xs) ≤ max_frame_payload
      → (v' : W) × (copy_framed_to_local c (encode (frame_data, x ∷ xs) ++ rest) v
          ≡ copy_framed_to_local c rest v')
        × (sent v' ≡ sent v ++ (x ∷ xs))
  unfolding round deliver is_empty
  copy_framed_to_local_data x xs rest v h =
      let wrote = write_full c.writer v (x ∷ xs) in
      let fine = write_full_reliable c.writer reliable v (x ∷ xs) in
      (
        wrote.1,
        copy_framed_to_local_step c _ v
            ∙ rw (read_frame-encode frame_data (x ∷ xs) rest h, go_on-none c _ wrote fine),
        Adds-whole c.writer (write_full-Adds c.writer v (x ∷ xs)) fine,
      )

  copy_framed_to_local_close :
      (v : W) → copy_framed_to_local c (encode (frame_close_write, [])) v ≡ c.close_write v
  unfolding round deliver
  copy_framed_to_local_close v =
      copy_framed_to_local_step c _ v
      ∙ rw (read_frame-encode_only frame_close_write [] (omega arith))

  pub copy_framed_to_local_chunk :
      (b rest : Bytes) (v : W)
      → length b ≤ max_frame_payload
      → (v' : W) × (copy_framed_to_local c (chunk_bytes b ++ rest) v
          ≡ copy_framed_to_local c rest v')
        × (sent v' ≡ sent v ++ b)
  copy_framed_to_local_chunk [] rest v h = (v, refl, sym (append-nil _))
  copy_framed_to_local_chunk (x ∷ xs) rest v h = copy_framed_to_local_data x xs rest v h

  -- All that was read is delivered, and then the sending side of the connection is shut.
  copy_framed_to_local-stream :
      (src : Source) (v : W)
      → FitsBuffer src
      → EndsWell src
      → (v' : W) × (copy_framed_to_local c (stream src) v ≡ c.close_write v')
        × (sent v' ≡ sent v ++ payload src)
  copy_framed_to_local-stream (chunk b src) v h e =
      let (u, run, got) = copy_framed_to_local_chunk b (stream src) v h.0 in
      let (v', run', got') = copy_framed_to_local-stream src u h.1 e in
      (v', run ∙ run', got' ∙ rw (got, append_assoc (sent v) b (payload src)))
  copy_framed_to_local-stream (last b end_of_file) v h e =
      let (u, run, got) = copy_framed_to_local_chunk b (end_bytes end_of_file) v h in
      (u, run ∙ copy_framed_to_local_close u, got)
  copy_framed_to_local-stream (last b failed) v h e = absurd e

-- Over a transport that has sent nothing before and into a connection, which both never fail but
-- may take any part of a buffer, and for reads of at most 64 KiB that end with the end of the
-- file: the sender returns no error, and the receiver delivers exactly the bytes that were read,
-- in order, and then shuts the sending side.
pub relay_transparent :
    (o : Writer) (c : Conn)
    → IsReliable o
    → IsReliable c.writer
    → (src : Source) (w : o.W) (v : c.W) → o.sent w ≡ []
    → FitsBuffer src
    → EndsWell src
    → ((copy_local_to_framed o src w).0 ≡ none)
      × ((v' : c.W) × (copy_framed_to_local c (o.sent (copy_local_to_framed o src w).1) v
            ≡ c.close_write v')
          × (c.sent v' ≡ c.sent v ++ payload src))
relay_transparent o c ro rc src w v fresh fits ends =
    let fine = copy_local_to_framed_reliable o ro src w fits ends in
    let wire : o.sent (copy_local_to_framed o src w).1 ≡ stream src =
      Adds-whole o (copy_local_to_framed-Adds o src w) fine ∙ rw fresh in
    (fine, rw wire (copy_framed_to_local-stream c rc src v fits ends))
