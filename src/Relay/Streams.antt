-- ===== src/Relay/Streams.antt =====
-- What a run of reads means on the wire, and that `copyLocalToFramed` sends exactly that.
use spind.Prelude.{
  Bytes, Option, [], ap, append-nil, append_assoc, arith, is_empty, length, none, refl, some, sym,
  ◌++◌, ◌∙◌, ◌∷◌, ◌≡◌, ◌≤◌,
}
use spind.Relay.Frame.{encode, frame_data, frame_close_write, max_frame_payload}
use spind.Relay.Writer.{
  RelayError, Writer, Adds, Adds-after, Adds-whole, write_frame-Adds, IsReliable,
  write_frame_reliable,
}
use spind.Relay.Pump.{
  ReadEnd, end_of_file, failed, Source, chunk, last, send_chunk, send_end, go_on,
  copy_local_to_framed,
}

-- All the bytes that the reads return.
abbrev pub payload : Source → Bytes
payload (chunk b src) = b ++ payload src
payload (last b how) = b

abbrev pub chunk_bytes : Bytes → Bytes
chunk_bytes [] = []
chunk_bytes (c ∷ cs) = encode (frame_data, c ∷ cs)

abbrev pub end_bytes : ReadEnd → Bytes
end_bytes end_of_file = encode (frame_close_write, [])
end_bytes failed = []

-- The frames for a run of reads: one for each read that returns bytes, and one for the end.
abbrev pub stream : Source → Bytes
stream (chunk b src) = chunk_bytes b ++ stream src
stream (last b how) = chunk_bytes b ++ end_bytes how

-- Each read fills the buffer of `maxFramePayload` bytes at most.
abbrev pub FitsBuffer : Source → Type 0
FitsBuffer (chunk b src) = (length b ≤ max_frame_payload) × FitsBuffer src
FitsBuffer (last b how) = length b ≤ max_frame_payload

-- The reads end with the end of the file.
abbrev pub EndsWell : Source → Type 0
EndsWell (chunk b src) = EndsWell src
EndsWell (last b end_of_file) = Unit
EndsWell (last b failed) = ⊥

module _ (o : Writer) where
  open o use {W, sent}

  nothing-Adds :
      (w : W) (e : Option RelayError) (b : Bytes) → (e ≡ none → b ≡ []) → Adds o w b (e, w)
  nothing-Adds w e b h = record {
    part = [];
    rest = b;
    splits = refl;
    added = sym (append-nil _);
    whole = h;
  }

  send_chunk-Adds : (w : W) (b : Bytes) → Adds o w (chunk_bytes b) (send_chunk o w b)
  unfolding send_chunk is_empty
  send_chunk-Adds w [] = nothing-Adds w none [] (λ h. refl)
  send_chunk-Adds w (c ∷ cs) = write_frame-Adds o w (frame_data, c ∷ cs)

  -- An error cuts the rest short; with no error the rest is added behind.
  cut-Adds :
      {w v : W} {a : Bytes} (b : Bytes) (e : RelayError)
      → Adds o w a (some e, v)
      → Adds o w (a ++ b) (some e, v)
  cut-Adds b e x = record {
    part = x.part;
    rest = x.rest ++ b;
    splits = ap (λ t. t ++ b) x.splits ∙ append_assoc x.part x.rest b;
    added = x.added;
    whole = λ h. cc;
  }

  send_end-Adds :
      {w : W} {a : Bytes} (how : ReadEnd) (r : Option RelayError × W)
      → Adds o w a r
      → Adds o w (a ++ end_bytes how) (send_end o how r)
  unfolding send_end
  send_end-Adds how (some e, v) x = cut-Adds (end_bytes how) e x
  send_end-Adds {a = a} end_of_file (none, v) x =
      Adds-after o a refl (Adds-whole o x refl) (write_frame-Adds o v (frame_close_write, []))
  send_end-Adds {a = a} failed (none, v) x =
      Adds-after o a refl (Adds-whole o x refl) (nothing-Adds v (some _) [] (λ h. cc))

  go_on-Adds :
      {w : W} {a : Bytes} (b : Bytes) (next : W → Option RelayError × W) (r : Option RelayError × W)
      → Adds o w a r
      → ((v : W) → Adds o v b (next v))
      → Adds o w (a ++ b) (go_on o next r)
  unfolding go_on
  go_on-Adds b next (some e, v) x k = cut-Adds b e x
  go_on-Adds {a = a} b next (none, v) x k = Adds-after o a refl (Adds-whole o x refl) (k v)

  -- Whatever the transport does, `copyLocalToFramed` sends a prefix of the frames for what it has
  -- read, and all of them if it returns no error.
  pub copy_local_to_framed-Adds :
      (src : Source) (w : W) → Adds o w (stream src) (copy_local_to_framed o src w)
  unfolding copy_local_to_framed
  copy_local_to_framed-Adds (chunk b src) w =
      go_on-Adds (stream src) (copy_local_to_framed o src) _ (send_chunk-Adds w b)
        (copy_local_to_framed-Adds src)
  copy_local_to_framed-Adds (last b how) w = send_end-Adds how _ (send_chunk-Adds w b)

  module _ (reliable : IsReliable o) where
    send_chunk_reliable :
        (w : W) (b : Bytes) → length b ≤ max_frame_payload → (send_chunk o w b).0 ≡ none
    unfolding send_chunk
    send_chunk_reliable w b h = ground (arith, write_frame_reliable o reliable w frame_data b h)

    send_end_reliable :
        (r : Option RelayError × W) → r.0 ≡ none → (send_end o end_of_file r).0 ≡ none
    unfolding send_end
    send_end_reliable (some e, v) h = h
    send_end_reliable (none, v) h =
        write_frame_reliable o reliable v frame_close_write [] (omega arith)

    go_on_reliable :
        (next : W → Option RelayError × W) (r : Option RelayError × W)
        → r.0 ≡ none
        → ((v : W) → (next v).0 ≡ none)
        → (go_on o next r).0 ≡ none
    unfolding go_on
    go_on_reliable next (some e, v) h k = h
    go_on_reliable next (none, v) h k = k v

    -- Over a transport that never fails it returns no error.
    pub copy_local_to_framed_reliable :
        (src : Source) (w : W)
        → FitsBuffer src
        → EndsWell src
        → (copy_local_to_framed o src w).0 ≡ none
    unfolding copy_local_to_framed
    copy_local_to_framed_reliable (chunk b src) w h e =
        go_on_reliable _ _ (send_chunk_reliable w b h.0)
          (λ v. copy_local_to_framed_reliable src v h.1 e)
    copy_local_to_framed_reliable (last b end_of_file) w h e =
        send_end_reliable _ (send_chunk_reliable w b h)
    copy_local_to_framed_reliable (last b failed) w h e = absurd e
