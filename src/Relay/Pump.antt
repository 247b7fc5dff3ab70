-- ===== src/Relay/Pump.antt =====
-- The two copy loops of internal/shared/streamrelay/framed.go, and `RelayFramed`, which runs both.
use spind.Prelude.{
  Bytes, Option, Result, [], err, if◌then◌else◌, is_empty, length, none, ok, some, suc, zero, ℕ,
  ◌==◌,
}
use spind.Relay.Frame.{ReadError, Frame, read_frame, frame_data, frame_close_write}
use spind.Relay.Writer.{
  RelayError, Writer, read_failed, bad_frame, unknown_frame, write_frame, write_full,
}

-- How the reads of a connection end.
pub data ReadEnd : Type 0 where
  end_of_file failed : ReadEnd

-- The results of the calls `local.Read(buffer)`, in order: the bytes read with no error, and last
-- the bytes read with an error.
pub data Source : Type 0 where
  chunk : Bytes → Source → Source
  last : Bytes → ReadEnd → Source

-- A connection that takes bytes and whose sending side can be shut.
pub record Conn : Type 1 where
  pub writer : Writer
  pub open writer use *
  pub close_write : W → Option RelayError × W

module _ (o : Writer) where
  open o use {W}

  -- what `if n > 0` guards
  unfoldable pub send_chunk : W → Bytes → Option RelayError × W
  send_chunk w buffer = if is_empty buffer then (none, w) else write_frame o w (frame_data, buffer)

  -- what follows the write of the last bytes
  unfoldable pub send_end : ReadEnd → Option RelayError × W → Option RelayError × W
  send_end how (some e, w) = (some e, w)
  send_end end_of_file (none, w) = write_frame o w (frame_close_write, [])
  send_end failed (none, w) = (some read_failed, w)

  unfoldable pub go_on : (W → Option RelayError × W) → Option RelayError × W → Option RelayError × W
  go_on next (some e, w) = (some e, w)
  go_on next (none, w) = next w

  unfoldable pub copy_local_to_framed : Source → W → Option RelayError × W
  copy_local_to_framed (chunk b src) w = go_on (copy_local_to_framed src) (send_chunk w b)
  copy_local_to_framed (last b how) w = send_end how (send_chunk w b)

module _ (c : Conn) where
  open c use {W}

  -- what the loop does with one frame; `next` is the rest of the loop
  unfoldable pub deliver : Frame → (W → Option RelayError × W) → W → Option RelayError × W
  deliver (frame_type, payload) next v =
      if frame_type == frame_data
      then (if is_empty payload
          then next v
          else go_on c.writer next (write_full c.writer v payload))
      else if frame_type == frame_close_write
      then c.close_write v
      else (some (unknown_frame frame_type), v)

  -- One round of `for { readFrame … }`; `next` is the loop on what is left of the stream.
  unfoldable pub round :
      (Bytes → W → Option RelayError × W)
      → Result ReadError (Frame × Bytes)
      → W
      → Option RelayError × W
  round next (err e) v = (some (bad_frame e), v)
  round next (ok (frame, left)) v = deliver frame (next left) v

  -- Each frame takes a byte of the stream at least, so its length is fuel enough: with no fuel
  -- left there are no bytes left, and `readFrame` returns the end of the file.
  unfoldable pub copy_loop : ℕ → Bytes → W → Option RelayError × W
  copy_loop zero s v = (some (bad_frame ReadError.eof), v)
  copy_loop (suc fuel) s v = round (copy_loop fuel) (read_frame s) v

  unfoldable pub copy_framed_to_local : Bytes → W → Option RelayError × W
  copy_framed_to_local s v = copy_loop (length s) s v
